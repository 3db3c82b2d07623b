-- ===== src/Webhook/Schemas.antt =====
-- app/webhook/schemas.py: `WebhookUpdate`, a dict with three properties.
use rubica_bot.Json.{Value, Fields, or_else, find}

unfoldable pub message : Fields → Value
unfolding find
message update = or_else (find "message" update) (find "data" update)

unfoldable pub inline_message : Fields → Value
unfolding find
inline_message update = find "inline_message" update

unfoldable pub update_id : Fields → Value
unfolding find
update_id update = or_else (find "update_id" update) (find "message_id" update)
