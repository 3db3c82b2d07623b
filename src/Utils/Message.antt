-- ===== src/Utils/Message.antt =====
-- app/utils/message.py: the fields of an update. A getter raises only where `.get` is called on what
-- is no dict.
use rubica_bot.Prelude.{not, if◌then◌else◌}
use rubica_bot.Result.{Result, ok, ◌>>=◌}
use rubica_bot.Json.{Value, null, obj, no_fields, truthy, or_else, get}

unfoldable pub extract_message : Value → Result Value
unfolding get
extract_message update = do
  message ← get update "message"
  body ← get update "data"
  inline ← get update "inline_message"
  ok (or_else message (or_else body inline))

unfoldable pub get_text : Value → Result Value
unfolding get
get_text message =
    if not (truthy message)
    then ok null
    else do text ← get message "text"; body ← get message "body"; ok (or_else text body)

unfoldable pub get_chat_id : Value → Result Value
unfolding get
get_chat_id message = if not (truthy message) then ok null else do
  chat ← get message "chat"
  id ← get (or_else chat (obj no_fields)) "id"
  chat_id ← get message "chat_id"
  ok (or_else id chat_id)

unfoldable pub get_message_id : Value → Result Value
unfolding get
get_message_id message =
    if not (truthy message)
    then ok null
    else do message_id ← get message "message_id"; id ← get message "id"; ok (or_else message_id id)

unfoldable pub get_sender_id : Value → Result Value
unfolding get
get_sender_id message = if not (truthy message) then ok null else do
  sender ← get message "sender"
  id ← get (or_else sender (obj no_fields)) "id"
  sender_id ← get message "sender_id"
  ok (or_else id sender_id)
