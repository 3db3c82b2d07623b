-- ===== src/Services/Plugins/AntiLink.antt =====
-- app/services/plugins/anti_link.py: `AntiLinkPlugin.handle`. `LINK_PATTERN` is in Utils/Links.
use rubica_bot.Prelude.{String, Bool, true, false, not, List, [], ◌∷◌, str_eq, if◌then◌else◌}
use rubica_bot.Prelude.Lists.{any}
use rubica_bot.Result.{Result, ok, raise, type_error, ◌>>=◌ as ◌>>?◌}
use rubica_bot.Json.{Value, str, arr, obj, null, no_fields, truthy, or_else, get, as_text}
use rubica_bot.Utils.Links
use rubica_bot.Utils.Message.{extract_message, get_chat_id, get_message_id, get_sender_id, get_text}
use rubica_bot.Core.Client.Calls.{delete_message, ban_chat_member, send_message}
use rubica_bot.Services.Texts.{link_report}
use rubica_bot.Services.Action.{Action, ◌>>=◌, return, lift}
use rubica_bot.Services.Context.{Context, request, get_group, is_admin_sender}

abbrev pub group_types : List String
group_types = "Group" ∷ "Supergroup" ∷ "channel" ∷ "Channel" ∷ "group" ∷ []

-- `chat.get("type") in {…}`: a list and a dict cannot be hashed.
unfoldable pub is_group_type : Value → Result Bool
unfolding any
is_group_type (str s) = ok (any (str_eq s) group_types)
is_group_type (arr _) = raise type_error
is_group_type (obj _) = raise type_error
is_group_type _ = ok false

-- contains_link(text), for a text that an update has
unfoldable pub contains_link : Context → Value → Result Bool
unfolding as_text Links.contains_link
contains_link ctx text =
    if not (truthy text)
    then ok false
    else as_text text >>? λ s. ok (Links.contains_link ctx.library.is_word s)

-- The actions against a link.
unfoldable pub punish : Context → Value → Value → Value → Action Bool
punish ctx message chat_id sender_id = do
  message_id ← lift (get_message_id message)
  _ ← (if truthy message_id then request ctx (delete_message chat_id message_id) else return null)
  _ ← (if truthy sender_id then request ctx (ban_chat_member chat_id sender_id) else return null)
  _ ←
      (if ctx.report_anti_actions
        then request ctx (send_message chat_id link_report null null)
        else return null)
  return true

unfoldable pub check_link : Context → Value → Value → Action Bool
check_link ctx message chat_id = do
  sender_id ← lift (get_sender_id message)
  admin ← is_admin_sender chat_id sender_id
  if admin then return false else do
    text ← lift (get_text message)
    link ← lift (contains_link ctx text)
    if not link then return false else punish ctx message chat_id sender_id

unfoldable pub handle : Context → Value → Action Bool
handle ctx update = do
  message ← lift (extract_message update)
  if not (truthy message) then return false else do
    chat_id ← lift (get_chat_id message)
    if not (truthy chat_id) then return false else do
      chat ← lift (get message "chat")
      type ← lift (get (or_else chat (obj no_fields)) "type")
      in_group ← lift (is_group_type type)
      if not in_group then return false else do
        settings ← get_group ctx chat_id
        if not settings.anti_link then return false else check_link ctx message chat_id
