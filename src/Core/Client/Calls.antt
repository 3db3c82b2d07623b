-- ===== src/Core/Client/Calls.antt =====
-- The methods of `RubikaClient`, each as the name and the payload that it hands to `request`. `none`
-- stands for an argument that is `None`; a keypad that is an empty dict counts as none.
use rubica_bot.Prelude.{String, true, Option, none, some, List, [], ◌∷◌, ◌++◌, if◌then◌else◌}
use rubica_bot.Json.{Value, obj, str, flag, arr, truthy, fields, items}

pub record Call : Type 0 where
  pub method : String
  pub payload : Value

abbrev pub call : String → List (String × Value) → Call
call method payload = record { method = method; payload = obj (fields payload) }

-- `if v: payload[key] = v`
abbrev pub if_truthy : String → Value → List (String × Value)
if_truthy key v = if truthy v then (key, v) ∷ [] else []

-- `if v is not None: payload[key] = v`
abbrev pub if_given : String → Option Value → List (String × Value)
if_given key none = []
if_given key (some v) = (key, v) ∷ []

unfoldable pub get_me : Call
get_me = call "getMe" []

unfoldable pub send_message : Value → String → Value → Value → Call
send_message chat_id text inline_keypad keypad = call "sendMessage" (
    ("chat_id", chat_id) ∷ ("text", str text) ∷ if_truthy "inline_keypad" inline_keypad
    ++ if_truthy "keypad" keypad)

unfoldable pub send_poll : Value → String → List Value → Call
send_poll chat_id question options =
    call "sendPoll"
      (("chat_id", chat_id) ∷ ("question", str question) ∷ ("options", arr (items options)) ∷ [])

unfoldable pub send_location : Value → Value → Value → Call
send_location chat_id latitude longitude =
    call "sendLocation"
      (("chat_id", chat_id) ∷ ("latitude", latitude) ∷ ("longitude", longitude) ∷ [])

unfoldable pub send_contact : Value → String → String → Call
send_contact chat_id first_name phone_number = call "sendContact" (
    ("chat_id", chat_id) ∷ ("first_name", str first_name) ∷ ("phone_number", str phone_number) ∷ [])

unfoldable pub get_chat : Value → Call
get_chat chat_id = call "getChat" (("chat_id", chat_id) ∷ [])

unfoldable pub get_updates : Option Value → Option Value → Call
get_updates offset limit = call "getUpdates" (if_given "offset" offset ++ if_given "limit" limit)

unfoldable pub forward_message : Value → Value → Value → Call
forward_message chat_id from_chat_id message_id =
    call "forwardMessage"
      (("chat_id", chat_id) ∷ ("from_chat_id", from_chat_id) ∷ ("message_id", message_id) ∷ [])

unfoldable pub edit_message_text : Value → Value → String → Call
edit_message_text chat_id message_id text =
    call "editMessageText"
      (("chat_id", chat_id) ∷ ("message_id", message_id) ∷ ("text", str text) ∷ [])

unfoldable pub edit_inline_keypad : Value → Value → Value → Call
edit_inline_keypad chat_id message_id inline_keypad =
    call "editInlineKeypad"
      (("chat_id", chat_id) ∷ ("message_id", message_id) ∷ ("inline_keypad", inline_keypad) ∷ [])

unfoldable pub edit_chat_keypad : Value → Value → Call
edit_chat_keypad chat_id keypad = call "editChatKeypad" (
    ("chat_id", chat_id)
    ∷ (if truthy keypad then ("keypad", keypad) else ("remove_keypad", flag true))
    ∷ [])

unfoldable pub delete_message : Value → Value → Call
delete_message chat_id message_id =
    call "deleteMessage" (("chat_id", chat_id) ∷ ("message_id", message_id) ∷ [])

unfoldable pub get_file : Value → Call
get_file file_id = call "getFile" (("file_id", file_id) ∷ [])

unfoldable pub request_send_file : Value → Call
request_send_file file_id = call "requestSendFile" (("file_id", file_id) ∷ [])

unfoldable pub send_file : Value → Value → Value → Call
send_file chat_id file_id caption =
    call "sendFile" (("chat_id", chat_id) ∷ ("file_id", file_id) ∷ if_truthy "caption" caption)

unfoldable pub ban_chat_member : Value → Value → Call
ban_chat_member chat_id user_id =
    call "banChatMember" (("chat_id", chat_id) ∷ ("user_id", user_id) ∷ [])

unfoldable pub unban_chat_member : Value → Value → Call
unban_chat_member chat_id user_id =
    call "unbanChatMember" (("chat_id", chat_id) ∷ ("user_id", user_id) ∷ [])

unfoldable pub set_commands : Value → Call
set_commands commands = call "setCommands" (("commands", commands) ∷ [])

unfoldable pub update_bot_endpoint : String → Call
update_bot_endpoint url = call "updateBotEndpoint" (("url", str url) ∷ [])

unfoldable pub update_bot_endpoints : List Value → Call
update_bot_endpoints urls = call "updateBotEndpoints" (("urls", arr (items urls)) ∷ [])
