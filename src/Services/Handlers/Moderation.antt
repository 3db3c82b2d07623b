-- ===== src/Services/Handlers/Moderation.antt =====
-- app/services/handlers.py: the handlers that read or change the settings, filters and members of a
-- chat.
use rubica_bot.Prelude.{String, Bool, false, List, [], ◌∷◌, map, str_eq, if◌then◌else◌}
use rubica_bot.Prelude.Text.{◌<+>◌, join, show_ℕ, lower}
use rubica_bot.Json.{Value, str, truthy, get, null}
use rubica_bot.Utils.Message.{get_sender_id}
use rubica_bot.Core.Client.Calls.{ban_chat_member, unban_chat_member}
use rubica_bot.Db.Tables.{GroupSettings, column}
use rubica_bot.Db.Repository
use rubica_bot.Db.Repository.{Flag, anti_link, count_admins, add_filter, remove_filter}
use rubica_bot.Db.Messages.{Filter, list_filters}
use rubica_bot.Services.Texts.{
  filter_usage, filter_empty, filter_word, filter_added, filter_removed,
}
use rubica_bot.Services.Action.{Action, ◌>>=◌, return, lift, with_repo, from_db, on_db}
use rubica_bot.Services.Context.{Context, request, get_group}
use rubica_bot.Services.Commands.{Handler}
use rubica_bot.Services.Handlers.Info.{in_chat, reply}

-- 'ON' if b else 'OFF'
abbrev pub on_off : Bool → String
on_off b = if b then "ON" else "OFF"

-- repo.set_group_flag(chat_id, key, value)
unfoldable pub set_group_flag : Value → Flag → Bool → Action {0} Unit
unfolding column
set_group_flag chat_id key value = do
  chat ← lift (column chat_id)
  with_repo (λ r. (tt, Repository.set_group_flag chat key value r))

unfoldable pub settings_text : GroupSettings → String
unfolding show_ℕ
settings_text s =
    "Anti Link: "
    <+> on_off s.anti_link
    <+> "\nAnti Flood: "
    <+> on_off s.anti_flood
    <+> "\nAnti Spam: "
    <+> on_off s.anti_spam
    <+> "\nAnti BadWords: "
    <+> on_off s.anti_badwords
    <+> "\nAnti Forward: "
    <+> on_off s.anti_forward
    <+> "\nFlood Limit: "
    <+> show_ℕ s.flood_limit

unfoldable pub settings_handler : Handler
unfolding in_chat reply get_group settings_text
settings_handler ctx message args =
    in_chat
      (λ ctx chat_id.
        get_group ctx chat_id >>= λ settings. reply ctx chat_id (settings_text settings))
      ctx message

unfoldable pub admins_handler : Handler
unfolding in_chat reply column count_admins show_ℕ
admins_handler ctx message args =
    in_chat
      (λ ctx chat_id. do
        chat ← lift (column chat_id)
        total ← from_db (count_admins chat)
        reply ctx chat_id ("Admin count: " <+> show_ℕ total))
      ctx message

unfoldable pub set_anti_link : String → Context → Value → Action {0} Unit
unfolding lower set_group_flag reply
set_anti_link word ctx chat_id = do
  let value = str_eq (lower word) "on"
  _ ← set_group_flag chat_id anti_link value
  reply ctx chat_id ("Anti Link " <+> on_off value)

unfoldable pub antilink_handler : Handler
unfolding in_chat set_anti_link
antilink_handler ctx message [] = in_chat (λ ctx chat_id. return tt) ctx message
antilink_handler ctx message (word ∷ args) = in_chat (set_anti_link word) ctx message

abbrev pub filter_line : Filter → String
filter_line f = f.word <+> " (" <+> (if f.is_whitelist then "whitelist" else "blacklist") <+> ")"

abbrev pub filters_text : String → String → List Filter → String
unfolding join
filters_text empty title [] = empty
filters_text empty title (f ∷ filters) = title <+> join "\n" (map filter_line (f ∷ filters))

unfoldable pub filters_of : Value → Action (List Filter)
unfolding column list_filters
filters_of chat_id = do chat ← lift (column chat_id); from_db (list_filters chat)

unfoldable pub change_filters : Context → Value → String → String → Action {0} Unit
unfolding column add_filter remove_filter reply
change_filters ctx chat_id action word =
    if str_eq action "add"
    then (do
      chat ← lift (column chat_id)
      _ ← on_db (add_filter chat word false false)
      reply ctx chat_id (word <+> filter_added))
    else if str_eq action "del"
    then (do
      chat ← lift (column chat_id)
      _ ← on_db (remove_filter chat word)
      reply ctx chat_id (word <+> filter_removed))
    else return tt

abbrev filter_action : Context → Value → List String → Action {0} Unit
unfolding lower filters_of join change_filters
filter_action ctx chat_id [] = reply ctx chat_id filter_usage
filter_action ctx chat_id (action ∷ []) =
    if str_eq (lower action) "list"
    then (filters_of chat_id >>= λ filters.
        reply ctx chat_id (filters_text filter_empty "" filters))
    else reply ctx chat_id filter_word
filter_action ctx chat_id (action ∷ word ∷ args) =
    if str_eq (lower action) "list"
    then (filters_of chat_id >>= λ filters.
        reply ctx chat_id (filters_text filter_empty "" filters))
    else change_filters ctx chat_id (lower action) word

unfoldable pub filter_handler : Handler
unfolding in_chat filter_action
filter_handler ctx message args =
    in_chat (λ ctx chat_id. filter_action ctx chat_id args) ctx message

-- `elif reply := message.get("reply_to_message"): target_id = get_sender_id(reply)`
unfoldable pub replied_to : Value → Action Value
unfolding get_sender_id get
replied_to message = do
  reply ← lift (get message "reply_to_message")
  if truthy reply then lift (get_sender_id reply) else return null

abbrev target : Value → List String → Action Value
target message [] = replied_to message
target message (id ∷ args) = return (str id)

unfoldable pub ban_handler : Handler
unfolding in_chat replied_to ban_chat_member
ban_handler ctx message args =
    in_chat
      (λ ctx chat_id. do
        target_id ← target message args
        if truthy target_id
            then (do _ ← request ctx (ban_chat_member chat_id target_id); return tt)
            else return tt)
      ctx message

abbrev unban : Context → Value → List String → Action {0} Unit
unfolding unban_chat_member
unban ctx chat_id [] = return tt
unban ctx chat_id (id ∷ args) = do _ ← request ctx (unban_chat_member chat_id (str id)); return tt

unfoldable pub unban_handler : Handler
unfolding in_chat unban
unban_handler ctx message args = in_chat (λ ctx chat_id. unban ctx chat_id args) ctx message
