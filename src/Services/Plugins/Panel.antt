-- ===== src/Services/Plugins/Panel.antt =====
-- app/services/plugins/panel.py: `PanelPlugin`.
use rubica_bot.Prelude.{String, Bool, true, false, not, ◌||◌, List, [], ◌∷◌, str_eq, if◌then◌else◌}
use rubica_bot.Prelude.Text.{◌<+>◌, starts_with, join}
use rubica_bot.Json.{Value, str, arr, obj, null, truthy, or_else, get, fields, items}
use rubica_bot.Utils.Message.{extract_message, get_chat_id}
use rubica_bot.Core.Client.Calls.{send_message, edit_inline_keypad}
use rubica_bot.Db.Tables.{GroupSettings}
use rubica_bot.Db.Repository.{Flag}
use rubica_bot.Services.Texts.{
  panel_title, anti_link_updated, anti_flood_updated, panel_no_filters, panel_filters, panel_delete,
}
use rubica_bot.Services.Action.{Action, ◌>>=◌, return, lift}
use rubica_bot.Services.Context.{Context, request, get_group, text_of}
use rubica_bot.Services.Handlers.Moderation.{on_off, set_group_flag, filters_of, filters_text}

abbrev button : String → String → Value
button text callback = obj (fields (("text", str text) ∷ ("callback_data", str callback) ∷ []))

abbrev row : List Value → Value
row buttons = obj (fields (("buttons", arr (items buttons)) ∷ []))

-- _build_keypad
unfoldable pub build_keypad : GroupSettings → Value
build_keypad s =
    let switches =
      button ("Anti Link: " <+> on_off s.anti_link) "panel:anti_link"
      ∷ button ("Anti Flood: " <+> on_off s.anti_flood) "panel:anti_flood"
      ∷ [] in
    let tools = button "Filters" "panel:filters" ∷ button "Delete Tools" "panel:delete" ∷ [] in
    obj (fields (("rows", arr (items (row switches ∷ row tools ∷ []))) ∷ []))

-- _refresh_panel
unfoldable pub refresh_panel : Context → Value → Value → Action {0} Unit
unfolding get get_group build_keypad edit_inline_keypad
refresh_panel ctx chat_id callback = do
  message_id ← lift (get callback "message_id")
  if not (truthy message_id) then return tt else do
    settings ← get_group ctx chat_id
    _ ← request ctx (edit_inline_keypad chat_id message_id (build_keypad settings))
    return tt

unfoldable pub send : Context → Value → String → Value → Action Bool
unfolding send_message
send ctx chat_id text keypad = do
  _ ← request ctx (send_message chat_id text keypad null)
  return true

abbrev flag_of : Flag → GroupSettings → Bool
flag_of Flag.anti_link s = s.anti_link
flag_of Flag.anti_flood s = s.anti_flood
flag_of Flag.anti_spam s = s.anti_spam
flag_of Flag.anti_badwords s = s.anti_badwords
flag_of Flag.anti_forward s = s.anti_forward

-- The branches of `panel:anti_link` and `panel:anti_flood`.
unfoldable pub toggle : Context → Value → Value → Flag → String → Action Bool
unfolding get_group set_group_flag send refresh_panel
toggle ctx chat_id callback key text = do
  settings ← get_group ctx chat_id
  _ ← set_group_flag chat_id key (not (flag_of key settings))
  _ ← send ctx chat_id text null
  _ ← refresh_panel ctx chat_id callback
  return true

unfoldable pub show_filters : Context → Value → Action Bool
unfolding filters_of send join
show_filters ctx chat_id = do
  filters ← filters_of chat_id
  send ctx chat_id (filters_text panel_no_filters panel_filters filters) null

unfoldable pub press : Context → Value → Value → String → Action Bool
unfolding toggle show_filters send starts_with
press ctx chat_id callback data' =
    if not (starts_with data' "panel:")
    then return false
    else if str_eq data' "panel:anti_link"
    then toggle ctx chat_id callback Flag.anti_link anti_link_updated
    else if str_eq data' "panel:anti_flood"
    then toggle ctx chat_id callback Flag.anti_flood anti_flood_updated
    else if str_eq data' "panel:filters"
    then show_filters ctx chat_id
    else if str_eq data' "panel:delete"
    then send ctx chat_id panel_delete null
    else return false

-- What is done with `update.get("callback_query")`.
unfoldable pub handle_callback : Context → Value → Action Bool
unfolding get text_of press
handle_callback ctx update = do
  callback ← lift (get update "callback_query")
  if not (truthy callback) then return false else do
    chat_id ← lift (get callback "chat_id")
    found ← lift (get callback "data")
    if not (truthy chat_id) || not (truthy found)
        then return false
        else do pressed ← lift (text_of found); press ctx chat_id callback pressed

unfoldable pub show_panel : Context → Value → Action Bool
unfolding get_chat_id get_group send build_keypad
show_panel ctx message = do
  chat_id ← lift (get_chat_id message)
  if not (truthy chat_id)
      then return true
      else do settings ← get_group ctx chat_id; send ctx chat_id panel_title (build_keypad settings)

unfoldable pub handle : Context → Value → Action Bool
unfolding extract_message get text_of starts_with show_panel handle_callback
handle ctx update = do
  message ← lift (extract_message update)
  if not (truthy message) then return false else do
    found ← lift (get message "text")
    text ← lift (text_of (or_else found (str "")))
    if starts_with text "/panel" then show_panel ctx message else handle_callback ctx update
