-- ===== src/Services/Plugins/Filters.antt =====
-- app/services/plugins/filters.py: `FilterWordsPlugin.handle`.
use rubica_bot.Prelude.{Bool, true, false, not, ◌||◌, List, [], ◌∷◌, if◌then◌else◌}
use rubica_bot.Result.{Result, ok, ◌>>=◌ as ◌>>?◌}
use rubica_bot.Json.{Value, str, null, truthy, or_else, as_text}
use rubica_bot.Utils.Message.{extract_message, get_chat_id, get_message_id, get_sender_id, get_text}
use rubica_bot.Core.Client.Calls.{delete_message}
use rubica_bot.Db.Tables.{column}
use rubica_bot.Db.Messages.{Filter, list_filters}
use rubica_bot.Services.Action.{Action, ◌>>=◌, return, lift, from_db}
use rubica_bot.Services.Context.{Library, Context, request, get_group, is_admin_sender, word_in}

-- `re.search(word, text) if regex_enabled else word in text`
unfoldable pub filter_matches : Library → Filter → Value → Result Bool
unfolding as_text word_in
filter_matches lib f text =
    if f.regex_enabled then as_text text >>? lib.search f.word else word_in f.word text

-- The loop: false as soon as a filter of the white list matches, and else whether one of the black
-- list did.
unfoldable pub blacklisted : Library → Value → Bool → List Filter → Result Bool
unfolding filter_matches
blacklisted lib text matched [] = ok matched
blacklisted lib text matched (f ∷ filters) = filter_matches lib f text >>? λ matches.
    if f.is_whitelist
    then if matches then ok false else blacklisted lib text matched filters
    else blacklisted lib text (matched || matches) filters

unfoldable pub check_words : Context → Value → Value → Action Bool
check_words ctx message chat_id = do
  sender_id ← lift (get_sender_id message)
  admin ← is_admin_sender chat_id sender_id
  if admin then return false else do
    found ← lift (get_text message)
    let text = or_else found (str "")
    chat ← lift (column chat_id)
    filters ← from_db (list_filters chat)
    bad ← lift (blacklisted ctx.library text false filters)
    if not bad then return false else do
      message_id ← lift (get_message_id message)
      _ ←
          (if truthy message_id
            then request ctx (delete_message chat_id message_id)
            else return null)
      return true

unfoldable pub handle : Context → Value → Action Bool
handle ctx update = do
  message ← lift (extract_message update)
  if not (truthy message) then return false else do
    chat_id ← lift (get_chat_id message)
    if not (truthy chat_id) then return false else do
      settings ← get_group ctx chat_id
      if not settings.anti_badwords then return false else check_words ctx message chat_id
