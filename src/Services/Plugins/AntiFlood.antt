-- ===== src/Services/Plugins/AntiFlood.antt =====
-- app/services/plugins/anti_flood.py: `AntiFloodPlugin.handle`.
use rubica_bot.Prelude.{
  ℕ, String, Bool, true, false, not, ◌||◌, List, [], ◌∷◌, ◌++◌, ltb, str_eq, if◌then◌else◌,
}
use rubica_bot.Prelude.Lists.{length}
use rubica_bot.Prelude.Text.{◌<+>◌}
use rubica_bot.Result.{ok}
use rubica_bot.Json.{Value, truthy, or_else, get, show}
use rubica_bot.Utils.Message.{extract_message, get_chat_id, get_sender_id}
use rubica_bot.Utils.RateLimiter.{popleft_stale}
use rubica_bot.Core.Client.Calls.{delete_message, ban_chat_member}
use rubica_bot.Db.Tables.{GroupSettings}
use rubica_bot.Services.Action.{Action, ◌>>=◌, return, lift}
use rubica_bot.Services.Context.{Context, request, get_group, is_admin}

abbrev pub window_seconds : ℕ
window_seconds = 8

-- self._events[key]
unfoldable pub events_of : String → List (String × List ℕ) → List ℕ
events_of key [] = []
events_of key ((k, l) ∷ events) = if str_eq k key then l else events_of key events

unfoldable pub set_events : String → List ℕ → List (String × List ℕ) → List (String × List ℕ)
set_events key l [] = (key, l) ∷ []
set_events key l ((k, old) ∷ events) =
    if str_eq k key then (k, l) ∷ events else (k, old) ∷ set_events key l events

-- The deque of a sender after the old events are dropped and `now` is appended.
unfoldable pub with_event : ℕ → List ℕ → List ℕ
unfolding popleft_stale
with_event now events = popleft_stale window_seconds now events ++ now ∷ []

-- The events of the sender are brought up to date, and returned.
unfoldable pub note_event : String → ℕ → Action (List ℕ)
unfolding events_of set_events with_event
note_event key now w =
    let events = with_event now (events_of key w.events) in
    (ok events, record w { events = set_events key events w.events })

unfoldable pub punish : Context → Value → Value → Value → Action Bool
punish ctx message chat_id sender_id = do
  message_id ← lift (get message "message_id")
  id ← lift (get message "id")
  _ ←
      (if truthy (or_else message_id id)
        then request ctx (delete_message chat_id (or_else message_id id))
        else return message)
  _ ← request ctx (ban_chat_member chat_id sender_id)
  return true

unfoldable pub count_event : Context → Value → Value → Value → GroupSettings → Action Bool
count_event ctx message chat_id sender_id settings = do
  events ←
      note_event (show ctx.library.repr chat_id <+> ":" <+> show ctx.library.repr sender_id) ctx.now
  if ltb settings.flood_limit (length events)
      then punish ctx message chat_id sender_id
      else return false

unfoldable pub handle : Context → Value → Action Bool
handle ctx update = do
  message ← lift (extract_message update)
  if not (truthy message) then return false else do
    chat_id ← lift (get_chat_id message)
    sender_id ← lift (get_sender_id message)
    if not (truthy chat_id) || not (truthy sender_id) then return false else do
      settings ← get_group ctx chat_id
      if not settings.anti_flood then return false else do
        admin ← is_admin chat_id sender_id
        if admin then return false else count_event ctx message chat_id sender_id settings
