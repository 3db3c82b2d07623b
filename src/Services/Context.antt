-- ===== src/Services/Context.antt =====
-- What plugins and handlers share: the context of app/main.py (`app.state.context` with the job), the
-- libraries' functions, and the repository's methods on the values of an update.
use rubica_bot.Prelude.{ℕ, String, Bool, false, ◌||◌, Option, List, str_eq, if◌then◌else◌}
use rubica_bot.Prelude.Text.{contains}
use rubica_bot.Result.{Result, ok, raise, type_error, attribute_error}
use rubica_bot.Json.{Value, str, arr, obj, Items, no_items, item, Fields, no_fields, entry, truthy}
use rubica_bot.Utils.Stats.{StatsCollector}
use rubica_bot.Core.Queue.{Job}
use rubica_bot.Core.Client.Calls.{Call}
use rubica_bot.Db.Tables.{GroupSettings, column}
use rubica_bot.Db.Repository
use rubica_bot.Services.Action.{Action, ◌>>=◌, return, lift, with_repo, from_db, ask}

-- The libraries and the service: `reply` is what `api_call` returns for a call after the calls made
-- before, `search` is `re.search`, which raises on what is no pattern, `repr` is `str` of a list or
-- a dict, `dumps` is `json.dumps`, and
-- `is_word` is what `\w` matches beyond ASCII. `safe_eval` is that of Utils/SafeMath over the
-- libraries' parser and evaluator, `random n` is a number below `n`, `utc_now` the formatted time.
pub record Library : Type 0 where
  pub reply : List Call → Call → Result Value
  pub search : String → String → Result Bool
  pub repr : Value → String
  pub dumps : Value → String
  pub is_word : ℕ → Bool
  pub safe_eval : String → Result String
  pub random : ℕ → ℕ
  pub utc_now : String

pub record Settings : Type 0 where
  pub incoming_updates_enabled : Bool
  pub incoming_updates_store_raw : Bool

-- `commands` is what `command_registry.list_commands()` gives. `now` is `time.monotonic()` and
-- `wall` is `time.time()` while the update is handled.
pub record Context : Type 0 where
  pub library : Library
  pub owner_id : Option String
  pub report_anti_actions : Bool
  pub stats : Option StatsCollector
  pub version : String
  pub models_doc : String
  pub commands : List (String × String)
  pub settings : Option Settings
  pub job : Option Job
  pub now : ℕ
  pub wall : ℕ

unfoldable pub request : Context → Call → Action Value
unfolding ask
request ctx c = ask ctx.library.reply c

-- A key of the cache of groups. A list and a dict cannot be hashed.
unfoldable pub cache_key : Value → Result String
unfolding column
cache_key (arr _) = raise type_error
cache_key (obj _) = raise type_error
cache_key v = column v

-- repo.get_group(chat_id)
unfoldable pub get_group : Context → Value → Action GroupSettings
get_group ctx chat_id = do
  key ← lift (cache_key chat_id)
  with_repo (Repository.get_group key ctx.now)

-- repo.is_admin(chat_id, sender_id)
unfoldable pub is_admin : Value → Value → Action Bool
is_admin chat_id user_id = do
  chat ← lift (column chat_id)
  user ← lift (column user_id)
  from_db (Repository.is_admin chat user)

-- `sender_id and repo.is_admin(chat_id, sender_id)`
unfoldable pub is_admin_sender : Value → Value → Action Bool
is_admin_sender chat_id sender_id =
    if truthy sender_id then is_admin chat_id sender_id else return false

-- v.startswith(prefix): only a `str` has the method.
unfoldable pub text_of : Value → Result String
text_of (str s) = ok s
text_of _ = raise attribute_error

unfoldable pub item_is : String → Items → Bool
item_is word no_items = false
item_is word (item (str s) l) = str_eq s word || item_is word l
item_is word (item _ l) = item_is word l

unfoldable pub has_key : String → Fields → Bool
has_key word no_fields = false
has_key word (entry k _ fs) = str_eq k word || has_key word fs

-- `word in text`, for whatever the text is
unfoldable pub word_in : String → Value → Result Bool
unfolding item_is has_key contains
word_in word (str s) = ok (contains s word)
word_in word (arr l) = ok (item_is word l)
word_in word (obj fs) = ok (has_key word fs)
word_in word _ = raise type_error
