-- ===== src/Services/Tests.antt =====
-- The theorems about the plugins, the commands and the dispatcher at concrete inputs.
use rubica_bot.Prelude.{◌≤◌, ◌≡◌, refl, String, Bool, true, false, none, some, List, [], ◌∷◌, ◌++◌}
use rubica_bot.Prelude.Int.{pos, parse_ℤ}
use rubica_bot.Prelude.Lists.{any, keep}
use rubica_bot.Prelude.Text.{split, starts_with, lstrip, lower}
use rubica_bot.Result.{ok, raise, Error, type_error}
use rubica_bot.Json.{Value, obj, str, null, fields, no_fields, get, find}
use rubica_bot.Utils.Cache
use rubica_bot.Utils.Message.{extract_message, get_chat_id, get_sender_id, get_text}
use rubica_bot.Core.Client.Calls.{send_message}
use rubica_bot.Db.Tables.{Db, column}
use rubica_bot.Db.Repository
use rubica_bot.Db.Repository.{Repository, empty_db, add_admin}
use rubica_bot.Db.Messages.{save_message, fetch_recent_message_ids, newest}
use rubica_bot.Services.Texts.{admins_only}
use rubica_bot.Services.Action.{World, return, ◌>>=◌}
use rubica_bot.Services.Context.{Library, Context}
use rubica_bot.Services.Commands.{
  Command, handle, get as get_command, words, command_name, is_owner,
}
use rubica_bot.Services.Commands.Authority
use rubica_bot.Services.Handlers.Delete.{delete_handler, clamp, limit_of}
use rubica_bot.Services.Handlers.Delete.Counts
use rubica_bot.Services.Handlers.Info.{ping_handler}
use rubica_bot.Services.Dispatcher.{
  Item, Dispatcher, dispatching, init, start, workers, enqueue, starts, arrives, takes,
}
use rubica_bot.Services.Dispatcher.Handed
use rubica_bot.Services.Dispatcher.Handed.{Reachable, begin, then_step}
use rubica_bot.Services.Registry.{Plugin, dispatch}
use rubica_bot.Services.Registry.Order
use rubica_bot.Services.Registry.Order.{Decline, nobody, declines}
use rubica_bot.Services.Plugins.Exempt
use rubica_bot.Services.Plugins.Exempt.{Untouched}
use rubica_bot.Services.Plugins.AntiFlood
use rubica_bot.Services.Plugins.AntiLink
use rubica_bot.Services.Plugins.Filters

abbrev a_library : Library
a_library = record {
  reply = λ before c. ok (obj no_fields);
  search = λ word text. ok false;
  repr = λ v. "";
  dumps = λ v. "";
  is_word = λ c. true;
  safe_eval = λ s. raise type_error;
  random = λ n. 0;
  utc_now = "";
}

abbrev pub a_context : Context
a_context = record {
  library = a_library;
  owner_id = some "owner";
  report_anti_actions = true;
  stats = none;
  version = "1";
  models_doc = "";
  commands = [];
  settings = none;
  job = none;
  now = 7;
  wall = 9;
}

-- A message of a user, or of nobody, in the chat `c`.
abbrev a_message : String → List (String × Value) → Value
a_message text sender =
    obj (fields (("chat_id", str "c") ∷ ("message_id", str "m") ∷ ("text", str text) ∷ sender))

abbrev an_update : Value → Value
an_update message = obj (fields (("message", message) ∷ []))

abbrev by_user : Value
by_user = a_message "/ban 5" (("sender_id", str "u") ∷ [])

abbrev by_nobody : Value
by_nobody = a_message "/ban 5" []

abbrev ban_command : Command
ban_command = record { name = "ban"; description = ""; handler = ping_handler; admin_only = true }

abbrev pub a_world : Db → World
a_world db = record { repo = record { db = db; cache = Cache.init 8 90 }; events = []; sent = [] }

handle_refused_example :
    (handle (ban_command ∷ []) a_context (an_update by_user) (a_world empty_db)).1
    ≡ record (a_world empty_db) { sent = send_message (str "c") admins_only null null ∷ [] }
unfolding extract_message get_chat_id get_sender_id get_text find words split starts_with
    command_name lstrip lower get get_command column is_owner Repository.is_admin any
handle_refused_example =
    Authority.handle_refused (ban_command ∷ []) a_context (an_update by_user) by_user "/ban 5"
      "/ban" ("5" ∷ []) ban_command refl refl refl refl refl refl refl (str "c") (str "u") "c" "u"
      (a_world empty_db) refl refl refl refl refl refl refl refl refl

handle_anonymous_example :
    handle (ban_command ∷ []) a_context (an_update by_nobody) (a_world empty_db)
    ≡ (ping_handler a_context by_nobody ("5" ∷ []) >>= λ _. return true) (a_world empty_db)
unfolding extract_message get_chat_id get_sender_id get_text find words split starts_with
    command_name lstrip lower get get_command
handle_anonymous_example =
    Authority.handle_anonymous (ban_command ∷ []) a_context (an_update by_nobody) by_nobody "/ban 5"
      "/ban" ("5" ∷ []) ban_command refl refl refl refl refl refl refl (str "c") null
      (a_world empty_db) refl refl refl

abbrev admin_db : Db
admin_db = record empty_db { admins = record { chat_id = "c"; user_id = "u"; role = "admin" } ∷ [] }

plugins_exempt_example :
    Untouched [] admin_db (AntiLink.handle a_context (an_update by_user) (a_world admin_db)).1
    × Untouched [] admin_db (AntiFlood.handle a_context (an_update by_user) (a_world admin_db)).1
    × Untouched [] admin_db (Filters.handle a_context (an_update by_user) (a_world admin_db)).1
unfolding extract_message get_chat_id get_sender_id find column Repository.is_admin any
plugins_exempt_example =
    Exempt.plugins_exempt a_context (an_update by_user) by_user (str "c") (str "u") "c" "u"
      (a_world admin_db) refl refl refl refl refl refl refl

abbrev logged_db : Db
unfolding save_message
logged_db = save_message "c" "m2" none none (save_message "c" "m1" none none empty_db)

delete_handler_lem_example :
    Counts.Reports a_context
      (str "c")
      ("m2" ∷ "m1" ∷ [])
      []
      (delete_handler a_context by_user ("20" ∷ []) (a_world logged_db)).1
    × (2 ≤ 10000)
unfolding get_chat_id find column limit_of parse_ℤ clamp fetch_recent_message_ids newest keep
    save_message
delete_handler_lem_example =
    Counts.delete_handler_lem a_context by_user (str "c") ("20" ∷ []) (pos 20) "c" "m2" ("m1" ∷ [])
      (a_world logged_db) refl refl refl refl refl refl

abbrev says : Bool → Plugin
says b ctx update = return b

dispatch-first_example :
    (says true a_context null (a_world empty_db) ≡ (ok true, a_world empty_db)
      → dispatch (says false ∷ says true ∷ says true ∷ []) a_context null (a_world empty_db)
        ≡ (ok tt, a_world empty_db))
    × ((e : Error)
        → says true a_context null (a_world empty_db) ≡ (raise e, a_world empty_db)
        → dispatch (says false ∷ says true ∷ says true ∷ []) a_context null (a_world empty_db)
          ≡ (raise e, a_world empty_db))
unfolding return
dispatch-first_example =
    Order.dispatch-first a_context null (says false ∷ []) (says true ∷ []) (says true)
      (a_world empty_db) (a_world empty_db) (a_world empty_db)
      (declines (says false) [] (a_world empty_db) (a_world empty_db) (a_world empty_db) refl
        (nobody (a_world empty_db)))

abbrev an_item : String → Item
an_item text = (an_update (a_message text []), obj no_fields)

-- A dispatcher with one worker, after one update was handed on, another waits and the worker is busy.
abbrev busy_dispatcher : Dispatcher
busy_dispatcher = record {
  items = an_item "b" ∷ [];
  unfinished = 2;
  concurrency = 1;
  tasks = dispatching (an_item "a") ∷ [];
  stats = none;
}

busy_dispatcher-Reachable :
    Reachable (init 1 none) busy_dispatcher (an_item "a" ∷ an_item "b" ∷ []) (an_item "a" ∷ [])
unfolding init start workers enqueue
busy_dispatcher-Reachable =
    then_step
      (then_step (then_step (then_step begin starts) (arrives 1 (an_item "a")))
        (arrives 2 (an_item "b")))
      (takes [] [] (an_item "a") (an_item "b" ∷ []) refl refl)

handed_in_order_example :
    an_item "a" ∷ an_item "b" ∷ [] ≡ (an_item "a" ∷ []) ++ busy_dispatcher.items
handed_in_order_example =
    Handed.handed_in_order 1 none busy_dispatcher (an_item "a" ∷ an_item "b" ∷ [])
      (an_item "a" ∷ []) busy_dispatcher-Reachable
