-- ===== src/Bot.antt =====
-- app/main.py: what `startup` registers, the job handler, the janitor, and the answers of `/health`.
-- The event loop, FastAPI and the log are left out.
pub mod Settings
pub mod Health
mod Tests
use rubica_bot.Prelude.{
  ℕ, ◌*◌, String, Bool, true, false, ◌&&◌, Option, none, some, List, [], ◌∷◌, if◌then◌else◌,
}
use rubica_bot.Prelude.Text.{◌<+>◌, starts_with, rstrip}
use rubica_bot.Json.{Value, str, arr, obj, no_fields, or_else, items}
use rubica_bot.Core.Queue.{Job, JobQueue, size_by_priority}
use rubica_bot.Core.Client.Calls.{Call, update_bot_endpoints, set_commands}
use rubica_bot.Db.Tables.{Db}
use rubica_bot.Db.Messages.{cleanup_incoming_updates, trim_messages_per_chat}
use rubica_bot.Services.Action.{World, Action}
use rubica_bot.Services.Context.{Context}
use rubica_bot.Services.Registry.{Plugin, dispatch}
use rubica_bot.Services.Commands.{Command, Handler, register, list_commands}
use rubica_bot.Services.Commands
use rubica_bot.Services.Handlers.Info.{
  command_entry, help_handler, setcmd_handler, ping_handler, coin_handler, roll_handler,
  joke_handler, uptime_handler, stats_handler, echo_handler, id_handler, time_handler, calc_handler,
  about_handler, models_handler,
}
use rubica_bot.Services.Handlers.Moderation.{
  settings_handler, admins_handler, antilink_handler, filter_handler, ban_handler, unban_handler,
}
use rubica_bot.Services.Handlers.Delete.{delete_handler}
use rubica_bot.Services.Texts.{
  help_description, setcmd_description, ping_description, uptime_description, stats_description,
  echo_description, id_description, time_description, calc_description, coin_description,
  roll_description, joke_description, models_description, about_description, settings_description,
  admins_description, antilink_description, filter_description, del_description, ban_description,
  unban_description,
}
use rubica_bot.Services.Plugins.AntiFlood
use rubica_bot.Services.Plugins.AntiLink
use rubica_bot.Services.Plugins.Filters
use rubica_bot.Services.Plugins.Records
use rubica_bot.Services.Plugins.Panel

abbrev command : String → String → Handler → Bool → Command
command name description handler admin_only = record {
  name = name;
  description = description;
  handler = handler;
  admin_only = admin_only;
}

abbrev pub registrations : List Command
registrations =
    command "help" help_description help_handler false
    ∷ command "setcmd" setcmd_description setcmd_handler true
    ∷ command "ping" ping_description ping_handler false
    ∷ command "uptime" uptime_description uptime_handler false
    ∷ command "stats" stats_description stats_handler false
    ∷ command "echo" echo_description echo_handler false
    ∷ command "id" id_description id_handler false
    ∷ command "time" time_description time_handler false
    ∷ command "calc" calc_description calc_handler false
    ∷ command "coin" coin_description coin_handler false
    ∷ command "roll" roll_description roll_handler false
    ∷ command "joke" joke_description joke_handler false
    ∷ command "models" models_description models_handler false
    ∷ command "about" about_description about_handler false
    ∷ command "settings" settings_description settings_handler true
    ∷ command "admins" admins_description admins_handler true
    ∷ command "antilink" antilink_description antilink_handler true
    ∷ command "filter" filter_description filter_handler true
    ∷ command "del" del_description delete_handler true
    ∷ command "ban" ban_description ban_handler true
    ∷ command "unban" unban_description unban_handler true
    ∷ []

-- The `register` calls, in order.
unfoldable pub register_all : List Command → List Command → List Command
unfolding register
register_all [] registry = registry
register_all (c ∷ cs) registry = register_all cs (register c registry)

unfoldable pub command_registry : List Command
unfolding register_all
command_registry = register_all registrations []

unfoldable pub plugins : List Plugin
plugins =
    Records.handle_snapshot
    ∷ Records.handle_logging
    ∷ AntiLink.handle
    ∷ AntiFlood.handle
    ∷ Filters.handle
    ∷ Commands.handle command_registry
    ∷ Panel.handle
    ∷ []

-- _process_job: the context is that of the application with the job.
unfoldable pub process_job : Context → Job → Action {0} Unit
unfolding dispatch
process_job ctx job =
    dispatch plugins (record ctx { job = some job }) (or_else job.raw_payload (obj no_fields))

-- `url.replace("sqlite:///", "", 1)`, for a url that begins with it
abbrev drop_chars : ℕ → String → String
drop_chars ℕ.zero s = s
drop_chars (ℕ.suc n) String.[] = ""
drop_chars (ℕ.suc n) (String.◌∷◌ c s) = drop_chars n s

unfoldable pub resolve_db_path : String → String
unfolding starts_with
resolve_db_path url = if starts_with url "sqlite:///" then drop_chars 10 url else url

-- A round of `_run_db_janitor`. The statements of the repository do not fail here.
unfoldable pub janitor : Bool → ℕ → ℕ → ℕ → Db → Db
unfolding cleanup_incoming_updates trim_messages_per_chat
janitor incoming_updates_enabled retention_hours messages_keep_per_chat wall db =
    let cleaned =
      if incoming_updates_enabled
      then (cleanup_incoming_updates (retention_hours * 3600) wall db).1
      else db in
    (trim_messages_per_chat messages_keep_per_chat cleaned).1

abbrev given : Option String → Bool
given none = false
given (some String.[]) = false
given (some (String.◌∷◌ c s)) = true

abbrev url_of : Option String → String
url_of none = ""
url_of (some s) = s

abbrev command_entries : List (String × String) → List Value
command_entries [] = []
command_entries (c ∷ cs) = command_entry c ∷ command_entries cs

abbrev startup_urls : String → List Value
unfolding rstrip
startup_urls webhook_base_url =
    let base = rstrip b'/' webhook_base_url in
    str (base <+> "/receiveUpdate") ∷ str (base <+> "/receiveInlineMessage") ∷ []

-- The calls with which `startup` ends.
unfoldable pub startup_calls : Bool → Option String → List Call
unfolding startup_urls update_bot_endpoints set_commands list_commands command_registry
startup_calls register_webhook webhook_base_url =
    if register_webhook && given webhook_base_url
    then update_bot_endpoints (startup_urls (url_of webhook_base_url))
      ∷ set_commands (arr (items (command_entries (list_commands command_registry))))
      ∷ []
    else []
