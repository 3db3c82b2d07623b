-- ===== src/Bot/Tests.antt =====
-- The theorem about a run of the bot at a concrete input.
use rubica_bot.Prelude.{◌≡◌, refl, none, some, [], ◌∷◌}
use rubica_bot.Json.{obj, str, null, fields, no_fields}
use rubica_bot.Result.{ok, raise, type_error}
use rubica_bot.Utils.Cache
use rubica_bot.Core.Queue.{Job, JobPriority}
use rubica_bot.Db.Tables.{default_group}
use rubica_bot.Db.Repository.{stored_group, empty_db}
use rubica_bot.Services.Action.{World}
use rubica_bot.Services.Context.{Context}
use rubica_bot.Bot.Settings
use rubica_bot.Bot.Settings.{process_all}
use rubica_bot.Prelude.{true, false}

abbrev context : Context
context = record {
  library = record {
    reply = λ before c. ok (obj no_fields);
    search = λ word text. ok false;
    repr = λ v. "";
    dumps = λ v. "";
    is_word = λ c. true;
    safe_eval = λ s. raise type_error;
    random = λ n. 0;
    utc_now = "";
  };
  owner_id = some "owner";
  report_anti_actions = true;
  stats = none;
  version = "1";
  models_doc = "";
  commands = [];
  settings = none;
  job = none;
  now = 7;
  wall = 9;
}

-- The owner's `/antilink off`.
abbrev antilink_off : Job
antilink_off = record {
  job_id = "1";
  received_at = 5;
  chat_id = str "c";
  message_id = str "1";
  sender_id = str "owner";
  update_type = null;
  text = str "/antilink off";
  raw_payload = obj (
      fields (
        (
          "message",
          obj (
              fields (
                ("chat_id", str "c")
                ∷ ("sender_id", str "owner")
                ∷ ("text", str "/antilink off")
                ∷ [])),
        )
        ∷ []));
  dedup_key = some "1";
  priority = JobPriority.high;
}

abbrev fresh : World
fresh = record { repo = record { db = empty_db; cache = Cache.init 8 90 }; events = []; sent = [] }

process_all-default_group_example :
    stored_group "c" (process_all ((context, antilink_off) ∷ []) fresh).repo.db
    ≡ default_group "c" none
process_all-default_group_example =
    Settings.process_all-default_group ((context, antilink_off) ∷ []) fresh "c" refl
