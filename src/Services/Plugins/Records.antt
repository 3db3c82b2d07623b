-- ===== src/Services/Plugins/Records.antt =====
-- app/services/plugins/incoming_snapshot.py and logging.py: the plugins that only keep records.
use rubica_bot.Prelude.{Bool, false, not, ◌||◌, Option, none, some, if◌then◌else◌}
use rubica_bot.Result.{Result, ok, raise}
use rubica_bot.Json.{Value, truthy}
use rubica_bot.Utils.Message.{extract_message, get_chat_id, get_message_id, get_sender_id, get_text}
use rubica_bot.Core.Queue.{Job}
use rubica_bot.Db.Tables.{Db}
use rubica_bot.Services.Plugins.Rows.{row_of, save_values}
use rubica_bot.Db.Messages.{NewUpdate, save_incoming_update}
use rubica_bot.Services.Action.{World, Action, ◌>>=◌, return, lift}
use rubica_bot.Services.Context.{Context, Settings}

-- `try: repo.save_incoming_update(…)`, which logs what it raises
unfoldable pub save_snapshot : Result NewUpdate → Db → Db
unfolding save_incoming_update
save_snapshot (ok row) db = save_incoming_update row db
save_snapshot (raise e) db = db

abbrev pub save_job : Context → Value → Settings → Option Job → World → World
save_job ctx update settings none w = w
save_job ctx update settings (some job) w =
    let raw =
      if settings.incoming_updates_store_raw then some (ctx.library.dumps update) else none in
    record w { repo = record w.repo { db = save_snapshot (row_of job raw) w.repo.db } }

abbrev pub snapshot_with : Context → Value → Option Settings → World → World
snapshot_with ctx update none w = w
snapshot_with ctx update (some settings) w =
    if not settings.incoming_updates_enabled then w else save_job ctx update settings ctx.job w

-- IncomingSnapshotPlugin.handle
unfoldable pub handle_snapshot : Context → Value → Action Bool
unfolding save_snapshot row_of
handle_snapshot ctx update w = (ok false, snapshot_with ctx update ctx.settings w)

abbrev pub saved : World → Result Db → Result Bool × World
saved w (ok db) = (ok false, record w { repo = record w.repo { db = db } })
saved w (raise e) = (raise e, w)

-- repo.save_message(…)
unfoldable pub keep_message : Value → Value → Value → Value → Action Bool
unfolding save_values
keep_message chat_id message_id sender_id text w =
    saved w (save_values chat_id message_id sender_id text w.repo.db)

-- MessageLoggingPlugin.handle
unfoldable pub handle_logging : Context → Value → Action Bool
unfolding extract_message get_chat_id get_message_id get_sender_id get_text keep_message
handle_logging ctx update = do
  message ← lift (extract_message update)
  if not (truthy message) then return false else do
    chat_id ← lift (get_chat_id message)
    message_id ← lift (get_message_id message)
    if not (truthy chat_id) || not (truthy message_id) then return false else do
      sender_id ← lift (get_sender_id message)
      text ← lift (get_text message)
      keep_message chat_id message_id sender_id text
