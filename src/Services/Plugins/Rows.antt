-- ===== src/Services/Plugins/Rows.antt =====
-- The parameters of the INSERTs of app/db/repository.py, from the values of a job and of a message.
use rubica_bot.Prelude.{String, Option}
use rubica_bot.Result.{Result, ok, ◌>>=◌}
use rubica_bot.Json.{Value}
use rubica_bot.Core.Queue.{Job}
use rubica_bot.Db.Tables.{Db, column, bind}
use rubica_bot.Db.Messages.{NewUpdate, save_message}

-- The row of a job, with the columns as SQLite takes them.
unfoldable pub row_of : Job → Option String → Result NewUpdate
unfolding bind
row_of job raw_payload = do
  chat_id ← bind job.chat_id
  message_id ← bind job.message_id
  sender_id ← bind job.sender_id
  update_type ← bind job.update_type
  text ← bind job.text
  ok record {
    job_id = job.job_id;
    received_at = job.received_at;
    chat_id = chat_id;
    message_id = message_id;
    sender_id = sender_id;
    update_type = update_type;
    text = text;
    raw_payload = raw_payload;
  }

-- The parameters of the INSERT.
unfoldable pub save_values : Value → Value → Value → Value → Db → Result Db
unfolding column bind save_message
save_values chat_id message_id sender_id text db = do
  chat ← column chat_id
  id ← column message_id
  sender ← bind sender_id
  body ← bind text
  ok (save_message chat id sender body db)
