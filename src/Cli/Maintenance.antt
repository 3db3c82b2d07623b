-- ===== src/Cli/Maintenance.antt =====
-- app/cli/rubikactl.py: `db stats`, `db cleanup`, `fix db` and `fix nginx`. The PRAGMAs, the
-- closing of the connection and what is printed are left out; the numbers of days and of kept rows
-- are not negative.
pub mod Cleaned
use rubica_bot.Prelude.{
  ℕ, ◌+◌, ◌-◌, ◌*◌, String, Bool, true, false, not, List, [], ◌∷◌, ◌++◌, if◌then◌else◌,
}
use rubica_bot.Prelude.Lists.{length, keep}
use rubica_bot.Result.{Result, ok, raise, attribute_error}
use rubica_bot.Db.Tables.{Db}
use rubica_bot.Db.Messages.{is_old, distinct_chats, trim_chat}
use rubica_bot.Db.Migrations.{
  Schema, Statement, execute_all, idx_messages_chat_created, idx_incoming_updates_received,
}
use rubica_bot.Cli.Machine.{Programs, Machine, Script, ◌>>=◌, lift, run}
use rubica_bot.Cli.EnvFile.{get_key}
use rubica_bot.Cli.DoctorUtils.{parse_sqlite_path}
use rubica_bot.Cli.Installer.Inputs.{get_or}
use rubica_bot.Cli.Doctor.Found.{Database}
use rubica_bot.Cli.Doctor.Sqlite.{db_record_counts, counted_tables}

-- The path that `_open_db` opens.
unfoldable pub open_db_path : List (String × String) → String
unfolding get_key parse_sqlite_path
open_db_path env = parse_sqlite_path (get_or (get_key "RUBIKA_DB_URL" env) "sqlite:///data/bot.db")

-- The path, the size and the counts that are shown.
unfoldable pub db_stats :
    (String → Database) → List (String × String) → String × ℕ × List (String × ℕ)
unfolding open_db_path db_record_counts
db_stats database env =
    let db_path = open_db_path env in
    let db = database db_path in
    (db_path, if db.there then db.size else 0, db_record_counts db.count counted_tables)

-- The loop over the chats, with the number of the messages deleted so far.
unfoldable pub trim_rows : ℕ → List String → ℕ → Db → ℕ × Db
unfolding trim_chat
trim_rows keep_per_chat [] total_deleted db = (total_deleted, db)
trim_rows keep_per_chat (chat_id ∷ chats) total_deleted db =
    let (rowcount, db') = trim_chat chat_id keep_per_chat db in
    trim_rows keep_per_chat chats (total_deleted + rowcount) db'

-- The numbers of the updates and of the messages that are deleted, and the tables.
unfoldable pub db_cleanup : ℕ → ℕ → ℕ → Db → (ℕ × ℕ) × Db
unfolding keep distinct_chats trim_rows
db_cleanup days keep_per_chat now db =
    let kept = keep (λ u. not (is_old (now - days * 86400) u)) db.incoming_updates in
    let (total_deleted, db') =
      trim_rows keep_per_chat (distinct_chats [] db.messages) 0
        (record db { incoming_updates = kept }) in
    ((length db.incoming_updates - length kept, total_deleted), db')

-- The statements of `fix db` that change the schema.
unfoldable pub fix_db : Schema → Result Schema
unfolding execute_all
fix_db = execute_all (idx_incoming_updates_received ∷ idx_messages_chat_created ∷ [])

-- run(cmd, check=False): whether the status is 0
unfoldable pub run_unchecked : Programs → List String → Script Bool
run_unchecked programs cmd m =
    let (good, files') = programs cmd m.files in
    (ok good, record m { files = files'; ran = m.ran ++ cmd ∷ [] })

-- The output is not captured: `stderr` is `None`, which has no `strip`.
unfoldable pub fix_nginx : Programs → Script {0} Unit
unfolding run_unchecked run
fix_nginx programs = do
  good ← run_unchecked programs ("nginx" ∷ "-t" ∷ [])
  if good
      then run programs ("systemctl" ∷ "reload" ∷ "nginx" ∷ [])
      else lift (raise attribute_error)
