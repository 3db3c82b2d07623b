-- ===== src/Cli/Maintenance/Cleaned.antt =====
-- What the commands of maintenance do, beside what the bot does itself.
use rubica_bot.Prelude.{ℕ, ◌+◌, ◌*◌, ◌≡◌, ap, ◌∙◌, String, true, List, [], ◌∷◌, arith}
use rubica_bot.Result.{ok, Returns, Returns-weaken}
use rubica_bot.Db.Tables.{Db}
use rubica_bot.Db.Messages.{
  distinct_chats, trim_chat, trim_chats, trim_messages_per_chat, cleanup_incoming_updates,
}
use rubica_bot.Db.Messages.Selection.{All}
use rubica_bot.Db.Migrations.{
  Schema, ensure_schema, initial_schema, idx_messages_chat_created, idx_incoming_updates_received,
}
use rubica_bot.Db.Migrations.Statements.{Fits, Holds, execute_all_held}
use rubica_bot.Db.Migrations.Upgrade.{IsEnsured, ensure_schema_lem}
use rubica_bot.Bot.{janitor}
use rubica_bot.Cli.Maintenance.{trim_rows, db_cleanup, fix_db}

-- The loop with a running total is the one that adds up at the end.
trim_rows-trim_chats :
    (limit : ℕ) (chats : List String) (total : ℕ) (db : Db)
    → trim_rows limit chats total db
      ≡ (total + (trim_chats limit chats db).0, (trim_chats limit chats db).1)
unfolding trim_rows trim_chats
trim_rows-trim_chats limit [] total db = ap (λ n. (n, db)) (omega arith)
trim_rows-trim_chats limit (chat_id ∷ chats) total db =
    let step = trim_chat chat_id limit db in
    let rest = trim_chats limit chats step.1 in
    trim_rows-trim_chats limit chats (total + step.0) step.1 ∙ ap (λ n. (n, rest.1)) (omega arith)

-- `db cleanup` does what a round of the janitor does that keeps updates for as many days, and
-- reports how many updates and how many messages that deletes.
pub db_cleanup-janitor :
    (days keep_per_chat now : ℕ) (db : Db)
    → (db_cleanup days keep_per_chat now db).1 ≡ janitor true (24 * days) keep_per_chat now db
      × (db_cleanup days keep_per_chat now db).0 ≡ (
        (cleanup_incoming_updates (days * 86400) now db).0,
        (trim_messages_per_chat keep_per_chat (cleanup_incoming_updates (days * 86400) now db).1).0,
      )
unfolding db_cleanup janitor cleanup_incoming_updates trim_messages_per_chat
db_cleanup-janitor days limit now db =
    let cleaned = (cleanup_incoming_updates (days * 86400) now db).1 in
    let trimmed = trim_rows-trim_chats limit (distinct_chats [] db.messages) 0 cleaned in
    let seconds : days * 86400 ≡ 24 * days * 3600 = omega arith in
    (
      ap (λ p. p.1) trimmed
          ∙ ap (λ age. (trim_messages_per_chat limit (cleanup_incoming_updates age now db).1).1)
              seconds,
      ap (λ p. ((cleanup_incoming_updates (days * 86400) now db).0, p.0)) trimmed
          ∙ ap (λ n. ((cleanup_incoming_updates (days * 86400) now db).0, n)) (omega arith),
    )

fixed : (s : Schema) → All (Holds s) initial_schema → fix_db s ≡ ok s
unfolding fix_db
fixed s (_, (_, (_, (_, (_, (chat_created, (_, (_, (_, (_, (received, _))))))))))) =
    execute_all_held (idx_incoming_updates_received ∷ idx_messages_chat_created ∷ []) s
      (received, (chat_created, tt))

-- After ensure_schema, on a schema whose tables fit the program's, `fix db` changes nothing of the
-- schema.
pub fix_db-ensure_schema :
    (s : Schema) → Fits s → Returns (λ s'. fix_db s' ≡ ok s') (ensure_schema s)
fix_db-ensure_schema s f =
    Returns-weaken (IsEnsured s) _ (ensure_schema s) (λ s' e. fixed s' e.0) (ensure_schema_lem s f)
