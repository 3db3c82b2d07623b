-- ===== src/Db/Tests.antt =====
-- The theorems about app/db at concrete inputs.
use rubica_bot.Prelude.{ℕ, ◌≡◌, ◌+◌, String, none, some, [], ◌∷◌, arith}
use rubica_bot.Prelude.Lists.{length, take}
use rubica_bot.Result.{Returns}
use rubica_bot.Utils.Cache
use rubica_bot.Db.Tables.{Db, MessageRow, default_group}
use rubica_bot.Db.Repository.{Repository, empty_db}
use rubica_bot.Db.Messages.{newest, save_message, fetch_recent_message_ids, trim_messages_per_chat}
use rubica_bot.Db.Messages.Selection.{Distinct}
use rubica_bot.Db.Messages.Trimming
use rubica_bot.Db.Messages.Recent
use rubica_bot.Db.Messages.Recent.{MessagesAreNumbered}
use rubica_bot.Db.Migrations.{empty_schema, ensure_schema, find_table}
use rubica_bot.Db.Migrations.Upgrade
use rubica_bot.Db.Migrations.Upgrade.{IsEnsured}
use rubica_bot.Db.Migrations.Statements.{Fits}

abbrev a_message : ℕ → String → MessageRow
a_message id chat_id = record {
  id = id;
  chat_id = chat_id;
  message_id = "m";
  sender_id = none;
  text = none;
}

abbrev messages_db : Db
messages_db = record empty_db {
  messages = a_message 1 "a" ∷ a_message 2 "b" ∷ a_message 3 "a" ∷ a_message 4 "a" ∷ [];
  next_message = 5;
}

messages_db-Distinct : Distinct messages_db.messages
messages_db-Distinct = (
  (λ e. ground (arith, e), (λ e. ground (arith, e), (λ e. ground (arith, e), tt))),
  (
    (λ e. ground (arith, e), (λ e. ground (arith, e), tt)),
    ((λ e. ground (arith, e), tt), (tt, tt)),
  ),
)

trim_messages_per_chat_lem_example :
    ((j : String)
      → newest j (trim_messages_per_chat 1 messages_db).1 ≡ take 1 (newest j messages_db))
    × ((trim_messages_per_chat 1 messages_db).0
          + length (trim_messages_per_chat 1 messages_db).1.messages
        ≡ 4)
trim_messages_per_chat_lem_example =
    Trimming.trim_messages_per_chat_lem 1 messages_db messages_db-Distinct

fetch_recent_message_ids-save_message_example :
    fetch_recent_message_ids "a" 2 (save_message "a" "m9" none none messages_db)
    ≡ "m9" ∷ fetch_recent_message_ids "a" 1 messages_db
fetch_recent_message_ids-save_message_example =
    Recent.fetch_recent_message_ids-save_message "a" "a" "m9" none none 1 messages_db

nothing-Fits : Fits empty_schema
unfolding find_table
nothing-Fits name t h = ground (arith, h)

ensure_schema_lem_example : Returns (IsEnsured empty_schema) (ensure_schema empty_schema)
ensure_schema_lem_example = Upgrade.ensure_schema_lem empty_schema nothing-Fits

abbrev a_repository : Repository
a_repository = record {
  db = record empty_db { groups = default_group "a" (some "A") ∷ [] };
  cache = Cache.init 8 90;
}
