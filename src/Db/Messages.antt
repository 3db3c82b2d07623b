-- ===== src/Db/Messages.antt =====
-- app/db/repository.py: the methods of `Repository` on filters' order, messages, incoming updates and
-- settings. A SELECT ordered by a primary key that grows is the order of the rows, or its reverse.
pub mod Selection
pub mod Recent
pub mod Trimming
pub mod Upserts
use Prim.Native.String.{compare}
use Prim.Native.Nat.{Ordering}
use mathlib.Core.List.{reverse}
use rubica_bot.Prelude.{
  ℕ, zero, suc, ◌+◌, ◌-◌, String, Bool, true, false, not, ◌&&◌, ◌||◌, Option, none, some, List, [],
  ◌∷◌, ◌++◌, map, ltb, str_eq, if◌then◌else◌, ◌==◌,
}
use rubica_bot.Prelude.Lists.{length, take, keep, any}
use rubica_bot.Result.{Result, ok, raise, operational_error}
use rubica_bot.Db.Tables.{FilterRow, MessageRow, UpdateRow, Db}

-- The BINARY collation of SQLite.
abbrev pub text_le : String → String → Bool
text_le a b = elim (compare a b) [ Ordering.gt ↦ false | _ ↦ true ]

unfoldable pub insert_by_word : FilterRow → List FilterRow → List FilterRow
insert_by_word f [] = f ∷ []
insert_by_word f (g ∷ gs) = if text_le f.word g.word then f ∷ g ∷ gs else g ∷ insert_by_word f gs

-- ORDER BY word
unfoldable pub order_by_word : List FilterRow → List FilterRow
unfolding insert_by_word
order_by_word [] = []
order_by_word (f ∷ fs) = insert_by_word f (order_by_word fs)

pub record Filter : Type 0 where
  pub word : String
  pub is_whitelist : Bool
  pub regex_enabled : Bool

abbrev pub to_filter : FilterRow → Filter
to_filter f = record {
  word = f.word;
  is_whitelist = f.is_whitelist;
  regex_enabled = f.regex_enabled;
}

unfoldable pub list_filters : String → Db → List Filter
unfolding order_by_word keep
list_filters chat_id db =
    map to_filter (order_by_word (keep (λ f. str_eq f.chat_id chat_id) db.filters))

unfoldable pub save_message : String → String → Option String → Option String → Db → Db
save_message chat_id message_id sender_id text db = record db {
  messages =
      db.messages
      ++ record {
        id = db.next_message;
        chat_id = chat_id;
        message_id = message_id;
        sender_id = sender_id;
        text = text;
      }
        ∷ [];
  next_message = db.next_message + 1;
}

abbrev pub of_chat : String → MessageRow → Bool
of_chat chat_id m = str_eq m.chat_id chat_id

-- The rows of a chat, newest first.
unfoldable pub newest : String → Db → List MessageRow
unfolding keep
newest chat_id db = reverse (keep (of_chat chat_id) db.messages)

unfoldable pub fetch_recent_message_ids : String → ℕ → Db → List String
unfolding newest
fetch_recent_message_ids chat_id limit db =
    map (λ (m : MessageRow). m.message_id) (take limit (newest chat_id db))

pub record NewMessage : Type 0 where
  pub chat_id : String
  pub message_id : String
  pub sender_id : Option String
  pub text : Option String

unfoldable pub bulk_insert_messages : List NewMessage → Db → Db
unfolding save_message
bulk_insert_messages [] db = db
bulk_insert_messages (m ∷ rows) db =
    bulk_insert_messages rows (save_message m.chat_id m.message_id m.sender_id m.text db)

pub record NewUpdate : Type 0 where
  pub job_id : String
  pub received_at : ℕ
  pub chat_id : Option String
  pub message_id : Option String
  pub sender_id : Option String
  pub update_type : Option String
  pub text : Option String
  pub raw_payload : Option String

unfoldable pub save_incoming_update : NewUpdate → Db → Db
save_incoming_update u db = record db {
  incoming_updates =
      db.incoming_updates
      ++ record {
        id = db.next_update;
        job_id = u.job_id;
        received_at = u.received_at;
        chat_id = u.chat_id;
        message_id = u.message_id;
        sender_id = u.sender_id;
        update_type = u.update_type;
        text = u.text;
        raw_payload = u.raw_payload;
      }
        ∷ [];
  next_update = db.next_update + 1;
}

-- `received_at < cutoff`. No time lies before 0, so a cutoff below it deletes nothing.
abbrev pub is_old : ℕ → UpdateRow → Bool
is_old cutoff u = ltb u.received_at cutoff

-- The number of deleted rows, and the tables.
unfoldable pub cleanup_incoming_updates : ℕ → ℕ → Db → ℕ × Db
unfolding keep
cleanup_incoming_updates max_age_seconds wall db =
    let kept = keep (λ u. not (is_old (wall - max_age_seconds) u)) db.incoming_updates in
    (length db.incoming_updates - length kept, record db { incoming_updates = kept })

-- SELECT id FROM messages WHERE chat_id = ? ORDER BY id DESC LIMIT ?
unfoldable pub newest_ids : String → ℕ → Db → List ℕ
unfolding newest
newest_ids chat_id limit db = map (λ (m : MessageRow). m.id) (take limit (newest chat_id db))

-- DELETE FROM messages WHERE chat_id = ? AND id NOT IN (…)
unfoldable pub trim_chat : String → ℕ → Db → ℕ × Db
unfolding newest_ids keep any
trim_chat chat_id limit db =
    let ids = newest_ids chat_id limit db in
    let kept = keep (λ m. not (of_chat chat_id m && not (any (λ i. i == m.id) ids))) db.messages in
    (length db.messages - length kept, record db { messages = kept })

-- SELECT DISTINCT chat_id FROM messages
unfoldable pub distinct_chats : List String → List MessageRow → List String
unfolding any
distinct_chats found [] = []
distinct_chats found (m ∷ ms) =
    let known = any (str_eq m.chat_id) found in
    let rest = distinct_chats (if known then found else m.chat_id ∷ found) ms in
    if known then rest else m.chat_id ∷ rest

unfoldable pub trim_chats : ℕ → List String → Db → ℕ × Db
unfolding trim_chat
trim_chats limit [] db = (0, db)
trim_chats limit (chat_id ∷ chats) db =
    let (n, db') = trim_chat chat_id limit db in
    let (total, db'') = trim_chats limit chats db' in (n + total, db'')

unfoldable pub trim_messages_per_chat : ℕ → Db → ℕ × Db
unfolding trim_chats distinct_chats
trim_messages_per_chat limit_per_chat db =
    trim_chats limit_per_chat (distinct_chats [] db.messages) db

-- SELECT COUNT(1) FROM {table}: a name that is no table's is an error of the statement.
unfoldable pub count_records : String → Db → Result ℕ
count_records table db =
    if str_eq table "groups"
    then ok (length db.groups)
    else if str_eq table "admins"
    then ok (length db.admins)
    else if str_eq table "filters"
    then ok (length db.filters)
    else if str_eq table "messages"
    then ok (length db.messages)
    else if str_eq table "incoming_updates"
    then ok (length db.incoming_updates)
    else if str_eq table "settings"
    then ok (length db.settings)
    else if str_eq table "anti_state"
    then ok 0
    else if str_eq table "schema_version"
    then ok 1
    else raise operational_error

abbrev head : List MessageRow → Option MessageRow
head [] = none
head (m ∷ ms) = some m

unfoldable pub fetch_latest_message : Db → Option MessageRow
fetch_latest_message db = head (reverse db.messages)

unfoldable pub upsert_setting : String → String → List (String × String) → List (String × String)
upsert_setting key value [] = (key, value) ∷ []
upsert_setting key value ((k, v) ∷ l) =
    if str_eq k key then (k, value) ∷ l else (k, v) ∷ upsert_setting key value l

unfoldable pub set_setting : String → String → Db → Db
unfolding upsert_setting
set_setting key value db = record db { settings = upsert_setting key value db.settings }

unfoldable pub select_setting : String → List (String × String) → Option String
select_setting key [] = none
select_setting key ((k, v) ∷ l) = if str_eq k key then some v else select_setting key l

unfoldable pub get_setting : String → Db → Option String
unfolding select_setting
get_setting key db = select_setting key db.settings
