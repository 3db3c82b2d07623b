-- ===== src/Db/Migrations.antt =====
-- app/db/migrations.py. A schema is the tables, the indexes and the rows of `schema_version`; a
-- statement is `CREATE … IF NOT EXISTS`, which does nothing where the name is taken. The directory of
-- the file, the commits and the log are left out.
pub mod Statements
pub mod Upgrade
use rubica_bot.Prelude.{
  ℕ, zero, suc, ◌+◌, ◌-◌, String, Bool, true, false, ◌&&◌, Option, none, some, List, [], ◌∷◌, ◌++◌,
  ltb, str_eq, if◌then◌else◌, ◌==◌,
}
use rubica_bot.Prelude.Lists.{any, all}
use rubica_bot.Result.{Result, ok, raise, operational_error, ◌>>=◌}

-- A column's name and its declaration.
abbrev pub Column : Type 0
Column = String × String

-- A table with its columns and its PRIMARY KEY clause; an index with the columns it is on, which
-- are marked where the order is DESC.
pub data Statement : Type 0 where
  create_table : String → List Column → List String → Statement
  create_index : String → String → List (String × Bool) → Statement

pub record Table : Type 0 where
  pub name : String
  pub columns : List Column
  pub primary_key : List String

pub record Schema : Type 0 where
  pub tables : List Table
  pub indexes : List String
  pub versions : List ℕ

abbrev pub empty_schema : Schema
empty_schema = record { tables = []; indexes = []; versions = [] }

unfoldable pub find_table : String → List Table → Option Table
find_table name [] = none
find_table name (t ∷ ts) = if str_eq t.name name then some t else find_table name ts

abbrev pub has_column : Table → String × Bool → Bool
has_column t c = any (λ (k : Column). str_eq k.0 c.0) t.columns

abbrev pub index_table : Option Table → String → List (String × Bool) → Schema → Result Schema
index_table none name columns s = raise operational_error
index_table (some t) name columns s =
    if all (has_column t) columns
    then ok (record s { indexes = name ∷ s.indexes })
    else raise operational_error

abbrev pub add_table : Option Table → Table → Schema → Result Schema
add_table (some t) table s = ok s
add_table none table s = ok (record s { tables = s.tables ++ table ∷ [] })

-- cursor.execute(statement)
unfoldable pub execute : Statement → Schema → Result Schema
unfolding find_table any all
execute (create_table name columns primary_key) s =
    add_table (find_table name s.tables)
      (record { name = name; columns = columns; primary_key = primary_key }) s
execute (create_index name table columns) s =
    if any (str_eq name) s.indexes
    then ok s
    else index_table (find_table table s.tables) name columns s

unfoldable pub execute_all : List Statement → Schema → Result Schema
unfolding execute
execute_all [] s = ok s
execute_all (statement ∷ statements) s = execute statement s >>= execute_all statements

abbrev pub schema_version : ℕ
schema_version = 4

abbrev schema_version_table : Statement
schema_version_table = create_table "schema_version" (("version", "INTEGER NOT NULL") ∷ []) ([])

abbrev groups_table : Statement
groups_table =
    create_table "groups"
      (("chat_id", "TEXT PRIMARY KEY")
        ∷ ("title", "TEXT")
        ∷ ("anti_link", "INTEGER DEFAULT 1")
        ∷ ("anti_flood", "INTEGER DEFAULT 0")
        ∷ ("anti_spam", "INTEGER DEFAULT 0")
        ∷ ("anti_badwords", "INTEGER DEFAULT 0")
        ∷ ("anti_forward", "INTEGER DEFAULT 0")
        ∷ ("flood_limit", "INTEGER DEFAULT 6")
        ∷ ("created_at", "TEXT DEFAULT CURRENT_TIMESTAMP")
        ∷ ("updated_at", "TEXT DEFAULT CURRENT_TIMESTAMP")
        ∷ [])
      ([])

abbrev admins_table : Statement
admins_table =
    create_table "admins"
      (("chat_id", "TEXT NOT NULL")
        ∷ ("user_id", "TEXT NOT NULL")
        ∷ ("role", "TEXT DEFAULT 'admin'")
        ∷ [])
      ("chat_id" ∷ "user_id" ∷ [])

abbrev filters_table : Statement
filters_table =
    create_table "filters"
      (("chat_id", "TEXT NOT NULL")
        ∷ ("word", "TEXT NOT NULL")
        ∷ ("is_whitelist", "INTEGER DEFAULT 0")
        ∷ ("regex_enabled", "INTEGER DEFAULT 0")
        ∷ ("created_at", "TEXT DEFAULT CURRENT_TIMESTAMP")
        ∷ [])
      ("chat_id" ∷ "word" ∷ [])

abbrev messages_table : Statement
messages_table =
    create_table "messages"
      (("id", "INTEGER PRIMARY KEY AUTOINCREMENT")
        ∷ ("chat_id", "TEXT NOT NULL")
        ∷ ("message_id", "TEXT NOT NULL")
        ∷ ("sender_id", "TEXT")
        ∷ ("text", "TEXT")
        ∷ ("created_at", "TEXT DEFAULT CURRENT_TIMESTAMP")
        ∷ [])
      ([])

abbrev pub idx_messages_chat_created : Statement
idx_messages_chat_created =
    create_index "idx_messages_chat_created" "messages" (("chat_id", false) ∷ ("id", true) ∷ [])

abbrev anti_state_table : Statement
anti_state_table =
    create_table "anti_state"
      (("chat_id", "TEXT NOT NULL")
        ∷ ("key", "TEXT NOT NULL")
        ∷ ("value", "TEXT NOT NULL")
        ∷ ("updated_at", "TEXT DEFAULT CURRENT_TIMESTAMP")
        ∷ [])
      ("chat_id" ∷ "key" ∷ [])

abbrev settings_table : Statement
settings_table =
    create_table "settings"
      (("key", "TEXT PRIMARY KEY")
        ∷ ("value", "TEXT NOT NULL")
        ∷ ("updated_at", "TEXT DEFAULT CURRENT_TIMESTAMP")
        ∷ [])
      ([])

abbrev incoming_updates_table : Statement
incoming_updates_table =
    create_table "incoming_updates"
      (("id", "INTEGER PRIMARY KEY AUTOINCREMENT")
        ∷ ("job_id", "TEXT NOT NULL")
        ∷ ("received_at", "REAL NOT NULL")
        ∷ ("chat_id", "TEXT")
        ∷ ("message_id", "TEXT")
        ∷ ("sender_id", "TEXT")
        ∷ ("update_type", "TEXT")
        ∷ ("text", "TEXT")
        ∷ ("raw_payload", "TEXT")
        ∷ ("created_at", "TEXT DEFAULT CURRENT_TIMESTAMP")
        ∷ [])
      ([])

abbrev pub idx_incoming_updates_job : Statement
idx_incoming_updates_job =
    create_index "idx_incoming_updates_job" "incoming_updates" (("job_id", false) ∷ [])

abbrev pub idx_incoming_updates_received : Statement
idx_incoming_updates_received =
    create_index "idx_incoming_updates_received" "incoming_updates" (("received_at", false) ∷ [])

abbrev pub initial_schema : List Statement
initial_schema =
    schema_version_table ∷ groups_table ∷ admins_table ∷ filters_table ∷ messages_table
    ∷ idx_messages_chat_created ∷ anti_state_table ∷ settings_table ∷ incoming_updates_table
    ∷ idx_incoming_updates_job ∷ idx_incoming_updates_received ∷ []

-- MIGRATIONS.get(version, [])
abbrev pub migrations : ℕ → List Statement
migrations version =
    if version == 2
    then settings_table ∷ []
    else if version == 3
    then incoming_updates_table ∷ idx_incoming_updates_job ∷ []
    else if version == 4
    then idx_incoming_updates_received ∷ []
    else []

-- `for version in range(current_version + 1, SCHEMA_VERSION + 1)`, in `count` rounds
unfoldable pub migrate : ℕ → ℕ → Schema → Result Schema
unfolding execute_all
migrate zero version s = ok s
migrate (suc count) version s = execute_all (migrations version) s >>= migrate count (version + 1)

abbrev pub map_versions : ℕ → List ℕ → List ℕ
map_versions v [] = []
map_versions v (x ∷ xs) = v ∷ map_versions v xs

-- UPDATE schema_version SET version = ?
abbrev pub set_versions : Schema → Result Schema
set_versions s = ok (record s { versions = map_versions schema_version s.versions })

-- What is done with the row that the SELECT gives, if it gives one.
unfoldable pub upgrade : List ℕ → Schema → Result Schema
unfolding migrate
upgrade [] s = ok (record s { versions = schema_version ∷ [] })
upgrade (current_version ∷ _) s =
    if ltb current_version schema_version
    then migrate (schema_version - current_version) (current_version + 1) s >>= set_versions
    else ok s

unfoldable pub ensure_schema : Schema → Result Schema
unfolding execute_all upgrade
ensure_schema s = do created ← execute_all initial_schema s; upgrade created.versions created
