-- ===== src/Db/Tables.antt =====
-- The tables of app/db/migrations.py with the columns that the program reads. A table is the list of
-- its rows in the order of insertion; the time stamps `created_at` and `updated_at` are never read.
use rubica_bot.Prelude.{ℕ, String, Bool, true, false, Option, none, some, List}
use rubica_bot.Prelude.Int.{show_ℤ}
use rubica_bot.Result.{Result, ok, raise, interface_error}
use rubica_bot.Json.{Value, null, flag, num, str, arr, obj}

-- `GroupSettings`, and a row of `groups`
pub record GroupSettings : Type 0 where
  pub chat_id : String
  pub title : Option String
  pub anti_link : Bool
  pub anti_flood : Bool
  pub anti_spam : Bool
  pub anti_badwords : Bool
  pub anti_forward : Bool
  pub flood_limit : ℕ

pub record AdminRow : Type 0 where
  pub chat_id : String
  pub user_id : String
  pub role : String

pub record FilterRow : Type 0 where
  pub chat_id : String
  pub word : String
  pub is_whitelist : Bool
  pub regex_enabled : Bool

pub record MessageRow : Type 0 where
  pub id : ℕ
  pub chat_id : String
  pub message_id : String
  pub sender_id : Option String
  pub text : Option String

pub record UpdateRow : Type 0 where
  pub id : ℕ
  pub job_id : String
  pub received_at : ℕ
  pub chat_id : Option String
  pub message_id : Option String
  pub sender_id : Option String
  pub update_type : Option String
  pub text : Option String
  pub raw_payload : Option String

-- `next_message` and `next_update` are the counters of AUTOINCREMENT.
pub record Db : Type 0 where
  pub groups : List GroupSettings
  pub admins : List AdminRow
  pub filters : List FilterRow
  pub messages : List MessageRow
  pub next_message : ℕ
  pub incoming_updates : List UpdateRow
  pub next_update : ℕ
  pub settings : List (String × String)

-- What a row of `groups` has where the INSERT names only the chat and the title.
abbrev pub default_group : String → Option String → GroupSettings
default_group chat_id title = record {
  chat_id = chat_id;
  title = title;
  anti_link = true;
  anti_flood = false;
  anti_spam = false;
  anti_badwords = false;
  anti_forward = false;
  flood_limit = 6;
}

-- A parameter of a statement that stands for a column of type TEXT: SQLite turns a number into its
-- digits, and the driver refuses a list and a dict.
unfoldable pub bind : Value → Result (Option String)
unfolding show_ℤ
bind null = ok none
bind (str s) = ok (some s)
bind (num n) = ok (some (show_ℤ n))
bind (flag true) = ok (some "1")
bind (flag false) = ok (some "0")
bind (arr _) = raise interface_error
bind (obj _) = raise interface_error

-- The same for a column that is not NULL.
unfoldable pub column : Value → Result String
unfolding show_ℤ
column null = raise interface_error
column (str s) = ok s
column (num n) = ok (show_ℤ n)
column (flag true) = ok "1"
column (flag false) = ok "0"
column (arr _) = raise interface_error
column (obj _) = raise interface_error
