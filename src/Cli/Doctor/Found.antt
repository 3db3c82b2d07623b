-- ===== src/Cli/Doctor/Found.antt =====
-- What `doctor` finds on the host: the answers of the operating system, of the commands it runs, of
-- the service's addresses and of SQLite. The texts of numbers with decimals, of errors and of JSON
-- are Python's.
use rubica_bot.Prelude.{ℕ, String, Bool, Option, List}
use rubica_bot.Result.{Result, Error}
use rubica_bot.Json.{Value}

pub record Database : Type 0 where
  pub there : Bool
  pub size : ℕ
  -- the first column of the first row, if there is one
  pub quick_check : Result (Option String)
  pub journal_mode : Result (Option String)
  pub tables : Result (List String)
  pub count : String → Result ℕ
  pub last_message : Result Value

pub record Host : Type 1 where
  pub python : ℕ × ℕ
  pub python_text : String
  pub virtual_env : Option String
  pub prefix_differs : Bool
  pub path_there : Bool
  pub disk_free : Result ℕ
  pub meminfo : Result (List String)
  pub resolve : Result (Unit {0})
  pub systemctl_show : Result (List String)
  pub connect : Result (Unit {0})
  pub nginx_active : Result (Bool × String)
  pub nginx_test : Result (Bool × String)
  pub reply : String → Value → Result (ℕ × String)
  -- GET /health/queue: the status and the text
  pub health : Result (ℕ × String)
  pub loads : String → Result Value
  pub database : String → Database
  pub two_decimals : ℕ → ℕ → String
  pub show_error : Error → String
  pub dumps : Value → String
  pub repr : Value → String
  pub show_mapping : List (String × String) → String
  pub show_counts : List (String × ℕ) → String

-- The options of `doctor`.
pub record Options : Type 0 where
  pub path : String
  pub service : String
  pub port : ℕ
  pub api_base_url : String
  pub send_owner : Bool
  pub test_webhook : Bool
  pub apply_webhook : Bool
  pub yes_to_all : Bool
  pub skip_systemd : Bool
  pub skip_nginx : Bool
  pub skip_queue : Bool
  pub skip_rubika : Bool
  pub skip_dns : Bool
  pub skip_db : Bool
