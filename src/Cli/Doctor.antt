-- ===== src/Cli/Doctor.antt =====
-- app/cli/rubikactl.py: `doctor`, which makes the checks of its sections, counts them and says how
-- things are.
pub mod Checks
pub mod Found
pub mod System
pub mod Service
pub mod Queue
pub mod Sqlite
pub mod Verdict
use rubica_bot.Prelude.{
  ℕ, zero, suc, String, Bool, true, false, ◌&&◌, Option, none, some, List, [], ◌++◌, ◌==◌,
  if◌then◌else◌,
}
use rubica_bot.Result.{Result, ok, raise}
use rubica_bot.Cli.Machine.{Script, ◌>>=◌, return, lift}
use rubica_bot.Cli.EnvFile.{read_env, get_key}
use rubica_bot.Cli.Installer.Inputs.{or_text, get_or}
use rubica_bot.Cli.Doctor.Checks.{DoctorCheck, render_doctor_tables}
use rubica_bot.Cli.Doctor.Found.{Host, Options}
use rubica_bot.Cli.Doctor.System.{check_system, check_runtime}
use rubica_bot.Cli.Doctor.Service.{Settings, check_configuration, check_api}
use rubica_bot.Cli.Doctor.Queue.{check_queue}
use rubica_bot.Cli.Doctor.Sqlite.{check_database}

-- `read_env` of the file .env, if there is one
abbrev pub env_data_of : Option String → List (String × String)
unfolding read_env
env_data_of none = []
env_data_of (some text) = read_env text

abbrev is_some : Option String → Bool
is_some none = false
is_some (some text) = true

abbrev pub settings_of : Options → Option String → Settings
unfolding get_key env_data_of
settings_of o env =
    let env_data = env_data_of env in
    record {
      env_there = is_some env;
      token = get_or (get_key "RUBIKA_BOT_TOKEN" env_data) "";
      owner_id = get_or (get_key "RUBIKA_OWNER_ID" env_data) "";
      webhook_url = get_or (get_key "RUBIKA_WEBHOOK_BASE_URL" env_data) "";
      api_base =
          or_text o.api_base_url
            (get_or (get_key "RUBIKA_API_BASE_URL" env_data) "https://botapi.rubika.ir/v3");
    }

pub data Overall : Type 0 where
  all_good good_with_warnings issues : Overall

abbrev pub overall : ℕ × ℕ → Overall
overall (failures, warnings) =
    if failures == 0 && warnings == 0
    then all_good
    else if failures == 0
    then good_with_warnings
    else issues

-- The text of the file .env, if there is one, is an argument.
unfoldable pub all_checks : Host → Options → Option String → Script (List DoctorCheck)
unfolding check_system check_runtime check_configuration check_api check_queue check_database
    settings_of
all_checks h o env = do
  system ← lift (check_system h o)
  runtime ← lift (check_runtime h o)
  api ← check_api h o (settings_of o env)
  queue ← lift (check_queue h o)
  return (
      system
      ++ (runtime
          ++ (check_configuration h o (settings_of o env)
              ++ (api ++ (queue ++ check_database h (env_data_of env) o.skip_db)))))

unfoldable pub doctor : Host → Options → Option String → Script Overall
unfolding all_checks render_doctor_tables
doctor h o env = do checks ← all_checks h o env; return (overall (render_doctor_tables checks))
