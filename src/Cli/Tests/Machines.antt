-- ===== src/Cli/Tests/Machines.antt =====
-- The theorems about what the tools do to a machine at concrete inputs.
use rubica_bot.Prelude.{
  ◌≡◌, refl, String, Bool, true, false, Option, none, some, List, [], ◌∷◌, ◌++◌, inr,
}
use rubica_bot.Prelude.Lists.{keep}
use rubica_bot.Prelude.Int.{pos}
use rubica_bot.Result.{Error, ok, raise, file_not_found_error, file_exists_error}
use rubica_bot.Json.{obj, no_fields}
use rubica_bot.Cli.Machine.{
  FilePath, FileSystem, Node, file, directory, Machine, Programs, show_path, below, with_bak,
  bak_name, at_last_dot, run,
}
use rubica_bot.Cli.Machine.Files.{with_node}
use rubica_bot.Cli.Commands.{restart}
use rubica_bot.Cli.Botctl
use rubica_bot.Cli.Botctl.Restored
use rubica_bot.Cli.EnvFile.{read_env, strip, get_key}
use rubica_bot.Cli.EnvFile.RoundTrip.{is_line, env_pairs}
use rubica_bot.Cli.Installer.Wizard.{validate_url}
use rubica_bot.Cli.Installer.Inputs.{Args, Inputs, collect_inputs, collect_given}
use rubica_bot.Cli.Installer.Bootstrap.{forward_args, prepare_install_path}
use rubica_bot.Cli.Installer.Parser.{defaults, parse_args, looks_optional}
use rubica_bot.Cli.Installer.Bootstrap.Forwarded
use rubica_bot.Cli.Installer.Bootstrap.Path
use rubica_bot.Cli.Installer.Main.{Outside, main}
use rubica_bot.Cli.Installer.Main.Kept
use rubica_bot.Cli.Configure.{configure, read_env_file}
use rubica_bot.Cli.Configure.Written

abbrev bot : FilePath
bot = "opt" ∷ "bot" ∷ []

abbrev bot_backup : FilePath
bot_backup = "opt" ∷ "bot.bak" ∷ []

abbrev a_machine : Machine
unfolding with_node
a_machine = record {
  files = with_node bot directory (
      with_node bot_backup directory (
        with_node ("new" ∷ []) directory
          (with_node (bot ++ ".env" ∷ []) (file "RUBIKA_WEBHOOK_SECRET=s\nPORT=1\n") (λ q. none))));
  ran = [];
  answers = [];
  choices = [];
  posted = [];
}

-- Programs that end well and change no file.
abbrev quiet : Programs
quiet cmd fs = (true, fs)

rollback-deploy_example :
    (m' : Machine) × (Botctl.rollback quiet "bot" bot
        (Botctl.deploy quiet "python3" "bot" ("new" ∷ []) bot a_machine).1
      ≡ run quiet (restart "bot") m')
    × ((r : FilePath) → m'.files (bot ++ r) ≡ a_machine.files (bot ++ r))
unfolding with_bak bak_name at_last_dot with_node below
rollback-deploy_example =
    Restored.rollback-deploy quiet "python3" "bot" ("new" ∷ []) bot bot_backup a_machine refl
      (λ e. cc e) (λ cmd fs r. refl, λ cmd fs. refl) refl (inr refl)

deploy-bak_example :
    (m' : Machine) × (Botctl.deploy quiet "python3" "bot" ("new" ∷ []) bot_backup a_machine
      ≡ (raise file_not_found_error, m'))
    × ((r : FilePath) → m'.files (bot_backup ++ r) ≡ none)
unfolding with_bak bak_name at_last_dot with_node below
deploy-bak_example =
    Restored.deploy-bak quiet "python3" "bot" ("new" ∷ []) bot_backup a_machine refl refl

-- Of these names, the ones that are in a directory.
abbrev names_in : FileSystem → FilePath → List String
unfolding keep
names_in fs p = keep (λ name. is_there (fs (p ++ name ∷ []))) (".env" ∷ "app" ∷ [])
  where
    is_there : Option Node → Bool
    is_there none = false
    is_there (some n) = true

prepare_install_path_lem_example :
    ((m' : Machine) × (prepare_install_path names_in bot (some "backup") true a_machine
        ≡ (ok tt, m'))
      × ((r : FilePath) → m'.files (bot_backup ++ r) ≡ a_machine.files (bot ++ r))
      × ((r : FilePath) → m'.files (bot ++ r) ≡ none))
    × ((m' : Machine) × (prepare_install_path names_in bot (some "remove") true a_machine
          ≡ (ok tt, m'))
        × ((r : FilePath) → m'.files (bot ++ r) ≡ none)
        × ((q : FilePath) → below bot q ≡ none → m'.files q ≡ a_machine.files q))
    × (prepare_install_path names_in bot (some "abort") true a_machine
        ≡ (raise (file_exists_error (show_path bot)), a_machine))
    × (prepare_install_path names_in bot none true a_machine
        ≡ (raise (file_exists_error (show_path bot)), a_machine))
    × (prepare_install_path names_in bot
          (some "abort")
          false
          (record a_machine { answers = "remove" ∷ [] })
        ≡ prepare_install_path names_in bot
            (some "remove")
            true
            (record a_machine { answers = [] }))
unfolding with_bak bak_name at_last_dot with_node below keep
prepare_install_path_lem_example =
    Path.prepare_install_path_lem names_in bot bot_backup a_machine refl (λ e. cc e) refl (inr refl)
      refl (some "abort") "abort" "remove" [] refl refl refl refl

abbrev some_args : Args
some_args = record defaults {
  token = some "t0";
  owner_id = some "42";
  webhook_base_url = "https://x";
  port = pos 81;
  skip_pip = true;
  non_interactive = true;
}

parse_args-forward_args_example :
    parse_args (forward_args some_args)
    ≡ ok (record some_args {
      github_repo = none;
      github_ref = none;
      install_path = none;
      install_action = none;
      skip_pip = false;
    })
unfolding looks_optional
parse_args-forward_args_example =
    Forwarded.parse_args-forward_args some_args 81 refl
      (refl, refl, refl, refl, refl, refl, refl, refl)

abbrev outside : Outside
outside = record {
  programs = quiet;
  reply = λ address body. ok (obj no_fields);
  environ = λ name. none;
  urlparse = λ text. ok (record { scheme = "https"; netloc = "x"; hostname = some "x" });
  has_apt = true;
  executable = "python3";
  root = bot;
  iterdir = names_in;
}

abbrev collected : Inputs
collected = record {
  token = "t0";
  owner_id = "42";
  api_base_url = "https://botapi.rubika.ir/v3";
  webhook_base_url = "https://x";
  webhook_secret = "";
  venv_path = ".venv";
  service_name = "rubika-bot";
  host = "0.0.0.0";
  port = pos 81;
  run_tests = true;
  skip_pip = true;
  write_env = true;
  write_systemd = true;
  force = false;
  run_app = false;
  install_deps = false;
  with_nginx = false;
  with_ssl = false;
  systemd_install = false;
  register_webhook = true;
}

main-keeps_env_example :
    ((main outside some_args a_machine).1.files (bot ++ ".env" ∷ [])
      ≡ some (file "RUBIKA_WEBHOOK_SECRET=s\nPORT=1\n"))
    × ((main outside some_args a_machine).1.posted ≡ [])
    × ((e : Error) × ((main outside some_args a_machine).0 ≡ raise e))
unfolding collect_inputs collect_given validate_url with_node below
main-keeps_env_example =
    Kept.main-keeps_env outside "RUBIKA_WEBHOOK_SECRET=s\nPORT=1\n" [] (λ cmd fs. refl) collected
      refl refl some_args a_machine a_machine refl refl refl refl

read_env_file-configure_example :
    (m' : Machine) × (configure bot "t0" "42" "https://x" "https://api" "" true a_machine
      ≡ (ok tt, m'))
    × (read_env_file (bot ++ ".env" ∷ []) m'
        ≡ (ok (env_pairs "t0" "https://api" "https://x" "s" "42"), m'))
unfolding with_node below is_line strip read_env get_key
read_env_file-configure_example =
    Written.read_env_file-configure bot "t0" "42" "https://x" "https://api" ""
      "RUBIKA_WEBHOOK_SECRET=s\nPORT=1\n" a_machine refl refl refl refl refl refl refl refl refl
      refl refl
