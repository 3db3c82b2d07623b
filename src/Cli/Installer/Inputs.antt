-- ===== src/Cli/Installer/Inputs.antt =====
-- install.py: the arguments of the parser, and `collect_inputs`. `urlparse` and `os.environ` are
-- parameters.
use rubica_bot.Prelude.{String, Bool, true, false, not, ◌||◌, Option, none, some, if◌then◌else◌}
use rubica_bot.Prelude.Int.{ℤ, show_ℤ, parse_ℤ}
use rubica_bot.Prelude.Text.{is_empty}
use rubica_bot.Result.{Result, ok, raise, value_error}
use rubica_bot.Cli.Machine.{Script, ◌>>=◌, return, lift}
use rubica_bot.Cli.Installer.{validate_owner_id}
use rubica_bot.Cli.Installer.Wizard.{Url, validate_url, prompt_text, prompt_validated, prompt_bool}

pub record Args : Type 0 where
  pub github_repo : Option String
  pub github_ref : Option String
  pub install_path : Option String
  pub install_action : Option String
  pub token : Option String
  pub owner_id : Option String
  pub api_base_url : String
  pub webhook_base_url : String
  pub webhook_secret : String
  pub venv_path : String
  pub service_name : String
  pub host : String
  pub port : ℤ
  pub no_tests : Bool
  pub skip_pip : Bool
  pub no_systemd : Bool
  pub no_env : Bool
  pub force : Bool
  pub run : Bool
  pub non_interactive : Bool
  pub install_deps : Bool
  pub with_nginx : Bool
  pub with_ssl : Bool
  pub systemd_install : Bool
  pub no_webhook : Bool

pub record Inputs : Type 0 where
  pub token : String
  pub owner_id : String
  pub api_base_url : String
  pub webhook_base_url : String
  pub webhook_secret : String
  pub venv_path : String
  pub service_name : String
  pub host : String
  pub port : ℤ
  pub run_tests : Bool
  pub skip_pip : Bool
  pub write_env : Bool
  pub write_systemd : Bool
  pub force : Bool
  pub run_app : Bool
  pub install_deps : Bool
  pub with_nginx : Bool
  pub with_ssl : Bool
  pub systemd_install : Bool
  pub register_webhook : Bool

-- `a or b`, on texts
abbrev pub or_text : String → String → String
or_text a b = if is_empty a then b else a

abbrev pub text_or : Option String → String → String
text_or none b = b
text_or (some a) b = or_text a b

abbrev pub get_or : Option String → String → String
get_or none d = d
get_or (some s) d = s

-- `args.x or prompt(…)`
abbrev pub given_or : Option String → Script String → Script String
given_or none s = s
given_or (some a) s = if is_empty a then s else return a

-- int(s)
unfoldable pub parse_port : String → Result ℤ
unfolding parse_ℤ
parse_port s = elim (parse_ℤ s) [ some n ↦ ok n | none ↦ raise value_error ]

-- prompt_text(label, default=…)
abbrev pub with_default : String → Script String
with_default d = prompt_text (some d) false

-- The answers of the wizard's middle part, and its choices.
pub record Texts : Type 0 where
  pub webhook_secret : String
  pub venv_path : String
  pub service_name : String
  pub host : String
  pub port : ℤ

pub record Choices : Type 0 where
  pub install_deps : Bool
  pub with_nginx : Bool
  pub with_ssl : Bool
  pub run_tests : Bool
  pub write_env : Bool
  pub write_systemd : Bool
  pub systemd_install : Bool
  pub force : Bool
  pub run_app : Bool
  pub register_webhook : Bool

unfoldable pub ask_texts : Args → Script Texts
unfolding prompt_text parse_port
ask_texts args = do
  webhook_secret ← with_default args.webhook_secret
  venv_path ← with_default args.venv_path
  service_name ← with_default args.service_name
  host ← with_default args.host
  port_text ← with_default (show_ℤ args.port)
  port ← lift (parse_port port_text)
  return record {
    webhook_secret = webhook_secret;
    venv_path = venv_path;
    service_name = service_name;
    host = host;
    port = port;
  }

-- A choice that is not offered is `False`.
unfoldable pub ask_choices : Script Choices
unfolding prompt_bool
ask_choices = do
  install_deps ← prompt_bool
  with_nginx ← prompt_bool
  with_ssl ← (if with_nginx then prompt_bool else return false)
  run_tests ← prompt_bool
  write_env ← prompt_bool
  write_systemd ← prompt_bool
  systemd_install ← (if write_systemd then prompt_bool else return false)
  force ← prompt_bool
  run_app ← prompt_bool
  register_webhook ← prompt_bool
  return record {
    install_deps = install_deps;
    with_nginx = with_nginx;
    with_ssl = with_ssl;
    run_tests = run_tests;
    write_env = write_env;
    write_systemd = write_systemd;
    systemd_install = systemd_install;
    force = force;
    run_app = run_app;
    register_webhook = register_webhook;
  }

abbrev pub inputs_of : String → String → String → String → Texts → Choices → Inputs
inputs_of token owner_id api_base_url webhook_base_url texts choices = record {
  token = token;
  owner_id = owner_id;
  api_base_url = api_base_url;
  webhook_base_url = webhook_base_url;
  webhook_secret = texts.webhook_secret;
  venv_path = texts.venv_path;
  service_name = texts.service_name;
  host = texts.host;
  port = texts.port;
  run_tests = choices.run_tests;
  skip_pip = false;
  write_env = choices.write_env;
  write_systemd = choices.write_systemd;
  force = choices.force;
  run_app = choices.run_app;
  install_deps = choices.install_deps;
  with_nginx = choices.with_nginx;
  with_ssl = choices.with_ssl;
  systemd_install = choices.systemd_install;
  register_webhook = choices.register_webhook;
}

module _ (urlparse : String → Result Url) (environ : String → Option String) where
  unfoldable pub collect_given : Args → Result Inputs
  unfolding validate_url
  collect_given args =
      let token = text_or args.token (get_or (environ "RUBIKA_BOT_TOKEN") "") in
      let owner_id = text_or args.owner_id (get_or (environ "RUBIKA_OWNER_ID") "") in
      let webhook_base_url =
        or_text args.webhook_base_url (get_or (environ "RUBIKA_WEBHOOK_BASE_URL") "") in
      if is_empty token || is_empty owner_id
      then raise value_error
      else elim (validate_url urlparse true webhook_base_url) [
        | raise e ↦ raise e
        | ok webhook_base_url' ↦ ok record {
          token = token;
          owner_id = owner_id;
          api_base_url =
              or_text args.api_base_url (get_or (environ "RUBIKA_API_BASE_URL") args.api_base_url);
          webhook_base_url = webhook_base_url';
          webhook_secret =
              or_text args.webhook_secret (get_or (environ "RUBIKA_WEBHOOK_SECRET") "");
          venv_path = args.venv_path;
          service_name = args.service_name;
          host = args.host;
          port = args.port;
          run_tests = not args.no_tests;
          skip_pip = args.skip_pip;
          write_env = not args.no_env;
          write_systemd = not args.no_systemd;
          force = args.force;
          run_app = args.run;
          install_deps = args.install_deps;
          with_nginx = args.with_nginx;
          with_ssl = args.with_ssl;
          systemd_install = args.systemd_install;
          register_webhook = not args.no_webhook;
        }
      ]

  -- The questions of the wizard, in their order.
  unfoldable pub collect_asked : Args → Script Inputs
  unfolding prompt_text prompt_validated validate_owner_id validate_url ask_texts ask_choices
  collect_asked args = do
    token ← given_or args.token (prompt_text none true)
    owner_id ← given_or args.owner_id (prompt_validated validate_owner_id none)
    api_base_url ← with_default args.api_base_url
    webhook_base_url ← prompt_validated (validate_url urlparse true) (some args.webhook_base_url)
    texts ← ask_texts args
    choices ← ask_choices
    return (inputs_of token owner_id api_base_url webhook_base_url texts choices)

  unfoldable pub collect_inputs : Args → Script Inputs
  unfolding collect_given collect_asked
  collect_inputs args =
      if args.non_interactive then lift (collect_given args) else collect_asked args
