-- ===== src/Cli/Installer/Parser.antt =====
-- install.py: the parser of `build_parser`, on options that are written out and stand apart from
-- their values.
use Prim.Native.Char.{code}
use rubica_bot.Prelude.{
  String, Bool, true, false, not, ◌&&◌, ◌||◌, Option, none, some, List, [], ◌∷◌, str_eq,
  if◌then◌else◌, ◌==◌,
}
use rubica_bot.Prelude.Int.{pos}
use rubica_bot.Prelude.Text.{is_empty, contains, starts_with}
use rubica_bot.Result.{Result, ok, raise, system_exit}
use rubica_bot.Cli.Machine.{at_last_dot}
use rubica_bot.Cli.Installer.{all_digits}
use rubica_bot.Cli.Installer.Inputs.{Args, parse_port}

-- What an option of `build_parser` does: it takes a value, or sets a flag.
pub data Taken : Type 0 where
  value : (String → Args → Result Args) → Taken
  set : (Args → Args) → Taken

abbrev stored : (String → Args → Args) → Taken
stored f = value (λ v a. ok (f v a))

abbrev is_action : String → Bool
is_action v = str_eq v "backup" || str_eq v "remove" || str_eq v "abort"

abbrev pub set_port : String → Args → Result Args
set_port v a = elim (parse_port v) [
  | ok n ↦ ok (record a { port = n })
  | raise e ↦ raise system_exit
]

abbrev pub options : List (String × Taken)
options =
    ("--github-repo", stored (λ v a. record a { github_repo = some v }))
    ∷ ("--github-ref", stored (λ v a. record a { github_ref = some v }))
    ∷ ("--install-path", stored (λ v a. record a { install_path = some v }))
    ∷ (
      "--install-action",
      value (λ v a.
          if is_action v then ok (record a { install_action = some v }) else raise system_exit),
    )
    ∷ ("--token", stored (λ v a. record a { token = some v }))
    ∷ ("--owner-id", stored (λ v a. record a { owner_id = some v }))
    ∷ ("--api-base-url", stored (λ v a. record a { api_base_url = v }))
    ∷ ("--webhook-base-url", stored (λ v a. record a { webhook_base_url = v }))
    ∷ ("--webhook-secret", stored (λ v a. record a { webhook_secret = v }))
    ∷ ("--venv-path", stored (λ v a. record a { venv_path = v }))
    ∷ ("--service-name", stored (λ v a. record a { service_name = v }))
    ∷ ("--host", stored (λ v a. record a { host = v }))
    ∷ ("--port", value set_port)
    ∷ ("--no-tests", set (λ a. record a { no_tests = true }))
    ∷ ("--skip-pip", set (λ a. record a { skip_pip = true }))
    ∷ ("--no-systemd", set (λ a. record a { no_systemd = true }))
    ∷ ("--no-env", set (λ a. record a { no_env = true }))
    ∷ ("--force", set (λ a. record a { force = true }))
    ∷ ("--run", set (λ a. record a { run = true }))
    ∷ ("--non-interactive", set (λ a. record a { non_interactive = true }))
    ∷ ("--install-deps", set (λ a. record a { install_deps = true }))
    ∷ ("--with-nginx", set (λ a. record a { with_nginx = true }))
    ∷ ("--with-ssl", set (λ a. record a { with_ssl = true }))
    ∷ ("--systemd-install", set (λ a. record a { systemd_install = true }))
    ∷ ("--no-webhook", set (λ a. record a { no_webhook = true }))
    ∷ []

abbrev pub defaults : Args
defaults = record {
  github_repo = none;
  github_ref = none;
  install_path = none;
  install_action = none;
  token = none;
  owner_id = none;
  api_base_url = "https://botapi.rubika.ir/v3";
  webhook_base_url = "";
  webhook_secret = "";
  venv_path = ".venv";
  service_name = "rubika-bot";
  host = "0.0.0.0";
  port = pos 8080;
  no_tests = false;
  skip_pip = false;
  no_systemd = false;
  no_env = false;
  force = false;
  run = false;
  non_interactive = false;
  install_deps = false;
  with_nginx = false;
  with_ssl = false;
  systemd_install = false;
  no_webhook = false;
}

unfoldable pub find_option : String → List (String × Taken) → Option Taken
find_option w [] = none
find_option w ((name, t) ∷ rest) =
    let later = find_option w rest in if str_eq name w then some t else later

abbrev is_number : String → Bool
unfolding at_last_dot all_digits
is_number s = elim (at_last_dot s) [
  | none ↦ not (is_empty s) && all_digits s
  | some (a, b) ↦ all_digits a && not (is_empty b) && all_digits b
]

unfoldable before_equals : String → String
before_equals String.[] = ""
before_equals (String.◌∷◌ c s) =
    let rest = before_equals s in if code c == b'=' then "" else String.◌∷◌ c rest

unfoldable is_abbreviated : String → List (String × Taken) → Bool
unfolding starts_with
is_abbreviated w [] = starts_with "--help" w
is_abbreviated w ((name, taken) ∷ rest) = starts_with name w || is_abbreviated w rest

-- What argparse takes for an option where it waits for a value: what names one, also in part or with a
-- value, and what begins with a dash and is no number and has no blank.
unfoldable pub looks_optional : String → Bool
unfolding contains is_number before_equals is_abbreviated starts_with
looks_optional String.[] = false
looks_optional (String.◌∷◌ c s) =
    code c == b'-'
    && not (is_empty s)
    && (starts_with s "h"
        || (starts_with s "-" && is_abbreviated (before_equals (String.◌∷◌ c s)) options)
        || (not (is_number s) && not (contains s " ")))

-- With the option that waits for its value, if one does. A refusal of argparse is `SystemExit(2)`.
unfoldable pub parse_from : Option (String → Args → Result Args) → List String → Args → Result Args
unfolding find_option looks_optional
parse_from none [] a = ok a
parse_from (some f) [] a = raise system_exit
parse_from (some f) (w ∷ ws) a =
    let rest = λ (a' : Args). parse_from none ws a' in
    if looks_optional w
    then raise system_exit
    else elim (f w a) [ ok a' ↦ rest a' | raise e ↦ raise e ]
parse_from none (w ∷ ws) a = elim (find_option w options) [
  | none ↦ raise system_exit
  | some (set f) ↦ parse_from none ws (f a)
  | some (value f) ↦ parse_from (some f) ws a
]

-- build_parser().parse_args(words)
unfoldable pub parse_args : List String → Result Args
unfolding parse_from
parse_args words = parse_from none words defaults
