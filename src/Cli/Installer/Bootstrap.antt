-- ===== src/Cli/Installer/Bootstrap.antt =====
-- install.py: `prepare_install_path` and `bootstrap_from_github`. The names in a directory are a
-- parameter.
pub mod Forwarded
pub mod Path
use Prim.Native.Char.{code}
use rubica_bot.Prelude.{
  String, Bool, true, false, not, ◌&&◌, ◌||◌, Option, none, some, List, [], ◌∷◌, ◌++◌, str_eq,
  if◌then◌else◌, ◌==◌,
}
use rubica_bot.Prelude.Int.{ℤ, pos, show_ℤ}
use rubica_bot.Prelude.Text.{◌<+>◌, is_empty, contains, starts_with}
use rubica_bot.Result.{
  Result, ok, raise, Error, file_exists_error, not_a_directory_error, system_exit, eof_error,
}
use rubica_bot.Cli.Machine.{
  FilePath, FileSystem, show_path, Node, file, directory, with_bak, Machine, Programs, Script,
  ◌>>=◌, ◌>>◌, return, lift, exists, run, at_last_dot,
}
use rubica_bot.Cli.Machine.Files.{rmtree, move_over, join_path}
use rubica_bot.Cli.Installer.{all_digits}
use rubica_bot.Cli.Installer.Inputs.{Args, get_or, text_or, parse_port}

abbrev pub is_nil : List String → Bool
is_nil [] = true
is_nil (a ∷ rest) = false

-- any(dest.iterdir()), for a path that exists; `iterdir` is of the machine's files.
unfoldable pub is_used : (FileSystem → FilePath → List String) → FilePath → Script Bool
is_used iterdir dest m = elim (m.files dest) [
  | some (file text) ↦ (raise not_a_directory_error, m)
  | _ ↦ (ok (not (is_nil (iterdir m.files dest))), m)
]

-- Prompt.ask with choices: the answer is one of them.
unfoldable pub ask_action : Script String
ask_action m = elim m.answers [
  | [] ↦ (raise eof_error, m)
  | (a ∷ rest) ↦ (ok a, record m { answers = rest })
]

unfoldable pub carry_out : FilePath → String → Script {0} Unit
unfolding with_bak move_over rmtree
carry_out dest chosen =
    if str_eq chosen "backup"
    then (do backup ← lift (with_bak dest); move_over dest backup)
    else if str_eq chosen "remove"
    then rmtree dest
    else lift (raise (file_exists_error (show_path dest)))

unfoldable pub prepare_used : FilePath → Option String → Bool → Script {0} Unit
unfolding ask_action carry_out
prepare_used dest action non_interactive = do
  chosen ← (if non_interactive then return (text_or action "abort") else ask_action)
  carry_out dest chosen

unfoldable pub prepare_install_path :
    (FileSystem → FilePath → List String) → FilePath → Option String → Bool → Script {0} Unit
unfolding is_used prepare_used
prepare_install_path iterdir dest action non_interactive = do
  there ← exists dest
  if not there then return tt else do
    used ← is_used iterdir dest
    if not used then return tt else prepare_used dest action non_interactive

-- A value of `passthrough`.
pub data Passed : Type 0 where
  text : Option String → Passed
  number : ℤ → Passed
  flag : Bool → Passed

-- f"--{key.replace('_', '-')}"
unfoldable pub dashed : String → String
dashed String.[] = ""
dashed (String.◌∷◌ c s) =
    let rest = dashed s in if code c == b'_' then "-" <+> rest else String.◌∷◌ c rest

unfoldable pub option_of : String → String
unfolding dashed
option_of key = "--" <+> dashed key

abbrev pub words_of : String → Passed → List String
words_of key (flag b) = if b then option_of key ∷ [] else []
words_of key (text none) = []
words_of key (text (some v)) = option_of key ∷ v ∷ []
words_of key (number n) = option_of key ∷ show_ℤ n ∷ []

abbrev pub passthrough : Args → List (String × Passed)
passthrough args =
    ("token", text args.token)
    ∷ ("owner_id", text args.owner_id)
    ∷ ("api_base_url", text (some args.api_base_url))
    ∷ ("webhook_base_url", text (some args.webhook_base_url))
    ∷ ("webhook_secret", text (some args.webhook_secret))
    ∷ ("venv_path", text (some args.venv_path))
    ∷ ("service_name", text (some args.service_name))
    ∷ ("host", text (some args.host))
    ∷ ("port", number args.port)
    ∷ ("no_tests", flag args.no_tests)
    ∷ ("no_systemd", flag args.no_systemd)
    ∷ ("no_env", flag args.no_env)
    ∷ ("force", flag args.force)
    ∷ ("run", flag args.run)
    ∷ ("non_interactive", flag args.non_interactive)
    ∷ ("install_deps", flag args.install_deps)
    ∷ ("with_nginx", flag args.with_nginx)
    ∷ ("with_ssl", flag args.with_ssl)
    ∷ ("systemd_install", flag args.systemd_install)
    ∷ ("no_webhook", flag args.no_webhook)
    ∷ []

unfoldable pub forward_from : List (String × Passed) → List String
unfolding option_of
forward_from [] = []
forward_from ((key, value) ∷ rest) = words_of key value ++ forward_from rest

unfoldable pub forward_args : Args → List String
unfolding forward_from
forward_args args = forward_from (passthrough args)

unfoldable pub clone_cmd : Args → String → FilePath → List String
clone_cmd args github_repo dest =
    "git"
      ∷ "clone"
      ∷ (if is_empty (get_or args.github_ref "")
          then []
          else "--branch" ∷ get_or args.github_ref "" ∷ [])
    ++ github_repo ∷ show_path dest ∷ []

-- For a repository that is given; `install_path` is absolute.
unfoldable pub bootstrap_from_github :
    Programs → (FileSystem → FilePath → List String) → String → Args → String → Script {0} Unit
unfolding prepare_install_path run clone_cmd forward_args join_path
bootstrap_from_github programs iterdir executable args github_repo = do
  let dest = join_path [] (text_or args.install_path "/opt/rubika-bot")
  prepare_install_path iterdir dest args.install_action args.non_interactive
  run programs (clone_cmd args github_repo dest)
  run programs (executable ∷ show_path (dest ++ "install.py" ∷ []) ∷ forward_args args)
  lift (raise system_exit)
