-- ===== src/Cli/Update.antt =====
-- app/cli/rubikactl.py: `update`, `rollback`, `status`, `logs` and `fix service`. What the programs
-- that are run do to the files is a parameter.
pub mod Restored
use rubica_bot.Prelude.{ℕ, String, Bool, true, false, not, List, [], ◌∷◌, ◌++◌, if◌then◌else◌, ◌==◌}
use rubica_bot.Prelude.Text.{◌<+>◌, is_empty, show_ℕ}
use rubica_bot.Result.{Result, ok, raise, bad_parameter}
use rubica_bot.Cli.Machine.{
  FilePath, show_path, with_bak, Machine, Programs, Script, ◌>>=◌, ◌>>◌, return, lift, when, exists,
  run,
}
use rubica_bot.Cli.Machine.Files.{clear, copytree, move_over}
use rubica_bot.Cli.Commands.{restart, pip_install, pytest}

-- if backup: …
unfoldable pub back_up : FilePath → Script {0} Unit
unfolding with_bak clear copytree
back_up path = do backup_path ← lift (with_bak path); clear backup_path; copytree path backup_path

module _ (programs : Programs) where
  -- if python.exists(): …
  unfoldable pub refresh : FilePath → FilePath → Bool → Bool → Script {0} Unit
  unfolding run
  refresh path python run_tests found = when found (do
    run programs (pip_install (show_path python) (show_path (path ++ "requirements.txt" ∷ [])))
    when run_tests (run programs (pytest (show_path python) (show_path (path ++ "tests" ∷ [])))))

  -- What follows the backup; `python_root` is the virtual environment's path.
  unfoldable pub pull : FilePath → String → FilePath → Bool → Script {0} Unit
  unfolding run refresh
  pull path service python_root run_tests = do
    run programs ("git" ∷ "-C" ∷ show_path path ∷ "pull" ∷ "--rebase" ∷ [])
    let python = python_root ++ "bin" ∷ "python" ∷ []
    there ← exists python
    refresh path python run_tests there
    run programs (restart service)

  -- A relative `venv_path` is below the path of the installation.
  unfoldable pub update : FilePath → String → Bool → Bool → FilePath → Bool → Script {0} Unit
  unfolding back_up pull
  update path service backup venv_is_absolute venv_path run_tests = do
    when backup (back_up path)
    pull path service (if venv_is_absolute then venv_path else path ++ venv_path) run_tests

  unfoldable pub rollback : FilePath → String → Script {0} Unit
  unfolding move_over with_bak run
  rollback path service = do
    backup_path ← lift (with_bak path)
    kept ← exists backup_path
    if not kept
        then lift (raise bad_parameter)
        else do move_over backup_path path; run programs (restart service)

  unfoldable pub status : String → Script {0} Unit
  unfolding run
  status service = run programs ("systemctl" ∷ "status" ∷ service ∷ [])

  unfoldable pub logs : String → Bool → Script {0} Unit
  unfolding run
  logs service follow = run programs (
      if follow
      then "journalctl" ∷ "-u" ∷ service ∷ "-f" ∷ []
      else "journalctl" ∷ "-u" ∷ service ∷ "-n" ∷ "200" ∷ "--no-pager" ∷ [])

  unfoldable pub fix_service : String → Script {0} Unit
  unfolding run
  fix_service service = run programs (restart service)
