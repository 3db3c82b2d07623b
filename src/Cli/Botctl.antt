-- ===== src/Cli/Botctl.antt =====
-- app/cli/botctl.py: the commands, on the paths that `expanduser().resolve()` gives. What the programs
-- that are run do to the files is a parameter.
pub mod Restored
use rubica_bot.Prelude.{ℕ, String, Bool, true, false, not, List, [], ◌∷◌, ◌++◌, if◌then◌else◌, ◌==◌}
use rubica_bot.Prelude.Text.{◌<+>◌, is_empty, show_ℕ}
use rubica_bot.Result.{Result, ok, raise, bad_parameter}
use rubica_bot.Cli.Machine.{
  FilePath, show_path, with_bak, Machine, Programs, Script, ◌>>=◌, ◌>>◌, return, lift, when, exists,
  run,
}
use rubica_bot.Cli.Machine.Files.{clear, copytree, move_over}
use rubica_bot.Cli.Commands.{restart, pip_install, pytest}

-- The backup of an installation that is there.
unfoldable pub set_aside : FilePath → Script {0} Unit
unfolding move_over with_bak
set_aside target = do
  there ← exists target
  when there (do backup ← lift (with_bak target); move_over target backup)

module _ (programs : Programs) where
  unfoldable pub bring_up : String → String → FilePath → FilePath → Script {0} Unit
  unfolding copytree run
  bring_up python service source target = do
    copytree source target
    run programs (pip_install python (show_path (target ++ "requirements.txt" ∷ [])))
    run programs (pytest python (show_path (target ++ "tests" ∷ [])))
    run programs (restart service)

  unfoldable pub deploy : String → String → FilePath → FilePath → Script {0} Unit
  unfolding set_aside bring_up
  deploy python service source target = do set_aside target; bring_up python service source target

  unfoldable pub rollback : String → FilePath → Script {0} Unit
  unfolding move_over with_bak run
  rollback service target = do
    backup ← lift (with_bak target)
    kept ← exists backup
    when kept (do move_over backup target; run programs (restart service))

  unfoldable pub status : String → Script {0} Unit
  unfolding run
  status service = run programs ("systemctl" ∷ "status" ∷ service ∷ [])

  unfoldable pub logs : String → Script {0} Unit
  unfolding run
  logs service = run programs ("journalctl" ∷ "-u" ∷ service ∷ "-n" ∷ "200" ∷ "--no-pager" ∷ [])

  unfoldable pub check : String → Script {0} Unit
  unfolding run
  check python = do
    run programs (pip_install python "requirements.txt")
    run programs (pytest python "tests")
    run programs (python ∷ "-m" ∷ "app.utils.speedcheck" ∷ [])
