-- ===== src/Cli/Update/Restored.antt =====
-- A rollback of app/cli/rubikactl.py brings back what an update replaced.
use mathlib.Core.List.{append-nil}
use rubica_bot.Prelude.{
  ◌≡◌, ◌≢◌, inr, refl, sym, ap, ◌∙◌, Bool, true, some, [], ◌∷◌, ◌++◌, String, if◌then◌else◌,
}
use rubica_bot.Result.{ok}
use rubica_bot.Cli.Machine.{
  FilePath, directory, FileSystem, Machine, Programs, with_bak, run, exists, ◌>>◌, show_path, below,
}
use rubica_bot.Cli.Machine.Files.{with_tree, tree_at, copytree}
use rubica_bot.Cli.Machine.Trees.{
  with_bak-Apart, IsFree, clear_lem, cleared, cleared-apart, cleared_self, with_tree-apart,
  with_tree-at,
}
use rubica_bot.Cli.Machine.Keeps.{Keeps, >>-Keeps, >>=-Keeps, when-Keeps}
use rubica_bot.Cli.Commands.{restart, pip_install}
use rubica_bot.Cli.Backup.{Saved, LeavesBackup, run-Saved, move_over-restores}
use rubica_bot.Cli.Update.{back_up, refresh, pull, update, rollback}

module _ (programs : Programs) (service : String) (path backup venv_path : FilePath) (m : Machine)
    (venv_is_absolute run_tests : Bool) (bak : with_bak path ≡ ok backup) (other : backup ≢ path)
    (leaves : LeavesBackup path backup programs) (there : m.files path ≡ some directory)
    (free : IsFree (m.files backup)) where
  abbrev tree : FileSystem
  tree = tree_at path m.files

  refresh-Saved :
      (python : FilePath) (found : Bool)
      → Keeps (Saved path backup tree) (refresh programs path python run_tests found)
  unfolding refresh
  refresh-Saved python found =
      let P = Saved path backup tree in
      let runs = run-Saved programs path backup tree bak other leaves in
      let install = pip_install (show_path python) (show_path (path ++ "requirements.txt" ∷ [])) in
      when-Keeps P found _
        (>>-Keeps P (run programs install) _ (runs install) (when-Keeps P run_tests _ (runs _)))

  pull-Saved :
      (python_root : FilePath)
      → Keeps (Saved path backup tree) (pull programs path service python_root run_tests)
  unfolding pull
  pull-Saved python_root =
      let P = Saved path backup tree in
      let runs = run-Saved programs path backup tree bak other leaves in
      let python = python_root ++ "bin" ∷ "python" ∷ [] in
      >>-Keeps P (run programs ("git" ∷ "-C" ∷ show_path path ∷ "pull" ∷ "--rebase" ∷ [])) _
        (runs _)
        (>>=-Keeps P {B = Unit {0}} (exists python)
          (λ found. refresh programs path python run_tests found >> run programs (restart service))
          (λ m h. h)
          (λ found.
            >>-Keeps P (refresh programs path python run_tests found) _ (refresh-Saved python found)
              (runs _)))

  abbrev copied : Machine
  copied = record (cleared backup m) {
    files = with_tree backup (tree_at path (cleared backup m).files) (cleared backup m).files;
  }

  back_up_lem : back_up path m ≡ (ok tt, copied)
  unfolding back_up copytree
  back_up_lem =
      let (a, b) = with_bak-Apart path backup bak other in
      let here =
        cleared-apart backup path m (ap (below backup) (sym (append-nil path)) ∙ b []) ∙ there in
      rw bak (rw (clear_lem backup m free) (rw (here, copytree) (rw (cleared_self backup m) refl)))

  update-Saved :
      Saved path backup tree
        (update programs path service true venv_is_absolute venv_path run_tests m).1
  unfolding update
  update-Saved =
      let (a, b) = with_bak-Apart path backup bak other in
      let m1 = cleared backup m in
      let not_below = ap (below backup) (sym (append-nil path)) ∙ b [] in
      rw back_up_lem (
        pull-Saved (if venv_is_absolute then venv_path else path ++ venv_path) copied (
          λ r.
              with_tree-at backup (tree_at path m1.files) m1.files r
              ∙ cleared-apart backup (path ++ r) m (b r),
          inr (
              with_tree-apart backup (tree_at path m1.files) m1.files path not_below
              ∙ cleared-apart backup path m not_below
              ∙ there),
        ))

  -- However far an update with a backup comes, a rollback afterwards brings back the installation's
  -- files and then restarts the service, if the path does not end with .bak, no file stands at the
  -- backup's path, and the programs leave the backup alone and the installation a directory.
  pub rollback-update :
      (m' : Machine) × (rollback programs path service
          (update programs path service true venv_is_absolute venv_path run_tests m).1
        ≡ run programs (restart service) m')
      × ((r : FilePath) → m'.files (path ++ r) ≡ m.files (path ++ r))
  rollback-update =
      let m1 = (update programs path service true venv_is_absolute venv_path run_tests m).1 in
      let (saved, at_path) = update-Saved in
      let whole = ap m.files (append-nil path) ∙ there in
      let (m', e, same) =
        move_over-restores programs path backup tree bak other leaves m1 update-Saved whole in
      let kept = ap m1.files (sym (append-nil backup)) ∙ saved [] ∙ whole in
      (m', unfold rollback in rw bak (rw kept (rw e refl)), same)
