-- ===== src/Cli/Botctl/Restored.antt =====
-- A rollback of app/cli/botctl.py brings back what a deployment replaced.
use mathlib.Core.List.{append-nil}
use rubica_bot.Prelude.{◌≡◌, ◌≢◌, inl, inr, refl, sym, ap, ◌∙◌, none, some, [], ◌∷◌, ◌++◌, String}
use rubica_bot.Result.{ok, raise, file_not_found_error}
use rubica_bot.Cli.Machine.{
  FilePath, directory, FileSystem, Machine, Programs, with_bak, run, show_path,
}
use rubica_bot.Cli.Machine.Files.{tree_at, copytree, move_over, move}
use rubica_bot.Cli.Machine.Trees.{
  with_bak-Apart, IsFree, moved, moved-to, moved-from, move_over_lem, clear_lem, cleared,
  cleared_self, cleared-at,
}
use rubica_bot.Cli.Machine.Keeps.{Keeps, >>-Keeps}
use rubica_bot.Cli.Commands.{restart, pip_install, pytest}
use rubica_bot.Cli.Backup.{Saved, LeavesBackup, run-Saved, copytree-Saved, move_over-restores}
use rubica_bot.Cli.Botctl.{set_aside, bring_up, deploy, rollback}

module _ (programs : Programs) (python service : String) (source target backup : FilePath)
    (m : Machine) (bak : with_bak target ≡ ok backup) (other : backup ≢ target)
    (leaves : LeavesBackup target backup programs) (there : m.files target ≡ some directory)
    (free : IsFree (m.files backup)) where
  abbrev tree : FileSystem
  tree = tree_at target m.files

  bring_up-Saved : Keeps (Saved target backup tree) (bring_up programs python service source target)
  unfolding bring_up
  bring_up-Saved =
      let P = Saved target backup tree in
      let runs = run-Saved programs target backup tree bak other leaves in
      >>-Keeps P (copytree source target) _
        (copytree-Saved programs target backup tree bak other leaves source)
        (>>-Keeps P
          (run programs (pip_install python (show_path (target ++ "requirements.txt" ∷ [])))) _
          (runs _)
          (>>-Keeps P (run programs (pytest python (show_path (target ++ "tests" ∷ [])))) _ (runs _)
            (runs _)))

  set_aside_lem :
      set_aside target m ≡ (ok tt, moved target backup m (with_bak-Apart target backup bak other))
  unfolding set_aside
  set_aside_lem =
      rw there
        (rw bak (move_over_lem target backup m (with_bak-Apart target backup bak other) there free))

  deploy-Saved : Saved target backup tree (deploy programs python service source target m).1
  unfolding deploy
  deploy-Saved =
      let apart = with_bak-Apart target backup bak other in
      rw set_aside_lem (
        bring_up-Saved (moved target backup m apart) (
          moved-to target backup m apart,
          inl (
              ap (moved target backup m apart).files (sym (append-nil target))
              ∙ moved-from target backup m apart []),
        ))

  -- However far a deployment over an installation comes, a rollback afterwards brings back the
  -- installation's files and then restarts the service, if the path does not end with .bak, no file
  -- stands at the backup's path, and the programs leave the backup alone and the installation a
  -- directory.
  pub rollback-deploy :
      (m' : Machine) × (rollback programs service target
          (deploy programs python service source target m).1
        ≡ run programs (restart service) m')
      × ((r : FilePath) → m'.files (target ++ r) ≡ m.files (target ++ r))
  rollback-deploy =
      let m1 = (deploy programs python service source target m).1 in
      let (saved, at_target) = deploy-Saved in
      let whole = ap m.files (append-nil target) ∙ there in
      let (m', e, same) =
        move_over-restores programs target backup tree bak other leaves m1 deploy-Saved whole in
      let kept = ap m1.files (sym (append-nil backup)) ∙ saved [] ∙ whole in
      (m', unfold rollback in rw bak (rw kept (rw e refl)), same)

-- A deployment to a path that ends with .bak, where an installation is, removes the installation
-- and raises.
pub deploy-bak :
    (programs : Programs) (python service : String) (source target : FilePath) (m : Machine)
    → with_bak target ≡ ok target
    → m.files target ≡ some directory
    → (m' : Machine) × (deploy programs python service source target m
        ≡ (raise file_not_found_error, m'))
      × ((r : FilePath) → m'.files (target ++ r) ≡ none)
unfolding deploy set_aside move_over move
deploy-bak programs python service source target m bak there = (
  cleared target m,
  rw there (rw bak (rw (clear_lem target m (inr there)) (rw (cleared_self target m) refl))),
  cleared-at target m there,
)
