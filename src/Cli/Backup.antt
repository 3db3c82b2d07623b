-- ===== src/Cli/Backup.antt =====
-- An installation whose tree is kept under the backup's path, through the steps of the tools.
use mathlib.Core.List.{append-nil}
use rubica_bot.Prelude.{
  ◌≡◌, ◌≢◌, inl, inr, refl, sym, ap, ◌∙◌, Option, none, some, List, [], ◌++◌, String,
}
use rubica_bot.Result.{ok}
use rubica_bot.Cli.Machine.{
  FilePath, Node, file, directory, FileSystem, Machine, Programs, with_bak, run,
}
use rubica_bot.Cli.Machine.Files.{with_tree, tree_at, copytree, move_over}
use rubica_bot.Cli.Machine.Trees.{
  with_bak-Apart, IsFree, moved, moved-to, move_over_lem, with_tree-apart, with_tree-at,
}
use rubica_bot.Cli.Machine.Keeps.{Keeps}

-- The tree is saved under the backup's path, and the installation's path is free or a directory.
abbrev pub Saved : FilePath → FilePath → FileSystem → Machine → Type 0
Saved target backup tree m =
    ((r : FilePath) → m.files (backup ++ r) ≡ tree r) × IsFree (m.files target)

-- The programs leave the backup alone, and make no file of the installation's directory.
abbrev pub LeavesBackup : FilePath → FilePath → Programs → Type 0
LeavesBackup target backup programs =
    ((cmd : List String) (fs : FileSystem) (r : FilePath)
      → (programs cmd fs).1 (backup ++ r) ≡ fs (backup ++ r))
    × ((cmd : List String) (fs : FileSystem) → (programs cmd fs).1 target ≡ fs target)

module _ (programs : Programs) (target backup : FilePath) (tree : FileSystem)
    (bak : with_bak target ≡ ok backup) (other : backup ≢ target)
    (leaves : LeavesBackup target backup programs) where
  pub run-Saved : (cmd : List String) → Keeps (Saved target backup tree) (run programs cmd)
  unfolding run
  run-Saved cmd m (saved, free) =
      (λ r. leaves.0 cmd m.files r ∙ saved r, rw (leaves.1 cmd m.files) free)

  copied-Saved :
      (source : FilePath) (m : Machine)
      → m.files source ≡ some directory
      → Saved target backup tree m
      → Saved target backup tree
          (record m { files = with_tree target (tree_at source m.files) m.files })
  copied-Saved source m there (saved, free) =
      let (a, b) = with_bak-Apart target backup bak other in
      (
        λ r. with_tree-apart target (tree_at source m.files) m.files (backup ++ r) (a r) ∙ saved r,
        inr (
            ap (with_tree target (tree_at source m.files) m.files) (sym (append-nil target))
            ∙ with_tree-at target (tree_at source m.files) m.files []
            ∙ ap m.files (append-nil source)
            ∙ there),
      )

  copytree-Saved_of :
      (source : FilePath) (m : Machine) (n : Option Node)
      → m.files source ≡ n
      → Saved target backup tree m
      → Saved target backup tree (copytree source target m).1
  unfolding copytree
  copytree-Saved_of source m none e h = rw (e, copytree) h
  copytree-Saved_of source m (some (file text)) e h = rw (e, copytree) h
  copytree-Saved_of source m (some directory) e (saved, inl free) =
      rw (e, copytree) (rw free (copied-Saved source m e (saved, inl free)))
  copytree-Saved_of source m (some directory) e (saved, inr taken) =
      rw (e, copytree) (rw taken (saved, inr taken))

  pub copytree-Saved :
      (source : FilePath) → Keeps (Saved target backup tree) (copytree source target)
  copytree-Saved source m h = copytree-Saved_of source m (m.files source) refl h

  -- What a rollback does up to the restart.
  pub move_over-restores :
      (m : Machine)
      → Saved target backup tree m
      → tree [] ≡ some directory
      → (m' : Machine) × (move_over backup target m ≡ (ok tt, m'))
        × ((r : FilePath) → m'.files (target ++ r) ≡ tree r)
  move_over-restores m (saved, free) whole =
      let (a, b) = with_bak-Apart target backup bak other in
      let there = ap m.files (sym (append-nil backup)) ∙ saved [] ∙ whole in
      (
        moved backup target m (b, a),
        move_over_lem backup target m (b, a) there free,
        λ r. moved-to backup target m (b, a) r ∙ saved r,
      )
