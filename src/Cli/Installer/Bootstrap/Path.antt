-- ===== src/Cli/Installer/Bootstrap/Path.antt =====
-- What `prepare_install_path` leaves of the path of the installation.
use rubica_bot.Prelude.{
  ◌≡◌, ◌≢◌, refl, sym, ◌∙◌, String, Bool, true, false, Option, none, some, List, ◌∷◌, ◌++◌, str_eq,
}
use rubica_bot.Prelude.Text.{is_empty}
use rubica_bot.Result.{ok, raise, file_exists_error}
use rubica_bot.Cli.Machine.{FilePath, FileSystem, directory, Machine, below, with_bak, show_path}
use rubica_bot.Cli.Machine.Files.{rmtree, without}
use rubica_bot.Cli.Machine.Trees.{
  with_bak-Apart, IsFree, moved, moved-to, moved-from, move_over_lem, without-at, without-apart,
}
use rubica_bot.Cli.Installer.Bootstrap.{
  is_nil, is_used, ask_action, carry_out, prepare_used, prepare_install_path,
}

module _ (iterdir : FileSystem → FilePath → List String) (dest backup : FilePath) (m : Machine)
    (bak : with_bak dest ≡ ok backup) (other : backup ≢ dest)
    (there : m.files dest ≡ some directory) (free : IsFree (m.files backup))
    (used : is_nil (iterdir m.files dest) ≡ false) where
  reaches :
      (answers : List String) (action : Option String) (non_interactive : Bool)
      → prepare_install_path iterdir dest action non_interactive (record m { answers = answers })
        ≡ prepare_used dest action non_interactive (record m { answers = answers })
  unfolding prepare_install_path is_used
  reaches answers action non_interactive = rw there (rw there (rw used refl))

  -- Someone who is asked and whose next answer is `answer`.
  abbrev pub asked : String → List String → Machine
  asked answer rest = record m { answers = answer ∷ rest }

  -- A directory with entries is in the way of the installation, its path does not end with .bak and
  -- no file stands at the backup's path. Without interaction the action decides: `backup` moves the
  -- whole tree to the backup's path, `remove` removes it and changes nothing else, and without an
  -- action or with any other that is not empty FileExistsError is raised and nothing changes. With
  -- interaction the action is ignored, and the user's answer, which is not empty, does what it does
  -- as an action.
  pub prepare_install_path_lem :
      (action : Option String) (chosen answer : String) (rest : List String)
      → str_eq chosen "backup" ≡ false
      → str_eq chosen "remove" ≡ false
      → is_empty chosen ≡ false
      → is_empty answer ≡ false
      → ((m' : Machine) × (prepare_install_path iterdir dest (some "backup") true m ≡ (ok tt, m'))
          × ((r : FilePath) → m'.files (backup ++ r) ≡ m.files (dest ++ r))
          × ((r : FilePath) → m'.files (dest ++ r) ≡ none))
        × ((m' : Machine) × (prepare_install_path iterdir dest (some "remove") true m ≡ (ok tt, m'))
            × ((r : FilePath) → m'.files (dest ++ r) ≡ none)
            × ((q : FilePath) → below dest q ≡ none → m'.files q ≡ m.files q))
        × (prepare_install_path iterdir dest (some chosen) true m
            ≡ (raise (file_exists_error (show_path dest)), m))
        × (prepare_install_path iterdir dest none true m
            ≡ (raise (file_exists_error (show_path dest)), m))
        × (prepare_install_path iterdir dest action false (asked answer rest)
            ≡ prepare_install_path iterdir dest (some answer) true (record m { answers = rest }))
  unfolding prepare_used carry_out rmtree ask_action
  prepare_install_path_lem action chosen answer rest no_backup no_remove given said =
      let apart = with_bak-Apart dest backup bak other in
      (
        (
          moved dest backup m apart,
          reaches m.answers (some "backup") true
              ∙ rw bak (move_over_lem dest backup m apart there free),
          moved-to dest backup m apart,
          moved-from dest backup m apart,
        ),
        (
          record m { files = without dest m.files },
          reaches m.answers (some "remove") true ∙ rw there refl,
          without-at dest m.files,
          without-apart dest m.files,
        ),
        reaches m.answers (some chosen) true ∙ rw (given, no_backup, no_remove) refl,
        reaches m.answers none true,
        reaches (answer ∷ rest) action false ∙ rw said refl ∙ sym (reaches rest (some answer) true),
      )
