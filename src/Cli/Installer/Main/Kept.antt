-- ===== src/Cli/Installer/Main/Kept.antt =====
-- An installation leaves a file .env that is there alone, and gives up, unless it is forced.
use rubica_bot.Prelude.{
  ◌≡◌, refl, ◌∙◌, String, Bool, true, false, not, some, List, [], ◌∷◌, inl, inr, Bool-cases,
}
use rubica_bot.Prelude.Text.{is_empty}
use rubica_bot.Result.{Result, ok, raise, Error, file_exists_error}
use rubica_bot.Json.{Value}
use rubica_bot.Cli.Machine.{
  FilePath, show_path, file, FileSystem, Machine, next, ◌>>◌, when, run, return,
}
use rubica_bot.Cli.Machine.Files.{join_path}
use rubica_bot.Cli.Machine.Keeps.{Keeps, >>-Keeps, when-Keeps, if-Keeps}
use rubica_bot.Cli.Installer.Inputs.{Args, Inputs, get_or, collect_inputs}
use rubica_bot.Cli.Installer.Steps.{
  is_set, python_of, install_dependencies, ensure_venv, install_requirements, write_file,
}
use rubica_bot.Cli.Installer.Main.{Outside, env_path, prepare, write_env, finish, install, main}

module _ (o : Outside) (text : String) (sent : List (String × Value))
    (leaves : (cmd : List String) (fs : FileSystem)
      → (o.programs cmd fs).1 (env_path o) ≡ fs (env_path o)) where
  -- The file .env is as it was, and nothing has been posted since.
  abbrev pub Kept : Machine → Type 0
  Kept m = (m.files (env_path o) ≡ some (file text)) × (m.posted ≡ sent)

  run-Kept : (cmd : List String) → Keeps Kept (run o.programs cmd)
  unfolding run
  run-Kept cmd m (same, silent) = (leaves cmd m.files ∙ same, silent)

  return-Kept : Keeps Kept (return {A = Unit {0}} tt)
  return-Kept m h = h

  install_dependencies-Kept :
      (with_nginx with_ssl : Bool)
      → Keeps Kept (install_dependencies o.programs o.environ o.has_apt with_nginx with_ssl)
  unfolding install_dependencies
  install_dependencies-Kept with_nginx with_ssl m h =
      elim (Bool-cases (is_set (o.environ "RUBIKA_TEST_MODE"))) [
        | inl test ↦ rw test h
        | inr real ↦ elim (Bool-cases o.has_apt) [
          | inl found ↦
              rw (real, found)
                (>>-Keeps Kept (run o.programs ("apt-get" ∷ "update" ∷ [])) _ (run-Kept _)
                  (run-Kept _) m h)
          | inr missing ↦ rw (real, missing) h
        ]
      ]

  ensure_venv-Kept :
      (venv_path : FilePath) → Keeps Kept (ensure_venv o.programs o.environ o.executable venv_path)
  unfolding ensure_venv
  ensure_venv-Kept venv_path m h =
      if-Keeps Kept _ (return tt) (run o.programs _) return-Kept (run-Kept _) m h

  install_requirements-Kept :
      (venv_path : FilePath) → Keeps Kept (install_requirements o.programs o.root venv_path)
  unfolding install_requirements
  install_requirements-Kept venv_path =
      >>-Keeps Kept
        (run o.programs (
          python_of o.programs o.root venv_path
          ∷ "-m"
          ∷ "pip"
          ∷ "install"
          ∷ "--upgrade"
          ∷ "pip"
          ∷ []))
        _ (run-Kept _) (run-Kept _)

  prepare-Kept : (d : Inputs) (venv_path : FilePath) → Keeps Kept (prepare o d venv_path)
  unfolding prepare
  prepare-Kept d venv_path =
      >>-Keeps Kept
        (when d.install_deps
          (install_dependencies o.programs o.environ o.has_apt d.with_nginx d.with_ssl))
        _ (when-Keeps Kept d.install_deps _ (install_dependencies-Kept d.with_nginx d.with_ssl))
        (>>-Keeps Kept (ensure_venv o.programs o.environ o.executable venv_path) _
          (ensure_venv-Kept venv_path)
          (when-Keeps Kept (not d.skip_pip) _ (install_requirements-Kept venv_path)))

  module _ (d : Inputs) (writes : d.write_env ≡ true) (unforced : d.force ≡ false) where
    write_env-raises :
        (m : Machine)
        → Kept m
        → write_env o d m ≡ (raise (file_exists_error (show_path (env_path o))), m)
    unfolding write_env write_file
    write_env-raises m (there, silent) = rw writes (rw there (rw unforced refl))

    -- The run gave up with the file and the posts as they were.
    abbrev GaveUp : Result (Unit {0}) × Machine → Type 0
    GaveUp out = Kept out.1 × ((e : Error) × (out.0 ≡ raise e))

    written-GaveUp :
        (venv_path : FilePath) (r : Result (Unit {0}) × Machine)
        → Kept r.1
        → GaveUp (next (λ _. write_env o d >> finish o d venv_path) r)
    written-GaveUp venv_path (ok t, m) k =
        rw (write_env-raises m k) (k, (file_exists_error (show_path (env_path o)), refl))
    written-GaveUp venv_path (raise e, m) k = (k, (e, refl))

    install-GaveUp : (m : Machine) → Kept m → GaveUp (install o d m)
    unfolding install
    install-GaveUp m k =
        let venv_path = join_path o.root d.venv_path in
        written-GaveUp venv_path (prepare o d venv_path m) (prepare-Kept d venv_path m k)

    -- Where a file .env is there and is to be written without --force, `main` raises, leaves the file
    -- as it is and posts nothing to the service, if no repository is given and the programs leave the
    -- file alone.
    pub main-keeps_env :
        (args : Args) (m m1 : Machine)
        → is_empty (get_or args.github_repo "") ≡ true
        → collect_inputs o.urlparse o.environ args m ≡ (ok d, m1)
        → m1.files (env_path o) ≡ some (file text)
        → m1.posted ≡ sent
        → ((main o args m).1.files (env_path o) ≡ some (file text))
          × ((main o args m).1.posted ≡ sent)
          × ((e : Error) × ((main o args m).0 ≡ raise e))
    unfolding main
    main-keeps_env args m m1 local collected there silent =
        let (kept, gave_up) = install-GaveUp m1 (there, silent) in
        rw local (rw collected (kept.0, kept.1, gave_up))
