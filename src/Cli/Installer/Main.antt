-- ===== src/Cli/Installer/Main.antt =====
-- install.py: `main`. The panels, the progress bars and the table are left out.
pub mod Kept
use rubica_bot.Prelude.{
  String, Bool, true, false, not, ◌&&◌, Option, none, some, List, [], ◌∷◌, ◌++◌, if◌then◌else◌,
}
use rubica_bot.Prelude.Int.{show_ℤ}
use rubica_bot.Prelude.Text.{◌<+>◌, is_empty}
use rubica_bot.Result.{Result, ok, raise}
use rubica_bot.Json.{Value}
use rubica_bot.Cli.Machine.{
  FilePath, FileSystem, show_path, Programs, Script, ◌>>=◌, ◌>>◌, return, lift, when, run,
}
use rubica_bot.Cli.Machine.Files.{join_path}
use rubica_bot.Cli.Installer.{render_env, render_systemd_service}
use rubica_bot.Cli.Installer.Wizard.{Url}
use rubica_bot.Cli.Installer.Inputs.{Args, Inputs, collect_inputs, get_or, or_text}
use rubica_bot.Cli.Installer.Bootstrap.{bootstrap_from_github}
use rubica_bot.Cli.Installer.Steps.{
  write_file, update_webhook_endpoints, get_me, install_dependencies, ensure_venv,
  install_systemd_service, setup_nginx, install_requirements, run_tests,
}

-- What the program meets outside.
pub record Outside : Type 0 where
  pub programs : Programs
  pub reply : String → Value → Result Value
  pub environ : String → Option String
  pub urlparse : String → Result Url
  pub has_apt : Bool
  -- sys.executable, PROJECT_ROOT, and the names in a directory of the given files
  pub executable : String
  pub root : FilePath
  pub iterdir : FileSystem → FilePath → List String

module _ (o : Outside) where
  open o use {programs, reply, environ, urlparse, has_apt, executable, root, iterdir}

  abbrev pub env_path : FilePath
  env_path = root ++ ".env" ∷ []

  -- The steps up to the file .env.
  unfoldable pub prepare : Inputs → FilePath → Script {0} Unit
  unfolding install_dependencies ensure_venv install_requirements
  prepare d venv_path = do
    when d.install_deps (install_dependencies programs environ has_apt d.with_nginx d.with_ssl)
    ensure_venv programs environ executable venv_path
    when (not d.skip_pip) (install_requirements programs root venv_path)

  unfoldable pub write_env : Inputs → Script {0} Unit
  unfolding write_file render_env
  write_env d = when d.write_env (
      write_file env_path
        (render_env d.token d.api_base_url d.webhook_base_url d.webhook_secret d.owner_id) d.force)

  -- The service's file and what is installed of it: `service_path` is `None` if the file is not
  -- written.
  unfoldable pub set_up_service : Inputs → FilePath → Script {0} Unit
  unfolding write_file render_systemd_service install_systemd_service join_path
  set_up_service d venv_path =
      let service_path = join_path root (d.service_name <+> ".service") in
      if not d.write_systemd then return tt else do
        write_file service_path
            (render_systemd_service (show_path root) (show_path venv_path) d.service_name d.host
              d.port)
            d.force
        when d.systemd_install
            (install_systemd_service programs environ service_path d.service_name)

  -- urlparse(…).hostname or "_"
  unfoldable pub server_name_of : String → Result String
  server_name_of webhook_base_url = elim (urlparse webhook_base_url) [
    | raise e ↦ raise e
    | ok url ↦ ok (or_text (get_or url.hostname "") "_")
  ]

  unfoldable pub set_up_nginx : Inputs → Script {0} Unit
  unfolding server_name_of setup_nginx
  set_up_nginx d = when (d.with_nginx && not (is_empty d.webhook_base_url)) (do
    server_name ← lift (server_name_of d.webhook_base_url)
    setup_nginx programs environ d.service_name server_name d.host d.port d.with_ssl)

  unfoldable pub register : Inputs → Script {0} Unit
  unfolding update_webhook_endpoints
  register d = when (d.register_webhook && not (is_empty d.webhook_base_url)) (do
    result ← update_webhook_endpoints reply d.token d.api_base_url d.webhook_base_url
    return tt)

  unfoldable pub serve : Inputs → FilePath → Script {0} Unit
  unfolding run
  serve d venv_path = when d.run_app (
      run programs (
        show_path (venv_path ++ "bin" ∷ "uvicorn" ∷ [])
        ∷ "app.main:app"
        ∷ "--host"
        ∷ d.host
        ∷ "--port"
        ∷ show_ℤ d.port
        ∷ []))

  -- The steps after the file .env.
  unfoldable pub finish : Inputs → FilePath → Script {0} Unit
  unfolding set_up_service set_up_nginx run_tests register get_me serve
  finish d venv_path = do
    set_up_service d venv_path
    set_up_nginx d
    when d.run_tests (run_tests programs root venv_path)
    register d
    me ← get_me reply d.token d.api_base_url
    serve d venv_path

  unfoldable pub install : Inputs → Script {0} Unit
  unfolding prepare write_env finish join_path
  install d = do
    let venv_path = join_path root d.venv_path
    prepare d venv_path
    write_env d
    finish d venv_path

  unfoldable pub main : Args → Script {0} Unit
  unfolding bootstrap_from_github collect_inputs install
  main args = do
    when (not (is_empty (get_or args.github_repo "")))
        (bootstrap_from_github programs iterdir executable args (get_or args.github_repo ""))
    d ← collect_inputs urlparse environ args
    install d
