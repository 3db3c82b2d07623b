-- ===== src/Cli/Installer/Steps.antt =====
-- install.py: the steps of an installation. Three things are parameters: what the programs do to
-- the files, how the Rubika service answers, and `os.environ`. A link is a file with the text of
-- its target.
use rubica_bot.Prelude.{
  String, Bool, false, not, ◌&&◌, Option, none, some, [], ◌∷◌, ◌++◌, str_eq, if◌then◌else◌,
}
use rubica_bot.Prelude.Int.{ℤ}
use rubica_bot.Prelude.Text.{◌<+>◌, rstrip}
use rubica_bot.Result.{Result, raise, file_exists_error}
use rubica_bot.Json.{Value, str, arr, obj, items, fields, no_fields}
use rubica_bot.Cli.Machine.{
  FilePath, show_path, Programs, Script, ◌>>=◌, ◌>>◌, return, lift, when, exists, run, post,
}
use rubica_bot.Cli.Machine.Files.{write_text, read_text, mkdir, join_path, name_of}
use rubica_bot.Cli.Commands.{restart, pip_install, pytest}
use rubica_bot.Cli.Installer.{render_nginx_config}
use rubica_bot.Cli.Installer.Inputs.{get_or}

-- os.environ.get(key) == "1"
abbrev pub is_set : Option String → Bool
is_set none = false
is_set (some v) = str_eq v "1"

-- write_file
unfoldable pub write_file : FilePath → String → Bool → Script {0} Unit
unfolding write_text
write_file path content overwrite = do
  there ← exists path
  if there && not overwrite
      then lift (raise (file_exists_error (show_path path)))
      else write_text path content

unfoldable pub webhook_urls : String → Value
unfolding rstrip
webhook_urls webhook_base_url =
    let base = rstrip b'/' webhook_base_url in
    arr (items (str (base <+> "/receiveUpdate") ∷ str (base <+> "/receiveInlineMessage") ∷ []))

unfoldable pub method_url : String → String → String → String
unfolding rstrip
method_url api_base_url token method = rstrip b'/' api_base_url <+> "/" <+> token <+> "/" <+> method

module _ (reply : String → Value → Result Value) where
  unfoldable pub update_webhook_endpoints : String → String → String → Script Value
  unfolding webhook_urls method_url post
  update_webhook_endpoints token api_base_url webhook_base_url =
      post reply (method_url api_base_url token "updateBotEndpoints")
        (obj (fields (("urls", webhook_urls webhook_base_url) ∷ [])))

  unfoldable pub get_me : String → String → Script Value
  unfolding method_url post
  get_me token api_base_url = post reply (method_url api_base_url token "getMe") (obj no_fields)

module _ (programs : Programs) (environ : String → Option String) where
  -- `has_apt`: shutil.which finds apt-get.
  unfoldable pub install_dependencies : Bool → Bool → Bool → Script {0} Unit
  unfolding run
  install_dependencies has_apt with_nginx with_ssl =
      if is_set (environ "RUBIKA_TEST_MODE")
      then return tt
      else if not has_apt
      then return tt
      else do
        run programs ("apt-get" ∷ "update" ∷ [])
        run programs (
            "apt-get"
              ∷ "install"
              ∷ "-y"
              ∷ "python3"
              ∷ "python3-venv"
              ∷ "python3-pip"
              ∷ "git"
              ∷ (if with_nginx then "nginx" ∷ [] else [])
            ++ (if with_ssl then "certbot" ∷ "python3-certbot-nginx" ∷ [] else []))

  unfoldable pub ensure_venv : String → FilePath → Script {0} Unit
  unfolding run
  ensure_venv executable venv_path = do
    there ← exists venv_path
    if there
        then return tt
        else run programs (
            executable
              ∷ "-m"
              ∷ "venv"
              ∷ (if is_set (environ "RUBIKA_TEST_MODE") then "--system-site-packages" ∷ [] else [])
            ++ show_path venv_path ∷ [])

  unfoldable pub install_systemd_service : FilePath → String → Script {0} Unit
  unfolding run write_text read_text mkdir join_path
  install_systemd_service service_path service_name = do
    let target_dir = join_path [] (get_or (environ "RUBIKA_SYSTEMD_DIR") "/etc/systemd/system")
    mkdir target_dir
    text ← read_text service_path
    write_text (target_dir ++ name_of service_path) text
    if is_set (environ "RUBIKA_SKIP_SYSTEMCTL") then return tt else do
      run programs ("systemctl" ∷ "daemon-reload" ∷ [])
      run programs ("systemctl" ∷ "enable" ∷ service_name ∷ [])
      run programs (restart service_name)

  unfoldable pub setup_nginx : String → String → String → ℤ → Bool → Script {0} Unit
  unfolding run write_text mkdir join_path render_nginx_config
  setup_nginx service_name server_name host port with_ssl = do
    let config_text = render_nginx_config server_name host port
    let nginx_root = join_path [] (get_or (environ "RUBIKA_NGINX_DIR") "/etc/nginx")
    let sites_available = nginx_root ++ "sites-available" ∷ []
    let sites_enabled = nginx_root ++ "sites-enabled" ∷ []
    mkdir sites_available
    mkdir sites_enabled
    write_text (join_path sites_available (service_name <+> ".conf")) config_text
    linked ← exists (join_path sites_enabled (service_name <+> ".conf"))
    when (not linked) (write_text (join_path sites_enabled (service_name <+> ".conf")) config_text)
    run programs ("nginx" ∷ "-t" ∷ [])
    if is_set (environ "RUBIKA_SKIP_SYSTEMCTL")
        then return tt
        else run programs ("systemctl" ∷ "reload" ∷ "nginx" ∷ [])
    when with_ssl (run programs ("certbot" ∷ "--nginx" ∷ "-d" ∷ server_name ∷ []))

module _ (programs : Programs) (root : FilePath) where
  abbrev pub python_of : FilePath → String
  python_of venv_path = show_path (venv_path ++ "bin" ∷ "python" ∷ [])

  unfoldable pub install_requirements : FilePath → Script {0} Unit
  unfolding run
  install_requirements venv_path = do
    run programs (python_of venv_path ∷ "-m" ∷ "pip" ∷ "install" ∷ "--upgrade" ∷ "pip" ∷ [])
    run programs (pip_install (python_of venv_path) (show_path (root ++ "requirements.txt" ∷ [])))

  unfoldable pub run_tests : FilePath → Script {0} Unit
  unfolding run
  run_tests venv_path =
      run programs (pytest (python_of venv_path) (show_path (root ++ "tests" ∷ [])))
