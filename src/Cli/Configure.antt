-- ===== src/Cli/Configure.antt =====
-- app/cli/rubikactl.py: `install`, `configure`, `webhook-set` and what they ask.
pub mod Written
use rubica_bot.Prelude.{
  String, Bool, true, false, not, ◌&&◌, Option, none, some, List, [], ◌∷◌, ◌++◌, if◌then◌else◌,
}
use rubica_bot.Prelude.Int.{ℤ, nonzero, show_ℤ}
use rubica_bot.Prelude.Text.{is_empty}
use rubica_bot.Result.{Result, ok, raise, bad_parameter}
use rubica_bot.Json.{Value}
use rubica_bot.Cli.Machine.{
  FilePath, show_path, Machine, Programs, Script, ◌>>=◌, ◌>>◌, return, lift, exists, run,
}
use rubica_bot.Cli.Machine.Files.{read_text, write_text}
use rubica_bot.Cli.EnvFile.{read_env, get_key}
use rubica_bot.Cli.Installer.{render_env}
use rubica_bot.Cli.Installer.Wizard.{text_from}
use rubica_bot.Cli.Installer.Inputs.{or_text, get_or, text_or}
use rubica_bot.Cli.Installer.Steps.{update_webhook_endpoints}

-- `read_env` on a path
unfoldable pub read_env_file : FilePath → Script (List (String × String))
unfolding read_text read_env
read_env_file path = do
  there ← exists path
  if not there then return [] else do text ← read_text path; return (read_env text)

-- The loop of `prompt_value` is that of the installer's `prompt_text`.
unfoldable pub prompt_value : Option String → Bool → Script String
unfolding text_from
prompt_value default required m =
    let (r, answers') = text_from default required m.answers in (r, record m { answers = answers' })

-- `value or prompt_value(…)`
abbrev pub or_ask : String → Script String → Script String
or_ask value ask = if is_empty value then ask else return value

unfoldable pub configure :
    FilePath → String → String → String → String → String → Bool → Script {0} Unit
unfolding read_env_file prompt_value render_env write_text get_key
configure path token owner_id webhook_base_url api_base_url webhook_secret force = do
  let env_path = path ++ ".env" ∷ []
  existing ← read_env_file env_path
  token' ← or_ask token (prompt_value (get_key "RUBIKA_BOT_TOKEN" existing) true)
  owner_id' ← or_ask owner_id (prompt_value (get_key "RUBIKA_OWNER_ID" existing) true)
  let api_base_url' =
      or_text api_base_url (get_or (get_key "RUBIKA_API_BASE_URL" existing) api_base_url)
  webhook_base_url' ←
      or_ask webhook_base_url
        (prompt_value (some (get_or (get_key "RUBIKA_WEBHOOK_BASE_URL" existing) "")) false)
  let webhook_secret' =
      or_text webhook_secret (get_or (get_key "RUBIKA_WEBHOOK_SECRET" existing) "")
  there ← exists env_path
  if there && not force
      then lift (raise bad_parameter)
      else write_text env_path
          (render_env token' api_base_url' webhook_base_url' webhook_secret' owner_id')

-- `a or env.get(key) or prompt_value(…)`
abbrev pub or_kept : String → Option String → Script String
unfolding prompt_value
or_kept value kept = or_ask (or_text value (get_or kept "")) (prompt_value none true)

unfoldable pub webhook_set :
    (String → Value → Result Value) → FilePath → String → String → String → Script Value
unfolding read_env_file or_kept update_webhook_endpoints get_key
webhook_set reply path token api_base_url webhook_base_url = do
  env_data ← read_env_file (path ++ ".env" ∷ [])
  token' ← or_kept token (get_key "RUBIKA_BOT_TOKEN" env_data)
  let api_base_url' =
      or_text api_base_url
        (get_or (get_key "RUBIKA_API_BASE_URL" env_data) "https://botapi.rubika.ir/v3")
  webhook_base_url' ← or_kept webhook_base_url (get_key "RUBIKA_WEBHOOK_BASE_URL" env_data)
  update_webhook_endpoints reply token' api_base_url' webhook_base_url'

-- The options of `rubikactl install`.
pub record Options : Type 0 where
  pub token : String
  pub owner_id : String
  pub webhook_base_url : String
  pub api_base_url : String
  pub service_name : String
  pub host : String
  pub port : ℤ
  pub non_interactive : Bool
  pub install_deps : Bool
  pub with_nginx : Bool
  pub with_ssl : Bool
  pub systemd_install : Bool
  pub run_tests : Bool
  pub register_webhook : Bool

abbrev pub text_words : String → String → List String
text_words name value = if is_empty value then [] else name ∷ value ∷ []

abbrev pub flag_words : String → Bool → List String
flag_words name b = if b then name ∷ [] else []

unfoldable pub install_words : Options → List String
unfolding show_ℤ
install_words o =
    flag_words "--non-interactive" o.non_interactive
    ++ (text_words "--token" o.token
        ++ (text_words "--owner-id" o.owner_id
            ++ (text_words "--webhook-base-url" o.webhook_base_url
                ++ (text_words "--api-base-url" o.api_base_url
                    ++ (text_words "--service-name" o.service_name
                        ++ (text_words "--host" o.host
                            ++ ((if nonzero o.port then "--port" ∷ show_ℤ o.port ∷ [] else [])
                                ++ (flag_words "--install-deps" o.install_deps
                                    ++ (flag_words "--with-nginx" o.with_nginx
                                        ++ (flag_words "--with-ssl" o.with_ssl
                                            ++ (flag_words "--systemd-install" o.systemd_install
                                                ++ (flag_words "--no-tests" (not o.run_tests)
                                                    ++ flag_words "--no-webhook"
                                                        (not o.register_webhook)))))))))))))

unfoldable pub install : Programs → FilePath → Options → Script {0} Unit
unfolding install_words run
install programs project_path o = do
  let install_script = project_path ++ "install.py" ∷ []
  there ← exists install_script
  if not there
      then lift (raise bad_parameter)
      else run programs ("python3" ∷ show_path install_script ∷ install_words o)
