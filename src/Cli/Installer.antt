-- ===== src/Cli/Installer.antt =====
-- The texts of install.py: `validate_owner_id`, `render_env`, `render_systemd_service` and
-- `render_nginx_config`. A path is its text, written with `/`.
pub mod Wizard
pub mod Inputs
pub mod Parser
pub mod Bootstrap
pub mod Steps
pub mod Main
use Prim.Native.Char.{code}
use rubica_bot.Prelude.{
  String, Bool, true, not, ◌&&◌, ◌||◌, Option, none, some, List, [], ◌∷◌, ◌++◌, str_eq,
  if◌then◌else◌,
}
use rubica_bot.Prelude.Text.{◌<+>◌, is_empty, is_digit, join}
use rubica_bot.Prelude.Int.{ℤ, show_ℤ}
use rubica_bot.Result.{Result, ok, raise, validation_error, file_exists_error}

unfoldable pub all_digits : String → Bool
all_digits String.[] = true
all_digits (String.◌∷◌ c s) = is_digit (code c) && all_digits s

-- The texts of the errors.
abbrev pub owner_required : String
owner_required = "OWNER_ID \u{627}\u{644}\u{632}\u{627}\u{645}\u{6cc} \u{627}\u{633}\u{62a}."

abbrev pub owner_not_numeric : String
owner_not_numeric =
    "OWNER_ID \u{628}\u{627}\u{6cc}\u{62f} \u{639}\u{62f}\u{62f}\u{6cc} \u{628}\u{627}\u{634}\u{62f}."

abbrev pub url_empty : String
url_empty = "URL \u{62e}\u{627}\u{644}\u{6cc} \u{627}\u{633}\u{62a}."

abbrev pub url_invalid : String
url_invalid = "URL \u{645}\u{639}\u{62a}\u{628}\u{631} \u{646}\u{6cc}\u{633}\u{62a}."

unfoldable pub validate_owner_id : String → Result String
unfolding all_digits
validate_owner_id value =
    if is_empty value
    then raise (validation_error owner_required)
    else if not (all_digits value)
    then raise (validation_error owner_not_numeric)
    else ok value

-- `if value: lines.append(…)`
abbrev pub optional_line : String → String → List String
optional_line key value = if is_empty value then [] else (key <+> "=" <+> value) ∷ []

-- An `owner_id` that is `None` is written like the empty text.
unfoldable pub env_lines : String → String → String → String → String → List String
env_lines token api_base_url webhook_base_url webhook_secret owner_id =
    ("RUBIKA_BOT_TOKEN=" <+> token)
      ∷ ("RUBIKA_API_BASE_URL=" <+> api_base_url)
      ∷ optional_line "RUBIKA_OWNER_ID" owner_id
    ++ (optional_line "RUBIKA_WEBHOOK_BASE_URL" webhook_base_url
        ++ optional_line "RUBIKA_WEBHOOK_SECRET" webhook_secret)

unfoldable pub render_env : String → String → String → String → String → String
unfolding env_lines join
render_env token api_base_url webhook_base_url webhook_secret owner_id =
    join "\n" (env_lines token api_base_url webhook_base_url webhook_secret owner_id) <+> "\n"

unfoldable pub render_systemd_service : String → String → String → String → ℤ → String
unfolding join show_ℤ
render_systemd_service working_dir venv_path service_name host port = join "\n" (
    "[Unit]"
    ∷ ("Description=" <+> service_name)
    ∷ "After=network.target"
    ∷ ""
    ∷ "[Service]"
    ∷ "User=www-data"
    ∷ ("WorkingDirectory=" <+> working_dir)
    ∷ ("EnvironmentFile=" <+> working_dir <+> "/.env")
    ∷ ("ExecStart="
        <+> venv_path
        <+> "/bin/python -m uvicorn app.main:app --host "
        <+> host
        <+> " --port "
        <+> show_ℤ port)
    ∷ "Restart=always"
    ∷ ""
    ∷ "[Install]"
    ∷ "WantedBy=multi-user.target"
    ∷ ""
    ∷ [])

abbrev pub backend_host : String → String
backend_host host = if str_eq host "0.0.0.0" || str_eq host "::" then "127.0.0.1" else host

unfoldable pub render_nginx_config : String → String → ℤ → String
unfolding join show_ℤ
render_nginx_config server_name host port = join "\n" (
    "server {"
    ∷ "    listen 80;"
    ∷ ("    server_name " <+> server_name <+> ";")
    ∷ ""
    ∷ "    location / {"
    ∷ ("        proxy_pass http://" <+> backend_host host <+> ":" <+> show_ℤ port <+> ";")
    ∷ "        proxy_http_version 1.1;"
    ∷ "        proxy_set_header Upgrade $http_upgrade;"
    ∷ "        proxy_set_header Connection 'upgrade';"
    ∷ "        proxy_set_header Host $host;"
    ∷ "        proxy_set_header X-Real-IP $remote_addr;"
    ∷ "        proxy_set_header X-Forwarded-For $proxy_add_x_forwarded_for;"
    ∷ "        proxy_set_header X-Forwarded-Proto $scheme;"
    ∷ "    }"
    ∷ "}"
    ∷ [])
