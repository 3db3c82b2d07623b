-- ===== src/Cli/Doctor/Service.antt =====
-- app/cli/rubikactl.py: the sections C and D of `doctor`.
use rubica_bot.Prelude.{
  ℕ, String, Bool, true, false, not, ◌&&◌, none, some, List, [], ◌∷◌, ◌++◌, ◌==◌, str_eq,
  if◌then◌else◌,
}
use rubica_bot.Prelude.Text.{◌<+>◌, is_empty, lower}
use rubica_bot.Result.{Result, ok, raise, request_failed, eof_error}
use rubica_bot.Json.{Value, obj, str, fields, no_fields}
use rubica_bot.Cli.Machine.{Script, ◌>>=◌, return}
use rubica_bot.Cli.DoctorUtils.{mask_secret, prefix}
use rubica_bot.Cli.Installer.Steps.{webhook_urls, method_url}
use rubica_bot.Cli.Doctor.Checks.{DoctorCheck, check, warning}
use rubica_bot.Cli.Doctor.Found.{Host, Options}

abbrev configuration : String
configuration = "C) Configuration"

abbrev api : String
api = "D) Rubika API"

-- The settings that `doctor` reads from the file .env.
pub record Settings : Type 0 where
  pub env_there : Bool
  pub token : String
  pub owner_id : String
  pub webhook_url : String
  pub api_base : String

abbrev or_missing : String → String
or_missing s = if is_empty s then "missing" else s

abbrev show_env_path : String → String
show_env_path path = path <+> "/.env"

module _ (h : Host) (o : Options) (s : Settings) where
  unfoldable pub check_configuration : List DoctorCheck
  unfolding mask_secret
  check_configuration =
      check configuration s.env_there ".env file" (show_env_path o.path)
        (some "Run rubikactl configure")
      ++ (check configuration (not (is_empty s.token)) "TOKEN" (mask_secret 4 s.token)
            (some "Set RUBIKA_BOT_TOKEN in .env")
          ++ (check configuration (not (is_empty s.owner_id)) "OWNER_ID" (or_missing s.owner_id)
                (some "Set RUBIKA_OWNER_ID in .env")
              ++ check configuration (not (is_empty s.webhook_url)) "WEBHOOK_BASE_URL"
                  (or_missing s.webhook_url) (some "Set RUBIKA_WEBHOOK_BASE_URL in .env")))

  abbrev pub answered : String → String → Result (ℕ × String) → Result (List DoctorCheck)
  unfolding prefix
  answered label fix (ok (status, text)) =
      ok (check api (status == 200) label (prefix 200 text) (some fix))
  answered label fix (raise (request_failed text)) = ok (
      check api false label (h.show_error (request_failed text))
        (some "Check network connectivity"))
  answered label fix (raise e) = raise e

  -- A method of the bot's API is called, and its answer is a check.
  unfoldable pub call : String → Value → String → Script (List DoctorCheck)
  unfolding answered method_url
  call method body fix m =
      let address = method_url s.api_base s.token method in
      (
        answered method fix (h.reply address body),
        record m { posted = m.posted ++ (address, body) ∷ [] },
      )

  unfoldable pub check_me : Script (List DoctorCheck)
  unfolding call
  check_me =
      if o.skip_rubika
      then return (warning api "getMe" "Skipped" (some "Remove --skip-rubika to validate API"))
      else if not (is_empty s.token)
      then call "getMe" (obj no_fields) "Check token and network connectivity"
      else return (warning api "getMe" "Skipped: token missing" none)

  -- `yes or Prompt.ask(…).lower() == "y"`
  unfoldable pub confirmed : Script Bool
  unfolding lower
  confirmed m = if o.yes_to_all then (ok true, m) else elim m.answers [
    | [] ↦ (raise eof_error, m)
    | (a ∷ rest) ↦ (ok (str_eq (lower a) "y"), record m { answers = rest })
  ]

  unfoldable pub check_owner : Script (List DoctorCheck)
  unfolding confirmed call
  check_owner =
      if o.send_owner && not (is_empty s.token) && not (is_empty s.owner_id)
      then (do
        agreed ← confirmed
        if agreed
            then call "sendMessage"
                (obj (
                  fields (
                    ("chat_id", str s.owner_id)
                    ∷ ("text", str "Rubika doctor test message.")
                    ∷ [])))
                "Check owner ID permissions"
            else return [])
      else return []

  unfoldable pub check_webhook : Script (List DoctorCheck)
  unfolding call webhook_urls
  check_webhook =
      if o.test_webhook && not (is_empty s.token) && not (is_empty s.webhook_url)
      then (if o.apply_webhook
          then call "updateBotEndpoints" (obj (fields (("urls", webhook_urls s.webhook_url) ∷ [])))
              "Check webhook URL reachability"
          else return (
              warning api "updateBotEndpoints" ("Dry-run: " <+> h.repr (webhook_urls s.webhook_url))
                (some "Add --apply-webhook")))
      else return []

  unfoldable pub check_api : Script (List DoctorCheck)
  unfolding check_me check_owner check_webhook
  check_api = do
    me ← check_me
    owner ← check_owner
    webhook ← check_webhook
    return (me ++ (owner ++ webhook))
