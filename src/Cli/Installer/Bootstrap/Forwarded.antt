-- ===== src/Cli/Installer/Bootstrap/Forwarded.antt =====
-- The arguments that the bootstrap hands on, read back by the parser.
use Prim.Native.Char.{code}
use rubica_bot.Prelude.{
  ℕ, zero, suc, ◌≡◌, refl, sym, ap, ◌∙◌, String, Bool, true, false, Option, none, some, List, [],
  ◌∷◌, ◌++◌, ◌==◌, arith,
}
use rubica_bot.Prelude.Int.{ℤ, pos, show_ℤ}
use rubica_bot.Prelude.Text.{show_ℕ}
use rubica_bot.Prelude.Decimal.{starts_digit, show_ℕ-starts, parse_ℤ-show_ℕ}
use rubica_bot.Result.{Result, ok}
use rubica_bot.Cli.Installer.Inputs.{Args, parse_port}
use rubica_bot.Cli.Installer.Bootstrap.{
  Passed, text, number, flag, words_of, option_of, dashed, passthrough, forward_from, forward_args,
}
use rubica_bot.Cli.Installer.Parser.{
  value, set, options, defaults, find_option, looks_optional, parse_from, parse_args, set_port,
}

digits-not_optional : (s : String) → starts_digit s ≡ true → looks_optional s ≡ false
unfolding looks_optional
digits-not_optional String.[] h = refl
digits-not_optional (String.◌∷◌ c s) h =
    let no_minus : (code c == b'-') ≡ false = ground (arith, h) in rw no_minus refl

abbrev pub IsPlain : Option String → Type 0
IsPlain none = Unit {0}
IsPlain (some v) = looks_optional v ≡ false

module _ (key : String) (rest : List String) (a : Args) where
  -- A step of the parser over an option that may be left out; `g` is the result for each case.
  parse-text :
      (o : Option String) (f : String → Args → Args) (g : Option String → Args)
      → find_option (option_of key) options ≡ some (value (λ w b. ok (f w b)))
      → IsPlain o
      → g none ≡ a
      → ((v : String) → g (some v) ≡ f v a)
      → parse_from none (words_of key (text o) ++ rest) a ≡ parse_from none rest (g o)
  unfolding parse_from
  parse-text none f g found plain at_none at_some = ap (parse_from none rest) (sym at_none)
  parse-text (some v) f g found plain at_none at_some =
      rw (found, parse_from) (rw plain (ap (parse_from none rest) (sym (at_some v))))

  parse-value :
      (v : String) (f : String → Args → Args)
      → find_option (option_of key) options ≡ some (value (λ w b. ok (f w b)))
      → looks_optional v ≡ false
      → parse_from none (words_of key (text (some v)) ++ rest) a ≡ parse_from none rest (f v a)
  parse-value v f found plain =
      parse-text (some v) f (λ o. elim o [ none ↦ a | some w ↦ f w a ]) found plain refl (λ w. refl)

  parse-number :
      (z : ℤ) (n : ℕ) (f : String → Args → Result Args) (a' : Args)
      → z ≡ pos n
      → find_option (option_of key) options ≡ some (value f)
      → f (show_ℕ n) a ≡ ok a'
      → parse_from none (words_of key (number z) ++ rest) a ≡ parse_from none rest a'
  unfolding parse_from show_ℤ
  parse-number z n f a' e found read = rw e (
      rw (found, parse_from) (rw (digits-not_optional (show_ℕ n) (show_ℕ-starts n)) (rw read refl)))

  parse-flag :
      (b : Bool) (f : Args → Args) (g : Bool → Args)
      → find_option (option_of key) options ≡ some (set f)
      → g false ≡ a
      → g true ≡ f a
      → parse_from none (words_of key (flag b) ++ rest) a ≡ parse_from none rest (g b)
  unfolding parse_from
  parse-flag true f g found at_false at_true =
      rw (found, parse_from) (ap (parse_from none rest) (sym at_true))
  parse-flag false f g found at_false at_true = ap (parse_from none rest) (sym at_false)

abbrev skip : ℕ → List (String × Passed) → List (String × Passed)
skip zero l = l
skip (suc k) [] = []
skip (suc k) (x ∷ l) = skip k l

abbrev pub ArePlain : Args → Type 0
ArePlain args =
    IsPlain args.token
    × IsPlain args.owner_id
    × (looks_optional args.api_base_url ≡ false)
    × (looks_optional args.webhook_base_url ≡ false)
    × (looks_optional args.webhook_secret ≡ false)
    × (looks_optional args.venv_path ≡ false)
    × (looks_optional args.service_name ≡ false)
    × (looks_optional args.host ≡ false)

module _ (args : Args) (n : ℕ) (port_is : args.port ≡ pos n) (plain : ArePlain args) where
  abbrev after_token : Args
  after_token = record defaults { token = args.token }

  abbrev after_owner_id : Args
  after_owner_id = record after_token { owner_id = args.owner_id }

  abbrev after_api_base_url : Args
  after_api_base_url = record after_owner_id { api_base_url = args.api_base_url }

  abbrev after_webhook_base_url : Args
  after_webhook_base_url = record after_api_base_url { webhook_base_url = args.webhook_base_url }

  abbrev after_webhook_secret : Args
  after_webhook_secret = record after_webhook_base_url { webhook_secret = args.webhook_secret }

  abbrev after_venv_path : Args
  after_venv_path = record after_webhook_secret { venv_path = args.venv_path }

  abbrev after_service_name : Args
  after_service_name = record after_venv_path { service_name = args.service_name }

  abbrev after_host : Args
  after_host = record after_service_name { host = args.host }

  abbrev after_port : Args
  after_port = record after_host { port = args.port }

  abbrev after_no_tests : Args
  after_no_tests = record after_port { no_tests = args.no_tests }

  abbrev after_no_systemd : Args
  after_no_systemd = record after_no_tests { no_systemd = args.no_systemd }

  abbrev after_no_env : Args
  after_no_env = record after_no_systemd { no_env = args.no_env }

  abbrev after_force : Args
  after_force = record after_no_env { force = args.force }

  abbrev after_run : Args
  after_run = record after_force { run = args.run }

  abbrev after_non_interactive : Args
  after_non_interactive = record after_run { non_interactive = args.non_interactive }

  abbrev after_install_deps : Args
  after_install_deps = record after_non_interactive { install_deps = args.install_deps }

  abbrev after_with_nginx : Args
  after_with_nginx = record after_install_deps { with_nginx = args.with_nginx }

  abbrev after_with_ssl : Args
  after_with_ssl = record after_with_nginx { with_ssl = args.with_ssl }

  abbrev after_systemd_install : Args
  after_systemd_install = record after_with_ssl { systemd_install = args.systemd_install }

  abbrev after_no_webhook : Args
  after_no_webhook = record after_systemd_install { no_webhook = args.no_webhook }

  abbrev rest : ℕ → List String
  unfolding forward_from
  rest k = forward_from (skip k (passthrough args))

  port_parsed : parse_port (show_ℕ n) ≡ ok (pos n)
  unfolding parse_port
  port_parsed = rw (parse_ℤ-show_ℕ n, parse_port) refl

  port_read : set_port (show_ℕ n) after_host ≡ ok after_port
  port_read =
      rw (port_parsed, set_port) (ap (λ z. ok (record after_host { port = z })) (sym port_is))

  -- The parser of the installer that the bootstrap runs reads the arguments that the bootstrap was
  -- given, but for the four of the download itself (--github-repo, --github-ref, --install-path and
  -- --install-action) and for --skip-pip, none of which is handed on, if the port is no negative
  -- number and no value looks like an option.
  pub parse_args-forward_args :
      parse_args (forward_args args)
      ≡ ok (record args {
        github_repo = none;
        github_ref = none;
        install_path = none;
        install_action = none;
        skip_pip = false;
      })
  unfolding parse_args forward_args forward_from find_option option_of dashed
  parse_args-forward_args =
      parse-text "token" (rest 1) defaults args.token (λ v b. record b { token = some v })
        (λ o. record defaults { token = o }) refl (plain.0) refl (λ v. refl)
      ∙ parse-text "owner_id" (rest 2) after_token args.owner_id
          (λ v b. record b { owner_id = some v }) (λ o. record after_token { owner_id = o }) refl
          (plain.1) refl (λ v. refl)
      ∙ parse-value "api_base_url" (rest 3) after_owner_id args.api_base_url
          (λ v b. record b { api_base_url = v }) refl (plain.2)
      ∙ parse-value "webhook_base_url" (rest 4) after_api_base_url args.webhook_base_url
          (λ v b. record b { webhook_base_url = v }) refl (plain.3)
      ∙ parse-value "webhook_secret" (rest 5) after_webhook_base_url args.webhook_secret
          (λ v b. record b { webhook_secret = v }) refl (plain.4)
      ∙ parse-value "venv_path" (rest 6) after_webhook_secret args.venv_path
          (λ v b. record b { venv_path = v }) refl (plain.5)
      ∙ parse-value "service_name" (rest 7) after_venv_path args.service_name
          (λ v b. record b { service_name = v }) refl (plain.6)
      ∙ parse-value "host" (rest 8) after_service_name args.host (λ v b. record b { host = v }) refl
          (plain.7)
      ∙ parse-number "port" (rest 9) after_host args.port n set_port after_port port_is refl
          port_read
      ∙ parse-flag "no_tests" (rest 10) after_port args.no_tests (λ b. record b { no_tests = true })
          (λ x. record after_port { no_tests = x }) refl refl refl
      ∙ parse-flag "no_systemd" (rest 11) after_no_tests args.no_systemd
          (λ b. record b { no_systemd = true }) (λ x. record after_no_tests { no_systemd = x }) refl
          refl refl
      ∙ parse-flag "no_env" (rest 12) after_no_systemd args.no_env (λ b. record b { no_env = true })
          (λ x. record after_no_systemd { no_env = x }) refl refl refl
      ∙ parse-flag "force" (rest 13) after_no_env args.force (λ b. record b { force = true })
          (λ x. record after_no_env { force = x }) refl refl refl
      ∙ parse-flag "run" (rest 14) after_force args.run (λ b. record b { run = true })
          (λ x. record after_force { run = x }) refl refl refl
      ∙ parse-flag "non_interactive" (rest 15) after_run args.non_interactive
          (λ b. record b { non_interactive = true }) (λ x. record after_run { non_interactive = x })
          refl refl refl
      ∙ parse-flag "install_deps" (rest 16) after_non_interactive args.install_deps
          (λ b. record b { install_deps = true })
          (λ x. record after_non_interactive { install_deps = x }) refl refl refl
      ∙ parse-flag "with_nginx" (rest 17) after_install_deps args.with_nginx
          (λ b. record b { with_nginx = true }) (λ x. record after_install_deps { with_nginx = x })
          refl refl refl
      ∙ parse-flag "with_ssl" (rest 18) after_with_nginx args.with_ssl
          (λ b. record b { with_ssl = true }) (λ x. record after_with_nginx { with_ssl = x }) refl
          refl refl
      ∙ parse-flag "systemd_install" (rest 19) after_with_ssl args.systemd_install
          (λ b. record b { systemd_install = true })
          (λ x. record after_with_ssl { systemd_install = x }) refl refl refl
      ∙ parse-flag "no_webhook" (rest 20) after_systemd_install args.no_webhook
          (λ b. record b { no_webhook = true })
          (λ x. record after_systemd_install { no_webhook = x }) refl refl refl
