-- ===== src/Cli/Doctor/System.antt =====
-- app/cli/rubikactl.py: the sections A and B of `doctor`.
use rubica_bot.Prelude.{
  ℕ, String, Bool, true, false, not, ◌&&◌, ◌||◌, Option, none, some, List, [], ◌∷◌, ◌++◌, ltb, leb,
  ◌==◌, str_eq, if◌then◌else◌,
}
use rubica_bot.Prelude.Int.{parse_ℤ, clamp_below}
use rubica_bot.Prelude.Text.{◌<+>◌, is_empty, show_ℕ, starts_with, contains, split}
use rubica_bot.Result.{
  Result, ok, raise, Error, ◌>>=◌, index_error, value_error, called_process_error,
  file_not_found_error,
}
use rubica_bot.Cli.EnvFile.{key_of, value_of, assign, get_key}
use rubica_bot.Cli.Doctor.Checks.{DoctorCheck, check, warning}
use rubica_bot.Cli.Doctor.Found.{Host, Options}

abbrev system : String
system = "A) System & Prerequisites"

abbrev runtime : String
runtime = "B) Service & Runtime"

-- sys.version_info >= (3, 10)
abbrev new_enough : ℕ × ℕ → Bool
new_enough (major, minor) = ltb 3 major || (major == 3 && leb 10 minor)

abbrev given : Option String → Bool
given none = false
given (some s) = not (is_empty s)

abbrev text_of : Option String → String → String
text_of none d = d
text_of (some s) d = s

-- int(line.split()[1])
abbrev second_number : List String → Result ℕ
unfolding parse_ℤ
second_number (a ∷ b ∷ rest) = elim (parse_ℤ b) [
  | none ↦ raise value_error
  | some n ↦ ok (clamp_below n)
]
second_number _ = raise index_error

-- The number of the line MemAvailable, in KiB, or 0.
unfoldable pub available_kb : List String → Result ℕ
unfolding second_number starts_with split
available_kb [] = ok 0
available_kb (line ∷ lines) =
    let rest = available_kb lines in
    if starts_with line "MemAvailable:" then second_number (split line) else rest

module _ (h : Host) (o : Options) where
  unfoldable pub check_python : List DoctorCheck
  check_python =
      check system (new_enough h.python) "Python Version" h.python_text
        (some "Upgrade to Python 3.10+")
      ++ (check system (given h.virtual_env || h.prefix_differs) "Virtualenv"
            (text_of h.virtual_env "not active") (some "Activate venv: source .venv/bin/activate")
          ++ check system h.path_there "Install Path" o.path
              (some "Ensure /opt/rubika-bot exists or pass --path"))

  -- More than a GiB.
  unfoldable pub check_disk : List DoctorCheck
  check_disk = elim h.disk_free [
    | ok free ↦
        check system (ltb 1073741824 free) "Disk Free"
          (h.two_decimals free 1073741824 <+> " GB free") (some "Free up disk space")
    | raise e ↦ warning system "Disk Free" ("Unable to read disk: " <+> h.show_error e) none
  ]

  -- More than half a GiB. Only an OSError of the file is caught.
  unfoldable pub check_memory : Result (List DoctorCheck)
  unfolding available_kb
  check_memory = elim h.meminfo [
    | raise e ↦
        ok (
          warning system "RAM Available" ("Unable to read /proc/meminfo: " <+> h.show_error e) none)
    | ok lines ↦ (do
      kb ← available_kb lines
      ok (
          check system (ltb 524288 kb) "RAM Available"
            (h.two_decimals kb 1048576 <+> " GB available")
            (some "Close heavy processes or increase RAM")))
  ]

  unfoldable pub check_dns : List DoctorCheck
  check_dns =
      if o.skip_dns
      then warning system "DNS" "Skipped" (some "Remove --skip-dns to validate DNS")
      else elim h.resolve [
        | ok t ↦ check system true "DNS" "botapi.rubika.ir resolved" none
        | raise e ↦
            check system false "DNS" (h.show_error e) (some "Fix DNS or network connectivity")
      ]

  unfoldable pub check_system : Result (List DoctorCheck)
  unfolding check_python check_disk check_memory check_dns
  check_system = do
    memory ← check_memory
    ok (check_python ++ (check_disk ++ (memory ++ check_dns)))

  -- dict(line.split("=", 1) for line in … if "=" in line)
  unfoldable pub mapping_of : List String → List (String × String) → List (String × String)
  unfolding contains key_of value_of assign
  mapping_of [] pairs = pairs
  mapping_of (line ∷ lines) pairs =
      mapping_of lines
        (if contains line "=" then assign (key_of line) (value_of line) pairs else pairs)

  abbrev is_active : List (String × String) → Bool
  unfolding get_key
  is_active pairs = str_eq (text_of (get_key "ActiveState" pairs) "") "active"

  -- Only a CalledProcessError is caught.
  unfoldable pub check_systemd : Result (List DoctorCheck)
  unfolding mapping_of is_active
  check_systemd =
      if o.skip_systemd
      then ok (warning runtime "systemd" "Skipped" (some "Remove --skip-systemd to check service"))
      else elim h.systemctl_show [
        | ok lines ↦ ok (
            check runtime (is_active (mapping_of lines [])) "systemd"
              (h.show_mapping (mapping_of lines [])) (some ("systemctl restart " <+> o.service)))
        | raise called_process_error ↦ ok (
            warning runtime "systemd" ("systemctl failed: " <+> h.show_error called_process_error)
              (some "Check service name and permissions"))
        | raise e ↦ raise e
      ]

  unfoldable pub check_port : List DoctorCheck
  check_port = elim h.connect [
    | ok t ↦ check runtime true "App Port" ("127.0.0.1:" <+> show_ℕ o.port <+> " open") none
    | raise e ↦
        check runtime false "App Port" (h.show_error e) (some "Check app service and --port")
  ]

  abbrev not_installed : Error → Result (List DoctorCheck)
  not_installed file_not_found_error = ok (warning runtime "Nginx" "nginx not installed" none)
  not_installed e = raise e

  -- The check of the service stays where the test of the configuration is not there.
  abbrev test_nginx : Bool → Result (List DoctorCheck)
  test_nginx false = ok []
  test_nginx true = elim h.nginx_test [
    | ok (good, text) ↦ ok (check runtime good "Nginx Config" text (some "Fix nginx config syntax"))
    | raise e ↦ not_installed e
  ]

  unfoldable pub check_nginx : Result (List DoctorCheck)
  check_nginx =
      if o.skip_nginx
      then ok (warning runtime "Nginx" "Skipped" (some "Remove --skip-nginx to check Nginx"))
      else elim h.nginx_active [
        | raise e ↦ not_installed e
        | ok (active, text) ↦ (do
          tested ← test_nginx active
          ok (check runtime active "Nginx" text (some "systemctl restart nginx") ++ tested))
      ]

  unfoldable pub check_runtime : Result (List DoctorCheck)
  unfolding check_systemd check_port check_nginx
  check_runtime = do
    systemd ← check_systemd
    nginx ← check_nginx
    ok (systemd ++ (check_port ++ nginx))
