-- ===== src/Cli/Doctor/Sqlite.antt =====
-- app/cli/rubikactl.py: the section F of `doctor`. Any exception becomes a failed check, after the
-- checks that were made before it.
use rubica_bot.Prelude.{
  ℕ, ◌*◌, String, Bool, true, false, not, Option, none, some, List, [], ◌∷◌, ◌++◌, ltb, str_eq,
  if◌then◌else◌,
}
use rubica_bot.Prelude.Int.{ℤ, show_ℤ, parse_ℤ}
use rubica_bot.Prelude.Text.{◌<+>◌, is_empty, lower, join}
use rubica_bot.Result.{Result, ok, raise, value_error}
use rubica_bot.Cli.EnvFile.{get_key}
use rubica_bot.Cli.DoctorUtils.{parse_sqlite_path}
use rubica_bot.Cli.Doctor.Checks.{DoctorCheck, check, warning}
use rubica_bot.Cli.Doctor.Found.{Host, Database}

abbrev database : String
database = "F) SQLite Database"

abbrev get_or : Option String → String → String
get_or none d = d
get_or (some s) d = s

abbrev is : String → Option String → Bool
is word none = false
is word (some s) = str_eq s word

abbrev lowered : Option String → Option String
unfolding lower
lowered none = none
lowered (some s) = some (lower s)

abbrev count_or_zero : Result ℕ → ℕ
count_or_zero (ok n) = n
count_or_zero (raise e) = 0

-- `_db_record_counts`, where what SQLite raises counts as 0
unfoldable pub db_record_counts : (String → Result ℕ) → List String → List (String × ℕ)
db_record_counts count [] = []
db_record_counts count (table ∷ tables) =
    (table, count_or_zero (count table)) ∷ db_record_counts count tables

abbrev pub counted_tables : List String
counted_tables = "incoming_updates" ∷ "messages" ∷ "admins" ∷ "filters" ∷ []

-- int(value or 48)
unfoldable pub retention_hours : String → Result ℤ
unfolding parse_ℤ
retention_hours value = elim (parse_ℤ (if is_empty value then "48" else value)) [
  | some n ↦ ok n
  | none ↦ raise value_error
]

module _ (h : Host) (env_data : List (String × String)) where
  -- try: …, with the checks that were made before
  abbrev guarded :
      {A : Type 0} → List DoctorCheck → Result A → (A → List DoctorCheck) → List DoctorCheck
  guarded before (ok a) f = f a
  guarded before (raise e) f =
      before
      ++ check database false "SQLite" (h.show_error e) (some "Check DB permissions or corruption")

  abbrev megabytes : ℕ → String
  megabytes size = h.two_decimals size 1048576 <+> " MB"

  unfoldable pub retention_checks : ℕ → List DoctorCheck → List DoctorCheck
  unfolding get_key retention_hours lower show_ℤ
  retention_checks size before =
      guarded before
        (retention_hours (get_or (get_key "RUBIKA_INCOMING_UPDATES_RETENTION_HOURS" env_data) "48"))
        (λ hours.
          before
          ++ (check database
                (not (
                  str_eq
                    (lower (get_or (get_key "RUBIKA_INCOMING_UPDATES_ENABLED" env_data) "true"))
                    "false"))
                "Retention" ("incoming_updates " <+> show_ℤ hours <+> "h")
                (some "Set RUBIKA_INCOMING_UPDATES_RETENTION_HOURS and enable janitor")
              ++ (if ltb (500 * 1048576) size
                  then warning database "Database Size" (megabytes size)
                      (some "Run: rubikactl db cleanup --days 2 --keep-per-chat 10000")
                  else [])))

  unfoldable pub open_checks : Database → List DoctorCheck → List DoctorCheck
  unfolding lowered join db_record_counts retention_checks
  open_checks d before = guarded before d.quick_check λ quick. guarded before d.tables λ tables.
      guarded before d.journal_mode λ journal.
        let counts = db_record_counts d.count counted_tables in
        let looked =
          before
          ++ (check database (is "ok" quick) "SQLite quick_check" (get_or quick "unknown")
                (some "Restore from backup or recreate DB")
              ++ ((if is "wal" (lowered journal)
                    then check database true "WAL mode" (get_or journal "unknown") none
                    else warning database "WAL mode" (get_or journal "unknown")
                        (some "Run: rubikactl fix db"))
                  ++ (check database true "Tables" (join ", " tables) none
                      ++ check database true "Record counts" (h.show_counts counts) none))) in
        guarded looked d.last_message λ last.
          retention_checks d.size (looked ++ check database true "Last Message" (h.dumps last) none)

  unfoldable pub check_database : Bool → List DoctorCheck
  unfolding get_key parse_sqlite_path open_checks
  check_database skip_db =
      let db_path =
        parse_sqlite_path (get_or (get_key "RUBIKA_DB_URL" env_data) "sqlite:///data/bot.db") in
      let d = h.database db_path in
      if skip_db
      then warning database "SQLite" "Skipped" (some "Remove --skip-db to inspect DB health")
      else if not d.there
      then check database false "Database File" db_path (some "Check RUBIKA_DB_URL or migrations")
      else open_checks d
          (check database true "Database File" (db_path <+> " (" <+> megabytes d.size <+> ")") none)
