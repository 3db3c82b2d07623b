-- ===== src/Cli/Tests/Verdicts.antt =====
-- The theorems about the doctor at concrete inputs.
use rubica_bot.Prelude.{ℕ, ◌≡◌, refl, String, true, false, Option, none, some, List, [], ◌∷◌, arith}
use rubica_bot.Prelude.Text.{◌<+>◌, count}
use rubica_bot.Result.{ok, raise, os_error}
use rubica_bot.Json.{obj, null, no_fields}
use rubica_bot.Db.Tables.{Db}
use rubica_bot.Db.Repository.{empty_db}
use rubica_bot.Db.Messages.{
  NewUpdate, save_message, save_incoming_update, cleanup_incoming_updates, trim_messages_per_chat,
}
use rubica_bot.Bot.{janitor}
use rubica_bot.Cli.Maintenance.{db_cleanup}
use rubica_bot.Cli.Maintenance.Cleaned
use rubica_bot.Cli.Machine.{Machine}
use rubica_bot.Cli.DoctorUtils.{mask_secret}
use rubica_bot.Cli.DoctorUtils.Masked
use rubica_bot.Cli.Doctor.{settings_of, doctor}
use rubica_bot.Cli.Doctor.Checks.{
  DoctorCheck, Status, fine, warn, fail, is_fail, is_warn, number_of, render_doctor_tables,
}
use rubica_bot.Cli.Doctor.Checks.Counted
use rubica_bot.Cli.Doctor.Found.{Host, Options}
use rubica_bot.Cli.Doctor.Verdict
use rubica_bot.Cli.Doctor.Verdict.{AsksOnly}

mask_secret-hides_example :
    (mask_secret 2 ("ab" <+> "123" <+> "yz") ≡ mask_secret 2 ("ab" <+> "4" <+> "yz"))
    × (mask_secret 2 "abcd" ≡ mask_secret 2 "wxyz")
unfolding count
mask_secret-hides_example =
    Masked.mask_secret-hides 2 "ab" "123" "4" "yz" "abcd" "wxyz" (omega arith) refl refl
      (omega arith) (omega arith) refl (omega arith)

abbrev a_check : String → Status → DoctorCheck
a_check section status = record {
  section = section;
  status = status;
  label = "l";
  detail = "d";
  fix = none;
}

abbrev some_checks : List DoctorCheck
some_checks = a_check "A" fail ∷ a_check "B" warn ∷ a_check "A" fail ∷ a_check "B" fine ∷ []

render_doctor_tables_lem_example :
    render_doctor_tables some_checks
    ≡ (number_of is_fail some_checks, number_of is_warn some_checks)
render_doctor_tables_lem_example = Counted.render_doctor_tables_lem some_checks

abbrev a_host : Host
a_host = record {
  python = (3, 11);
  python_text = "3.11.2";
  virtual_env = none;
  prefix_differs = true;
  path_there = true;
  disk_free = ok 9000000;
  meminfo = ok [];
  resolve = ok tt;
  systemctl_show = ok [];
  connect = raise os_error;
  nginx_active = ok (true, "active");
  nginx_test = ok (true, "");
  reply = λ address body. ok (200, "{}");
  health = ok (200, "{}");
  loads = λ text. ok (obj no_fields);
  database = λ path. record {
    there = false;
    size = 0;
    quick_check = ok none;
    journal_mode = ok none;
    tables = ok [];
    count = λ table. ok 0;
    last_message = ok null;
  };
  two_decimals = λ n d. "1.00";
  show_error = λ e. "error";
  dumps = λ v. "{}";
  repr = λ v. "{}";
  show_mapping = λ m. "{}";
  show_counts = λ m. "{}";
}

abbrev plain_options : Options
plain_options = record {
  path = "/opt/bot";
  service = "bot";
  port = 8080;
  api_base_url = "";
  send_owner = false;
  test_webhook = true;
  apply_webhook = false;
  yes_to_all = true;
  skip_systemd = false;
  skip_nginx = false;
  skip_queue = false;
  skip_rubika = false;
  skip_dns = false;
  skip_db = false;
}

abbrev a_machine : Machine
a_machine = record { files = λ p. none; ran = []; answers = []; choices = []; posted = [] }

abbrev an_env : Option String
an_env = some "RUBIKA_BOT_TOKEN=t0\n"

doctor-AsksOnly_example :
    AsksOnly a_host plain_options
      (settings_of plain_options an_env)
      []
      (doctor a_host plain_options an_env a_machine).1
doctor-AsksOnly_example = Verdict.doctor-AsksOnly a_host plain_options an_env a_machine refl refl

-- An update of an hour ago and one of three days ago, and two messages of one chat.
abbrev an_update : ℕ → NewUpdate
an_update received_at = record {
  job_id = "j";
  received_at = received_at;
  chat_id = some "c";
  message_id = none;
  sender_id = none;
  update_type = none;
  text = none;
  raw_payload = none;
}

abbrev used_db : Db
unfolding save_message save_incoming_update
used_db = save_message "c" "m2" none none (
    save_message "c" "m1" none none
      (save_incoming_update (an_update 296400) (save_incoming_update (an_update 40800) empty_db)))

db_cleanup-janitor_example :
    ((db_cleanup 2 1 300000 used_db).1 ≡ janitor true 48 1 300000 used_db)
    × ((db_cleanup 2 1 300000 used_db).0 ≡ (
      (cleanup_incoming_updates 172800 300000 used_db).0,
      (trim_messages_per_chat 1 (cleanup_incoming_updates 172800 300000 used_db).1).0,
    ))
db_cleanup-janitor_example = Cleaned.db_cleanup-janitor 2 1 300000 used_db
