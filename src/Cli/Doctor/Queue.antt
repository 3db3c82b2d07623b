-- ===== src/Cli/Doctor/Queue.antt =====
-- app/cli/rubikactl.py: the section E of `doctor`, and `queue status`, `queue top` and `queue drain`.
use rubica_bot.Prelude.{
  ℕ, String, Bool, true, false, none, some, List, [], ◌++◌, ltb, ◌==◌, if◌then◌else◌,
}
use rubica_bot.Prelude.Int.{pos, negsuc}
use rubica_bot.Result.{Result, ok, raise, ◌>>=◌, request_failed, attribute_error, type_error}
use rubica_bot.Json.{Value, obj, num, flag, arr, no_fields, no_items, find}
use rubica_bot.Services.Context.{has_key}
use rubica_bot.Cli.Doctor.Checks.{DoctorCheck, check, warning}
use rubica_bot.Cli.Doctor.Found.{Host, Options}

abbrev queue : String
queue = "E) Queue & Worker"

-- d.get(key, default)
abbrev get_with : Value → String → Value → Result Value
unfolding has_key find
get_with (obj fs) key d = if has_key key fs then ok (find key fs) else ok d
get_with _ key d = raise attribute_error

-- size > 500
abbrev is_backlog : Value → Result Bool
is_backlog (num (pos n)) = ok (ltb 500 n)
is_backlog (num (negsuc n)) = ok false
is_backlog (flag b) = ok false
is_backlog _ = raise type_error

module _ (h : Host) where
  unfoldable pub queue_checks : Value → Result (List DoctorCheck)
  unfolding get_with
  queue_checks health = do
    q ← get_with health "queue" (obj no_fields)
    size ← get_with q "size" (num (pos 0))
    backlog ← is_backlog size
    workers ← get_with health "workers" (arr no_items)
    stats ← get_with health "stats" (obj no_fields)
    ok (
        check queue true "Queue Status" (h.dumps q) none
        ++ ((if backlog
              then warning queue "Queue Backlog" (h.dumps q)
                  (some "Consider increasing workers or enabling priority queues")
              else [])
            ++ (check queue true "Workers" (h.dumps workers) none
                ++ check queue true "Processing Stats" (h.dumps stats) none)))

  abbrev answered : Result (ℕ × String) → Result (List DoctorCheck)
  unfolding queue_checks
  answered (ok (status, text)) =
      if status == 200
      then h.loads text >>= queue_checks
      else ok (check queue false "Queue Status" text (some "Check app service health"))
  answered (raise (request_failed text)) = ok (
      warning queue "Queue Status" (h.show_error (request_failed text))
        (some "Ensure app is running"))
  answered (raise e) = raise e

  unfoldable pub check_queue : Options → Result (List DoctorCheck)
  unfolding answered
  check_queue o =
      if o.skip_queue
      then ok (
          warning queue "Queue Status" "Skipped"
            (some "Remove --skip-queue to validate worker health"))
      else answered h.health

  -- What the commands `queue status` and `queue drain` print of the answer: a check without a section.
  abbrev shown : String → Result (ℕ × String) → Result (List DoctorCheck)
  shown label (ok (status, text)) = ok (
      if status == 200
      then check "" true label text none
      else check "" false label text (some "Check app service health"))
  shown label (raise (request_failed text)) =
      ok (warning "" label (h.show_error (request_failed text)) (some "Ensure app is running"))
  shown label (raise e) = raise e

  unfoldable pub queue_status : Result (List DoctorCheck)
  queue_status = shown "Queue Status" h.health

  unfoldable pub queue_drain : Result (ℕ × String) → Result (List DoctorCheck)
  queue_drain answer = shown "Queue Drain" answer

  unfoldable pub queue_top : Result (List DoctorCheck)
  queue_top = elim h.health [
    | ok (status, text) ↦
        if status == 200
        then (do health ← h.loads text; ok (check "" true "Queue Snapshot" (h.dumps health) none))
        else ok (check "" false "Queue Snapshot" text (some "Check app service health"))
    | raise e ↦ shown "Queue Snapshot" (raise e)
  ]
