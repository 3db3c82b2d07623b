-- ===== src/Utils/Stats.antt =====
-- app/utils/stats.py: `StatsCollector`. Times are those of `time.time()`, durations are in
-- milliseconds, both as whole numbers of the unit that the caller reads.
use rubica_bot.Prelude.{ℕ, ◌+◌, ◌-◌, String, Bool, Option, none, some, ◌==◌, if◌then◌else◌}

pub record StatsCollector : Type 0 where
  pub started_at : ℕ
  pub total_updates : ℕ
  pub total_errors : ℕ
  pub total_enqueued : ℕ
  pub total_dropped : ℕ
  pub total_deduped : ℕ
  pub total_dispatch_ms : ℕ
  pub last_dispatch_ms : ℕ
  pub last_update_at : Option ℕ
  pub last_enqueue_at : Option ℕ
  pub last_queue_size : ℕ
  pub last_error_at : Option ℕ
  pub last_error : Option String

abbrev pub init : ℕ → StatsCollector
init started_at = record {
  started_at = started_at;
  total_updates = 0;
  total_errors = 0;
  total_enqueued = 0;
  total_dropped = 0;
  total_deduped = 0;
  total_dispatch_ms = 0;
  last_dispatch_ms = 0;
  last_update_at = none;
  last_enqueue_at = none;
  last_queue_size = 0;
  last_error_at = none;
  last_error = none;
}

unfoldable pub record_enqueue : ℕ → ℕ → StatsCollector → StatsCollector
record_enqueue now queue_size s = record s {
  last_enqueue_at = some now;
  last_queue_size = queue_size;
  total_enqueued = s.total_enqueued + 1;
}

unfoldable pub record_drop : StatsCollector → StatsCollector
record_drop s = record s { total_dropped = s.total_dropped + 1 }

unfoldable pub record_dedup : StatsCollector → StatsCollector
record_dedup s = record s { total_deduped = s.total_deduped + 1 }

unfoldable pub record_dispatch : ℕ → ℕ → Bool → StatsCollector → StatsCollector
record_dispatch now duration_ms error s = record s {
  total_updates = s.total_updates + 1;
  total_dispatch_ms = s.total_dispatch_ms + duration_ms;
  last_dispatch_ms = duration_ms;
  last_update_at = some now;
  total_errors = if error then s.total_errors + 1 else s.total_errors;
  last_error_at = if error then some now else s.last_error_at;
}

-- The quotient as (numerator, denominator); 0 before the first update.
unfoldable pub average_dispatch_ms : StatsCollector → ℕ × ℕ
average_dispatch_ms s =
    if s.total_updates == 0 then (0, 1) else (s.total_dispatch_ms, s.total_updates)

unfoldable pub uptime_seconds : ℕ → StatsCollector → ℕ
uptime_seconds now s = now - s.started_at
