-- ===== src/Bot/Health.antt =====
-- app/main.py: the answers of `/health`, `/health/queue` and `/health/queue/drain`. The quotient of the
-- mean duration is shown by a parameter; times are whole numbers of a unit.
use rubica_bot.Prelude.{
  ℕ, ◌≡◌, refl, String, true, Option, none, some, List, [], ◌∷◌, ◌++◌, ltb, if◌then◌else◌,
}
use rubica_bot.Prelude.Int.{pos}
use rubica_bot.Result.{Result, ok, ◌>>=◌}
use rubica_bot.Json.{Value, obj, arr, str, num, flag, null, fields, items, find}
use rubica_bot.Services.Context.{has_key}
use rubica_bot.Core.Queue.{JobQueue, size_by_priority, drain}
use rubica_bot.Core.Worker.{Worker, WorkerStatus}
use rubica_bot.Utils.Stats.{StatsCollector, average_dispatch_ms}
use rubica_bot.Cli.Doctor.Checks.{check, warning}
use rubica_bot.Cli.Doctor.Found.{Host}
use rubica_bot.Cli.Doctor.Queue.{queue_checks}

abbrev number : ℕ → Value
number n = num (pos n)

abbrev number_or_null : Option ℕ → Value
number_or_null none = null
number_or_null (some n) = number n

abbrev text_or_null : Option String → Value
text_or_null none = null
text_or_null (some s) = str s

unfoldable pub health : Value
health = obj (fields (("status", str "ok") ∷ []))

unfoldable pub queue_health : JobQueue → StatsCollector → Value
unfolding size_by_priority
queue_health q stats =
    let sizes = size_by_priority q in
    obj (
      fields (
        ("size", number q.size)
        ∷ ("high_size", number sizes.high)
        ∷ ("normal_size", number sizes.normal)
        ∷ ("max_size", number q.max_size)
        ∷ ("total_enqueued", number stats.total_enqueued)
        ∷ ("total_dropped", number stats.total_dropped)
        ∷ ("total_deduped", number stats.total_deduped)
        ∷ []))

unfoldable pub worker_health : WorkerStatus → Value
worker_health s = obj (
    fields (
      ("id", number s.worker_id)
      ∷ ("alive", flag s.alive)
      ∷ ("processed", number s.processed)
      ∷ ("last_job_at", number_or_null s.last_job_at)
      ∷ ("last_error", text_or_null s.last_error)
      ∷ ("last_error_at", number_or_null s.last_error_at)
      ∷ []))

unfoldable pub workers_health : List Worker → List Value
unfolding worker_health
workers_health [] = []
workers_health (w ∷ ws) = worker_health w.status ∷ workers_health ws

unfoldable pub stats_health : (ℕ × ℕ → Value) → StatsCollector → Value
unfolding average_dispatch_ms
stats_health ratio stats = obj (
    fields (
      ("total_updates", number stats.total_updates)
      ∷ ("total_errors", number stats.total_errors)
      ∷ ("avg_dispatch_ms", ratio (average_dispatch_ms stats))
      ∷ ("last_dispatch_ms", number stats.last_dispatch_ms)
      ∷ []))

unfoldable pub health_queue : (ℕ × ℕ → Value) → JobQueue → List Worker → StatsCollector → Value
unfolding queue_health workers_health stats_health
health_queue ratio q workers stats = obj (
    fields (
      ("queue", queue_health q stats)
      ∷ ("workers", arr (items (workers_health workers)))
      ∷ ("stats", stats_health ratio stats)
      ∷ []))

unfoldable pub drain_queue : JobQueue → Result (Value × JobQueue)
unfolding drain
drain_queue q = do
  (drained, q') ← drain q
  ok (
    obj (
        fields (
          (
            "drained",
            obj (fields (("high", number drained.high) ∷ ("normal", number drained.normal) ∷ [])),
          )
          ∷ [])),
    q',
  )

module _ (h : Host) (ratio : ℕ × ℕ → Value) (q : JobQueue) (workers : List Worker)
    (stats : StatsCollector) where
  -- The doctor understands the answer of /health/queue of every queue: it fails no check, and warns
  -- of a backlog exactly if more than 500 jobs wait.
  pub queue_checks-health_queue :
      queue_checks h (health_queue ratio q workers stats)
      ≡ ok (
          check "E) Queue & Worker" true "Queue Status" (h.dumps (queue_health q stats)) none
          ++ ((if ltb 500 q.size
                then warning "E) Queue & Worker" "Queue Backlog"
                    (h.dumps (queue_health q stats))
                    (some "Consider increasing workers or enabling priority queues")
                else [])
              ++ (check "E) Queue & Worker" true "Workers"
                    (h.dumps (arr (items (workers_health workers))))
                    none
                  ++ check "E) Queue & Worker" true "Processing Stats"
                      (h.dumps (stats_health ratio stats))
                      none)))
  unfolding queue_checks health_queue queue_health has_key find
  queue_checks-health_queue = refl
