-- ===== src/Core/Queue.antt =====
-- app/core/queue.py: `Job` and `JobQueue`. An `asyncio.Queue` without a bound is its items and its
-- number of unfinished tasks. The lock of `enqueue` makes the body one step. Times are arguments:
-- `now` is what `time.monotonic()` returns to the deduplicator, `wall` what `time.time()` returns.
pub mod Invariant
pub mod Order
pub mod Outcomes
use rubica_bot.Prelude.{
  ℕ, zero, suc, ◌+◌, ◌-◌, String, Bool, true, false, Option, none, some, List, [], ◌∷◌, ◌++◌, leb,
  str_eq, if◌then◌else◌, ◌==◌,
}
use rubica_bot.Prelude.Lists.{length}
use rubica_bot.Prelude.Text.{is_empty}
use rubica_bot.Result.{Result, ok, raise, value_error, ◌>>=◌}
use rubica_bot.Json.{Value}
use rubica_bot.Utils.Dedup.{Deduplicator, seen}
use rubica_bot.Utils.Stats.{StatsCollector, record_enqueue, record_drop, record_dedup}

pub data QueueDecision : Type 0 where
  enqueued duplicate dropped : QueueDecision

pub data JobPriority : Type 0 where
  high normal : JobPriority

pub record Job : Type 0 where
  pub job_id : String
  pub received_at : ℕ
  pub chat_id : Value
  pub message_id : Value
  pub sender_id : Value
  pub update_type : Value
  pub text : Value
  pub raw_payload : Value
  pub dedup_key : Option String
  pub priority : JobPriority

-- asyncio.Queue
pub record AsyncQueue : Type 0 where
  pub items : List (Option Job)
  pub unfinished : ℕ

abbrev pub empty_queue : AsyncQueue
empty_queue = record { items = []; unfinished = 0 }

unfoldable pub put : Option Job → AsyncQueue → AsyncQueue
put job q = record { items = q.items ++ job ∷ []; unfinished = q.unfinished + 1 }

abbrev pub pop_front : List (Option Job) → List (Option Job)
pop_front [] = []
pop_front (x ∷ xs) = xs

unfoldable pub finish : AsyncQueue → Result AsyncQueue
finish q =
    if q.unfinished == 0 then raise value_error else ok (record q { unfinished = q.unfinished - 1 })

pub record JobQueue : Type 0 where
  pub high_queue : AsyncQueue
  pub normal_queue : AsyncQueue
  pub size : ℕ
  pub max_size : ℕ
  pub deduplicator : Deduplicator
  pub full_policy : String
  pub stats : Option StatsCollector

unfoldable pub init : ℕ → Deduplicator → String → Option StatsCollector → JobQueue
init max_size deduplicator full_policy stats = record {
  high_queue = empty_queue;
  normal_queue = empty_queue;
  size = 0;
  max_size = max_size;
  deduplicator = deduplicator;
  full_policy = full_policy;
  stats = stats;
}

-- `if self.stats: self.stats.record_…`
abbrev pub with_stats : (StatsCollector → StatsCollector) → JobQueue → JobQueue
with_stats f q = record q { stats = elim q.stats [ none ↦ none | some s ↦ some (f s) ] }

unfoldable pub size_by_priority : JobQueue → record { high : ℕ; normal : ℕ }
size_by_priority q = record {
  high = length q.high_queue.items;
  normal = length q.normal_queue.items;
}

-- `job.dedup_key or job.job_id`
abbrev pub seen_as : Job → String
seen_as job = elim job.dedup_key [
  | none ↦ job.job_id
  | some key ↦ if is_empty key then job.job_id else key
]

-- `get_nowait()` and `task_done()` on a queue that may be empty: `none` is `QueueEmpty`.
unfoldable pub take_done : AsyncQueue → Result (Option AsyncQueue)
unfolding finish
take_done q = elim q.items [
  | [] ↦ ok none
  | x ∷ xs ↦ (do q' ← finish (record q { items = xs }); ok (some q'))
]

unfoldable pub count_dropped : JobQueue → JobQueue
unfolding record_drop
count_dropped q = with_stats record_drop (record q { size = q.size - 1 })

-- `_drop_oldest`: the oldest normal job, or else the oldest of the high queue.
unfoldable pub drop_oldest : JobQueue → Result JobQueue
unfolding take_done count_dropped
drop_oldest q = do
  normal' ← take_done q.normal_queue
  elim normal' [
    | some n ↦ ok (count_dropped (record q { normal_queue = n }))
    | none ↦ (do
      high' ← take_done q.high_queue
      elim high' [ some h ↦ ok (count_dropped (record q { high_queue = h })) | none ↦ ok q ])
  ]

-- `_put`
unfoldable pub put_job : Job → JobQueue → JobQueue
unfolding put
put_job job q = elim job.priority [
  | high ↦ record q { high_queue = put (some job) q.high_queue }
  | normal ↦ record q { normal_queue = put (some job) q.normal_queue }
]

-- The end of `enqueue`: `_put`, the size, the statistics.
unfoldable pub accept : Job → ℕ → JobQueue → JobQueue
unfolding put_job record_enqueue
accept job wall q =
    let q' = put_job job q in
    with_stats (record_enqueue wall (q.size + 1)) (record q' { size = q.size + 1 })

unfoldable pub admit : Job → ℕ → JobQueue → Result (QueueDecision × JobQueue)
unfolding record_drop
admit job wall q =
    if leb q.max_size q.size
    then (if str_eq q.full_policy "drop_oldest"
        then (do q' ← drop_oldest q; ok (enqueued, accept job wall q'))
        else ok (dropped, with_stats record_drop q))
    else ok (enqueued, accept job wall q)

unfoldable pub enqueue : Job → ℕ → ℕ → JobQueue → Result (QueueDecision × JobQueue)
unfolding record_dedup
enqueue job now wall q =
    let answer = seen (some (seen_as job)) now q.deduplicator in
    let q' = record q { deduplicator = answer.1 } in
    if answer.0 then ok (duplicate, with_stats record_dedup q') else admit job wall q'

-- What `get` returns: the item, and the queue that it came from, which the caller's `_last_queue`
-- records.
pub record Got : Type 0 where
  pub job : Option Job
  pub last_queue : JobPriority
  pub queue : JobQueue

unfoldable pub take_high : JobQueue → JobQueue
take_high q = record q { high_queue = record q.high_queue { items = pop_front q.high_queue.items } }

unfoldable pub take_normal : JobQueue → JobQueue
take_normal q = record q {
  normal_queue = record q.normal_queue { items = pop_front q.normal_queue.items };
}

abbrev pub one_less : JobQueue → JobQueue
one_less q = record q { size = q.size - 1 }

abbrev got_high : JobQueue → Option Job → Got
got_high q job = record { job = job; last_queue = high; queue = one_less q }

abbrev got_normal : JobQueue → Option Job → Got
got_normal q job = record { job = job; last_queue = normal; queue = one_less q }

-- `get` where it need not wait; `none` means that both queues are empty and the caller waits.
unfoldable pub get : JobQueue → Option Got
unfolding take_high take_normal
get q = elim q.high_queue.items [
  | job ∷ _ ↦ some (got_high (take_high q) job)
  | [] ↦ elim q.normal_queue.items [ job ∷ _ ↦ some (got_normal (take_normal q) job) | [] ↦ none ]
]

-- A waiting `get` has a task for each queue; a task has taken an item or is pending. A pending task
-- takes the item at the head of its queue, if there is one.
unfoldable pub catch :
    JobPriority
    → Option (Option Job)
    → Option (Option Job)
    → JobQueue
    → Option ((Option (Option Job) × Option (Option Job)) × JobQueue)
unfolding take_high take_normal
catch high none n q = elim q.high_queue.items [
  | [] ↦ none
  | job ∷ _ ↦ some ((some job, n), take_high q)
]
catch high (some h) n q = none
catch normal h none q = elim q.normal_queue.items [
  | [] ↦ none
  | job ∷ _ ↦ some ((h, some job), take_normal q)
]
catch normal h (some n) q = none

-- A waiting `get` goes on: the winner is one of the tasks that are done, and the others that are
-- pending are cancelled, which take nothing any more.
unfoldable pub resume :
    JobPriority → Option (Option Job) → Option (Option Job) → JobQueue → Option Got
resume high none n q = none
resume high (some job) n q = some (got_high q job)
resume normal h none q = none
resume normal h (some job) q = some (got_normal q job)

unfoldable pub put_raw : Option Job → JobQueue → JobQueue
unfolding put
put_raw job q = record q { high_queue = put job q.high_queue }

finish_in : JobPriority → JobQueue → Result JobQueue
unfolding finish
finish_in high q = do h ← finish q.high_queue; ok (record q { high_queue = h })
finish_in normal q = do n ← finish q.normal_queue; ok (record q { normal_queue = n })

-- `last_queue` is what the calling task's context variable holds.
unfoldable pub task_done : Option Job → Option JobPriority → JobQueue → Result JobQueue
unfolding finish_in
task_done none none q = ok q
task_done none (some name) q = finish_in name q
task_done (some job) last_queue q = finish_in job.priority q

-- The loops of `drain`: as many rounds as there are items.
unfoldable pub drain_items : List (Option Job) → AsyncQueue → ℕ → Result (ℕ × AsyncQueue)
unfolding finish
drain_items [] q n = ok (n, record q { items = [] })
drain_items (x ∷ xs) q n = do q' ← finish (record q { items = xs }); drain_items xs q' (n + 1)

unfoldable pub drain : JobQueue → Result (record { high : ℕ; normal : ℕ } × JobQueue)
unfolding drain_items
drain q = do
  (drained_high, h) ← drain_items q.high_queue.items q.high_queue 0
  (drained_normal, n) ← drain_items q.normal_queue.items q.normal_queue 0
  ok (
    record { high = drained_high; normal = drained_normal },
    record q { high_queue = h; normal_queue = n; size = 0 },
  )

-- `join` returns when both queues are finished.
unfoldable pub is_joined : JobQueue → Bool
is_joined q = q.high_queue.unfinished + q.normal_queue.unfinished == 0
