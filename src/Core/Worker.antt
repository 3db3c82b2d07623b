-- ===== src/Core/Worker.antt =====
-- app/core/worker.py: `WorkerStatus` and `WorkerPool`. Each worker is a task of the event loop: it
-- waits for a job, has one in hand while the handler runs, or has ended. The handler is what the rest
-- of the program makes of a job: here only its outcome counts, the text of the exception if it raised
-- one. The pool's statistics are those of the queue, as in app/main.py.
pub mod Books
pub mod Steps
pub mod Balance
pub mod Shutdown
pub mod Effort
pub mod Progress
use Prim.Native.Nat.{max}
use rubica_bot.Prelude.{
  ℕ, zero, suc, ◌+◌, ◌-◌, ◌≡◌, String, Bool, true, false, Option, none, some, List, [], ◌∷◌, ◌++◌,
  if◌then◌else◌,
}
use rubica_bot.Result.{Result, ok, raise, ◌>>=◌}
use rubica_bot.Utils.Stats.{StatsCollector, record_dispatch}
use rubica_bot.Core.Queue.{
  Job, JobQueue, JobPriority, high, normal, Got, get, catch, resume, task_done, put_raw, enqueue,
  drain, QueueDecision, with_stats,
}

pub record WorkerStatus : Type 0 where
  pub worker_id : ℕ
  pub started_at : ℕ
  pub last_job_at : Option ℕ
  pub last_error_at : Option ℕ
  pub last_error : Option String
  pub processed : ℕ
  pub alive : Bool

pub data Hand : Type 0 where
  idle : Hand
  busy : Job → Hand
  ended : Hand
  -- in a `get` that waits, with what its two tasks have taken
  awaiting : Option (Option Job) → Option (Option Job) → Hand

pub record Worker : Type 0 where
  pub status : WorkerStatus
  pub hand : Hand

pub record WorkerPool : Type 0 where
  pub queue : JobQueue
  pub workers : List Worker

new_worker : ℕ → ℕ → Worker
new_worker started_at idx = record {
  status = record {
    worker_id = idx;
    started_at = started_at;
    last_job_at = none;
    last_error_at = none;
    last_error = none;
    processed = 0;
    alive = true;
  };
  hand = idle;
}

-- The loop of `start`, from worker `idx` on.
unfoldable pub start_from : ℕ → ℕ → ℕ → List Worker
unfolding new_worker
start_from started_at idx zero = []
start_from started_at idx (suc n) = new_worker started_at idx ∷ start_from started_at (suc idx) n

-- `WorkerPool(queue, …, concurrency=…)` and `start`
unfoldable pub start : ℕ → ℕ → JobQueue → WorkerPool
unfolding start_from
start started_at concurrency queue = record {
  queue = queue;
  workers = start_from started_at 0 (max 1 concurrency);
}

-- The head of the loop, once `get` has returned: `None` ends the worker.
unfoldable pub receive : Got → Worker → Result (Worker × JobQueue)
receive g w = elim g.job [
  | none ↦ (do
    q ← task_done none (some g.last_queue) g.queue
    ok (record { status = record w.status { alive = false }; hand = ended }, q))
  | some job ↦ ok (record w { hand = busy job }, g.queue)
]

-- `except Exception` and `finally`: what is written when the handler is done.
unfoldable pub note_error : ℕ → Option String → WorkerStatus → WorkerStatus
note_error now none s = s
note_error now (some text) s = record s { last_error = some text; last_error_at = some now }

abbrev pub is_error : Option String → Bool
is_error none = false
is_error (some text) = true

unfoldable pub complete :
    Job → Option String → ℕ → ℕ → Worker → JobQueue → Result (Worker × JobQueue)
unfolding note_error record_dispatch
complete job error now elapsed_ms w q = do
  q' ← task_done (some job) none (with_stats (record_dispatch now elapsed_ms (is_error error)) q)
  ok (
    record {
      status = record (note_error now error w.status) {
        processed = w.status.processed + 1;
        last_job_at = some now;
      };
      hand = idle;
    },
    q',
  )

-- `stop`: one `None` for each task. It then waits until every worker has ended.
unfoldable pub put_sentinels : List Worker → JobQueue → JobQueue
put_sentinels [] q = q
put_sentinels (w ∷ ws) q = put_sentinels ws (put_raw none q)

unfoldable pub stop : WorkerPool → WorkerPool
unfolding put_sentinels
stop p = record p { queue = put_sentinels p.workers p.queue }

-- One step of the running program, whichever task the event loop lets run.
pub data Step (p : WorkerPool) : WorkerPool → Type 0 where
  -- the webhook enqueues a job
  arrives :
      {q : JobQueue} (job : Job) (now wall : ℕ) (d : QueueDecision)
      → enqueue job now wall p.queue ≡ ok (d, q)
      → Step p (record p { queue = q })
  -- an idle worker gets an item
  takes :
      {q : JobQueue} (before after : List Worker) (w w' : Worker) (g : Got)
      → p.workers ≡ before ++ w ∷ after
      → w.hand ≡ idle
      → get p.queue ≡ some g
      → receive g w ≡ ok (w', q)
      → Step p (record { queue = q; workers = before ++ w' ∷ after })
  -- both queues are empty, and `get` waits
  waits :
      (before after : List Worker) (w : Worker)
      → p.workers ≡ before ++ w ∷ after
      → w.hand ≡ idle
      → get p.queue ≡ none
      → Step p (record p { workers = before ++ record w { hand = awaiting none none } ∷ after })
  -- a task of a waiting `get` takes an item
  catches :
      {h' n' : Option (Option Job)} {q : JobQueue} (before after : List Worker) (w : Worker)
      (r : JobPriority) (h n : Option (Option Job))
      → p.workers ≡ before ++ w ∷ after
      → w.hand ≡ awaiting h n
      → catch r h n p.queue ≡ some ((h', n'), q)
      → Step p
          (record { queue = q; workers = before ++ record w { hand = awaiting h' n' } ∷ after })
  -- a waiting `get` returns the item of one of its tasks
  resumes :
      {q : JobQueue} (before after : List Worker) (w w' : Worker) (r : JobPriority)
      (h n : Option (Option Job)) (g : Got)
      → p.workers ≡ before ++ w ∷ after
      → w.hand ≡ awaiting h n
      → resume r h n p.queue ≡ some g
      → receive g w ≡ ok (w', q)
      → Step p (record { queue = q; workers = before ++ w' ∷ after })
  -- a handler returns or raises
  completes :
      {q : JobQueue} (before after : List Worker) (w w' : Worker) (job : Job)
      (error : Option String) (now elapsed_ms : ℕ)
      → p.workers ≡ before ++ w ∷ after
      → w.hand ≡ busy job
      → complete job error now elapsed_ms w p.queue ≡ ok (w', q)
      → Step p (record { queue = q; workers = before ++ w' ∷ after })
  -- POST /health/queue/drain
  drains :
      {q : JobQueue} {counts : record { high : ℕ; normal : ℕ }}
      → drain p.queue ≡ ok (counts, q)
      → Step p (record p { queue = q })
  -- the shutdown puts a `None` for each worker
  stops : Step p (stop p)

pub data Reach (p : WorkerPool) : WorkerPool → Type 0 where
  here : Reach p p
  next : {p' p'' : WorkerPool} → Reach p p' → Step p' p'' → Reach p p''

abbrev pub one_if : Option (Option Job) → ℕ
one_if none = 0
one_if (some item) = 1

-- A wait returns one item: what its other task has taken is in no queue and in no hand any more.
abbrev pub left_behind : JobPriority → Option (Option Job) → Option (Option Job) → JobPriority → ℕ
left_behind high h n normal = one_if n
left_behind normal h n high = one_if h
left_behind high h n high = 0
left_behind normal h n normal = 0

-- The items of a queue that a step loses, and those that a history loses.
abbrev pub loses : {p p' : WorkerPool} → Step p p' → JobPriority → ℕ
loses (resumes before after w w' r h n g ws i e k) = left_behind r h n
loses (arrives job now wall d e) = λ r. 0
loses (takes before after w w' g ws i e k) = λ r. 0
loses (waits before after w ws i e) = λ r. 0
loses (catches before after w r h n ws i e) = λ k. 0
loses (completes before after w w' job error now elapsed_ms ws i k) = λ r. 0
loses (drains e) = λ r. 0
loses stops = λ r. 0

abbrev pub lost : {p p' : WorkerPool} → Reach p p' → JobPriority → ℕ
lost here r = 0
lost (next reach step) r = lost reach r + loses step r
