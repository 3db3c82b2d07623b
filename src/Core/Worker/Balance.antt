-- ===== src/Core/Worker/Balance.antt =====
-- The books of the queue and the workers balance: a queue's unfinished tasks are its items, the
-- items in the hands of workers and those that waits have lost.
use rubica_bot.Prelude.{ℕ, zero, suc, ◌+◌, ◌≡◌, refl, String, Option, List, ◌∷◌, ◌++◌, ◌==◌, arith}
use Prim.Native.Nat.{max}
use rubica_bot.Prelude.Lists.{length}
use rubica_bot.Result.{Result, ok, raise, Returns}
use rubica_bot.Core.Queue.{Job, JobQueue, JobPriority, high, normal, is_joined, empty_queue}
use rubica_bot.Core.Worker.{
  Worker, WorkerPool, idle, busy, Reach, here, next, complete, start, start_from, lost,
}
use rubica_bot.Core.Worker.Books.{IsBalanced, in_hand}
use rubica_bot.Core.Worker.Steps.{AllPlaced, BalancedBut, Balanced, complete-Returns, Step-Balanced}

idle_result :
    (P : JobQueue → Type 0) (m : Result (Worker × JobQueue))
    → Returns (λ r. P r.1 × (r.0.hand ≡ idle)) m
    → (w' : Worker) × (q : JobQueue) × (m ≡ ok (w', q)) × (w'.hand ≡ idle)
idle_result P (ok (w', q)) h = (w', q, refl, h.1)
idle_result P (raise e) h = absurd h

pub Reach-Balanced : {p p' : WorkerPool} → Balanced p → (r : Reach p p') → BalancedBut (lost r) p'
Reach-Balanced b here = b
Reach-Balanced b (next r st) = Step-Balanced st (Reach-Balanced b r)

in_hand-start_from :
    (r : JobPriority) (started_at idx n : ℕ) → in_hand r (start_from started_at idx n) ≡ 0
unfolding start_from
in_hand-start_from r started_at idx zero = refl
in_hand-start_from r started_at idx (suc n) =
    omega (arith, in_hand-start_from r started_at (suc idx) n)

placed_start : (started_at idx n : ℕ) → AllPlaced (start_from started_at idx n)
unfolding start_from
placed_start started_at idx zero = tt
placed_start started_at idx (suc n) = (tt, placed_start started_at (suc idx) n)

-- A pool that starts on an empty queue balances.
pub start-Balanced :
    (started_at concurrency : ℕ) (q : JobQueue)
    → q.high_queue ≡ empty_queue
    → q.normal_queue ≡ empty_queue
    → Balanced (start started_at concurrency q)
unfolding start
start-Balanced started_at concurrency q eh en = record {
  books = ground (
    arith,
    in_hand-start_from high started_at 0 (max 1 concurrency),
    in_hand-start_from normal started_at 0 (max 1 concurrency),
  );
  placed = placed_start started_at 0 (max 1 concurrency);
}

module _ {start_pool p : WorkerPool} (b : Balanced start_pool) (r : Reach start_pool p) where
  -- In every state that a pool with balanced books reaches, a worker whose handler is done closes its
  -- job, whether the handler returned or raised: `task_done` does not raise, and the worker is idle.
  pub complete_returns :
      (before after : List Worker) (w : Worker) (job : Job) (error : Option String)
      (now elapsed_ms : ℕ)
      → p.workers ≡ before ++ w ∷ after
      → w.hand ≡ busy job
      → (w' : Worker) × (q : JobQueue) × (complete job error now elapsed_ms w p.queue ≡ ok (w', q))
        × (w'.hand ≡ idle)
  complete_returns before after w job error now elapsed_ms ws i = idle_result (IsBalanced _ _) _ (
      complete-Returns (lost r) p before after w (Reach-Balanced b r) ws job error now elapsed_ms i)

  -- In every state that a pool with balanced books reaches, `join` returns exactly when no queue has an
  -- item left, no worker has an item in hand, be it in a wait, and no wait has lost an item on the way.
  pub is_joined_iff : is_joined p.queue ≡ (
      length p.queue.high_queue.items
        + length p.queue.normal_queue.items
        + (in_hand high p.workers + in_hand normal p.workers)
        + (lost r high + lost r normal)
      == 0)
  unfolding is_joined
  is_joined_iff =
      let books = (Reach-Balanced b r).books in ground (arith, books.high_owed, books.normal_owed)
