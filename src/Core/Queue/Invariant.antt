-- ===== src/Core/Queue/Invariant.antt =====
-- A `JobQueue` that counts no more jobs than wait, and within its bound, and the operations that
-- leave it so. A `get` that has waited is not among them: between a task's taking of an item and
-- the end of the wait the size is that of before.
use rubica_bot.Prelude.{
  ℕ, ◌+◌, ◌-◌, ◌≤◌, ◌<◌, ◌≡◌, Option, some, List, [], ◌∷◌, leb, str_eq, arith, Bool-cases, inl, inr,
}
use rubica_bot.Prelude.Lists.{length, length-append}
use rubica_bot.Result.{ok, Returns, Returns-bind}
use rubica_bot.Utils.Dedup.{seen}
use rubica_bot.Core.Queue.{
  Job, JobQueue, QueueDecision, enqueued, seen_as, AsyncQueue, Got, put, finish, take_done,
  drop_oldest, put_job, accept, admit, enqueue, get, put_raw, drain, drain_items, count_dropped,
  take_high, take_normal,
}

pub record IsValid (q : JobQueue) : Type 0 where
  pub counted : q.size ≤ length q.high_queue.items + length q.normal_queue.items
  pub bounded : q.size ≤ q.max_size
  pub room : 0 < q.max_size
  pub high_owed : length q.high_queue.items ≤ q.high_queue.unfinished
  pub normal_owed : length q.normal_queue.items ≤ q.normal_queue.unfinished

-- A queue that counts one job less than it may.
record HasRoom (q : JobQueue) : Type 0 where
  valid : IsValid q
  free : q.size < q.max_size

accept-IsValid : (job : Job) (wall : ℕ) (q : JobQueue) → HasRoom q → IsValid (accept job wall q)
unfolding accept put_job put
accept-IsValid job wall q h = ground (
  arith,
  length-append {0} q.high_queue.items (some job ∷ []),
  length-append {0} q.normal_queue.items (some job ∷ []),
)

drop_oldest-HasRoom :
    (q : JobQueue) → IsValid q → q.max_size ≤ q.size → Returns HasRoom (drop_oldest q)
unfolding drop_oldest take_done finish count_dropped
drop_oldest-HasRoom q v full = ground arith

admit-IsValid :
    (job : Job) (wall : ℕ) (q : JobQueue)
    → IsValid q
    → Returns (λ r. IsValid r.1) (admit job wall q)
unfolding admit
admit-IsValid job wall q v = elim (Bool-cases (leb q.max_size q.size)) [
  | inl full ↦ elim (Bool-cases (str_eq q.full_policy "drop_oldest")) [
    | inl oldest ↦ rw full (
        rw oldest (
          Returns-bind HasRoom (λ (r : QueueDecision × JobQueue). IsValid r.1) (drop_oldest q)
            (λ q'. ok (enqueued, accept job wall q')) (drop_oldest-HasRoom q v (ground arith))
            (λ q' h. accept-IsValid job wall q' h)))
    | inr reject ↦ rw full (rw reject (ground arith))
  ]
  | inr room ↦ rw room (accept-IsValid job wall q (record { valid = v; free = ground arith }))
]

enqueue-IsValid :
    (job : Job) (now wall : ℕ) (q : JobQueue)
    → IsValid q
    → Returns (λ r. IsValid r.1) (enqueue job now wall q)
unfolding enqueue
enqueue-IsValid job now wall q v =
    let answer = seen (some (seen_as job)) now q.deduplicator in
    let q' = record q { deduplicator = answer.1 } in
    elim (Bool-cases answer.0) [
      | inl old ↦ rw old (ground arith)
      | inr new ↦ rw new (admit-IsValid job wall q' (ground arith))
    ]

get-IsValid : (q : JobQueue) (g : Got) → IsValid q → get q ≡ some g → IsValid g.queue
unfolding get take_high take_normal
get-IsValid q g v e = ground arith

put_raw-IsValid : (job : Option Job) (q : JobQueue) → IsValid q → IsValid (put_raw job q)
unfolding put_raw put
put_raw-IsValid job q v = ground (arith, length-append {0} q.high_queue.items (job ∷ []))

drain_items-empty :
    (items : List (Option Job)) (q : AsyncQueue) (n : ℕ)
    → length items ≤ q.unfinished
    → drain_items items q n
      ≡ ok (n + length items, record { items = []; unfinished = q.unfinished - length items })
unfolding drain_items finish
drain_items-empty [] q n h = ground arith
drain_items-empty (x ∷ xs) q n h =
    ground
      (arith, drain_items-empty xs (record { items = xs; unfinished = q.unfinished - 1 }) (n + 1))

-- `drain` empties both queues, whatever waits in them, counts what it removes, and leaves unfinished
-- exactly the tasks that were in the hands of a worker.
pub drain_lem :
    (q : JobQueue)
    → IsValid q
    → drain q
      ≡ ok (
        record { high = length q.high_queue.items; normal = length q.normal_queue.items },
        record q {
          high_queue = record {
            items = [];
            unfinished = q.high_queue.unfinished - length q.high_queue.items;
          };
          normal_queue = record {
            items = [];
            unfinished = q.normal_queue.unfinished - length q.normal_queue.items;
          };
          size = 0;
        },
      )
unfolding drain
drain_lem q v =
    rw
      (
        drain_items-empty q.high_queue.items q.high_queue 0 v.high_owed,
        drain_items-empty q.normal_queue.items q.normal_queue 0 v.normal_owed,
      )
      (ground arith)
