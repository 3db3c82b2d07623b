-- ===== src/Core/Worker/Books.antt =====
-- The books of a queue, its unfinished tasks, through each operation of the queue and of one worker.
use rubica_bot.Prelude.{
  ℕ, ◌+◌, ◌-◌, ◌≡◌, String, Option, none, some, List, [], ◌∷◌, ◌++◌, arith, leb, str_eq, Bool-cases,
  inl, inr,
}
use rubica_bot.Prelude.Lists.{length, length-append}
use rubica_bot.Result.{ok, Returns, Returns-bind}
use rubica_bot.Utils.Dedup.{seen}
use rubica_bot.Core.Queue.{
  Job, JobQueue, JobPriority, high, normal, AsyncQueue, Got, get, task_done, put_raw, enqueue,
  admit, accept, put_job, put, drop_oldest, drain, drain_items, QueueDecision, enqueued,
  count_dropped, take_done, finish, take_high, take_normal, seen_as, catch, resume,
}
use rubica_bot.Core.Worker.{
  Worker, Hand, idle, busy, ended, awaiting, one_if, left_behind, receive, complete, put_sentinels,
}

abbrev pub All {ℓ} : {A : Type ℓ} → (A → Type 0) → List A → Type 0
All P [] = Unit
All P (x ∷ xs) = P x × All P xs

-- The high queue holds sentinels and jobs of high priority, the other one jobs of normal priority.
abbrev pub InHigh : Option Job → Type 0
InHigh none = Unit
InHigh (some job) = job.priority ≡ high

abbrev pub InNormal : Option Job → Type 0
InNormal none = ⊥
InNormal (some job) = job.priority ≡ normal

-- `h` and `n` jobs of the two priorities are in hand.
pub record IsBalanced (h n : ℕ) (q : JobQueue) : Type 0 where
  pub high_owed : q.high_queue.unfinished ≡ length q.high_queue.items + h
  pub normal_owed : q.normal_queue.unfinished ≡ length q.normal_queue.items + n
  pub high_placed : All InHigh q.high_queue.items
  pub normal_placed : All InNormal q.normal_queue.items

All-append {ℓ} :
    {A : Type ℓ} (P : A → Type 0) (xs : List A) (x : A) → All P xs → P x → All P (xs ++ x ∷ [])
All-append P [] x h p = (p, tt)
All-append P (y ∷ xs) x h p = (h.0, All-append P xs x h.1 p)

module _ (h n : ℕ) where
  accept-IsBalanced :
      (job : Job) (wall : ℕ) (q : JobQueue) → IsBalanced h n q → IsBalanced h n (accept job wall q)
  unfolding accept put_job put
  accept-IsBalanced job wall q b = ground (
    arith,
    length-append {0} q.high_queue.items (some job ∷ []),
    length-append {0} q.normal_queue.items (some job ∷ []),
    All-append InHigh q.high_queue.items (some job) b.high_placed,
    All-append InNormal q.normal_queue.items (some job) b.normal_placed,
  )

  drop_oldest-IsBalanced :
      (q : JobQueue) → IsBalanced h n q → Returns (IsBalanced h n) (drop_oldest q)
  unfolding drop_oldest take_done finish count_dropped
  drop_oldest-IsBalanced q b = ground arith

  admit-IsBalanced :
      (job : Job) (wall : ℕ) (q : JobQueue)
      → IsBalanced h n q
      → Returns (λ r. IsBalanced h n r.1) (admit job wall q)
  unfolding admit
  admit-IsBalanced job wall q b = elim (Bool-cases (leb q.max_size q.size)) [
    | inl full ↦ elim (Bool-cases (str_eq q.full_policy "drop_oldest")) [
      | inl oldest ↦ rw full (
          rw oldest (
            Returns-bind (IsBalanced h n) (λ (r : QueueDecision × JobQueue). IsBalanced h n r.1)
              (drop_oldest q) (λ q'. ok (enqueued, accept job wall q')) (drop_oldest-IsBalanced q b)
              (accept-IsBalanced job wall)))
      | inr reject ↦ rw full (rw reject (ground arith))
    ]
    | inr room ↦ rw room (accept-IsBalanced job wall q b)
  ]

  pub enqueue-IsBalanced :
      (job : Job) (now wall : ℕ) (q : JobQueue)
      → IsBalanced h n q
      → Returns (λ r. IsBalanced h n r.1) (enqueue job now wall q)
  unfolding enqueue
  enqueue-IsBalanced job now wall q b =
      let answer = seen (some (seen_as job)) now q.deduplicator in
      let q' = record q { deduplicator = answer.1 } in
      elim (Bool-cases answer.0) [
        | inl old ↦ rw old (ground arith)
        | inr new ↦ rw new (admit-IsBalanced job wall q' (ground arith))
      ]

  put_raw-IsBalanced : (q : JobQueue) → IsBalanced h n q → IsBalanced h n (put_raw none q)
  unfolding put_raw put
  put_raw-IsBalanced q b = ground (
    arith,
    length-append {0} q.high_queue.items (none ∷ []),
    All-append InHigh q.high_queue.items none b.high_placed tt,
  )

  pub put_sentinels-IsBalanced :
      (ws : List Worker) (q : JobQueue) → IsBalanced h n q → IsBalanced h n (put_sentinels ws q)
  unfolding put_sentinels
  put_sentinels-IsBalanced [] q b = b
  put_sentinels-IsBalanced (w ∷ ws) q b =
      put_sentinels-IsBalanced ws (put_raw none q) (put_raw-IsBalanced q b)

  drain_items-unfinished :
      (items : List (Option Job)) (q : AsyncQueue) (m k : ℕ)
      → q.unfinished ≡ length items + m
      → Returns (λ r. (r.1.unfinished ≡ m) × (r.1.items ≡ [])) (drain_items items q k)
  unfolding drain_items finish
  drain_items-unfinished [] q m k e = ground arith
  drain_items-unfinished (x ∷ xs) q m k e = ground (
    arith,
    drain_items-unfinished xs (record { items = xs; unfinished = q.unfinished - 1 }) m (k + 1),
  )

-- What a worker holds.
abbrev pub held : JobPriority → Hand → ℕ
held p idle = 0
held p ended = 0
held high (busy job) = elim job.priority [ high ↦ 1 | normal ↦ 0 ]
held normal (busy job) = elim job.priority [ high ↦ 0 | normal ↦ 1 ]
held high (awaiting h n) = one_if h
held normal (awaiting h n) = one_if n

abbrev IfSome : (Option Job → Type 0) → Option (Option Job) → Type 0
IfSome P none = Unit
IfSome P (some item) = P item

-- What a waiting worker's tasks have taken is what the two queues hold.
abbrev pub Placed : Hand → Type 0
Placed (awaiting h n) = IfSome InHigh h × IfSome InNormal n
Placed idle = Unit
Placed ended = Unit
Placed (busy job) = Unit

abbrev pub in_hand : JobPriority → List Worker → ℕ
in_hand p [] = 0
in_hand p (w ∷ ws) = held p w.hand + in_hand p ws

pub in_hand-append :
    (p : JobPriority) (xs ys : List Worker) → in_hand p (xs ++ ys) ≡ in_hand p xs + in_hand p ys
in_hand-append p [] ys = omega arith
in_hand-append p (x ∷ xs) ys = omega (arith, in_hand-append p xs ys)

-- A `get` from a queue that balances: the item's number moves from the queue to the hand.
pub receive-IsBalanced :
    (h n : ℕ) (q : JobQueue) (g : Got) (w : Worker)
    → IsBalanced h n q
    → get q ≡ some g
    → Returns
        (λ r. IsBalanced (h + held high r.0.hand) (n + held normal r.0.hand) r.1)
        (receive g w)
unfolding receive get take_high take_normal task_done finish
receive-IsBalanced h n q g w b e = ground arith

-- A worker that has received an item is in no wait.
pub receive-Placed :
    (g : Got) (w w' : Worker) (q : JobQueue) → receive g w ≡ ok (w', q) → Placed w'.hand
unfolding receive task_done finish
receive-Placed g w w' q e = ground (arith, e)

-- A task of a waiting `get` moves an item's number from the queue to the hand.
pub catch-IsBalanced :
    (a b : ℕ) (r : JobPriority) (h n h' n' : Option (Option Job)) (q q' : JobQueue)
    → IsBalanced (a + one_if h) (b + one_if n) q
    → Placed (awaiting h n)
    → catch r h n q ≡ some ((h', n'), q')
    → IsBalanced (a + one_if h') (b + one_if n') q' × Placed (awaiting h' n')
unfolding catch take_high take_normal
catch-IsBalanced a b high none n h' n' q q' k p e = ground arith
catch-IsBalanced a b high (some h) n h' n' q q' k p e = ground arith
catch-IsBalanced a b normal h none h' n' q q' k p e = ground arith
catch-IsBalanced a b normal h (some n) h' n' q q' k p e = ground arith

-- A wait that ends keeps the books but for what it leaves behind.
pub resume-IsBalanced :
    (a b : ℕ) (r : JobPriority) (h n : Option (Option Job)) (q : JobQueue) (g : Got) (w : Worker)
    → IsBalanced (a + one_if h) (b + one_if n) q
    → Placed (awaiting h n)
    → resume r h n q ≡ some g
    → Returns
        (λ x.
          IsBalanced
            (a + held high x.0.hand + left_behind r h n high)
            (b + held normal x.0.hand + left_behind r h n normal)
            x.1)
        (receive g w)
unfolding receive resume task_done finish
resume-IsBalanced a b high none n q g w k p e = ground arith
resume-IsBalanced a b high (some job) n q g w k p e = ground arith
resume-IsBalanced a b normal h none q g w k p e = ground arith
resume-IsBalanced a b normal h (some job) q g w k p e = ground arith

pub rebalance :
    {h h' n n' : ℕ} (q : JobQueue) → h ≡ h' → n ≡ n' → IsBalanced h n q → IsBalanced h' n' q
rebalance q eh en b = record {
  high_owed = omega (arith, b.high_owed, eh);
  normal_owed = omega (arith, b.normal_owed, en);
  high_placed = b.high_placed;
  normal_placed = b.normal_placed;
}

-- A job that is done leaves the hand and the books.
pub complete-IsBalanced :
    (h n : ℕ) (q : JobQueue) (w : Worker) (job : Job) (error : Option String) (now elapsed_ms : ℕ)
    → IsBalanced (h + held high (busy job)) (n + held normal (busy job)) q
    → Returns (λ r. IsBalanced h n r.1 × (r.0.hand ≡ idle)) (complete job error now elapsed_ms w q)
unfolding complete task_done finish
complete-IsBalanced h n q w job error now elapsed_ms b = ground arith

pub drain-IsBalanced :
    (h n : ℕ) (q : JobQueue) → IsBalanced h n q → Returns (λ r. IsBalanced h n r.1) (drain q)
unfolding drain
drain-IsBalanced h n q b = ground (
  arith,
  drain_items-unfinished h n q.high_queue.items q.high_queue h 0,
  drain_items-unfinished h n q.normal_queue.items q.normal_queue n 0,
)
