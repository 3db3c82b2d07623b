-- ===== src/Core/Worker/Effort.antt =====
-- How far a pool is from its end when nothing arrives: each step of a worker takes it nearer.
use rubica_bot.Prelude.{
  ℕ, zero, suc, ◌+◌, ◌*◌, ◌≤◌, ◌<◌, ◌≡◌, ap, Option, none, some, List, [], ◌∷◌, ◌++◌, arith, String,
}
use rubica_bot.Prelude.Lists.{length}
use rubica_bot.Result.{ok}
use rubica_bot.Core.Queue.{
  Job, JobQueue, JobPriority, high, normal, Got, get, catch, resume, take_high, take_normal,
  task_done, finish,
}
use rubica_bot.Core.Worker.{
  Worker, WorkerPool, Hand, idle, busy, ended, awaiting, one_if, Step, arrives, takes, waits,
  catches, resumes, completes, drains, stops, receive, complete, Reach, next,
}
use rubica_bot.Core.Worker.Books.{in_hand}

abbrev pub items_left : JobQueue → ℕ
items_left q = length q.high_queue.items + length q.normal_queue.items

abbrev pub in_work : List Worker → ℕ
in_work ws = in_hand high ws + in_hand normal ws

-- How far a worker is from a wait without an item.
abbrev effort : Hand → ℕ
effort ended = 0
effort idle = 1
effort (busy job) = 2
effort (awaiting none none) = 0
effort (awaiting none (some n)) = 3
effort (awaiting (some h) n) = 3 + one_if n

abbrev efforts : List Worker → ℕ
efforts [] = 0
efforts (w ∷ ws) = effort w.hand + efforts ws

-- An item is taken by a task of a wait, returned, and completed, and the worker waits again.
unfoldable pub pending : WorkerPool → ℕ
pending p = 4 * items_left p.queue + efforts p.workers

efforts-middle :
    (before after : List Worker) (w : Worker)
    → efforts (before ++ w ∷ after) ≡ (efforts before + efforts after) + effort w.hand
efforts-middle [] after w = omega arith
efforts-middle (x ∷ before) after w = omega (arith, efforts-middle before after w)

effort_bound : (hand : Hand) → effort hand ≤ 4
effort_bound ended = omega arith
effort_bound idle = omega arith
effort_bound (busy job) = omega arith
effort_bound (awaiting none none) = omega arith
effort_bound (awaiting none (some n)) = omega arith
effort_bound (awaiting (some h) none) = omega arith
effort_bound (awaiting (some h) (some n)) = omega arith

pub efforts_bound : (ws : List Worker) → efforts ws ≤ 4 * length ws
efforts_bound [] = omega arith
efforts_bound (w ∷ ws) = omega (arith, effort_bound w.hand, efforts_bound ws)

-- The step of a worker.
abbrev pub IsWork : {p p' : WorkerPool} → Step p p' → Type 0
IsWork (takes before after w w' g ws i e r) = Unit
IsWork (waits before after w ws i e) = Unit
IsWork (catches before after w r h n ws i e) = Unit
IsWork (resumes before after w w' r h n g ws i e k) = Unit
IsWork (completes before after w w' job error now elapsed_ms ws i r) = Unit
IsWork (arrives job now wall d e) = ⊥
IsWork (drains e) = ⊥
IsWork stops = ⊥

get-items : (q : JobQueue) (g : Got) → get q ≡ some g → items_left g.queue + 1 ≡ items_left q
unfolding get take_high take_normal
get-items q g e = ground arith

receive-items :
    (g : Got) (w w' : Worker) (q : JobQueue)
    → receive g w ≡ ok (w', q)
    → (items_left q ≡ items_left g.queue) × (effort w'.hand ≤ 2)
unfolding receive task_done finish
receive-items g w w' q e = ground arith

catch-items :
    (r : JobPriority) (h n h' n' : Option (Option Job)) (q q' : JobQueue)
    → catch r h n q ≡ some ((h', n'), q')
    → (items_left q' + 1 ≡ items_left q) × (effort (awaiting h' n') ≤ effort (awaiting h n) + 3)
unfolding catch take_high take_normal
catch-items high none none h' n' q q' e = ground arith
catch-items high none (some n) h' n' q q' e = ground arith
catch-items high (some h) n h' n' q q' e = ground arith
catch-items normal none none h' n' q q' e = ground arith
catch-items normal (some h) none h' n' q q' e = ground arith
catch-items normal h (some n) h' n' q q' e = ground arith

resume-items :
    (r : JobPriority) (h n : Option (Option Job)) (q : JobQueue) (g : Got)
    → resume r h n q ≡ some g
    → (items_left g.queue ≡ items_left q) × (3 ≤ effort (awaiting h n))
unfolding resume
resume-items high none n q g e = ground arith
resume-items high (some h) n q g e = ground arith
resume-items normal h none q g e = ground arith
resume-items normal none (some n) q g e = ground arith
resume-items normal (some h) (some n) q g e = ground arith

complete-items :
    (job : Job) (error : Option String) (now elapsed_ms : ℕ) (w w' : Worker) (q q' : JobQueue)
    → complete job error now elapsed_ms w q ≡ ok (w', q')
    → (items_left q' ≡ items_left q) × (w'.hand ≡ idle)
unfolding complete task_done finish
complete-items job error now elapsed_ms w w' q q' e = ground arith

-- A worker's step with less effort or fewer items is one towards the end.
nearer :
    (p : WorkerPool) (q : JobQueue) (before after : List Worker) (w w' : Worker)
    → p.workers ≡ before ++ w ∷ after
    → 4 * items_left q + effort w'.hand < 4 * items_left p.queue + effort w.hand
    → pending (record { queue = q; workers = before ++ w' ∷ after }) < pending p
unfolding pending
nearer p q before after w w' ws less =
    omega
      (arith, less, ap efforts ws, efforts-middle before after w, efforts-middle before after w')

Step-pending : {p p' : WorkerPool} (st : Step p p') → IsWork st → pending p' < pending p
Step-pending {p} (takes {q = q} before after w w' g ws i e r) work =
    let (kept, small) = receive-items g w w' q r in
    nearer p q before after w w' ws (omega (arith, kept, small, get-items p.queue g e, ap effort i))
Step-pending {p} (waits before after w ws i e) work =
    nearer p p.queue before after w (record w { hand = awaiting none none }) ws
      (omega (arith, ap effort i))
Step-pending {p} (catches {h' = h'} {n' = n'} {q = q} before after w r h n ws i e) work =
    let (fewer, small) = catch-items r h n h' n' p.queue q e in
    nearer p q before after w (record w { hand = awaiting h' n' }) ws
      (omega (arith, fewer, small, ap effort i))
Step-pending {p} (resumes {q = q} before after w w' r h n g ws i e k) work =
    let (kept, small) = receive-items g w w' q k in
    let (same, large) = resume-items r h n p.queue g e in
    nearer p q before after w w' ws (omega (arith, kept, small, same, large, ap effort i))
Step-pending {p} (completes {q = q} before after w w' job error now elapsed_ms ws i r) work =
    let (kept, free) = complete-items job error now elapsed_ms w w' p.queue q r in
    nearer p q before after w w' ws (omega (arith, kept, ap effort free, ap effort i))
Step-pending (arrives job now wall d e) work = absurd work
Step-pending (drains e) work = absurd work
Step-pending stops work = absurd work

-- A run of the workers alone, of so many steps.
pub data Run (p : WorkerPool) : ℕ → WorkerPool → Type 0 where
  rest : Run p zero p
  more :
      {n : ℕ} {p' p'' : WorkerPool}
      → Run p n p'
      → (st : Step p' p'') → IsWork st
      → Run p (suc n) p''

abbrev pub followed_by :
    {start_pool p : WorkerPool} {n : ℕ} {p' : WorkerPool}
    → Reach start_pool p
    → Run p n p'
    → Reach start_pool p'
followed_by r rest = r
followed_by r (more run st work) = next (followed_by r run) st

pub Run-pending :
    {p : WorkerPool} {n : ℕ} {p' : WorkerPool} → Run p n p' → n + pending p' ≤ pending p
Run-pending rest = omega arith
Run-pending (more r st work) = omega (arith, Run-pending r, Step-pending st work)
