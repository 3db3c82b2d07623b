-- ===== src/Core/Worker/Steps.antt =====
-- Each step of queue and workers keeps the books: a queue's unfinished tasks are its items, the
-- items in the hands of workers and those that waits have lost.
use rubica_bot.Prelude.{
  ℕ, ◌+◌, ◌≡◌, sym, ap, ◌∙◌, String, Option, none, some, List, [], ◌∷◌, ◌++◌, arith,
}
use mathlib.Core.Path.{subst}
use rubica_bot.Result.{Returns, of_Returns}
use rubica_bot.Core.Queue.{
  Job, JobQueue, JobPriority, high, normal, Got, get, resume, enqueue, drain,
}
use rubica_bot.Core.Worker.{
  Worker, WorkerPool, Hand, idle, busy, awaiting, Step, arrives, takes, waits, catches, resumes,
  completes, drains, stops, receive, complete, stop, left_behind, loses,
}
use rubica_bot.Core.Worker.Books.{
  IsBalanced, enqueue-IsBalanced, put_sentinels-IsBalanced, held, in_hand, in_hand-append, Placed,
  receive-IsBalanced, receive-Placed, catch-IsBalanced, resume-IsBalanced, rebalance,
  complete-IsBalanced, drain-IsBalanced,
}

abbrev pub AllPlaced : List Worker → Type 0
AllPlaced [] = Unit
AllPlaced (w ∷ ws) = Placed w.hand × AllPlaced ws

-- The books of the whole pool, of which so many items of each queue are lost.
pub record BalancedBut (l : JobPriority → ℕ) (p : WorkerPool) : Type 0 where
  pub books :
      IsBalanced (in_hand high p.workers + l high) (in_hand normal p.workers + l normal) p.queue
  pub placed : AllPlaced p.workers

abbrev pub Balanced : WorkerPool → Type 0
Balanced p = BalancedBut (λ r. 0) p

-- The worker in the middle of a list of workers.
pub in_hand-middle :
    (before after : List Worker) (w : Worker) (p : JobPriority)
    → in_hand p (before ++ w ∷ after) ≡ (in_hand p before + in_hand p after) + held p w.hand
in_hand-middle before after w p = omega (arith, in_hand-append p before (w ∷ after))

Placed-middle :
    (before after : List Worker) (w : Worker) → AllPlaced (before ++ w ∷ after) → Placed w.hand
Placed-middle [] after w h = h.0
Placed-middle (x ∷ before) after w h = Placed-middle before after w h.1

Placed-put :
    (before after : List Worker) (w w' : Worker)
    → AllPlaced (before ++ w ∷ after)
    → Placed w'.hand
    → AllPlaced (before ++ w' ∷ after)
Placed-put [] after w w' h k = (k, h.1)
Placed-put (x ∷ before) after w w' h k = (h.0, Placed-put before after w w' h.1 k)

module _ (l : JobPriority → ℕ) (p : WorkerPool) (before after : List Worker) (w : Worker)
    (b : BalancedBut l p) (ws : p.workers ≡ before ++ w ∷ after) where
  -- What is owed but for the worker in the middle.
  abbrev pub others : JobPriority → ℕ
  others r = (in_hand r before + in_hand r after) + l r

  split_off : (r : JobPriority) → in_hand r p.workers + l r ≡ others r + held r w.hand
  split_off r = omega (arith, ap (in_hand r) ws, in_hand-middle before after w r)

  pub with_hand :
      (hand : Hand)
      → w.hand ≡ hand
      → IsBalanced (others high + held high hand) (others normal + held normal hand) p.queue
        × Placed hand
  with_hand hand i = (
    rebalance p.queue (split_off high ∙ ap (λ x. others high + held high x) i)
        (split_off normal ∙ ap (λ x. others normal + held normal x) i) b.books,
    subst Placed i (Placed-middle before after w (subst AllPlaced ws b.placed)),
  )

  -- With another worker in the middle.
  put_back :
      (l' : JobPriority → ℕ) (w' : Worker) (q : JobQueue)
      → IsBalanced
          (others high + held high w'.hand + l' high)
          (others normal + held normal w'.hand + l' normal)
          q
      → Placed w'.hand
      → BalancedBut (λ r. l r + l' r) (record { queue = q; workers = before ++ w' ∷ after })
  put_back l' w' q k placed = record {
    books =
        rebalance q (omega (arith, in_hand-middle before after w' high))
          (omega (arith, in_hand-middle before after w' normal)) k;
    placed = Placed-put before after w w' (subst AllPlaced ws b.placed) placed;
  }

  -- The same where nothing is lost.
  put_back_whole :
      (w' : Worker) (q : JobQueue)
      → IsBalanced (others high + held high w'.hand) (others normal + held normal w'.hand) q
      → Placed w'.hand
      → BalancedBut (λ r. l r + 0) (record { queue = q; workers = before ++ w' ∷ after })
  put_back_whole w' q k placed =
      put_back (λ r. 0) w' q (rebalance q (omega arith) (omega arith) k) placed

  pub receive-Returns :
      (g : Got)
      → w.hand ≡ idle
      → get p.queue ≡ some g
      → Returns
          (λ r.
            IsBalanced
              (others high + held high r.0.hand)
              (others normal + held normal r.0.hand)
              r.1)
          (receive g w)
  receive-Returns g i e =
      receive-IsBalanced (others high) (others normal) p.queue g w
        (rebalance p.queue (omega arith) (omega arith) ((with_hand idle i).0)) e

  pub resume-Returns :
      (r : JobPriority) (h n : Option (Option Job)) (g : Got)
      → w.hand ≡ awaiting h n
      → resume r h n p.queue ≡ some g
      → Returns
          (λ x.
            IsBalanced
              (others high + held high x.0.hand + left_behind r h n high)
              (others normal + held normal x.0.hand + left_behind r h n normal)
              x.1)
          (receive g w)
  resume-Returns r h n g i e =
      let (k, placed) = with_hand (awaiting h n) i in
      resume-IsBalanced (others high) (others normal) r h n p.queue g w k placed e

  pub complete-Returns :
      (job : Job) (error : Option String) (now elapsed_ms : ℕ)
      → w.hand ≡ busy job
      → Returns
          (λ r. IsBalanced (others high) (others normal) r.1 × (r.0.hand ≡ idle))
          (complete job error now elapsed_ms w p.queue)
  complete-Returns job error now elapsed_ms i =
      complete-IsBalanced (others high) (others normal) p.queue w job error now elapsed_ms
        ((with_hand (busy job) i).0)

-- A step of the queue alone.
queue_step :
    (l : JobPriority → ℕ) (p : WorkerPool) (q : JobQueue)
    → BalancedBut l p
    → (IsBalanced (in_hand high p.workers + l high) (in_hand normal p.workers + l normal) p.queue
        → IsBalanced (in_hand high p.workers + l high) (in_hand normal p.workers + l normal) q)
    → BalancedBut (λ r. l r + 0) (record p { queue = q })
queue_step l p q b f = record {
  books = rebalance q (omega arith) (omega arith) (f b.books);
  placed = b.placed;
}

pub Step-Balanced :
    {p p' : WorkerPool} {l : JobPriority → ℕ} (st : Step p p')
    → BalancedBut l p
    → BalancedBut (λ r. l r + loses st r) p'
unfolding stop
Step-Balanced {p} {l = l} (arrives {q = q} job now wall d e) b = queue_step l p q b (λ k.
    of_Returns (λ r. IsBalanced _ _ r.1) (enqueue job now wall p.queue) (d, q)
      (enqueue-IsBalanced _ _ job now wall p.queue k) e)
Step-Balanced {p} {l = l} (takes {q = q} before after w w' g ws i e r) b =
    put_back_whole l p before after w b ws w' q
      (of_Returns (λ r. IsBalanced _ _ r.1) (receive g w) (w', q)
        (receive-Returns l p before after w b ws g i e) r)
      (receive-Placed g w w' q r)
Step-Balanced {p} {l = l} (waits before after w ws i e) b =
    put_back_whole l p before after w b ws (record w { hand = awaiting none none }) p.queue
      ((with_hand l p before after w b ws idle i).0) (tt, tt)
Step-Balanced {p} {l = l} (catches {h' = h'} {n' = n'} {q = q} before after w r h n ws i e) b =
    let (k, placed) = with_hand l p before after w b ws (awaiting h n) i in
    let (k', placed') = catch-IsBalanced _ _ r h n h' n' p.queue q k placed e in
    put_back_whole l p before after w b ws (record w { hand = awaiting h' n' }) q k' placed'
Step-Balanced {p} {l = l} (resumes {q = q} before after w w' r h n g ws i e k) b =
    put_back l p before after w b ws (left_behind r h n) w' q
      (of_Returns _ (receive g w) (w', q) (resume-Returns l p before after w b ws r h n g i e) k)
      (receive-Placed g w w' q k)
Step-Balanced {p} {l = l} (completes {q = q} before after w w' job error now elapsed_ms ws i r) b =
    let done =
      of_Returns (λ r. IsBalanced _ _ r.1 × (r.0.hand ≡ idle))
        (complete job error now elapsed_ms w p.queue) (w', q)
        (complete-Returns l p before after w b ws job error now elapsed_ms i) r in
    put_back_whole l p before after w b ws w' q
      (rebalance q (omega (arith, ap (held high) done.1)) (omega (arith, ap (held normal) done.1))
        done.0)
      (subst Placed (sym done.1) tt)
Step-Balanced {p} {l = l} (drains {q = q} {counts = counts} e) b = queue_step l p q b (λ k.
    of_Returns (λ r. IsBalanced _ _ r.1) (drain p.queue) (counts, q)
      (drain-IsBalanced _ _ p.queue k) e)
Step-Balanced {p} {l = l} stops b =
    queue_step l p _ b (λ k. put_sentinels-IsBalanced _ _ p.workers p.queue k)
