-- ===== src/Core/Worker/Progress.antt =====
-- Without arrivals the workers come to an end with what waits: every step of a worker takes the pool
-- nearer to it, and as long as something is left and a worker lives, some worker has a step.
use rubica_bot.Prelude.{
  ℕ, ◌+◌, ◌*◌, ◌≤◌, ◌<◌, ◌≡◌, ◌⊎◌, refl, ap, ◌∙◌, Bool, true, false, Option, none, some, List, [],
  ◌∷◌, ◌++◌, ◌==◌, ◌||◌, arith, inl, inr, Option-cases, Bool-cases,
}
use rubica_bot.Prelude.Lists.{length}
use rubica_bot.Result.{Result, ok, raise, Returns}
use rubica_bot.Core.Queue.{
  Job, JobQueue, JobPriority, high, normal, Got, get, catch, resume, is_joined,
}
use rubica_bot.Core.Worker.{
  Worker, WorkerPool, Hand, idle, busy, ended, awaiting, Step, takes, waits, catches, resumes,
  completes, receive, complete, Reach, lost,
}
use rubica_bot.Core.Worker.Books.{held}
use rubica_bot.Core.Worker.Steps.{
  BalancedBut, Balanced, receive-Returns, resume-Returns, complete-Returns,
}
use rubica_bot.Core.Worker.Balance.{Reach-Balanced, is_joined_iff}
use rubica_bot.Core.Worker.Effort.{
  items_left, in_work, pending, efforts_bound, IsWork, Run, followed_by, Run-pending,
}

-- A worker whose hand has a property.
abbrev At : (Hand → Type 0) → List Worker → Type 0
At P ws =
    (before : List Worker) × (after : List Worker) × (w : Worker) × (ws ≡ before ++ w ∷ after)
    × P w.hand

At-cons : (P : Hand → Type 0) (x : Worker) (ws : List Worker) → At P ws → At P (x ∷ ws)
At-cons P x ws (before, after, w, e, h) = (x ∷ before, after, w, ap (λ l. x ∷ l) e, h)

abbrev is_alive : Hand → Bool
is_alive ended = false
is_alive idle = true
is_alive (busy job) = true
is_alive (awaiting h n) = true

abbrev pub any_alive : List Worker → Bool
any_alive [] = false
any_alive (w ∷ ws) = is_alive w.hand || any_alive ws

none_alive-idle : (ws : List Worker) → any_alive ws ≡ false → in_work ws ≡ 0
none_alive-idle [] h = refl
none_alive-idle (w ∷ ws) h = ground (arith, none_alive-idle ws)

-- What a worker does next does not hang on the queue.
abbrev Moving : Hand → Type 0
Moving hand =
    (hand ≡ idle)
    ⊎ ((job : Job) × (hand ≡ busy job))
    ⊎ ((h : Option Job) × (n : Option (Option Job)) × (hand ≡ awaiting (some h) n))
    ⊎ ((h : Option (Option Job)) × (n : Option Job) × (hand ≡ awaiting h (some n)))

abbrev IsWaiting : Hand → Type 0
IsWaiting hand = hand ≡ awaiting none none

-- A worker that lives is on the move, or all that live wait without an item.
abbrev MovingOrWaiting : List Worker → Type 0
MovingOrWaiting ws = At Moving ws ⊎ (At IsWaiting ws × (in_work ws ≡ 0))

past_free :
    (w : Worker) (ws : List Worker)
    → in_work (w ∷ []) ≡ 0
    → MovingOrWaiting ws
    → MovingOrWaiting (w ∷ ws)
past_free w ws free (inl at) = inl (At-cons Moving w ws at)
past_free w ws free (inr (at, nothing)) =
    inr (At-cons IsWaiting w ws at, omega (arith, free, nothing))

MovingOrWaiting-cons :
    (w : Worker) (ws : List Worker) (hand : Hand)
    → w.hand ≡ hand
    → (any_alive ws ≡ true → MovingOrWaiting ws)
    → any_alive (w ∷ ws) ≡ true
    → MovingOrWaiting (w ∷ ws)
MovingOrWaiting-cons w ws idle e later alive = inl ([], ws, w, refl, inl e)
MovingOrWaiting-cons w ws (busy job) e later alive = inl ([], ws, w, refl, inr (inl (job, e)))
MovingOrWaiting-cons w ws (awaiting (some h) n) e later alive =
    inl ([], ws, w, refl, inr (inr (inl (h, n, e))))
MovingOrWaiting-cons w ws (awaiting none (some n)) e later alive =
    inl ([], ws, w, refl, inr (inr (inr (none, n, e))))
MovingOrWaiting-cons w ws ended e later alive =
    past_free w ws (omega (arith, ap (held high) e, ap (held normal) e))
      (later (ground (arith, e, alive)))
MovingOrWaiting-cons w ws (awaiting none none) e later alive = elim (Bool-cases (any_alive ws)) [
  | inl others ↦ past_free w ws (omega (arith, ap (held high) e, ap (held normal) e)) (later others)
  | inr alone ↦ inr (
    ([], ws, w, refl, e),
    omega (arith, ap (held high) e, ap (held normal) e, none_alive-idle ws alone),
  )
]

moving_or_waiting : (ws : List Worker) → any_alive ws ≡ true → MovingOrWaiting ws
moving_or_waiting [] alive = cc
moving_or_waiting (w ∷ ws) alive =
    MovingOrWaiting-cons w ws w.hand refl (moving_or_waiting ws) alive

ok_of : {A : Type 0} (P : A → Type 0) (m : Result A) → Returns P m → (a : A) × (m ≡ ok a)
ok_of P (ok a) h = (a, refl)
ok_of P (raise e) h = absurd h

-- A task of a wait without an item finds one.
catch-some :
    (q : JobQueue)
    → 0 < items_left q
    → (r : JobPriority) × (h : Option (Option Job)) × (n : Option (Option Job)) × (q' : JobQueue)
      × (catch r none none q ≡ some ((h, n), q'))
unfolding catch
catch-some q left = elim (Option-cases (catch high none none q)) [
  | inr (((h, n), q'), e) ↦ (high, h, n, q', e)
  | inl no_high ↦ elim (Option-cases (catch normal none none q)) [
    | inr (((h, n), q'), e) ↦ (normal, h, n, q', e)
    | inl no_normal ↦ absurd (ground (arith, no_high, no_normal, left))
  ]
]

-- A worker's step from here.
abbrev pub CanWork : WorkerPool → Type 0
CanWork p = (p' : WorkerPool) × (st : Step p p') × IsWork st

module _ (l : JobPriority → ℕ) (p : WorkerPool) (b : BalancedBut l p) (before after : List Worker)
    (w : Worker) (ws : p.workers ≡ before ++ w ∷ after) where
  resume-CanWork :
      (r : JobPriority) (h n : Option (Option Job)) (g : Got)
      → w.hand ≡ awaiting h n
      → resume r h n p.queue ≡ some g
      → CanWork p
  resume-CanWork r h n g i e =
      let ((w', q), done) =
        ok_of _ (receive g w) (resume-Returns l p before after w b ws r h n g i e) in
      (_, resumes before after w w' r h n g ws i e done, tt)

  move-CanWork : Moving w.hand → CanWork p
  unfolding resume
  move-CanWork (inl i) = elim (Option-cases (get p.queue)) [
    | inl nothing ↦ (_, waits before after w ws i nothing, tt)
    | inr (g, e) ↦
        let ((w', q), done) =
          ok_of _ (receive g w) (receive-Returns l p before after w b ws g i e) in
        (_, takes before after w w' g ws i e done, tt)
  ]
  move-CanWork (inr (inl (job, i))) =
      let ((w', q), done) =
        ok_of _ (complete job none 0 0 w p.queue)
          (complete-Returns l p before after w b ws job none 0 0 i) in
      (_, completes before after w w' job none 0 0 ws i done, tt)
  move-CanWork (inr (inr (inl (h, n, i)))) = resume-CanWork high (some h) n _ i refl
  move-CanWork (inr (inr (inr (h, n, i)))) = resume-CanWork normal h (some n) _ i refl

  catch-CanWork : w.hand ≡ awaiting none none → 0 < items_left p.queue → CanWork p
  catch-CanWork i left =
      let (r, h, n, q, e) = catch-some p.queue left in
      (_, catches before after w r none none ws i e, tt)

alive-CanWork :
    (l : JobPriority → ℕ) (p : WorkerPool)
    → BalancedBut l p
    → MovingOrWaiting p.workers
    → CanWork p ⊎ ((items_left p.queue ≡ 0) × (in_work p.workers ≡ 0))
alive-CanWork l p b (inl (before, after, w, ws, moving)) =
    inl (move-CanWork l p b before after w ws moving)
alive-CanWork l p b (inr ((before, after, w, ws, i), nothing)) =
    elim (Bool-cases (items_left p.queue == 0)) [
      | inl empty ↦ inr (ground (arith, empty), nothing)
      | inr left ↦ inl (catch-CanWork l p b before after w ws i (ground (arith, left)))
    ]

-- From every state that a pool with balanced books reaches, the workers alone make at most four
-- times as many steps as items wait, and four for each worker; and wherever such a run stands, a
-- worker has a next step, or no worker lives any more, or no item waits or is in hand, and `join`
-- returns then exactly if no wait has lost an item on the way.
pub workers_finish :
    {start_pool p : WorkerPool} (n : ℕ) (p' : WorkerPool) (b : Balanced start_pool)
    (r : Reach start_pool p) (run : Run p n p')
    → (n ≤ 4 * (items_left p.queue + length p.workers))
      × (CanWork p'
          ⊎ (any_alive p'.workers ≡ false)
          ⊎ ((items_left p'.queue ≡ 0)
              × (in_work p'.workers ≡ 0)
              × (is_joined p'.queue
                  ≡ (lost (followed_by r run) high + lost (followed_by r run) normal == 0))))
unfolding pending
workers_finish {p = p} n p' b r run = (
  omega (arith, Run-pending run, efforts_bound p.workers),
  elim (Bool-cases (any_alive p'.workers)) [
    | inr dead ↦ inr (inl dead)
    | inl alive ↦
        let all = followed_by r run in
        elim (alive-CanWork (lost all) p' (Reach-Balanced b all)
          (moving_or_waiting p'.workers alive)) [
            | inl can ↦ inl can
            | inr (empty, nothing) ↦
                inr (inr (empty, nothing, is_joined_iff b all ∙ ground (arith, empty, nothing)))
          ]
  ],
)
