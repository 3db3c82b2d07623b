-- ===== src/Core/Client/Rate.antt =====
-- How many calls a limiter lets through.
use rubica_bot.Prelude.{ℕ, zero, suc, ◌+◌, ◌*◌, ◌≤◌, ◌≡◌, List, [], ◌∷◌, arith}
use rubica_bot.Prelude.Lists.{length}
use rubica_bot.Core.Client.{ApiRateLimiter, acquire}

-- A caller that waits some time before each call: pairs of the pause and of the sleep's lateness. The
-- result is the time after the last call, and the limiter.
unfoldable pub calls : List (ℕ × ℕ) → ℕ → ApiRateLimiter → ℕ × ApiRateLimiter
unfolding acquire
calls [] now r = (now, r)
calls ((pause, late) ∷ l) now r = let (woken, r') = acquire late (now + pause) r in calls l woken r'

acquire_step :
    (late now : ℕ) (r : ApiRateLimiter)
    → r.last_refill ≤ now
    → ((acquire late now r).1.level + 1000 + r.last_refill ≤ r.level + (acquire late now r).0)
      × ((acquire late now r).1.last_refill ≡ (acquire late now r).0)
unfolding acquire
acquire_step late now r h = ground arith

-- The time of `n` calls since the last refill, by what the limiter held then.
calls_since_refill :
    (l : List (ℕ × ℕ)) (now : ℕ) (r : ApiRateLimiter)
    → r.last_refill ≤ now
    → 1000 * length l + r.last_refill ≤ r.level + (calls l now r).0
unfolding calls
calls_since_refill [] now r h = omega arith
calls_since_refill ((pause, late) ∷ l) now r h =
    let woken = (acquire late (now + pause) r).0 in
    let r' = (acquire late (now + pause) r).1 in
    let step = acquire_step late (now + pause) r (omega arith) in
    omega (arith, step.0, step.1, calls_since_refill l woken r' (omega (arith, step.1)))

-- A call leaves a token less than the limiter can hold, or has waited.
acquire_capped :
    (late now : ℕ) (r : ApiRateLimiter)
    → ((acquire late now r).1.level + 1000 + now ≤ 1000 * (r.capacity + 1) + (acquire late now r).0)
      × ((acquire late now r).1.last_refill ≡ (acquire late now r).0)
unfolding acquire
acquire_capped late now r = ground arith

-- Whatever the limiter holds and however long it was idle, `n` calls from `now` on, paced in any way,
-- take at least the time in which `n` tokens come, less the tokens of the capacity and one more.
pub calls_bound :
    (l : List (ℕ × ℕ)) (now : ℕ) (r : ApiRateLimiter)
    → 1000 * length l + now ≤ 1000 * (r.capacity + 1) + (calls l now r).0
unfolding calls
calls_bound [] now r = omega arith
calls_bound ((pause, late) ∷ l) now r =
    let woken = (acquire late (now + pause) r).0 in
    let r' = (acquire late (now + pause) r).1 in
    let first = acquire_capped late (now + pause) r in
    omega (arith, first.0, first.1, calls_since_refill l woken r' (omega (arith, first.1)))

acquire_owing :
    (now : ℕ) (r : ApiRateLimiter)
    → r.level ≡ 0
    → r.last_refill ≡ now
    → ((acquire 0 (now + 0) r).0 ≡ now + 2000)
      × ((acquire 0 (now + 0) r).1.level ≡ 0)
      × ((acquire 0 (now + 0) r).1.last_refill ≡ (acquire 0 (now + 0) r).0)
unfolding acquire
acquire_owing now r h e = ground arith

abbrev pub eager : ℕ → List (ℕ × ℕ)
eager zero = []
eager (suc n) = (0, 0) ∷ eager n

-- A limiter that has made its caller wait is a whole token in debt, so from then on a caller that
-- never pauses gets one call in the time of two tokens: half of the rate.
pub calls_half_rate :
    (n now : ℕ) (r : ApiRateLimiter)
    → r.level ≡ 0
    → r.last_refill ≡ now
    → (calls (eager n) now r).0 ≡ now + 2000 * n
unfolding calls
calls_half_rate zero now r h e = omega arith
calls_half_rate (suc n) now r h e =
    let next = acquire 0 (now + 0) r in
    let wait = acquire_owing now r h e in
    let tail : (calls (eager n) next.0 next.1).0 ≡ next.0 + 2000 * n =
      calls_half_rate n next.0 next.1 wait.1 wait.2 in
    omega (arith, wait.0, tail)
