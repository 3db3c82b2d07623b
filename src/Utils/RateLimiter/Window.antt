-- ===== src/Utils/RateLimiter/Window.antt =====
-- `RateLimiter` keeps its promise: at no time are more than `max_requests` requests of the last
-- `window_seconds` let through.
use rubica_bot.Prelude.{
  ℕ, ◌-◌, ◌≤◌, ◌<◌, ◌≡◌, refl, not, ◌&&◌, List, [], ◌∷◌, ◌++◌, ltb, leb, ◌∙◌, if◌then◌else◌, arith,
  Bool-cases, inl, inr,
}
use mathlib.Core.List.{append_assoc}
use mathlib.Core.Path.{subst, subst⁻¹}
use rubica_bot.Prelude.Lists.{length, keep, keep-append, length-append, length-keep-le}
use rubica_bot.Utils.RateLimiter.{RateLimiter, init, popleft_stale, allow}

abbrev pub Ordered : ℕ → List ℕ → Type 0
Ordered t [] = Unit
Ordered t (now ∷ calls) = (t ≤ now) × Ordered now calls

-- The times of the calls that are let through.
pub passed : RateLimiter → List ℕ → List ℕ
passed r [] = []
passed r (now ∷ calls) =
    let rest = passed (allow now r).1 calls in if (allow now r).0 then now ∷ rest else rest

-- Those of the times that lie in the last `window` up to the time `t`.
unfoldable pub within : ℕ → ℕ → List ℕ → List ℕ
unfolding keep
within window t = keep (λ e. leb e t && not (ltb window (t - e)))

within-stale :
    (window now t : ℕ) (events : List ℕ)
    → now ≤ t
    → within window t (popleft_stale window now events) ≡ within window t events
unfolding within popleft_stale
within-stale window now t [] h = refl
within-stale window now t (e ∷ events) h = ground (arith, within-stale window now t events h)

length-popleft_stale :
    (window now : ℕ) (events : List ℕ) → length (popleft_stale window now events) ≤ length events
unfolding popleft_stale
length-popleft_stale window now [] = omega arith
length-popleft_stale window now (e ∷ events) =
    ground (arith, length-popleft_stale window now events)

within-passed :
    (window t start : ℕ) (r : RateLimiter) (calls : List ℕ)
    → t < start
    → Ordered start calls
    → within window t (passed r calls) ≡ []
unfolding within passed
within-passed window t start r [] h o = refl
within-passed window t start r (now ∷ calls) h o =
    ground (arith, within-passed window t now (allow now r).1 calls (omega arith) o.1)

length-within : (window t : ℕ) (events : List ℕ) → length (within window t events) ≤ length events
unfolding within
length-within window t events = length-keep-le _ events

allow-window : (now : ℕ) (r : RateLimiter) → (allow now r).1.window_seconds ≡ r.window_seconds
unfolding allow
allow-window now r = ground arith

allow-max : (now : ℕ) (r : RateLimiter) → (allow now r).1.max_requests ≡ r.max_requests
unfolding allow
allow-max now r = ground arith

length-allow :
    (now : ℕ) (r : RateLimiter)
    → length r.events ≤ r.max_requests
    → length (allow now r).1.events ≤ r.max_requests
unfolding allow
length-allow now r h =
    let kept = popleft_stale r.window_seconds now r.events in
    ground
      (arith, length-popleft_stale r.window_seconds now r.events, length-append {0} kept (now ∷ []))

within-append :
    (window t : ℕ) (xs ys : List ℕ)
    → within window t (xs ++ ys) ≡ within window t xs ++ within window t ys
unfolding within
within-append window t xs ys = keep-append _ xs ys

-- What one call adds to what was let through, as a later time sees it.
within-step :
    (now t : ℕ) (r : RateLimiter) (rest : List ℕ)
    → now ≤ t
    → within r.window_seconds t (r.events ++ (if (allow now r).0 then now ∷ rest else rest))
      ≡ within r.window_seconds t ((allow now r).1.events ++ rest)
unfolding allow
within-step now t r rest h =
    let kept = popleft_stale r.window_seconds now r.events in
    elim (Bool-cases (leb r.max_requests (length kept))) [
      | inl full ↦ rw (full, within-append, within-append, within-stale _ now t r.events h)
      | inr room ↦ rw (
        room,
        append_assoc kept (now ∷ []) rest,
        within-append _ t r.events (now ∷ rest),
        within-append _ t kept (now ∷ rest),
        within-stale _ now t r.events h,
      )
    ]

-- From any state, what the deque holds and what is let through from then on.
window_bound :
    (r : RateLimiter) (w m start t : ℕ) (calls : List ℕ)
    → r.window_seconds ≡ w
    → r.max_requests ≡ m
    → length r.events ≤ m
    → Ordered start calls
    → length (within w t (r.events ++ passed r calls)) ≤ m
unfolding passed
window_bound r w m start t [] ew em h o =
    omega (arith, length-within w t (r.events ++ []), length-append {0} r.events [])
window_bound r w m start t (now ∷ calls) ew em h o =
    let r' = (allow now r).1 in
    elim (Bool-cases (leb now t)) [
      | inl late ↦
          subst⁻¹ (λ l. length l ≤ m)
            (subst
              (λ v.
                within v t (r.events ++ passed r (now ∷ calls))
                ≡ within v t (r'.events ++ passed r' calls))
              ew (within-step now t r (passed r' calls) (ground arith)))
            (window_bound r' w m now t calls (allow-window now r ∙ ew) (allow-max now r ∙ em)
              (subst (λ n. length r'.events ≤ n) em
                (length-allow now r (subst⁻¹ (λ n. length r.events ≤ n) em h)))
              o.1)
      | inr early ↦
          subst⁻¹ (λ l. length l ≤ m) (within-append w t r.events (passed r (now ∷ calls)))
            (subst⁻¹ (λ l. length (within w t r.events ++ l) ≤ m)
              (within-passed w t now r (now ∷ calls) (ground arith) (ground arith))
              (omega
                (arith, length-within w t r.events, length-append {0} (within w t r.events) [])))
    ]

-- Of the requests that a limiter lets through, at most `max_requests` lie in the last
-- `window_seconds` up to any time `t`, whatever the calls, as long as time does not run backwards.
pub passed_bound :
    (max window start t : ℕ) (calls : List ℕ)
    → Ordered start calls
    → length (within window t (passed (init max window) calls)) ≤ max
unfolding init
passed_bound max window start t calls o =
    window_bound (init max window) window max start t calls refl refl (omega arith) o
