-- ===== src/Utils/RateLimiter.antt =====
-- app/utils/rate_limiter.py: `RateLimiter`. The deque of event times is a list, oldest first;
-- `time.monotonic()` is the argument `now`, in the unit of `window_seconds`.
pub mod Window
use rubica_bot.Prelude.{ℕ, ◌-◌, Bool, true, false, List, [], ◌∷◌, ◌++◌, ltb, leb, if◌then◌else◌}
use rubica_bot.Prelude.Lists.{length}

pub record RateLimiter : Type 0 where
  pub max_requests : ℕ
  pub window_seconds : ℕ
  pub events : List ℕ

unfoldable pub init : ℕ → ℕ → RateLimiter
init max_requests window_seconds = record {
  max_requests = max_requests;
  window_seconds = window_seconds;
  events = [];
}

-- `while self._events and now - self._events[0] > self.window_seconds: popleft()`
unfoldable pub popleft_stale : ℕ → ℕ → List ℕ → List ℕ
popleft_stale window now [] = []
popleft_stale window now (e ∷ events) =
    let rest = popleft_stale window now events in if ltb window (now - e) then rest else e ∷ events

unfoldable pub allow : ℕ → RateLimiter → Bool × RateLimiter
unfolding popleft_stale
allow now r =
    let events = popleft_stale r.window_seconds now r.events in
    if leb r.max_requests (length events)
    then (false, record r { events = events })
    else (true, record r { events = events ++ now ∷ [] })
