-- ===== src/Core/Client.antt =====
-- app/core/rubika_client.py: `ApiRateLimiter`, the methods of `RubikaClient` as the calls they make
-- (child Calls), `api_call` (child Retry) and the client with its limiters (child Request). Time is
-- counted in the unit in which a limiter gains a thousandth of a token, which is 1 / (1000 ·
-- rate_per_second) seconds. The tokens of a limiter never fall below -1, so it holds `level`, which
-- is 1000 · (tokens + 1).
pub mod Calls
pub mod Rate
pub mod Retry
pub mod Request
mod Tests
use Prim.Native.Nat.{min, max}
use rubica_bot.Prelude.{ℕ, ◌+◌, ◌-◌, ◌*◌, ltb, if◌then◌else◌}

pub record ApiRateLimiter : Type 0 where
  pub capacity : ℕ
  pub level : ℕ
  pub last_refill : ℕ

unfoldable pub init : ℕ → ℕ → ApiRateLimiter
init burst now = record {
  capacity = max burst 1;
  level = 1000 * (max burst 1 + 1);
  last_refill = now;
}

-- What is there after the refill at time `now`.
abbrev pub refilled : ℕ → ApiRateLimiter → ℕ
refilled now r = min (1000 * (r.capacity + 1)) (r.level + (now - r.last_refill))

-- The time at which the caller goes on, and the limiter. `late` is how much longer than asked the
-- event loop lets the caller sleep. After a sleep the tokens are set to 0, and the call costs one.
unfoldable pub acquire : ℕ → ℕ → ApiRateLimiter → ℕ × ApiRateLimiter
acquire late now r =
    let level = refilled now r in
    let woken = now + (2000 - level) + late in
    if ltb level 2000
    then (woken, record r { level = 0; last_refill = woken })
    else (now, record r { level = level - 1000; last_refill = now })
