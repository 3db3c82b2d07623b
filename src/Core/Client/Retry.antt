-- ===== src/Core/Client/Retry.antt =====
-- `api_call` and `_sleep_before_retry`. `httpx` is the argument `post`: what the attempt with the
-- given number comes to, with the time that it takes; `random.uniform` is `jitter`, `lateness` is
-- how late the event loop wakes a sleeper. Other tasks that use the same limiter meanwhile are left
-- out.
use rubica_bot.Prelude.{
  ℕ, zero, suc, ◌+◌, ◌-◌, ◌*◌, ◌^◌, ◌≤◌, ◌<◌, ◌≡◌, String, Bool, true, false, ◌||◌, Option, none,
  some, leb, ◌==◌, if◌then◌else◌, refl, arith, Bool-cases, inl, inr, ◌⊎◌,
}
use mathlib.Core.Path.{subst, sym}
use rubica_bot.Result.{Result, ok, raise, attribute_error}
use rubica_bot.Json.{Value, obj, flag, str, no_fields, entry}
use rubica_bot.Core.Client.{ApiRateLimiter, acquire}

-- `httpx.TimeoutException` and `httpx.TransportError`, or a response: its status and its JSON, if
-- it is JSON.
pub data Posted : Type 0 where
  transport_error : String → Posted
  response : ℕ → Option Value → Posted

-- `response.status_code in {408, 429} or response.status_code >= 500`, and the errors of transport
unfoldable pub is_retryable : Posted → Bool
is_retryable (transport_error error) = true
is_retryable (response status json) = status == 408 || status == 429 || leb 500 status

-- `data.get("ok", True)` raises `AttributeError` on what is no dict.
abbrev returned : Value → Result Value
returned (obj fs) = ok (obj fs)
returned _ = raise attribute_error

abbrev json_of : Option Value → Value
json_of (some v) = v
json_of none = obj (entry "ok" (flag false) (entry "error" (str "invalid_json") no_fields))

-- What `api_call` returns for the last attempt.
unfoldable pub answer : String → Posted → Result Value
answer method (transport_error error) = ok (
    obj
      (entry "ok" (flag false) (entry "error" (str error) (entry "method" (str method) no_fields))))
answer method (response status json) = returned (json_of json)

pub record Outcome : Type 0 where
  pub result : Result Value
  pub posts : ℕ
  pub ended : ℕ
  pub limiter : ApiRateLimiter

module _ (post : ℕ → Posted × ℕ) (jitter lateness : ℕ → ℕ) (retry_attempts retry_backoff : ℕ)
    (method : String) where
  -- `backoff + jitter`
  abbrev pub sleep_for : ℕ → ℕ
  sleep_for attempt = retry_backoff * 2 ^ (attempt - 1) + jitter attempt

  -- `while True`, with the number of attempts made, the time, and the limiter of the method. No
  -- value means that the fuel is used up.
  unfoldable pub attempts : ℕ → ℕ → ℕ → ApiRateLimiter → Option Outcome
  unfolding acquire is_retryable answer
  attempts zero made now limiter = none
  attempts (suc fuel) made now limiter =
      let attempt = made + 1 in
      let start = (acquire (lateness attempt) now limiter).0 in
      let limiter' = (acquire (lateness attempt) now limiter).1 in
      let came = (post attempt).0 in
      let ended = start + (post attempt).1 in
      let again = attempts fuel attempt (ended + sleep_for attempt) limiter' in
      if is_retryable came
      then if leb attempt retry_attempts
        then again
        else some (record {
          result = answer method came;
          posts = attempt;
          ended = ended;
          limiter = limiter';
        })
      else some (record {
        result = answer method came;
        posts = attempt;
        ended = ended;
        limiter = limiter';
      })

  -- One more attempt than retries.
  unfoldable pub api_call : ℕ → ApiRateLimiter → Option Outcome
  unfolding attempts
  api_call now limiter = attempts (retry_attempts + 1) 0 now limiter

  -- Attempt `k` is the last: it comes to something final or it is the last that is allowed, and all
  -- before it were to be retried.
  abbrev pub IsLast : ℕ → ℕ → Type 0
  IsLast made k =
      (made < k)
      × (k ≤ retry_attempts + 1)
      × ((j : ℕ) → made < j → j < k → is_retryable (post j).0 ≡ true)
      × ((is_retryable (post k).0 ≡ false) ⊎ (k ≡ retry_attempts + 1))

  abbrev pub Answers : ℕ → Option Outcome → Type 0
  Answers made none = ⊥
  Answers made (some o) = IsLast made o.posts × (o.result ≡ answer method (post o.posts).0)

  IsLast-earlier :
      (made k : ℕ) → is_retryable (post (made + 1)).0 ≡ true → IsLast (made + 1) k → IsLast made k
  IsLast-earlier made k retry (l, u, before, last) =
      (omega (arith, l), u, λ j m h. earlier j m h, last)
    where
      earlier : (j : ℕ) → made < j → j < k → is_retryable (post j).0 ≡ true
      earlier j m h = elim (Bool-cases (j == made + 1)) [
        | inl next ↦
            let here : j ≡ made + 1 = ground (arith, next) in
            subst (λ i. is_retryable (post i).0 ≡ true) (sym here) retry
        | inr later ↦ before j (ground (arith, later, m)) h
      ]

  Answers-earlier :
      (made : ℕ) (o : Option Outcome)
      → is_retryable (post (made + 1)).0 ≡ true
      → Answers (made + 1) o
      → Answers made o
  Answers-earlier made none retry h = h
  Answers-earlier made (some o) retry h = (IsLast-earlier made o.posts retry h.0, h.1)

  IsLast-next :
      (made : ℕ)
      → made < retry_attempts + 1
      → (is_retryable (post (made + 1)).0 ≡ false) ⊎ (made + 1 ≡ retry_attempts + 1)
      → IsLast made (made + 1)
  IsLast-next made l h = (omega arith, omega (arith, l), λ j m k. absurd (omega (arith, m, k)), h)

  attempts_lem :
      (fuel made now : ℕ) (limiter : ApiRateLimiter)
      → made + fuel ≡ retry_attempts + 1
      → 0 < fuel
      → Answers made (attempts fuel made now limiter)
  unfolding attempts
  attempts_lem zero made now limiter e p = absurd (omega (arith, p))
  attempts_lem (suc fuel) made now limiter e p =
      let start = (acquire (lateness (made + 1)) now limiter).0 in
      let limiter' = (acquire (lateness (made + 1)) now limiter).1 in
      let then' = start + (post (made + 1)).1 + sleep_for (made + 1) in
      elim (Bool-cases (is_retryable (post (made + 1)).0)) [
        | inl retry ↦ elim (Bool-cases (leb (made + 1) retry_attempts)) [
          | inl more ↦ rw retry (
              rw more (
                Answers-earlier made (attempts fuel (made + 1) then' limiter') retry (
                  attempts_lem fuel (made + 1) then' limiter' (omega (arith, e))
                    (ground (arith, e, more)))))
          | inr last ↦
              rw retry (
                rw last (IsLast-next made (omega (arith, e)) (inr (ground (arith, e, last))), refl))
        ]
        | inr final ↦ rw final (IsLast-next made (omega (arith, e)) (inl final), refl)
      ]

-- `api_call` returns. It makes at most one attempt more than there are retries: the attempts before
-- the last one came to something to be retried, the last one is final or the last that is allowed,
-- and its outcome is the result.
pub api_call_lem :
    (post : ℕ → Posted × ℕ) (jitter lateness : ℕ → ℕ) (retry_attempts retry_backoff : ℕ)
    (method : String) (now : ℕ) (limiter : ApiRateLimiter)
    → Answers post jitter lateness retry_attempts retry_backoff method 0
        (api_call post jitter lateness retry_attempts retry_backoff method now limiter)
unfolding api_call
api_call_lem post jitter lateness retry_attempts retry_backoff method now limiter =
    attempts_lem post jitter lateness retry_attempts retry_backoff method (retry_attempts + 1) 0 now
      limiter (omega arith) (omega arith)
