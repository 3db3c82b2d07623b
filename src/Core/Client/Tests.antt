-- ===== src/Core/Client/Tests.antt =====
-- The theorems about the API client at concrete inputs.
use rubica_bot.Prelude.{ℕ, ◌+◌, ◌*◌, ◌≤◌, ◌≡◌, refl, none, [], ◌∷◌}
use rubica_bot.Core.Client.{ApiRateLimiter}
use rubica_bot.Core.Client.Rate
use rubica_bot.Core.Client.Rate.{calls, eager}
use rubica_bot.Core.Client.Retry
use rubica_bot.Core.Client.Retry.{
  Posted, response, transport_error, api_call, Answers, is_retryable,
}

abbrev a_limiter : ApiRateLimiter
a_limiter = record { capacity = 5; level = 6000; last_refill = 0 }

calls_bound_example :
    1000 * 3 + 90000 ≤ 1000 * (5 + 1) + (calls ((1, 0) ∷ (2, 5) ∷ (0, 0) ∷ []) 90000 a_limiter).0
calls_bound_example = Rate.calls_bound ((1, 0) ∷ (2, 5) ∷ (0, 0) ∷ []) 90000 a_limiter

abbrev owing : ApiRateLimiter
owing = record { capacity = 5; level = 0; last_refill = 70 }

calls_half_rate_example : (calls (eager 3) 70 owing).0 ≡ 70 + 2000 * 3
calls_half_rate_example = Rate.calls_half_rate 3 70 owing refl refl

abbrev busy_then_fine : ℕ → Posted × ℕ
busy_then_fine ℕ.zero = (transport_error "no route", 10)
busy_then_fine (ℕ.suc n) = (response 429 none, 10)

api_call_lem_example :
    Answers busy_then_fine
      (λ a. 3)
      (λ a. 0)
      3
      500
      "getMe"
      0
      (api_call busy_then_fine (λ a. 3) (λ a. 0) 3 500 "getMe" 0 a_limiter)
api_call_lem_example = Retry.api_call_lem busy_then_fine (λ a. 3) (λ a. 0) 3 500 "getMe" 0 a_limiter
