-- ===== src/Core/Client/Request.antt =====
-- `RubikaClient`: its constructor, the limiter of each method, which is made when the method is first
-- called, `request` and `close`. The timeout and the connection pool are those of `httpx`.
use rubica_bot.Prelude.{
  ℕ, ◌≡◌, refl, String, Bool, true, false, Option, none, some, List, [], ◌∷◌, str_eq, eq_iff,
  if◌then◌else◌, arith,
}
use rubica_bot.Prelude.Text.{◌<+>◌, is_empty}
use rubica_bot.Core.Client.{ApiRateLimiter, init}
use rubica_bot.Core.Client.Retry.{Posted, Outcome, api_call}

pub record RubikaClient : Type 0 where
  pub token : String
  pub base_url : String
  pub retry_attempts : ℕ
  pub retry_backoff : ℕ
  pub rate_limiters : List (String × ApiRateLimiter)
  pub is_closed : Bool

-- base_url or "https://botapi.rubika.ir/v3"
abbrev base_of : Option String → String
base_of none = "https://botapi.rubika.ir/v3"
base_of (some url) = if is_empty url then "https://botapi.rubika.ir/v3" else url

unfoldable pub new_client : String → Option String → ℕ → ℕ → RubikaClient
new_client token base_url retry_attempts retry_backoff = record {
  token = token;
  base_url = base_of base_url;
  retry_attempts = retry_attempts;
  retry_backoff = retry_backoff;
  rate_limiters = [];
  is_closed = false;
}

unfoldable pub url_of : RubikaClient → String → String
url_of client method = client.base_url <+> "/" <+> client.token <+> "/" <+> method

-- self._rate_limiters[method], at time `now`
unfoldable pub limiter_of : String → ℕ → List (String × ApiRateLimiter) → ApiRateLimiter
limiter_of method now [] = init 5 now
limiter_of method now ((name, limiter) ∷ rest) =
    if str_eq name method then limiter else limiter_of method now rest

unfoldable pub with_limiter :
    String → ApiRateLimiter → List (String × ApiRateLimiter) → List (String × ApiRateLimiter)
with_limiter method limiter [] = (method, limiter) ∷ []
with_limiter method limiter ((name, old) ∷ rest) =
    if str_eq name method
    then (name, limiter) ∷ rest
    else (name, old) ∷ with_limiter method limiter rest

-- The outcome, and the client with the method's limiter; `post` gets the address and the attempt.
abbrev noted : String → RubikaClient → Option Outcome → Option (Outcome × RubikaClient)
unfolding with_limiter
noted method client none = none
noted method client (some o) =
    some (o, record client { rate_limiters = with_limiter method o.limiter client.rate_limiters })

unfoldable pub request :
    (String → ℕ → Posted × ℕ)
    → (ℕ → ℕ)
    → (ℕ → ℕ)
    → String
    → ℕ
    → RubikaClient
    → Option (Outcome × RubikaClient)
unfolding api_call limiter_of url_of noted
request post jitter lateness method now client = noted method client (
    api_call (post (url_of client method)) jitter lateness client.retry_attempts
      client.retry_backoff method now (limiter_of method now client.rate_limiters))

unfoldable pub close : RubikaClient → RubikaClient
close client = record client { is_closed = true }

-- The limiter of a method that was called is the one that the call left, and those of other methods are
-- as before.
pub limiter_of-with_limiter :
    (method other : String) (limiter : ApiRateLimiter) (now : ℕ)
    (limiters : List (String × ApiRateLimiter))
    → limiter_of other now (with_limiter method limiter limiters)
      ≡ (if str_eq method other then limiter else limiter_of other now limiters)
unfolding limiter_of with_limiter
limiter_of-with_limiter method other limiter now [] = refl
limiter_of-with_limiter method other limiter now ((name, old) ∷ rest) = ground (
  arith,
  eq_iff name method,
  eq_iff name other,
  eq_iff method other,
  limiter_of-with_limiter method other limiter now rest,
)
