-- ===== src/Services/Action.antt =====
-- What a plugin or a handler does: it may raise, and it changes the world. The world is the
-- repository, the flood events and the calls that were made to the Rubika API, oldest first.
use rubica_bot.Prelude.{String, ℕ, List, [], ◌∷◌, ◌++◌}
use rubica_bot.Result.{Result, ok, raise}
use rubica_bot.Json.{Value}
use rubica_bot.Core.Client.Calls.{Call}
use rubica_bot.Db.Tables.{Db}
use rubica_bot.Db.Repository.{Repository}

pub record World : Type 0 where
  pub repo : Repository
  pub events : List (String × List ℕ)
  pub sent : List Call

abbrev pub Action {ℓ} : Type ℓ → Type ℓ
Action A = World → Result A × World

abbrev pub next {ℓ} : {A B : Type ℓ} → (A → Action B) → Result A × World → Result B × World
next f (ok a, w) = f a w
next f (raise e, w) = (raise e, w)

infixl 5 ◌>>=◌
unfoldable pub ◌>>=◌ {ℓ} : {A B : Type ℓ} → Action A → (A → Action B) → Action B
(m >>= f) w = next f (m w)

unfoldable pub return {ℓ} : {A : Type ℓ} → A → Action A
return a w = (ok a, w)

-- What may raise but changes nothing.
unfoldable pub lift {ℓ} : {A : Type ℓ} → Result A → Action A
lift r w = (r, w)

unfoldable pub with_repo {ℓ} : {A : Type ℓ} → (Repository → A × Repository) → Action A
with_repo f w = let (a, r) = f w.repo in (ok a, record w { repo = r })

unfoldable pub from_db {ℓ} : {A : Type ℓ} → (Db → A) → Action A
from_db f w = (ok (f w.repo.db), w)

unfoldable pub on_db : (Db → Db) → Action {0} Unit
on_db f w = (ok tt, record w { repo = record w.repo { db = f w.repo.db } })

-- `await client.method(…)`: the call is made, and `reply` is what `api_call` gives for it after the
-- calls made before.
unfoldable pub ask : (List Call → Call → Result Value) → Call → Action Value
ask reply c w = (reply w.sent c, record w { sent = w.sent ++ c ∷ [] })
