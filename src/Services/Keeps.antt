-- ===== src/Services/Keeps.antt =====
-- Properties of the world that an action keeps, whether it returns or raises: a rule for each way to
-- build an action.
use mathlib.Core.Path.{subst, sym}
use rubica_bot.Prelude.{◌≡◌, Bool, true, false, if◌then◌else◌}
use rubica_bot.Result.{Result, ok, raise}
use rubica_bot.Db.Tables.{Db}
use rubica_bot.Services.Action.{World, Action, next, ◌>>=◌, return, lift, from_db}

pub record Keeps {ℓ} {A : Type ℓ} (P : World → Type 0) (m : Action A) : Type ℓ where
  pub at' : (w : World) → P w → P (m w).1

module _ {ℓ} {A : Type ℓ} {P : World → Type 0} where
  pub Keeps-return : (a : A) → Keeps P (return a)
  unfolding return
  Keeps-return a = record { at' = λ w p. p }

  pub Keeps-lift : (r : Result A) → Keeps P (lift r)
  unfolding lift
  Keeps-lift r = record { at' = λ w p. p }

  pub Keeps-from_db : (f : Db → A) → Keeps P (from_db f)
  unfolding from_db
  Keeps-from_db f = record { at' = λ w p. p }

  pub Keeps-if : (b : Bool) (m n : Action A) → Keeps P m → Keeps P n → Keeps P (if b then m else n)
  Keeps-if true m n h k = h
  Keeps-if false m n h k = k

module _ {ℓ} {A B : Type ℓ} {P : World → Type 0} where
  Keeps-next :
      (f : A → Action B) (r : Result A) (w : World)
      → ((a : A) → Keeps P (f a))
      → P w
      → P (next f (r, w)).1
  Keeps-next f (ok a) w k p = (k a).at' w p
  Keeps-next f (raise e) w k p = p

  pub Keeps-bind :
      (m : Action A) (f : A → Action B) → Keeps P m → ((a : A) → Keeps P (f a)) → Keeps P (m >>= f)
  unfolding ◌>>=◌
  Keeps-bind m f h k = record { at' = λ w p. Keeps-next f (m w).0 (m w).1 k (h.at' w p) }

  -- What a getter gives is known.
  pub Keeps-bind_ok :
      (r : Result A) (a : A) (f : A → Action B) → r ≡ ok a → Keeps P (f a) → Keeps P (lift r >>= f)
  unfolding ◌>>=◌ lift
  Keeps-bind_ok r a f e h =
      subst (λ q. Keeps P (λ w. next f (q, w))) (sym e) (record { at' = λ w p. h.at' w p })

pub ruleset keeps = (Keeps-return, Keeps-lift, Keeps-from_db, Keeps-if, Keeps-bind)
