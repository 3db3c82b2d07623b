-- ===== src/Result.antt =====
-- What a Python function does: return, or raise. The errors are the exceptions that the modelled code
-- or what it calls may raise; `SystemExit(0)` is one of them.
use mathlib.Core.Path.{subst}
use rubica_bot.Prelude.{◌≡◌, refl, ◌⊎◌, inl, inr, String}

pub data Error : Type 0 where
  attribute_error type_error value_error index_error syntax_error : Error
  operational_error interface_error : Error
  bad_value : String → Error
  validation_error : String → Error
  file_exists_error : String → Error
  file_not_found_error not_a_directory_error os_error : Error
  bad_parameter system_exit eof_error : Error
  called_process_error : Error
  queue_empty : Error
  request_failed : String → Error

pub data Result {ℓ} (A : Type ℓ) : Type ℓ where
  ok : A → Result A
  raise : Error → Result A

infixl 5 ◌>>=◌
abbrev pub ◌>>=◌ {ℓ κ} : {A : Type ℓ} {B : Type κ} → Result A → (A → Result B) → Result B
ok a >>= f = f a
raise e >>= f = raise e

pub Result-cases {ℓ} :
    {A : Type ℓ} (r : Result A) → ((a : A) × (r ≡ ok a)) ⊎ ((e : Error) × (r ≡ raise e))
Result-cases (ok a) = inl (a, refl)
Result-cases (raise e) = inr (e, refl)

-- The call returns, and what it returns satisfies `P`.
abbrev pub Returns {ℓ} : {A : Type ℓ} → (A → Type 0) → Result A → Type 0
Returns P (ok a) = P a
Returns P (raise e) = ⊥

pub Returns-bind {ℓ} :
    {A B : Type ℓ} (P : A → Type 0) (Q : B → Type 0) (m : Result A) (f : A → Result B)
    → Returns P m
    → ((a : A) → P a → Returns Q (f a))
    → Returns Q (m >>= f)
Returns-bind P Q (ok a) f h k = k a h
Returns-bind P Q (raise e) f h k = absurd h

-- What is said of every result is true of the result at hand.
pub of_Returns {ℓ} :
    {A : Type ℓ} (P : A → Type 0) (m : Result A) (a : A) → Returns P m → m ≡ ok a → P a
of_Returns P m a h e = subst (Returns P) e h

pub Returns-weaken {ℓ} :
    {A : Type ℓ} (P Q : A → Type 0) (m : Result A)
    → ((a : A) → P a → Q a)
    → Returns P m
    → Returns Q m
Returns-weaken P Q (ok a) f h = f a h
Returns-weaken P Q (raise e) f h = absurd h

-- What the call returns, if it returns, satisfies `P`.
abbrev pub IfOk {ℓ} : {A : Type ℓ} → (A → Type 0) → Result A → Type 0
IfOk P (ok a) = P a
IfOk P (raise e) = Unit

pub IfOk-bind {ℓ} :
    {A B : Type ℓ} (Q : B → Type 0) (m : Result A) (f : A → Result B)
    → ((a : A) → IfOk Q (f a))
    → IfOk Q (m >>= f)
IfOk-bind Q (ok a) f k = k a
IfOk-bind Q (raise e) f k = tt
