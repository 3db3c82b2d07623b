-- ===== src/Cli/Machine/Keeps.antt =====
-- Scripts that keep a property of the machine, whether they return or raise.
use rubica_bot.Prelude.{Bool, true, false, if◌then◌else◌}
use rubica_bot.Result.{Result, ok, raise, IfOk}
use rubica_bot.Cli.Machine.{Machine, Script, next, ◌>>=◌, ◌>>◌, when}

abbrev pub Keeps {ℓ} : {A : Type ℓ} → (Machine → Type 0) → Script A → Type 0
Keeps P s = (m : Machine) → P m → P (s m).1

module _ {ℓ} (P : Machine → Type 0) where
  next-Keeps :
      {A B : Type ℓ} (f : A → Script B) (r : Result A × Machine)
      → P r.1
      → ((a : A) → Keeps P (f a))
      → P (next f r).1
  next-Keeps f (ok a, m) h k = k a m h
  next-Keeps f (raise e, m) h k = h

  pub >>=-Keeps :
      {A B : Type ℓ} (s : Script A) (f : A → Script B)
      → Keeps P s
      → ((a : A) → Keeps P (f a))
      → Keeps P (s >>= f)
  >>=-Keeps s f h k m p = next-Keeps f (s m) (h m p) k

pub >>-Keeps {ℓ} :
    {B : Type ℓ} (P : Machine → Type 0) (s : Script {ℓ} Unit) (t : Script B)
    → Keeps P s
    → Keeps P t
    → Keeps P (s >> t)
>>-Keeps P s t h k m p = next-Keeps P (λ _. t) (s m) (h m p) (λ _. k)

pub when-Keeps :
    (P : Machine → Type 0) (b : Bool) (s : Script {0} Unit) → Keeps P s → Keeps P (when b s)
when-Keeps P true s h m p = h m p
when-Keeps P false s h m p = p

pub if-Keeps {ℓ} :
    {A : Type ℓ} (P : Machine → Type 0) (b : Bool) (s t : Script A)
    → Keeps P s
    → Keeps P t
    → Keeps P (if b then s else t)
if-Keeps P true s t h k = h
if-Keeps P false s t h k = k

-- What a script returns, if it returns.
module _ {A : Type 0} (P : A → Type 0) where
  abbrev pub Gives : Result A × Machine → Type 0
  Gives r = IfOk P r.0

  pub next-Gives :
      {B : Type 0} (Q : B → Type 0) (f : B → Script A) (r : Result B × Machine)
      → IfOk Q r.0
      → ((b : B) (m : Machine) → Q b → Gives (f b m))
      → Gives (next f r)
  next-Gives Q f (ok b, m) q h = h b m q
  next-Gives Q f (raise e, m) q h = tt

  pub next-Gives_any :
      {B : Type 0} (f : B → Script A) (r : Result B × Machine)
      → ((b : B) (m : Machine) → Gives (f b m))
      → Gives (next f r)
  next-Gives_any f (ok b, m) h = h b m
  next-Gives_any f (raise e, m) h = tt

-- A script that leads from one property to another, also where it raises.
pub next-leads {ℓ} :
    {A B : Type ℓ} (P Q : Machine → Type 0) (f : A → Script B) (r : Result A × Machine)
    → P r.1
    → ((m : Machine) → P m → Q m)
    → ((a : A) (m : Machine) → P m → Q (f a m).1)
    → Q (next f r).1
next-leads P Q f (ok a, m) h raised went = went a m h
next-leads P Q f (raise e, m) h raised went = raised m h
