-- ===== src/Db/Messages/Selection.antt =====
-- Lists of rows: the filter against the reverse order, and the selection of rows by their ids.
use mathlib.Core.List.{reverse, reverse-cons, append-nil}
use rubica_bot.Prelude.{
  ℕ, zero, suc, ◌≡◌, ◌≢◌, refl, ap, ◌∙◌, sym, Bool, ◌&&◌, List, [], ◌∷◌, ◌++◌, map, ◌==◌, arith,
  Bool-cases, inl, inr,
}
use rubica_bot.Prelude.Lists.{take, keep, any, keep-append}
use rubica_bot.Db.Tables.{MessageRow}

abbrev pub All {ℓ} : {A : Type ℓ} → (A → Type 0) → List A → Type 0
All P [] = Unit
All P (x ∷ xs) = P x × All P xs

module _ {ℓ} {A : Type ℓ} where
  pub keep-reverse : (p : A → Bool) (xs : List A) → keep p (reverse xs) ≡ reverse (keep p xs)
  unfolding keep
  keep-reverse p [] = refl
  keep-reverse p (x ∷ xs) =
      let step : keep p (reverse (x ∷ xs)) ≡ reverse (keep p xs) ++ keep p (x ∷ []) =
        ap (keep p) (reverse-cons x xs)
        ∙ keep-append p (reverse xs) (x ∷ [])
        ∙ ap (λ l. l ++ keep p (x ∷ [])) (keep-reverse p xs) in
      elim (Bool-cases (p x)) [
        | inl yes' ↦ rw step (rw yes' (sym (reverse-cons x (keep p xs))))
        | inr no' ↦ rw step (rw no' (append-nil (reverse (keep p xs))))
      ]

  pub keep-keep : (p q : A → Bool) (xs : List A) → keep p (keep q xs) ≡ keep (λ x. q x && p x) xs
  unfolding keep
  keep-keep p q [] = refl
  keep-keep p q (x ∷ xs) = ground (arith, keep-keep p q xs)

  pub keep-congr : (p q : A → Bool) (xs : List A) → All (λ x. p x ≡ q x) xs → keep p xs ≡ keep q xs
  unfolding keep
  keep-congr p q [] h = refl
  keep-congr p q (x ∷ xs) h = ground (arith, keep-congr p q xs)

  pub All-keep : (P : A → Type 0) (p : A → Bool) (xs : List A) → All P xs → All P (keep p xs)
  unfolding keep
  All-keep P p [] h = tt
  All-keep P p (x ∷ xs) h = ground (arith, All-keep P p xs)

  pub All-append : (P : A → Type 0) (xs : List A) (x : A) → All P xs → P x → All P (xs ++ x ∷ [])
  All-append P [] x h q = (q, tt)
  All-append P (y ∷ xs) x h q = (h.0, All-append P xs x h.1 q)

  pub All-reverse : (P : A → Type 0) (xs : List A) → All P xs → All P (reverse xs)
  All-reverse P [] h = tt
  All-reverse P (x ∷ xs) h =
      rw reverse-cons (All-append P (reverse xs) x (All-reverse P xs h.1) h.0)

  pub take-take : (n : ℕ) (xs : List A) → take n (take n xs) ≡ take n xs
  take-take zero xs = refl
  take-take (suc n) [] = refl
  take-take (suc n) (x ∷ xs) = ap (◌∷◌ x) (take-take n xs)

-- No two rows have one id.
abbrev pub Distinct : List MessageRow → Type 0
Distinct [] = Unit
Distinct (m ∷ ms) = All (λ x. x.id ≢ m.id) ms × Distinct ms

pub Distinct-append :
    (ms : List MessageRow) (x : MessageRow)
    → Distinct ms
    → All (λ m. m.id ≢ x.id) ms
    → Distinct (ms ++ x ∷ [])
Distinct-append [] x d h = (tt, tt)
Distinct-append (m ∷ ms) x d h =
    (All-append _ ms x d.0 (λ e. h.0 (sym e)), Distinct-append ms x d.1 h.1)

pub Distinct-reverse : (ms : List MessageRow) → Distinct ms → Distinct (reverse ms)
Distinct-reverse [] d = tt
Distinct-reverse (m ∷ ms) d =
    rw reverse-cons
      (Distinct-append (reverse ms) m (Distinct-reverse ms d.1) (All-reverse _ ms d.0))

pub Distinct-keep :
    (p : MessageRow → Bool) (ms : List MessageRow) → Distinct ms → Distinct (keep p ms)
unfolding keep
Distinct-keep p [] d = tt
Distinct-keep p (m ∷ ms) d = ground (arith, All-keep (λ x. x.id ≢ m.id) p ms, Distinct-keep p ms)

-- `m.id IN ids`
abbrev pub is_in : List ℕ → MessageRow → Bool
is_in ids m = any (λ i. i == m.id) ids

is_in-cons :
    (i : ℕ) (ids : List ℕ) (ms : List MessageRow)
    → All (λ x. x.id ≢ i) ms
    → All (λ x. is_in (i ∷ ids) x ≡ is_in ids x) ms
unfolding any
is_in-cons i ids [] h = tt
is_in-cons i ids (m ∷ ms) h = (ground (arith, h.0), is_in-cons i ids ms h.1)

-- Of rows with distinct ids, those whose id is one of the first `n` are the first `n`.
pub keep-is_in-take :
    (n : ℕ) (ms : List MessageRow)
    → Distinct ms
    → keep (is_in (map (λ m. m.id) (take n ms))) ms ≡ take n ms
unfolding keep any
keep-is_in-take zero [] d = refl
keep-is_in-take zero (m ∷ ms) d = ground (arith, keep-is_in-take zero ms)
keep-is_in-take (suc n) [] d = refl
keep-is_in-take (suc n) (m ∷ ms) d =
    let ids = map (λ (x : MessageRow). x.id) (take n ms) in
    let rest : keep (is_in (m.id ∷ ids)) ms ≡ take n ms =
      keep-congr (is_in (m.id ∷ ids)) (is_in ids) ms (is_in-cons m.id ids ms d.0)
      ∙ keep-is_in-take n ms d.1 in
    ground (arith, rest)
