-- ===== src/Utils/Cache/Entries.antt =====
-- Facts about the entry lists of `LruTtlCache`: a predicate on entries that every operation keeps,
-- and what a lookup finds after each of the list operations.
use rubica_bot.Prelude.{
  ℕ, ◌+◌, ◌≤◌, ◌≡◌, refl, String, not, none, some, List, [], ◌∷◌, ◌++◌, str_eq, eq_iff,
  if◌then◌else◌, arith, Bool-cases, inl, inr,
}
use mathlib.Core.Path.{subst}
use rubica_bot.Prelude.Lists.{length, keep, length-keep-le}
use rubica_bot.Utils.Cache.{Entry, find, pop, evict}

abbrev pub All {ℓ κ} : {A : Type ℓ} → (A → Type κ) → List A → Type κ
All P [] = Unit
All P (x ∷ xs) = P x × All P xs

module _ {ℓ κ} {V : Type ℓ} (P : Entry V → Type κ) where
  pub pop-All : (key : String) (l : List (Entry V)) → All P l → All P (pop key l)
  unfolding pop keep
  pop-All key [] h = tt
  pop-All key (e ∷ l) h = ground (arith, pop-All key l)

  pub evict-All : (n : ℕ) (l : List (Entry V)) → All P l → All P (evict n l)
  unfolding evict
  evict-All n [] h = tt
  evict-All n (e ∷ l) h = ground (arith, evict-All n l)

  pub append-All : (l : List (Entry V)) (e : Entry V) → All P l → P e → All P (l ++ e ∷ [])
  append-All [] e h p = (p, tt)
  append-All (x ∷ l) e h p = (h.0, append-All l e h.1 p)

  pub find-All :
      (key : String) (l : List (Entry V)) (item : ℕ × V)
      → All P l
      → find key l ≡ some item
      → P (key, item)
  unfolding find
  find-All key [] item h e = absurd (ground arith)
  find-All key ((k, x) ∷ l) item h e = elim (Bool-cases (str_eq k key)) [
    | inl here ↦
        let same : (k, x) ≡ (key, item) = ground (arith, (eq_iff k key).0 here) in subst P same h.0
    | inr there ↦ find-All key l item h.1 (ground arith)
  ]

module _ {ℓ} {V : Type ℓ} where
  pub find-pop :
      (key j : String) (l : List (Entry V))
      → find j (pop key l) ≡ (if str_eq key j then none else find j l)
  unfolding find pop keep
  find-pop key j [] = ground arith
  find-pop key j ((i, w) ∷ l) =
      ground (arith, find-pop key j l, eq_iff i key, eq_iff i j, eq_iff key j)

  -- A key that is gone from the list is found only where it is put.
  pub find-append :
      (key j : String) (item : ℕ × V) (l : List (Entry V))
      → find key l ≡ none
      → find j (l ++ (key, item) ∷ []) ≡ (if str_eq key j then some item else find j l)
  unfolding find
  find-append key j item [] h = refl
  find-append key j item ((i, w) ∷ l) h =
      ground (arith, find-append key j item l, eq_iff i key, eq_iff i j, eq_iff key j)

  pub length-evict : (n : ℕ) (l : List (Entry V)) → length (evict n l) ≤ n
  unfolding evict
  length-evict n [] = omega arith
  length-evict n (e ∷ l) = ground (arith, length-evict n l)

  pub evict_of_length-le : (n : ℕ) (l : List (Entry V)) → length l ≤ n → evict n l ≡ l
  unfolding evict
  evict_of_length-le n [] h = refl
  evict_of_length-le n (e ∷ l) h = ground arith

  -- The newest entry stays, if there is room for one.
  pub find-evict_last :
      (n : ℕ) (key : String) (item : ℕ × V) (l : List (Entry V))
      → 1 ≤ n
      → find key l ≡ none
      → find key (evict n (l ++ (key, item) ∷ [])) ≡ some item
  unfolding find evict
  find-evict_last n key item [] h e = ground (arith, eq_iff key key)
  find-evict_last n key item ((i, w) ∷ l) h e = ground (
    arith,
    find-evict_last n key item l,
    eq_iff i key,
    eq_iff key key,
    find-append key key item l,
  )

  -- No key occurs twice, as in a dict.
  abbrev pub Distinct : List (Entry V) → Type ℓ
  Distinct [] = Unit
  Distinct ((k, item) ∷ l) = (find k l ≡ none) × Distinct l

  pub pop-Distinct : (key : String) (l : List (Entry V)) → Distinct l → Distinct (pop key l)
  unfolding pop keep
  pop-Distinct key [] d = tt
  pop-Distinct key ((i, w) ∷ l) d = ground (arith, pop-Distinct key l, find-pop key i l)

  pub append-Distinct :
      (key : String) (item : ℕ × V) (l : List (Entry V))
      → find key l ≡ none
      → Distinct l
      → Distinct (l ++ (key, item) ∷ [])
  unfolding find
  append-Distinct key item [] h d = (refl, tt)
  append-Distinct key item ((i, w) ∷ l) h d =
      ground
        (arith, append-Distinct key item l, find-append key i item l, eq_iff i key, eq_iff key i)

  pub evict-Distinct : (n : ℕ) (l : List (Entry V)) → Distinct l → Distinct (evict n l)
  unfolding evict
  evict-Distinct n [] d = tt
  evict-Distinct n (e ∷ l) d = ground (arith, evict-Distinct n l d.1)

  pub length-pop_of_found :
      (key : String) (item : ℕ × V) (l : List (Entry V))
      → find key l ≡ some item
      → length (pop key l) + 1 ≤ length l
  unfolding find pop keep
  length-pop_of_found key item [] h = absurd (ground arith)
  length-pop_of_found key item ((i, w) ∷ l) h = ground (
    arith,
    length-pop_of_found key item l,
    length-keep-le {ℓ} (λ (e : Entry V). not (str_eq e.0 key)) l,
  )

  pub length-pop-le : (key : String) (l : List (Entry V)) → length (pop key l) ≤ length l
  unfolding pop
  length-pop-le key l = length-keep-le {ℓ} (λ (e : Entry V). not (str_eq e.0 key)) l

  pub pop_absent : (key : String) (l : List (Entry V)) → find key l ≡ none → pop key l ≡ l
  unfolding find pop keep
  pop_absent key [] h = refl
  pop_absent key (e ∷ l) h = ground (arith, pop_absent key l)

  -- An entry of a list without repeated keys is found, and popped alone.
  pub find-middle :
      (key : String) (item : ℕ × V) (a b : List (Entry V))
      → Distinct (a ++ (key, item) ∷ b)
      → find key (a ++ (key, item) ∷ b) ≡ some item
  unfolding find
  find-middle key item [] b d = ground (arith, eq_iff key key)
  find-middle key item ((i, w) ∷ a) b d =
      let later = find-middle key item a b d.1 in ground (arith, eq_iff i key)

  pub pop-middle :
      (key : String) (item : ℕ × V) (a b : List (Entry V))
      → Distinct (a ++ (key, item) ∷ b)
      → pop key (a ++ (key, item) ∷ b) ≡ a ++ b
  unfolding find pop keep
  pop-middle key item [] b d =
      let rest : pop key b ≡ b = pop_absent key b d.0 in ground (arith, eq_iff key key)
  pop-middle key item ((i, w) ∷ a) b d =
      let later = find-middle key item a b d.1 in
      let rest : pop key (a ++ (key, item) ∷ b) ≡ a ++ b = pop-middle key item a b d.1 in
      ground (arith, eq_iff i key)
