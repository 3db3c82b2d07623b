-- ===== src/Utils/Cache/Contents.antt =====
-- Every operation of `LruTtlCache` keeps what is true of all entries; a hit is one of the entries.
use rubica_bot.Prelude.{
  ℕ, ◌-◌, ◌≡◌, refl, String, false, Option, none, some, List, [], ◌∷◌, ltb, str_eq, arith,
  Bool-cases, inl, inr,
}
use rubica_bot.Prelude.Lists.{keep}
use rubica_bot.Utils.Cache.{LruTtlCache, Entry, find, pop, get, get_item, set, invalidate}
use rubica_bot.Utils.Cache.Entries.{All, pop-All, evict-All, append-All, find-All}

module _ {ℓ} {V : Type ℓ} (P : Entry V → Type 0) (c : LruTtlCache V) (key : String) (now : ℕ) where
  pub set-All : (v : V) → All P c.entries → P (key, (now, v)) → All P (set key v now c).entries
  unfolding set
  set-All v h p = evict-All P _ _ (append-All P _ _ (pop-All P key c.entries h) p)

  pub invalidate-All : All P c.entries → All P (invalidate key c).entries
  unfolding invalidate
  invalidate-All h = pop-All P key c.entries h

  get_item-All :
      (o : Option (ℕ × V))
      → find key c.entries ≡ o
      → All P c.entries
      → All P (get_item key now c o).1.entries
  unfolding get_item
  get_item-All none e h = h
  get_item-All (some (ts, g)) e h = elim (Bool-cases (ltb c.ttl_seconds (now - ts))) [
    | inl old ↦ rw old (pop-All P key c.entries h)
    | inr fresh ↦
        rw fresh
          (append-All P _ _ (pop-All P key c.entries h) (find-All P key c.entries (ts, g) h e))
  ]

  pub get-All : All P c.entries → All P (get key now c).1.entries
  unfolding get
  get-All h = get_item-All (find key c.entries) refl h

module _ {ℓ} {V : Type ℓ} (c : LruTtlCache V) (key : String) (now : ℕ) where
  get_item-hit :
      (v : V) (o : Option (ℕ × V))
      → (get_item key now c o).0 ≡ some v
      → (ts : ℕ) × (o ≡ some (ts, v))
  unfolding get_item
  get_item-hit v none e = absurd (ground (arith, e))
  get_item-hit v (some (ts, w)) e = (ts, ground (arith, e))

  pub get-hit :
      (v : V) → (get key now c).0 ≡ some v → (ts : ℕ) × (find key c.entries ≡ some (ts, v))
  unfolding get
  get-hit v e = get_item-hit v (find key c.entries) e

-- What changes only about one key stays true of the entries once that key is invalidated.
pop-All_ne {ℓ} :
    {V : Type ℓ} (P Q : Entry V → Type 0) (key : String) (l : List (Entry V))
    → ((e : Entry V) → str_eq e.0 key ≡ false → P e → Q e)
    → All P l
    → All Q (pop key l)
unfolding pop keep
pop-All_ne P Q key [] step h = tt
pop-All_ne P Q key (e ∷ l) step h = elim (Bool-cases (str_eq e.0 key)) [
  | inl same ↦ rw same (pop-All_ne P Q key l step h.1)
  | inr other ↦ rw other (step e other h.0, pop-All_ne P Q key l step h.1)
]

pub invalidate-All_ne {ℓ} :
    {V : Type ℓ} (P Q : Entry V → Type 0) (c : LruTtlCache V) (key : String)
    → ((e : Entry V) → str_eq e.0 key ≡ false → P e → Q e)
    → All P c.entries
    → All Q (invalidate key c).entries
unfolding invalidate
invalidate-All_ne P Q c key step h = pop-All_ne P Q key c.entries step h
