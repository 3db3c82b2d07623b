-- ===== src/Utils/Cache/Laws.antt =====
-- What `LruTtlCache` promises: at most `max_size` entries under distinct keys, a read after a write
-- within `ttl_seconds`, nothing after that or after `invalidate`.
use mathlib.Core.List.{append_assoc}
use mathlib.Core.Path.{subst}
use rubica_bot.Prelude.{
  ℕ, ◌+◌, ◌-◌, ◌≤◌, ◌≡◌, ◌≢◌, refl, ap, sym, ◌∙◌, String, false, Option, none, some, List, [], ◌∷◌,
  ◌++◌, ltb, eq_iff, eq_refl, if◌then◌else◌, arith, Bool-cases, inl, inr,
}
use rubica_bot.Prelude.Lists.{length, length-append}
use rubica_bot.Utils.Cache.{
  LruTtlCache, Entry, init, find, pop, get_item, get, evict, set, invalidate, clear,
}
use rubica_bot.Utils.Cache.Entries.{
  find-pop, find-append, find-evict_last, length-evict, evict_of_length-le, Distinct, pop-Distinct,
  append-Distinct, evict-Distinct, length-pop_of_found, length-pop-le, pop_absent, find-middle,
  pop-middle,
}

pub record IsValid {ℓ} {V : Type ℓ} (c : LruTtlCache V) : Type ℓ where
  pub room : 1 ≤ c.max_size
  pub bounded : length c.entries ≤ c.max_size
  pub distinct : Distinct c.entries

module _ {ℓ} {V : Type ℓ} (c : LruTtlCache V) (key : String) (now : ℕ) where
  -- With its key popped, a list has no entry of that key.
  find-pop_self : find key (pop key c.entries) ≡ none
  find-pop_self = rw (find-pop, eq_refl)

  set-IsValid : (value : V) → IsValid c → IsValid (set key value now c)
  unfolding set
  set-IsValid value v = record {
    room = v.room;
    bounded = length-evict _ _;
    distinct =
        evict-Distinct _ _
          (append-Distinct key _ (pop key c.entries) find-pop_self (pop-Distinct key _ v.distinct));
  }

  get_item-IsValid :
      (o : Option (ℕ × V)) → find key c.entries ≡ o → IsValid c → IsValid (get_item key now c o).1
  unfolding get_item
  get_item-IsValid none h v = v
  get_item-IsValid (some (ts, value)) h v = elim (Bool-cases (ltb c.ttl_seconds (now - ts))) [
    | inl old ↦ rw old (record {
      room = v.room;
      bounded = omega (arith, length-pop_of_found key (ts, value) c.entries h);
      distinct = pop-Distinct key _ v.distinct;
    })
    | inr fresh ↦ rw fresh (record {
      room = v.room;
      bounded = omega (
        arith,
        length-pop_of_found key (ts, value) c.entries h,
        length-append {ℓ} (pop key c.entries) ((key, (ts, value)) ∷ []),
      );
      distinct =
          append-Distinct key _ (pop key c.entries) find-pop_self (pop-Distinct key _ v.distinct);
    })
  ]

  get-IsValid : IsValid c → IsValid (get key now c).1
  unfolding get
  get-IsValid v = get_item-IsValid (find key c.entries) refl v

  invalidate-IsValid : IsValid c → IsValid (invalidate key c)
  unfolding invalidate pop
  invalidate-IsValid v = record {
    room = v.room;
    bounded = omega (arith, length-pop-le key c.entries);
    distinct = pop-Distinct key _ v.distinct;
  }

  -- A read after a write returns the value for `ttl_seconds`, and nothing from then on.
  pub get-set_self :
      (value : V) (later : ℕ)
      → 1 ≤ c.max_size
      → (get key later (set key value now c)).0
        ≡ (if ltb c.ttl_seconds (later - now) then none else some value)
  unfolding get set get_item
  get-set_self value later room =
      ground
        (arith, find-evict_last c.max_size key (now, value) (pop key c.entries) room find-pop_self)

  -- After `invalidate` a read returns nothing.
  pub get-invalidate : (later : ℕ) → (get key later (invalidate key c)).0 ≡ none
  unfolding get invalidate get_item
  get-invalidate later = rw find-pop_self refl

  -- Another key answers as before, as long as the new entry fits.
  pub get-set_ne :
      (value : V) (j : String) (later : ℕ)
      → key ≢ j
      → length (pop key c.entries) + 1 ≤ c.max_size
      → (get j later (set key value now c)).0 ≡ (get j later c).0
  unfolding get set get_item
  get-set_ne value j later ne fits = ground (
    arith,
    eq_iff key j,
    evict_of_length-le c.max_size (pop key c.entries ++ (key, (now, value)) ∷ []),
    length-append {ℓ} (pop key c.entries) ((key, (now, value)) ∷ []),
    find-append key j (now, value) (pop key c.entries) find-pop_self,
    find-pop key j c.entries,
  )

-- A new key in a full cache takes the place of the first entry.
entries-set_full {ℓ} :
    {V : Type ℓ} (c : LruTtlCache V) (key : String) (value : V) (now : ℕ) (e : Entry V)
    (l : List (Entry V))
    → c.entries ≡ e ∷ l
    → length c.entries ≡ c.max_size
    → find key c.entries ≡ none
    → (set key value now c).entries ≡ l ++ (key, (now, value)) ∷ []
unfolding set evict
entries-set_full c key value now e l h full new = ground (
  arith,
  pop_absent key c.entries new,
  length-append {ℓ} l ((key, (now, value)) ∷ []),
  evict_of_length-le c.max_size (l ++ (key, (now, value)) ∷ []),
)

-- A key that the cache does not hold is still new when another entry has been moved to the end.
still_new {ℓ} :
    {V : Type ℓ} (c : LruTtlCache V) (used key : String) (item : ℕ × V) (l : List (Entry V))
    → pop used c.entries ≡ l
    → find used l ≡ none
    → find used c.entries ≡ some item
    → find key c.entries ≡ none
    → find key (l ++ (used, item) ∷ []) ≡ none
still_new c used key item l popped gone found new = ground (
  arith,
  eq_iff used key,
  ap (find key) popped,
  find-pop used key c.entries,
  find-append used key item l gone,
)

-- In a full and valid cache, a read of an entry that has not expired and then a write of a new key:
-- the read returns the value, and the entry that was read stays, wherever it stood, as the last but
-- the new one and with the time of its write. Of the others, which keep their order, the first goes.
pub entries-set-get {ℓ} :
    {V : Type ℓ} (c : LruTtlCache V) (used key : String) (ts now later : ℕ) (held value : V)
    (before after l : List (Entry V)) (e : Entry V)
    → IsValid c
    → c.entries ≡ before ++ (used, (ts, held)) ∷ after
    → before ++ after ≡ e ∷ l
    → length c.entries ≡ c.max_size
    → ltb c.ttl_seconds (now - ts) ≡ false
    → find key c.entries ≡ none
    → ((get used now c).0 ≡ some held)
      × ((set key value later (get used now c).1).entries
          ≡ l ++ (used, (ts, held)) ∷ (key, (later, value)) ∷ [])
unfolding get get_item
entries-set-get c used key ts now later held value before after l e v h others full fresh new =
    let d : Distinct (before ++ (used, (ts, held)) ∷ after) = subst Distinct h v.distinct in
    let found : find used c.entries ≡ some (ts, held) =
      ap (find used) h ∙ find-middle used (ts, held) before after d in
    let popped : pop used c.entries ≡ e ∷ l =
      ap (pop used) h ∙ pop-middle used (ts, held) before after d ∙ others in
    let read : get used now c
        ≡ (some held, record c { entries = (e ∷ l) ++ (used, (ts, held)) ∷ [] }) =
      rw (found, fresh, popped) refl in
    let rest = record c { entries = (e ∷ l) ++ (used, (ts, held)) ∷ [] } in
    let gone : find used (e ∷ l) ≡ none = ap (find used) (sym popped) ∙ find-pop_self c used now in
    let new' : find key rest.entries ≡ none =
      still_new c used key (ts, held) (e ∷ l) popped gone found new in
    let full' : length rest.entries ≡ c.max_size = omega (
      arith,
      full,
      ap length h,
      ap length others,
      length-append {ℓ} before ((used, (ts, held)) ∷ after),
      length-append {ℓ} before after,
      length-append {ℓ} (e ∷ l) ((used, (ts, held)) ∷ []),
    ) in
    (
      ap (λ r. r.0) read,
      ap (λ r. (set key value later r.1).entries) read
          ∙ entries-set_full rest key value later e (l ++ (used, (ts, held)) ∷ []) refl full' new'
          ∙ append_assoc l ((used, (ts, held)) ∷ []) ((key, (later, value)) ∷ []),
    )

pub data Call {ℓ} (V : Type ℓ) : Type ℓ where
  get_call : String → Call V
  set_call : String → V → Call V
  invalidate_call : String → Call V
  clear_call : Call V

module _ {ℓ} {V : Type ℓ} where
  pub step : LruTtlCache V → ℕ × Call V → LruTtlCache V
  step c (now, get_call key) = (get key now c).1
  step c (now, set_call key value) = set key value now c
  step c (now, invalidate_call key) = invalidate key c
  step c (now, clear_call) = clear c

  pub run : LruTtlCache V → List (ℕ × Call V) → LruTtlCache V
  run c [] = c
  run c (call ∷ calls) = run (step c call) calls

  step-IsValid : (c : LruTtlCache V) (call : ℕ × Call V) → IsValid c → IsValid (step c call)
  unfolding step clear
  step-IsValid c (now, get_call key) v = get-IsValid c key now v
  step-IsValid c (now, set_call key value) v = set-IsValid c key now value v
  step-IsValid c (now, invalidate_call key) v = invalidate-IsValid c key now v
  step-IsValid c (now, clear_call) v = record {
    room = v.room;
    bounded = omega (arith, v.room);
    distinct = tt;
  }

  pub run-IsValid :
      (c : LruTtlCache V) (calls : List (ℕ × Call V)) → IsValid c → IsValid (run c calls)
  unfolding run
  run-IsValid c [] v = v
  run-IsValid c (call ∷ calls) v = run-IsValid (step c call) calls (step-IsValid c call v)

  -- Whatever the calls and the size that was asked for, the cache holds at least one entry's room, at
  -- most `max_size` entries, and no key twice.
  pub run-init-IsValid :
      (max_size ttl_seconds : ℕ) (calls : List (ℕ × Call V))
      → IsValid (run (init max_size ttl_seconds) calls)
  unfolding init
  run-init-IsValid max_size ttl_seconds calls =
      run-IsValid _ calls (record { room = omega arith; bounded = omega arith; distinct = tt })
