-- ===== src/Utils/Dedup/Refinement.antt =====
-- `Deduplicator` against a specification that forgets nothing: a total map from keys to the time at
-- which each was last accepted.
use rubica_bot.Prelude.{
  ℕ, ◌≤◌, ◌≡◌, refl, String, Bool, true, false, not, Option, none, some, List, [], ◌∷◌, ◌++◌,
  str_eq, eq_iff, if◌then◌else◌, arith,
}
use rubica_bot.Utils.Dedup.{Deduplicator, init, is_expired, lookup, sweep, seen_key}

-- What a key's last acceptance still says at a later time.
abbrev pub live : ℕ → ℕ → Option ℕ → Option ℕ
live ttl now none = none
live ttl now (some v) = if is_expired ttl now v then none else some v

abbrev pub Accepted : Type 0
Accepted = String → Option ℕ

answer : Option ℕ → Bool
answer none = false
answer (some _) = true

-- The specification: a key is seen if its last acceptance is at most `ttl` ago; else it is accepted.
unfoldable pub spec : ℕ → String → ℕ → Accepted → Bool × Accepted
unfolding answer
spec ttl key now f = elim (live ttl now (f key)) [
  | some _ ↦ (true, f)
  | none ↦ (false, λ j. if str_eq key j then some now else f j)
]

pub run : Deduplicator → List (String × ℕ) → List Bool
run d [] = []
run d ((key, now) ∷ calls) = (seen_key key now d).0 ∷ run (seen_key key now d).1 calls

pub run_spec : ℕ → Accepted → List (String × ℕ) → List Bool
run_spec ttl f [] = []
run_spec ttl f ((key, now) ∷ calls) =
    (spec ttl key now f).0 ∷ run_spec ttl (spec ttl key now f).1 calls

-- The calls' times do not decrease, and start at `t` or later.
abbrev pub Ordered : ℕ → List (String × ℕ) → Type 0
Ordered t [] = Unit
Ordered t ((key, now) ∷ calls) = (t ≤ now) × Ordered now calls

-- No key occurs twice.
abbrev pub Distinct : List (String × ℕ) → Type 0
Distinct [] = Unit
Distinct ((k, v) ∷ l) = (lookup k l ≡ none) × Distinct l

-- The dict, as far as it has not expired at `t` or later, is the map.
pub record Agrees (t : ℕ) (d : Deduplicator) (f : Accepted) : Type 0 where
  pub distinct : Distinct d.cache
  pub at_key :
      (now : ℕ) (key : String)
      → t ≤ now
      → live d.ttl_seconds now (lookup key d.cache) ≡ live d.ttl_seconds now (f key)

lookup-sweep :
    (ttl now : ℕ) (k : String) (l : List (String × ℕ))
    → Distinct l
    → lookup k (sweep ttl now l) ≡ live ttl now (lookup k l)
unfolding lookup sweep
lookup-sweep ttl now k [] d = refl
lookup-sweep ttl now k ((j, v) ∷ l) d = ground (arith, eq_iff j k, lookup-sweep ttl now k l d.1)

sweep-Distinct : (ttl now : ℕ) (l : List (String × ℕ)) → Distinct l → Distinct (sweep ttl now l)
unfolding sweep
sweep-Distinct ttl now [] d = tt
sweep-Distinct ttl now ((j, v) ∷ l) d =
    ground (arith, lookup-sweep ttl now j l d.1, sweep-Distinct ttl now l d.1)

lookup-append :
    (j k : String) (v : ℕ) (l : List (String × ℕ))
    → lookup k l ≡ none
    → lookup j (l ++ (k, v) ∷ []) ≡ (if str_eq k j then some v else lookup j l)
unfolding lookup
lookup-append j k v [] h = refl
lookup-append j k v ((i, w) ∷ l) h =
    ground (arith, eq_iff i k, eq_iff i j, eq_iff k j, lookup-append j k v l)

append-Distinct :
    (k : String) (v : ℕ) (l : List (String × ℕ))
    → lookup k l ≡ none
    → Distinct l
    → Distinct (l ++ (k, v) ∷ [])
unfolding lookup
append-Distinct k v [] h d = ground arith
append-Distinct k v ((i, w) ∷ l) h d =
    ground (arith, eq_iff i k, eq_iff k i, lookup-append i k v l, append-Distinct k v l)

-- What has expired stays expired.
live-live :
    (ttl now later : ℕ) (o : Option ℕ)
    → now ≤ later
    → live ttl later (live ttl now o) ≡ live ttl later o
live-live ttl now later o h = ground arith

module _ (key : String) (now : ℕ) (t : ℕ) (d : Deduplicator) (f : Accepted) where
  answer-Agrees : t ≤ now → Agrees t d f → (seen_key key now d).0 ≡ (spec d.ttl_seconds key now f).0
  unfolding seen_key spec
  answer-Agrees h a =
      ground (arith, a.at_key now key h, lookup-sweep d.ttl_seconds now key d.cache a.distinct)

  Distinct-after : t ≤ now → Agrees t d f → Distinct (seen_key key now d).1.cache
  unfolding seen_key
  Distinct-after h a =
      let kept = sweep d.ttl_seconds now d.cache in
      let u = sweep-Distinct d.ttl_seconds now d.cache a.distinct in
      ground (arith, append-Distinct key now kept)

  ttl-seen_key : (seen_key key now d).1.ttl_seconds ≡ d.ttl_seconds
  unfolding seen_key
  ttl-seen_key = ground arith

  lookup-after :
      (later : ℕ) (j : String)
      → t ≤ now
      → now ≤ later
      → Agrees t d f
      → live d.ttl_seconds later (lookup j (seen_key key now d).1.cache)
        ≡ live d.ttl_seconds later ((spec d.ttl_seconds key now f).1 j)
  unfolding seen_key spec
  lookup-after later j h g a =
      let ttl = d.ttl_seconds in
      ground (
        arith,
        a.at_key now key h,
        a.at_key later j,
        live-live ttl now later (lookup j d.cache) g,
        lookup-sweep ttl now key d.cache a.distinct,
        lookup-sweep ttl now j d.cache a.distinct,
        lookup-append j key now (sweep ttl now d.cache),
        eq_iff key j,
      )

  seen_key-Agrees :
      t ≤ now → Agrees t d f → Agrees now (seen_key key now d).1 (spec d.ttl_seconds key now f).1
  seen_key-Agrees h a = record {
    distinct = Distinct-after h a;
    at_key = λ later j g. rw ttl-seen_key (lookup-after later j h g a);
  }

-- Whatever the calls, as long as time does not run backwards, a deduplicator that agrees with the
-- specification answers as the specification does: dropping expired keys is never visible.
pub run-run_spec :
    (ttl t : ℕ) (d : Deduplicator) (f : Accepted) (calls : List (String × ℕ))
    → d.ttl_seconds ≡ ttl
    → Agrees t d f
    → Ordered t calls
    → run d calls ≡ run_spec ttl f calls
unfolding run run_spec
run-run_spec ttl t d f [] e a o = refl
run-run_spec ttl t d f ((key, now) ∷ calls) e a o =
    let next = seen_key-Agrees key now t d f o.0 a in
    rw (
      answer-Agrees key now t d f o.0 a,
      run-run_spec d.ttl_seconds now (seen_key key now d).1 (spec d.ttl_seconds key now f).1 calls
          (ttl-seen_key key now t d f) next o.1,
      e,
    )

pub init-Agrees : (ttl : ℕ) → Agrees 0 (init ttl) (λ k. none)
unfolding init lookup
init-Agrees ttl = record { distinct = tt; at_key = λ now key h. refl }

-- A key that was just accepted is seen for `ttl_seconds`, and no longer.
pub seen_again :
    (key : String) (now later : ℕ) (d : Deduplicator)
    → Distinct d.cache
    → (seen_key key now d).0 ≡ false
    → (seen_key key later (seen_key key now d).1).0 ≡ not (is_expired d.ttl_seconds later now)
unfolding seen_key
seen_again key now later d u h =
    let kept = sweep d.ttl_seconds now d.cache in
    let v = sweep-Distinct d.ttl_seconds now d.cache u in
    ground (
      arith,
      lookup-append key key now kept,
      append-Distinct key now kept,
      lookup-sweep d.ttl_seconds later key (kept ++ (key, now) ∷ []),
      eq_iff key key,
    )
