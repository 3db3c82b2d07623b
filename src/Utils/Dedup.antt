-- ===== src/Utils/Dedup.antt =====
-- app/utils/dedup.py: `Deduplicator`. The dict is a list of (key, time) in the order of insertion;
-- `time.monotonic()` is the argument `now`, in the unit of `ttl_seconds`.
pub mod Refinement
use rubica_bot.Prelude.{
  ℕ, ◌-◌, String, Bool, true, false, not, Option, none, some, List, [], ◌∷◌, ◌++◌, ltb, str_eq,
  if◌then◌else◌,
}
use rubica_bot.Prelude.Lists.{keep}

pub record Deduplicator : Type 0 where
  pub ttl_seconds : ℕ
  pub cache : List (String × ℕ)

unfoldable pub init : ℕ → Deduplicator
init ttl_seconds = record { ttl_seconds = ttl_seconds; cache = [] }

-- `now - v > self.ttl_seconds`
abbrev pub is_expired : ℕ → ℕ → ℕ → Bool
is_expired ttl now v = ltb ttl (now - v)

-- `self._cache.get(key)`
unfoldable pub lookup : String → List (String × ℕ) → Option ℕ
lookup key [] = none
lookup key ((k, v) ∷ l) = if str_eq k key then some v else lookup key l

-- the two lines that drop every expired key
unfoldable pub sweep : ℕ → ℕ → List (String × ℕ) → List (String × ℕ)
unfolding keep
sweep ttl now = keep (λ e. not (is_expired ttl now e.1))

unfoldable pub insert_new : String → ℕ → Deduplicator → Option ℕ → Bool × Deduplicator
insert_new key now d (some _) = (true, d)
insert_new key now d none = (false, record d { cache = d.cache ++ (key, now) ∷ [] })

unfoldable pub seen_key : String → ℕ → Deduplicator → Bool × Deduplicator
unfolding sweep lookup insert_new
seen_key key now d =
    let kept = sweep d.ttl_seconds now d.cache in
    insert_new key now (record d { cache = kept }) (lookup key kept)

unfoldable pub seen : Option String → ℕ → Deduplicator → Bool × Deduplicator
seen none now d = (false, d)
seen (some key) now d = seen_key key now d
