-- ===== src/Utils/Cache.antt =====
-- app/utils/cache.py: `LruTtlCache`, with text keys. The `OrderedDict` is a list of (key, (time,
-- value)), least recently used first; `time.monotonic()` is the argument `now`.
pub mod Entries
pub mod Contents
pub mod Laws
use rubica_bot.Prelude.{
  ℕ, ◌-◌, String, Bool, true, false, not, Option, none, some, List, [], ◌∷◌, ◌++◌, ltb, str_eq,
  if◌then◌else◌,
}
use Prim.Native.Nat.{max}
use rubica_bot.Prelude.Lists.{length, keep}

abbrev pub Entry {ℓ} : Type ℓ → Type ℓ
Entry V = String × (ℕ × V)

pub record LruTtlCache {ℓ} (V : Type ℓ) : Type ℓ where
  pub max_size : ℕ
  pub ttl_seconds : ℕ
  pub entries : List (Entry V)

module _ {ℓ} {V : Type ℓ} where
  unfoldable pub init : ℕ → ℕ → LruTtlCache V
  init max_size ttl_seconds = record {
    max_size = max 1 max_size;
    ttl_seconds = max 1 ttl_seconds;
    entries = [];
  }

  -- `self._data.get(key)`
  unfoldable pub find : String → List (Entry V) → Option (ℕ × V)
  find key [] = none
  find key ((k, item) ∷ l) = if str_eq k key then some item else find key l

  -- `self._data.pop(key, None)`
  unfoldable pub pop : String → List (Entry V) → List (Entry V)
  unfolding keep
  pop key = keep (λ e. not (str_eq e.0 key))

  get_item : String → ℕ → LruTtlCache V → Option (ℕ × V) → Option V × LruTtlCache V
  unfolding pop
  get_item key now c none = (none, c)
  get_item key now c (some (ts, value)) =
      if ltb c.ttl_seconds (now - ts)
      then (none, record c { entries = pop key c.entries })
      else (some value, record c { entries = pop key c.entries ++ (key, (ts, value)) ∷ [] })

  unfoldable pub get : String → ℕ → LruTtlCache V → Option V × LruTtlCache V
  unfolding find get_item
  get key now c = get_item key now c (find key c.entries)

  -- `while len(self._data) > self.max_size: self._data.popitem(last=False)`
  unfoldable pub evict : ℕ → List (Entry V) → List (Entry V)
  evict max_size [] = []
  evict max_size (e ∷ l) =
      let rest = evict max_size l in if ltb max_size (length (e ∷ l)) then rest else e ∷ l

  unfoldable pub set : String → V → ℕ → LruTtlCache V → LruTtlCache V
  unfolding pop evict
  set key value now c = record c {
    entries = evict c.max_size (pop key c.entries ++ (key, (now, value)) ∷ []);
  }

  unfoldable pub invalidate : String → LruTtlCache V → LruTtlCache V
  unfolding pop
  invalidate key c = record c { entries = pop key c.entries }

  unfoldable pub clear : LruTtlCache V → LruTtlCache V
  clear c = record c { entries = [] }
