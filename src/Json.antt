-- ===== src/Json.antt =====
-- The values that `json.loads` returns, with what the program does to them: truth, `d.get(key)`,
-- `str(v)`. Numbers are the integers.
use rubica_bot.Prelude.{String, Bool, true, false, not, List, [], ◌∷◌, str_eq, if◌then◌else◌}
use rubica_bot.Prelude.Int.{ℤ, nonzero, show_ℤ}
use rubica_bot.Prelude.Text.{is_empty}
use rubica_bot.Result.{Result, ok, raise, attribute_error, type_error}

mutual
  pub data Value : Type 0 where
    obj : Fields → Value
    arr : Items → Value
    str : String → Value
    num : ℤ → Value
    flag : Bool → Value
    null : Value

  pub data Items : Type 0 where
    no_items : Items
    item : Value → Items → Items

  pub data Fields : Type 0 where
    no_fields : Fields
    entry : String → Value → Fields → Fields

-- bool(v)
abbrev pub truthy : Value → Bool
truthy null = false
truthy (flag b) = b
truthy (num n) = nonzero n
truthy (str s) = not (is_empty s)
truthy (arr no_items) = false
truthy (arr (item v items)) = true
truthy (obj no_fields) = false
truthy (obj (entry k v fs)) = true

-- `a or b`, for a `b` that costs nothing
abbrev pub or_else : Value → Value → Value
or_else a b = if truthy a then a else b

unfoldable pub find : String → Fields → Value
find key no_fields = null
find key (entry k v fs) = let rest = find key fs in if str_eq k key then v else rest

-- `d.get(key)`: `None` for a key that is not there, `AttributeError` for what is no dict
unfoldable pub get : Value → String → Result Value
unfolding find
get (obj fs) key = ok (find key fs)
get _ key = raise attribute_error

-- What a function that wants a `str` does with a value: any other value raises `TypeError`.
unfoldable pub as_text : Value → Result String
as_text (str s) = ok s
as_text _ = raise type_error

abbrev pub items : List Value → Items
items [] = no_items
items (v ∷ vs) = item v (items vs)

-- A dict literal.
abbrev pub fields : List (String × Value) → Fields
fields [] = no_fields
fields ((k, v) ∷ l) = entry k v (fields l)

-- str(v). The text of a list or a dict is Python's own: it is the argument `repr`.
unfoldable pub show : (Value → String) → Value → String
unfolding show_ℤ
show repr null = "None"
show repr (flag true) = "True"
show repr (flag false) = "False"
show repr (num n) = show_ℤ n
show repr (str s) = s
show repr v = repr v
