-- ===== src/Prelude/Text.antt =====
-- Python's `str` operations that the program calls, over the native texts. `lower` and `isdigit`
-- know the ASCII letters and digits.
use Prim.Native.Nat.{ℕ, zero, suc, ◌-◌, ◌/◌, ◌%◌}
use Prim.Native.Char.{code}
use Prim.Native.String.{String}
use mathlib.Core.Bool.{Bool, true, false, not, ◌&&◌, ◌||◌}
use mathlib.Core.List.{List, [], ◌∷◌}
use rubica_bot.Prelude.Bools.{leb, ◌==◌, if◌then◌else◌}

infixr 65 ◌<+>◌
-- The concatenation of an f-string's pieces.
abbrev pub ◌<+>◌ : String → String → String
String.[] <+> t = t
String.◌∷◌ c s <+> t = String.◌∷◌ c (s <+> t)

abbrev pub is_empty : String → Bool
is_empty String.[] = true
is_empty (String.◌∷◌ c s) = false

-- s.startswith(p)
unfoldable pub starts_with : String → String → Bool
starts_with s String.[] = true
starts_with String.[] (String.◌∷◌ d p) = false
starts_with (String.◌∷◌ c s) (String.◌∷◌ d p) = code c == code d && starts_with s p

-- `p in s`
unfoldable pub contains : String → String → Bool
unfolding starts_with
contains String.[] p = starts_with String.[] p
contains (String.◌∷◌ c s) p = starts_with (String.◌∷◌ c s) p || contains s p

-- s.lstrip(c)
unfoldable pub lstrip : ℕ → String → String
lstrip k String.[] = String.[]
lstrip k (String.◌∷◌ c s) = let rest = lstrip k s in if code c == k then rest else String.◌∷◌ c s

unfoldable pub reverse_onto : String → String → String
reverse_onto String.[] t = t
reverse_onto (String.◌∷◌ c s) t = reverse_onto s (String.◌∷◌ c t)

-- s.rstrip(c)
unfoldable pub rstrip : ℕ → String → String
unfolding lstrip reverse_onto
rstrip k s = reverse_onto (lstrip k (reverse_onto s "")) ""

-- The characters that `str.isspace` and `\s` take for white space.
abbrev pub is_space : ℕ → Bool
is_space c =
    c == 32
    || (leb 9 c && leb c 13)
    || (leb 28 c && leb c 31)
    || c == 133
    || c == 160
    || c == 5760
    || (leb 8192 c && leb c 8202)
    || c == 8232
    || c == 8233
    || c == 8239
    || c == 8287
    || c == 12288

-- s.split(): the words between white space. `word` holds the current word in reverse.
unfoldable pub split_onto : String → String → List String
unfolding reverse_onto
split_onto word String.[] = if is_empty word then [] else reverse_onto word "" ∷ []
split_onto word (String.◌∷◌ c s) =
    let rest = split_onto (if is_space (code c) then "" else String.◌∷◌ c word) s in
    if is_space (code c) && not (is_empty word) then reverse_onto word "" ∷ rest else rest

unfoldable pub split : String → List String
unfolding split_onto
split s = split_onto "" s

-- sep.join(xs)
unfoldable pub join : String → List String → String
join sep [] = ""
join sep (x ∷ []) = x
join sep (x ∷ y ∷ xs) = x <+> sep <+> join sep (y ∷ xs)

-- len(s)
unfoldable pub count : String → ℕ
count String.[] = 0
count (String.◌∷◌ c s) = suc (count s)

abbrev pub is_digit : ℕ → Bool
is_digit c = leb b'0' c && leb c b'9'

abbrev digits : List String
digits = "0" ∷ "1" ∷ "2" ∷ "3" ∷ "4" ∷ "5" ∷ "6" ∷ "7" ∷ "8" ∷ "9" ∷ []

abbrev nth : ℕ → List String → String
nth n [] = ""
nth zero (x ∷ xs) = x
nth (suc n) (x ∷ xs) = nth n xs

abbrev pub digit : ℕ → String
digit n = nth n digits

unfoldable pub show_onto : ℕ → ℕ → String → String
show_onto zero n out = out
show_onto (suc f) n out =
    let rest = show_onto f (n / 10) (digit (n % 10) <+> out) in if n == 0 then out else rest

-- str(n): each round drops a decimal digit, so `n + 1` rounds are enough.
unfoldable pub show_ℕ : ℕ → String
unfolding show_onto
show_ℕ n = if n == 0 then "0" else show_onto (suc n) n ""

abbrev letters : List String
letters =
    "a" ∷ "b" ∷ "c" ∷ "d" ∷ "e" ∷ "f" ∷ "g" ∷ "h" ∷ "i" ∷ "j" ∷ "k" ∷ "l" ∷ "m" ∷ "n" ∷ "o" ∷ "p"
    ∷ "q" ∷ "r" ∷ "s" ∷ "t" ∷ "u" ∷ "v" ∷ "w" ∷ "x" ∷ "y" ∷ "z" ∷ []

-- s.lower()
unfoldable pub lower : String → String
lower String.[] = ""
lower (String.◌∷◌ c s) =
    (if leb b'A' (code c) && leb (code c) b'Z'
      then nth (code c - b'A') letters
      else String.◌∷◌ c "")
    <+> lower s
