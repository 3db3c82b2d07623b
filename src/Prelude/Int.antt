-- ===== src/Prelude/Int.antt =====
-- Python's integers; `negsuc n` is -(n + 1).
use Prim.Native.Nat.{ℕ, zero, suc, ◌+◌, ◌*◌, ◌-◌}
use Prim.Native.Char.{code}
use Prim.Native.String.{String}
use mathlib.Core.Bool.{Bool, true, false}
use mathlib.Core.Option.{Option, none, some}
use rubica_bot.Prelude.Bools.{◌==◌, if◌then◌else◌}
use rubica_bot.Prelude.Text.{◌<+>◌, is_digit, show_ℕ}

pub data ℤ : Type 0 where
  pos : ℕ → ℤ
  negsuc : ℕ → ℤ

-- bool(n)
abbrev pub nonzero : ℤ → Bool
nonzero (pos zero) = false
nonzero (pos (suc n)) = true
nonzero (negsuc n) = true

unfoldable pub negate : ℕ → ℤ
negate zero = pos 0
negate (suc n) = negsuc n

-- str(n)
unfoldable pub show_ℤ : ℤ → String
unfolding show_ℕ
show_ℤ (pos n) = show_ℕ n
show_ℤ (negsuc n) = "-" <+> show_ℕ (suc n)

-- max(0, n)
abbrev pub clamp_below : ℤ → ℕ
clamp_below (pos n) = n
clamp_below (negsuc n) = 0

unfoldable pub parse_digits : ℕ → String → Option ℕ
parse_digits n String.[] = some n
parse_digits n (String.◌∷◌ c s) =
    let rest = parse_digits (n * 10 + (code c - b'0')) s in if is_digit (code c) then rest else none

unfoldable pub parse_ℕ : String → Option ℕ
unfolding parse_digits
parse_ℕ String.[] = none
parse_ℕ (String.◌∷◌ c s) = parse_digits 0 (String.◌∷◌ c s)

unfoldable pub signed : (ℕ → ℤ) → Option ℕ → Option ℤ
signed sign none = none
signed sign (some n) = some (sign n)

-- int(s) on an argument of a command: an optional sign and ASCII digits. `none` stands for the
-- `ValueError`. The underscores that `int` takes between digits are not read.
unfoldable pub parse_ℤ : String → Option ℤ
unfolding parse_ℕ signed negate
parse_ℤ String.[] = none
parse_ℤ (String.◌∷◌ c s) =
    if code c == b'-'
    then signed negate (parse_ℕ s)
    else if code c == b'+'
    then signed pos (parse_ℕ s)
    else signed pos (parse_ℕ (String.◌∷◌ c s))
