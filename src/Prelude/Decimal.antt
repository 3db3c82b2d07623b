-- ===== src/Prelude/Decimal.antt =====
-- `int(str(n))`.
use Prim.Native.Nat.{ℕ, zero, suc, ◌+◌, ◌*◌, ◌/◌, ◌%◌, ◌<◌}
use Prim.Native.Char.{code}
use Prim.Native.String.{String}
use mathlib.Core.Path.{◌≡◌, refl, ◌∙◌}
use mathlib.Core.Bool.{Bool, true, false}
use mathlib.Core.Option.{some}
use mathlib.Core.Logic.{inl, inr}
use native.Mathlib.Omega.{arith}
use rubica_bot.Prelude.Bools.{◌==◌, Bool-cases}
use rubica_bot.Prelude.Text.{◌<+>◌, is_digit, show_ℕ, show_onto, digit}
use rubica_bot.Prelude.Int.{pos, parse_ℤ, parse_digits, parse_ℕ, signed}

parse-digit :
    (d k : ℕ) (out : String)
    → d < 10
    → parse_digits k (digit d <+> out) ≡ parse_digits (k * 10 + d) out
unfolding parse_digits
parse-digit zero k out h = refl
parse-digit (suc zero) k out h = refl
parse-digit (suc (suc zero)) k out h = refl
parse-digit (suc (suc (suc zero))) k out h = refl
parse-digit (suc (suc (suc (suc zero)))) k out h = refl
parse-digit (suc (suc (suc (suc (suc zero))))) k out h = refl
parse-digit (suc (suc (suc (suc (suc (suc zero)))))) k out h = refl
parse-digit (suc (suc (suc (suc (suc (suc (suc zero))))))) k out h = refl
parse-digit (suc (suc (suc (suc (suc (suc (suc (suc zero)))))))) k out h = refl
parse-digit (suc (suc (suc (suc (suc (suc (suc (suc (suc zero))))))))) k out h = refl
parse-digit (suc (suc (suc (suc (suc (suc (suc (suc (suc (suc d)))))))))) k out h =
    absurd (omega arith)

parse-show_onto :
    (f n : ℕ) (out : String) → n < f → parse_digits 0 (show_onto f n out) ≡ parse_digits n out
unfolding show_onto
parse-show_onto zero n out h = elim h [ ]
parse-show_onto (suc f) n out h = elim (Bool-cases (n == 0)) [
  | inl e ↦ ground (arith, e)
  | inr e ↦ rw e (
      parse-show_onto f (n / 10) (digit (n % 10) <+> out) (ground (arith, e))
      ∙ parse-digit (n % 10) (n / 10) out (omega arith)
      ∙ (let same : n / 10 * 10 + n % 10 ≡ n = omega arith in rw same refl))
]

abbrev pub starts_digit : String → Bool
starts_digit String.[] = false
starts_digit (String.◌∷◌ c s) = is_digit (code c)

digit-starts : (d : ℕ) (out : String) → d < 10 → starts_digit (digit d <+> out) ≡ true
digit-starts zero out h = refl
digit-starts (suc zero) out h = refl
digit-starts (suc (suc zero)) out h = refl
digit-starts (suc (suc (suc zero))) out h = refl
digit-starts (suc (suc (suc (suc zero)))) out h = refl
digit-starts (suc (suc (suc (suc (suc zero))))) out h = refl
digit-starts (suc (suc (suc (suc (suc (suc zero)))))) out h = refl
digit-starts (suc (suc (suc (suc (suc (suc (suc zero))))))) out h = refl
digit-starts (suc (suc (suc (suc (suc (suc (suc (suc zero)))))))) out h = refl
digit-starts (suc (suc (suc (suc (suc (suc (suc (suc (suc zero))))))))) out h = refl
digit-starts (suc (suc (suc (suc (suc (suc (suc (suc (suc (suc d)))))))))) out h =
    absurd (omega arith)

show_onto-starts :
    (f n : ℕ) (out : String)
    → n < f
    → starts_digit out ≡ true
    → starts_digit (show_onto f n out) ≡ true
unfolding show_onto
show_onto-starts zero n out h d = elim h [ ]
show_onto-starts (suc f) n out h d = elim (Bool-cases (n == 0)) [
  | inl e ↦ rw e d
  | inr e ↦ rw e (
      show_onto-starts f (n / 10) (digit (n % 10) <+> out) (ground (arith, e))
        (digit-starts (n % 10) out (omega arith)))
]

pub show_ℕ-starts : (n : ℕ) → starts_digit (show_ℕ n) ≡ true
unfolding show_ℕ show_onto
show_ℕ-starts n = elim (Bool-cases (n == 0)) [
  | inl e ↦ rw e refl
  | inr e ↦ rw e (
      show_onto-starts n (n / 10) (digit (n % 10) <+> "") (ground (arith, e))
        (digit-starts (n % 10) "" (omega arith)))
]

parse-show_ℕ : (n : ℕ) → parse_digits 0 (show_ℕ n) ≡ some n
unfolding show_ℕ parse_digits
parse-show_ℕ n = elim (Bool-cases (n == 0)) [
  | inl e ↦ (let none_left : n ≡ 0 = ground (arith, e) in rw none_left refl)
  | inr e ↦ rw e (
      parse-show_onto n (n / 10) (digit (n % 10) <+> "") (ground (arith, e))
      ∙ parse-digit (n % 10) (n / 10) "" (omega arith)
      ∙ (let same : n / 10 * 10 + n % 10 ≡ n = omega arith in rw same refl))
]

parse_ℤ-digits :
    (s : String) (n : ℕ)
    → starts_digit s ≡ true
    → parse_digits 0 s ≡ some n
    → parse_ℤ s ≡ some (pos n)
unfolding parse_ℤ parse_ℕ signed
parse_ℤ-digits String.[] n d h = cc
parse_ℤ-digits (String.◌∷◌ c s) n d h =
    let no_minus : (code c == b'-') ≡ false = ground (arith, d) in
    let no_plus : (code c == b'+') ≡ false = ground (arith, d) in rw (no_minus, no_plus, h) refl

pub parse_ℤ-show_ℕ : (n : ℕ) → parse_ℤ (show_ℕ n) ≡ some (pos n)
parse_ℤ-show_ℕ n = parse_ℤ-digits (show_ℕ n) n (show_ℕ-starts n) (parse-show_ℕ n)
