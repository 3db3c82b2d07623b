-- ===== src/Utils/Formatting.antt =====
-- app/utils/formatting.py, and the `:.2f` format of a quotient.
use rubica_bot.Prelude.{
  ℕ, ◌+◌, ◌*◌, ◌/◌, ◌%◌, ◌<◌, ◌≡◌, String, List, [], ◌∷◌, ◌++◌, ◌==◌, ltb, ◌||◌, ◌&&◌,
  if◌then◌else◌, arith,
}
use rubica_bot.Prelude.Text.{◌<+>◌, show_ℕ, join}

pub record Duration : Type 0 where
  pub days : ℕ
  pub hours : ℕ
  pub minutes : ℕ
  pub seconds : ℕ

-- The three `divmod`s.
unfoldable pub duration : ℕ → Duration
duration seconds =
    let remaining = seconds % 86400 in
    let rest = remaining % 3600 in
    record {
      days = seconds / 86400;
      hours = remaining / 3600;
      minutes = rest / 60;
      seconds = rest % 60;
    }

-- `if n: parts.append(f"{n}{unit}")`
abbrev part : ℕ → String → List String
part n unit = if n == 0 then [] else (show_ℕ n <+> unit) ∷ []

unfoldable pub format_duration : ℕ → String
unfolding duration join
format_duration seconds =
    let d = duration seconds in
    join " "
      (part d.days "d" ++ part d.hours "h" ++ part d.minutes "m" ++ (show_ℕ d.seconds <+> "s") ∷ [])

abbrev pad2 : ℕ → String
pad2 n = if ltb n 10 then "0" <+> show_ℕ n else show_ℕ n

-- The hundredths of num / den, rounded to the nearest, ties to even.
unfoldable pub hundredths : ℕ → ℕ → ℕ
hundredths num den =
    let q = num * 100 / den in
    let r = num * 100 % den in if ltb den (r + r) || (r + r == den && q % 2 == 1) then q + 1 else q

-- f"{x:.2f}"
unfoldable pub show_2f : ℕ × ℕ → String
unfolding hundredths
show_2f (num, den) = let h = hundredths num den in show_ℕ (h / 100) <+> "." <+> pad2 (h % 100)

-- The parts of a duration add up to its seconds, and hours, minutes and seconds are in range.
pub duration-sum :
    (n : ℕ)
    → ((duration n).days * 86400
          + (duration n).hours * 3600
          + (duration n).minutes * 60
          + (duration n).seconds
        ≡ n)
      × ((duration n).hours < 24)
      × ((duration n).minutes < 60)
      × ((duration n).seconds < 60)
unfolding duration
duration-sum n = (omega arith, omega arith, omega arith, omega arith)
