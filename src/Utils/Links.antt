-- ===== src/Utils/Links.antt =====
-- app/utils/regex.py: `LINK_PATTERN` as a regular expression with a matcher, and `contains_link`. Case
-- is ignored for ASCII letters. Of the characters beyond ASCII `is_word` tells which `\w` matches.
pub mod Found
use Prim.Native.Char.{code}
use rubica_bot.Prelude.{
  ℕ, zero, suc, ◌+◌, String, Bool, true, false, not, ◌&&◌, ◌||◌, Option, none, some, List, [], ◌∷◌,
  ◌++◌, leb, ltb, ◌==◌, if◌then◌else◌,
}
use rubica_bot.Prelude.Text.{is_space, is_empty, is_digit, count, lower}

pub data Regex : Type 0 where
  one : (ℕ → Bool) → Regex
  empty : Regex
  boundary : Regex
  sequence : Regex → Regex → Regex
  choice : Regex → Regex → Regex
  repeat : Regex → Regex

-- The character before the position, and the text after it.
abbrev pub Position : Type 0
Position = Option ℕ × String

-- The lower case of an ASCII letter's code.
abbrev lower_code : ℕ → ℕ
lower_code c = if leb b'A' c && leb c b'Z' then c + 32 else c

unfoldable pub literal : String → Regex
literal String.[] = empty
literal (String.◌∷◌ c s) = sequence (one (λ d. lower_code d == code c)) (literal s)

abbrev pub either : List Regex → Regex
either [] = one (λ c. false)
either (r ∷ []) = r
either (r ∷ s ∷ l) = choice r (either (s ∷ l))

abbrev pub plus : Regex → Regex
plus r = sequence r (repeat r)

abbrev pub optional : Regex → Regex
optional r = choice r empty

module _ (is_word : ℕ → Bool) where
  abbrev word_char : ℕ → Bool
  word_char c =
      if ltb c 128
      then is_digit c || (leb b'a' (lower_code c) && leb (lower_code c) b'z') || c == b'_'
      else is_word c

  abbrev before_is_word : Option ℕ → Bool
  before_is_word none = false
  before_is_word (some c) = word_char c

  abbrev after_is_word : String → Bool
  after_is_word String.[] = false
  after_is_word (String.◌∷◌ c s) = word_char (code c)

  abbrev differ : Bool → Bool → Bool
  differ true b = not b
  differ false b = b

  abbrev pub step : (ℕ → Bool) → Position → List Position
  step p (before, String.[]) = []
  step p (before, String.◌∷◌ c s) = if p (code c) then (some (code c), s) ∷ [] else []

  -- Every position that a list's positions lead to.
  unfoldable pub from_each : (Position → List Position) → List Position → List Position
  from_each f [] = []
  from_each f (p ∷ l) = f p ++ from_each f l

  -- Any number of rounds that each match a character at least: `fuel` is the length of the text, so
  -- it is enough for all of them.
  unfoldable pub rounds : (Position → List Position) → ℕ → Position → List Position
  unfolding from_each
  rounds f zero p = p ∷ []
  rounds f (suc fuel) p = p ∷ from_each (rounds f fuel) (f p)

  -- The positions after a match that begins at the given position.
  unfoldable pub matches : Regex → Position → List Position
  unfolding from_each rounds
  matches (one p) at' = step p at'
  matches empty at' = at' ∷ []
  matches boundary (before, s) =
      if differ (before_is_word before) (after_is_word s) then (before, s) ∷ [] else []
  matches (sequence r t) at' = from_each (matches t) (matches r at')
  matches (choice r t) at' = matches r at' ++ matches t at'
  matches (repeat r) (before, s) = rounds (matches r) (count s) (before, s)

  abbrev pub is_some : List Position → Bool
  is_some [] = false
  is_some (p ∷ l) = true

  -- pattern.search(s), as a truth value, where `before` precedes `s`
  unfoldable pub search : Regex → Option ℕ → String → Bool
  unfolding matches
  search r before String.[] = is_some (matches r (before, ""))
  search r before (String.◌∷◌ c s) =
      is_some (matches r (before, String.◌∷◌ c s)) || search r (some (code c)) s

-- \S
abbrev pub visible : Regex
visible = one (λ c. not (is_space c))

abbrev pub schemes : Regex
schemes =
    sequence
      (choice (sequence (literal "http") (sequence (optional (literal "s")) (literal "://")))
        (literal "www."))
      (plus visible)

abbrev hosts : Regex
hosts =
    sequence
      (either (
        literal "t.me"
        ∷ literal "telegram.me"
        ∷ literal "rubika.ir"
        ∷ literal "rubika.com"
        ∷ literal "rbx.ir"
        ∷ literal "rbx.im"
        ∷ literal "s.rubika.ir"
        ∷ []))
      (sequence (literal "/") (plus visible))

abbrev shorteners : Regex
shorteners = sequence boundary (
    sequence
      (either (
        literal "bit.ly"
        ∷ literal "t.co"
        ∷ literal "goo.gl"
        ∷ literal "is.gd"
        ∷ literal "tinyurl.com"
        ∷ literal "ow.ly"
        ∷ literal "cutt.ly"
        ∷ literal "rebrand.ly"
        ∷ literal "s.id"
        ∷ []))
      (sequence boundary (sequence (literal "/") (repeat visible))))

-- [a-z0-9-]
abbrev host_char : Regex
host_char =
    one (λ c. is_digit c || (leb b'a' (lower_code c) && leb (lower_code c) b'z') || c == b'-')

abbrev domains : Regex
domains = sequence boundary (
    sequence (plus (sequence (plus host_char) (literal "."))) (
      sequence
        (either (
          literal "ir"
          ∷ literal "com"
          ∷ literal "net"
          ∷ literal "org"
          ∷ literal "io"
          ∷ literal "me"
          ∷ literal "co"
          ∷ literal "app"
          ∷ literal "dev"
          ∷ literal "xyz"
          ∷ literal "info"
          ∷ literal "site"
          ∷ literal "biz"
          ∷ literal "tv"
          ∷ literal "online"
          ∷ literal "link"
          ∷ literal "shop"
          ∷ []))
        (sequence boundary (optional (sequence (literal "/") (repeat visible))))))

abbrev pub link_pattern : Regex
unfolding literal
link_pattern = choice schemes (choice hosts (choice shorteners domains))

unfoldable pub contains_link : (ℕ → Bool) → String → Bool
unfolding search literal
contains_link is_word text = if is_empty text then false else search is_word link_pattern none text
