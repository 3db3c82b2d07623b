-- ===== src/Cli/EnvFile.antt =====
-- app/cli/rubikactl.py: `read_env`, on the text of a file that exists; a dict is its pairs in the order
-- of their first assignment.
pub mod RoundTrip
use Prim.Native.Char.{code}
use rubica_bot.Prelude.{
  ℕ, String, Bool, true, false, not, ◌&&◌, ◌||◌, Option, none, some, List, [], ◌∷◌, str_eq, leb,
  ◌==◌, if◌then◌else◌,
}
use rubica_bot.Prelude.Text.{is_empty, is_space, starts_with, contains, reverse_onto}

-- The characters at which `str.splitlines` breaks.
abbrev pub is_break : ℕ → Bool
is_break c = (leb 10 c && leb c 13) || (leb 28 c && leb c 30) || c == 133 || c == 8232 || c == 8233

abbrev pub onto_first : String → List String → List String
onto_first c [] = c ∷ []
onto_first String.[] (l ∷ ls) = l ∷ ls
onto_first (String.◌∷◌ c _) (l ∷ ls) = String.◌∷◌ c l ∷ ls

-- s.splitlines(), where the flag says that a carriage return precedes: it takes a newline with it.
unfoldable pub lines_of : Bool → String → List String
lines_of cr String.[] = []
lines_of cr (String.◌∷◌ c s) =
    let rest = lines_of (code c == 13) s in
    if cr && code c == 10
    then rest
    else if is_break (code c)
    then "" ∷ rest
    else onto_first (String.◌∷◌ c "") rest

unfoldable pub lstrip_spaces : String → String
lstrip_spaces String.[] = ""
lstrip_spaces (String.◌∷◌ c s) =
    let rest = lstrip_spaces s in if is_space (code c) then rest else String.◌∷◌ c s

-- s.strip()
unfoldable pub strip : String → String
unfolding lstrip_spaces reverse_onto
strip s = reverse_onto (lstrip_spaces (reverse_onto (lstrip_spaces s) "")) ""

-- line.split("=", 1), where there is one
unfoldable pub key_of : String → String
key_of String.[] = ""
key_of (String.◌∷◌ c s) = if code c == b'=' then "" else String.◌∷◌ c (key_of s)

unfoldable pub value_of : String → String
value_of String.[] = ""
value_of (String.◌∷◌ c s) = if code c == b'=' then s else value_of s

-- data[key] = value
unfoldable pub assign : String → String → List (String × String) → List (String × String)
assign key value [] = (key, value) ∷ []
assign key value ((k, v) ∷ pairs) =
    if str_eq k key then (k, value) ∷ pairs else (k, v) ∷ assign key value pairs

unfoldable pub read_lines : List String → List (String × String) → List (String × String)
unfolding strip key_of value_of assign starts_with contains
read_lines [] pairs = pairs
read_lines (line ∷ lines) pairs = read_lines lines (
    if is_empty line || starts_with line "#" || not (contains line "=")
    then pairs
    else assign (strip (key_of line)) (strip (value_of line)) pairs)

unfoldable pub read_env : String → List (String × String)
unfolding lines_of read_lines
read_env text = read_lines (lines_of false text) []

-- data.get(key)
unfoldable pub get_key : String → List (String × String) → Option String
get_key key [] = none
get_key key ((k, v) ∷ pairs) = if str_eq k key then some v else get_key key pairs
