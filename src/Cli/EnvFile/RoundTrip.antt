-- ===== src/Cli/EnvFile/RoundTrip.antt =====
-- What `render_env` writes is what `read_env` reads.
use Prim.Native.Char.{code}
use mathlib.Core.Path.{subst}
use mathlib.Core.List.{append-nil}
use rubica_bot.Prelude.{
  ◌≡◌, refl, ap, sym, ◌∙◌, String, Bool, true, false, not, ◌&&◌, List, [], ◌∷◌, ◌++◌, str_eq,
  eq_iff, ◌==◌, arith, if◌then◌else◌, Bool-cases, inl, inr,
}
use rubica_bot.Prelude.Lists.{all}
use rubica_bot.Prelude.Text.{◌<+>◌, is_empty, join, starts_with, contains}
use rubica_bot.Cli.Installer.{env_lines, render_env, optional_line}
use rubica_bot.Cli.EnvFile.{
  is_break, onto_first, lines_of, strip, key_of, value_of, assign, read_lines, read_env,
}

-- The text is one line.
unfoldable pub is_line : String → Bool
is_line String.[] = true
is_line (String.◌∷◌ c s) = not (is_break (code c)) && is_line s

lines_of-line :
    (l rest : String)
    → is_line l ≡ true
    → lines_of false (l <+> "\n" <+> rest) ≡ l ∷ lines_of false rest
unfolding lines_of is_line
lines_of-line String.[] rest h = refl
lines_of-line (String.◌∷◌ c l) rest h =
    let no_break : is_break (code c) ≡ false = ground (arith, h) in
    let same_line : is_line l ≡ true = ground (arith, h) in
    let no_return : (code c == 13) ≡ false = ground (arith, no_break) in
    rw no_break (rw no_return (ap (onto_first (String.◌∷◌ c "")) (lines_of-line l rest same_line)))

unlines : List String → String
unlines [] = ""
unlines (l ∷ ls) = l <+> "\n" <+> unlines ls

lines_of-unlines : (ls : List String) → all is_line ls ≡ true → lines_of false (unlines ls) ≡ ls
unfolding all unlines lines_of
lines_of-unlines [] h = refl
lines_of-unlines (l ∷ ls) h =
    lines_of-line l (unlines ls) (ground (arith, h))
    ∙ ap (◌∷◌ l) (lines_of-unlines ls (ground (arith, h)))

append_assoc : (a b c : String) → (a <+> b) <+> c ≡ a <+> b <+> c
append_assoc String.[] b c = refl
append_assoc (String.◌∷◌ x a) b c = ap (String.◌∷◌ x) (append_assoc a b c)

join-unlines : (l : String) (ls : List String) → join "\n" (l ∷ ls) <+> "\n" ≡ unlines (l ∷ ls)
unfolding join unlines
join-unlines l [] = refl
join-unlines l (m ∷ ls) =
    append_assoc l ("\n" <+> join "\n" (m ∷ ls)) "\n"
    ∙ ap (λ t. l <+> "\n" <+> t) (join-unlines m ls)

-- One line without white space around it.
abbrev pub is_plain : String → Bool
is_plain v = is_line v && str_eq (strip v) v

plain-line : (v : String) → is_plain v ≡ true → is_line v ≡ true
plain-line v h = ground (arith, h)

plain-strip : (v : String) → is_plain v ≡ true → strip v ≡ v
plain-strip v h = ground (arith, h, eq_iff (strip v) v)

-- The pairs that `render_env` writes.
abbrev pub written : String → String → List (String × String)
written key value = if is_empty value then [] else (key, value) ∷ []

abbrev pub env_pairs : String → String → String → String → String → List (String × String)
env_pairs token api base secret owner =
    ("RUBIKA_BOT_TOKEN", token) ∷ ("RUBIKA_API_BASE_URL", api) ∷ written "RUBIKA_OWNER_ID" owner
    ++ (written "RUBIKA_WEBHOOK_BASE_URL" base ++ written "RUBIKA_WEBHOOK_SECRET" secret)

is_line-append : (a b : String) → is_line a ≡ true → is_line b ≡ true → is_line (a <+> b) ≡ true
unfolding is_line
is_line-append String.[] b h k = k
is_line-append (String.◌∷◌ c a) b h k = ground (arith, h, is_line-append a b (ground (arith, h)) k)

all-optional_line :
    (key v : String) (rest : List String)
    → is_line key ≡ true
    → is_line v ≡ true
    → all is_line rest ≡ true
    → all is_line (optional_line key v ++ rest) ≡ true
unfolding all
all-optional_line key v rest h k r = elim (Bool-cases (is_empty v)) [
  | inl no_value ↦ rw no_value r
  | inr value ↦
      rw value
        (rw (is_line-append key ("=" <+> v) h (is_line-append "=" v (unfold is_line in refl) k)) r)
]

-- A key is a line without white space around it and without `=`, and no comment.
unfoldable no_equals : String → Bool
no_equals String.[] = true
no_equals (String.◌∷◌ c s) = not (code c == b'=') && no_equals s

key_of-append : (a v : String) → no_equals a ≡ true → key_of (a <+> "=" <+> v) ≡ a
unfolding key_of no_equals
key_of-append String.[] v h = refl
key_of-append (String.◌∷◌ c a) v h = ground (arith, h, key_of-append a v (ground (arith, h)))

value_of-append : (a v : String) → no_equals a ≡ true → value_of (a <+> "=" <+> v) ≡ v
unfolding value_of no_equals
value_of-append String.[] v h = refl
value_of-append (String.◌∷◌ c a) v h = ground (arith, h, value_of-append a v (ground (arith, h)))

contains-equals : (a v : String) → contains (a <+> "=" <+> v) "=" ≡ true
unfolding contains starts_with
contains-equals String.[] v = refl
contains-equals (String.◌∷◌ c a) v = ground (arith, contains-equals a v)

-- The letter `R`, with which every key of the file begins, is no comment.
read_line :
    (k v : String) (rest : List String) (pairs : List (String × String))
    → no_equals ("R" <+> k) ≡ true
    → is_plain ("R" <+> k) ≡ true
    → is_plain v ≡ true
    → read_lines (("R" <+> k <+> "=" <+> v) ∷ rest) pairs
      ≡ read_lines rest (assign ("R" <+> k) v pairs)
unfolding read_lines starts_with
read_line k v rest pairs n p q =
    let key = "R" <+> k in
    rw (contains-equals key v) (
      ap (λ x. read_lines rest (assign (strip x) (strip (value_of (key <+> "=" <+> v))) pairs))
        (key_of-append key v n)
      ∙ ap (λ x. read_lines rest (assign x (strip (value_of (key <+> "=" <+> v))) pairs))
          (plain-strip key p)
      ∙ ap (λ x. read_lines rest (assign key (strip x) pairs)) (value_of-append key v n)
      ∙ ap (λ x. read_lines rest (assign key x pairs)) (plain-strip v q))

abbrev assigned : String → String → List (String × String) → List (String × String)
assigned key v pairs = if is_empty v then pairs else assign key v pairs

read_optional :
    (k v : String) (rest : List String) (pairs : List (String × String))
    → no_equals ("R" <+> k) ≡ true
    → is_plain ("R" <+> k) ≡ true
    → is_plain v ≡ true
    → read_lines (optional_line ("R" <+> k) v ++ rest) pairs
      ≡ read_lines rest (assigned ("R" <+> k) v pairs)
read_optional k v rest pairs n p q = elim (Bool-cases (is_empty v)) [
  | inl no_value ↦ rw no_value refl
  | inr value ↦ rw value (read_line k v rest pairs n p q)
]

module _ (token api base secret owner : String) (token_plain : is_plain token ≡ true)
    (api_plain : is_plain api ≡ true) (base_plain : is_plain base ≡ true)
    (secret_plain : is_plain secret ≡ true) (owner_plain : is_plain owner ≡ true) where
  abbrev tail2 : List String
  tail2 =
      optional_line "RUBIKA_WEBHOOK_BASE_URL" base ++ optional_line "RUBIKA_WEBHOOK_SECRET" secret

  abbrev pairs2 : List (String × String)
  pairs2 = ("RUBIKA_BOT_TOKEN", token) ∷ ("RUBIKA_API_BASE_URL", api) ∷ []

  abbrev pairs3 : List (String × String)
  pairs3 = assigned "RUBIKA_OWNER_ID" owner pairs2

  abbrev pairs4 : List (String × String)
  pairs4 = assigned "RUBIKA_WEBHOOK_BASE_URL" base pairs3

  all-env_lines : all is_line (env_lines token api base secret owner) ≡ true
  unfolding env_lines all is_line
  all-env_lines =
      rw (plain-line token token_plain, plain-line api api_plain)
        (all-optional_line "RUBIKA_OWNER_ID" owner tail2 refl (plain-line owner owner_plain) (
          all-optional_line "RUBIKA_WEBHOOK_BASE_URL" base
            (optional_line "RUBIKA_WEBHOOK_SECRET" secret) refl (plain-line base base_plain)
            (subst (λ l. all is_line l ≡ true)
              (append-nil (optional_line "RUBIKA_WEBHOOK_SECRET" secret))
              (all-optional_line "RUBIKA_WEBHOOK_SECRET" secret [] refl
                (plain-line secret secret_plain) refl))))

  assigned_all :
      (e : List (String × String))
      → e
        ≡ assigned "RUBIKA_WEBHOOK_SECRET" secret (
            assigned "RUBIKA_WEBHOOK_BASE_URL" base (
              assigned "RUBIKA_OWNER_ID" owner
                (("RUBIKA_BOT_TOKEN", token) ∷ ("RUBIKA_API_BASE_URL", api) ∷ [])))
      → e ≡ env_pairs token api base secret owner
  unfolding assign
  assigned_all e h = h ∙ ground arith

  read_lines-env_lines :
      read_lines (env_lines token api base secret owner) [] ≡ env_pairs token api base secret owner
  unfolding env_lines is_line no_equals strip assign
  read_lines-env_lines =
      read_line "UBIKA_BOT_TOKEN" token
        (("RUBIKA_API_BASE_URL=" <+> api) ∷ optional_line "RUBIKA_OWNER_ID" owner ++ tail2) [] refl
        refl token_plain
      ∙ read_line "UBIKA_API_BASE_URL" api (optional_line "RUBIKA_OWNER_ID" owner ++ tail2)
          (("RUBIKA_BOT_TOKEN", token) ∷ []) refl refl api_plain
      ∙ read_optional "UBIKA_OWNER_ID" owner tail2 pairs2 refl refl owner_plain
      ∙ read_optional "UBIKA_WEBHOOK_BASE_URL" base (optional_line "RUBIKA_WEBHOOK_SECRET" secret)
          pairs3 refl refl base_plain
      ∙ ap (λ l. read_lines l pairs4)
          (sym (append-nil (optional_line "RUBIKA_WEBHOOK_SECRET" secret)))
      ∙ read_optional "UBIKA_WEBHOOK_SECRET" secret [] pairs4 refl refl secret_plain
      ∙ assigned_all (read_lines [] (assigned "RUBIKA_WEBHOOK_SECRET" secret pairs4))
          (unfold read_lines in refl)

  -- `read_env` reads from the text that `render_env` writes exactly the keys that have a value, with
  -- their values, if each value is one line without white space around it.
  pub read_env-render_env :
      read_env (render_env token api base secret owner) ≡ env_pairs token api base secret owner
  unfolding read_env render_env env_lines
  read_env-render_env =
      ap (λ t. read_lines (lines_of false t) []) (join-unlines ("RUBIKA_BOT_TOKEN=" <+> token) _)
      ∙ ap (λ l. read_lines l [])
          (lines_of-unlines (env_lines token api base secret owner) all-env_lines)
      ∙ read_lines-env_lines
