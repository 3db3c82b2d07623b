-- ===== src/Cli/Installer/Wizard.antt =====
-- install.py: the prompts and `validate_url`. `urlparse` is a parameter; what is printed
-- is left out. An answer is what rich's `Prompt.ask` or `Confirm.ask` returns.
pub mod Accepted
use rubica_bot.Prelude.{
  ℕ, zero, suc, ◌+◌, String, Bool, true, false, not, ◌&&◌, ◌||◌, Option, none, some, List, [], ◌∷◌,
  str_eq, if◌then◌else◌,
}
use rubica_bot.Prelude.Lists.{length}
use rubica_bot.Prelude.Int.{ℤ, show_ℤ, parse_ℤ}
use rubica_bot.Prelude.Text.{is_empty, rstrip}
use rubica_bot.Result.{Result, ok, raise, Error, validation_error, value_error, eof_error}
use rubica_bot.Cli.EnvFile.{strip}
use rubica_bot.Cli.Machine.{Machine, Script, ◌>>=◌, next, return, lift}
use rubica_bot.Cli.Installer.{validate_owner_id, url_empty, url_invalid}

pub record Url : Type 0 where
  pub scheme : String
  pub netloc : String
  pub hostname : Option String

abbrev is_good : Url → Bool
is_good url = (str_eq url.scheme "http" || str_eq url.scheme "https") && not (is_empty url.netloc)

abbrev checked : String → Url → Result String
unfolding rstrip
checked value url =
    if is_good url then ok (rstrip b'/' value) else raise (validation_error url_invalid)

unfoldable pub validate_url : (String → Result Url) → Bool → String → Result String
unfolding checked
validate_url urlparse allow_empty value =
    if is_empty value
    then (if allow_empty then ok value else raise (validation_error url_empty))
    else elim (urlparse value) [ ok url ↦ checked value url | raise e ↦ raise e ]

-- The loop of `prompt_text`, over the answers.
unfoldable pub text_from : Option String → Bool → List String → Result String × List String
unfolding strip
text_from default required [] = (raise eof_error, [])
text_from default required (answer ∷ answers) =
    let again = text_from default required answers in
    if not (is_empty (strip answer)) then (ok (strip answer), answers) else elim default [
      | some d ↦ (ok d, answers)
      | none ↦ if not required then (ok "", answers) else again
    ]

unfoldable pub prompt_text : Option String → Bool → Script String
unfolding text_from
prompt_text default required m =
    let (r, answers') = text_from default required m.answers in (r, record m { answers = answers' })

abbrev pub is_none : Option String → Bool
is_none none = true
is_none (some s) = false

abbrev pub is_validation_error : Error → Bool
is_validation_error (validation_error text) = true
is_validation_error _ = false

-- What `prompt_validated` does with the validator's verdict.
abbrev pub judge : Script String → Machine → Result String → Result String × Machine
judge again m (ok v) = (ok v, m)
judge again m (raise e) = if is_validation_error e then again m else (raise e, m)

-- Each round takes an answer, so a round more than there are answers is enough.
unfoldable pub validated_within : ℕ → (String → Result String) → Option String → Script String
unfolding prompt_text
validated_within zero validator default m = (raise eof_error, m)
validated_within (suc rounds) validator default m =
    let again = validated_within rounds validator default in
    next (λ value m'. judge again m' (validator value)) (prompt_text default (is_none default) m)

unfoldable pub prompt_validated : (String → Result String) → Option String → Script String
unfolding validated_within
prompt_validated validator default m = validated_within (length m.answers + 1) validator default m

unfoldable pub prompt_bool : Script Bool
prompt_bool m = elim m.choices [
  | [] ↦ (raise eof_error, m)
  | (c ∷ cs) ↦ (ok c, record m { choices = cs })
]
