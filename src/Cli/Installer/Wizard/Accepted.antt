-- ===== src/Cli/Installer/Wizard/Accepted.antt =====
-- What the prompts and `collect_inputs` of install.py return was accepted.
use rubica_bot.Prelude.{
  ℕ, zero, suc, ◌+◌, ◌<◌, ◌≡◌, refl, ap, ◌∙◌, String, Bool, true, false, Option, none, some, List,
  [], ◌∷◌, arith, inl, inr, Bool-cases,
}
use rubica_bot.Prelude.Lists.{length}
use rubica_bot.Prelude.Text.{is_empty}
use rubica_bot.Result.{Result, ok, raise, IfOk, Result-cases}
use rubica_bot.Cli.EnvFile.{strip}
use rubica_bot.Cli.Machine.{Machine, Script, next, return}
use rubica_bot.Cli.Machine.Keeps.{next-Gives, next-Gives_any}
use rubica_bot.Cli.Installer.{validate_owner_id}
use rubica_bot.Cli.Installer.Wizard.{
  Url, judge, is_validation_error, text_from, prompt_text, is_none, validated_within,
  prompt_validated, validate_url,
}
use rubica_bot.Cli.Installer.Inputs.{
  Args, Inputs, with_default, ask_texts, ask_choices, inputs_of, given_or, collect_given,
  collect_asked, collect_inputs, text_or, or_text, get_or,
}

-- A text that is returned has taken at least one answer.
text_from_takes :
    (default : Option String) (required : Bool) (answers : List String) (v : String)
    (rest : List String)
    → text_from default required answers ≡ (ok v, rest)
    → length rest < length answers
unfolding text_from
text_from_takes default required [] v rest h = cc
text_from_takes default required (a ∷ answers) v rest h =
    ground (arith, h, text_from_takes default required answers v rest)

-- A text that must be given is not empty.
text_from_given :
    (answers : List String) → IfOk (λ v. is_empty v ≡ false) (text_from none true answers).0
unfolding text_from
text_from_given [] = tt
text_from_given (a ∷ answers) = elim (Bool-cases (is_empty (strip a))) [
  | inl blank ↦ rw blank (text_from_given answers)
  | inr word ↦ rw word word
]

judge-congr :
    (s t : Script String) (m : Machine) (r : Result String) → s m ≡ t m → judge s m r ≡ judge t m r
judge-congr s t m (ok v) h = refl
judge-congr s t m (raise e) h = ground (arith, h)

module _ (validator : String → Result String) (default : Option String) where
  -- A round is the same with loops that are the same on fewer answers.
  round-congr :
      (s t : Script String) (m : Machine) (r : Result String) (rest : List String)
      → text_from default (is_none default) m.answers ≡ (r, rest)
      → (length rest < length m.answers
          → s (record m { answers = rest }) ≡ t (record m { answers = rest }))
      → next (λ value m'. judge s m' (validator value)) (r, record m { answers = rest })
        ≡ next (λ value m'. judge t m' (validator value)) (r, record m { answers = rest })
  round-congr s t m (ok v) rest e same =
      judge-congr s t (record m { answers = rest }) (validator v)
        (same (text_from_takes default (is_none default) m.answers v rest e))
  round-congr s t m (raise error) rest e same = refl

  -- More rounds than there are answers change nothing.
  validated_within_enough :
      (a b : ℕ) (m : Machine)
      → length m.answers < a
      → length m.answers < b
      → validated_within a validator default m ≡ validated_within b validator default m
  unfolding validated_within prompt_text
  validated_within_enough zero b m h k = elim h [ ]
  validated_within_enough (suc a) zero m h k = elim k [ ]
  validated_within_enough (suc a) (suc b) m h k =
      let asked = text_from default (is_none default) m.answers in
      round-congr (validated_within a validator default) (validated_within b validator default) m
        asked.0 asked.1 refl
        (λ fewer.
          validated_within_enough a b (record m { answers = asked.1 }) (omega arith) (omega arith))

  -- `prompt_validated` asks, returns what the validator accepts of the answer, passes an error on, and
  -- starts again if the error is a ValidationError, however many answers there are.
  pub prompt_validated_lem :
      (m : Machine)
      → prompt_validated validator default m
        ≡ next
            (λ value m'. judge (prompt_validated validator default) m' (validator value))
            (prompt_text default (is_none default) m)
  unfolding prompt_validated validated_within prompt_text
  prompt_validated_lem m =
      let asked = text_from default (is_none default) m.answers in
      let e : length m.answers + 1 ≡ suc (length m.answers) = omega arith in
      ap (λ rounds. validated_within rounds validator default m) e
      ∙ round-congr (validated_within (length m.answers) validator default)
          (prompt_validated validator default) m asked.0 asked.1 refl
          (λ fewer.
            validated_within_enough (length m.answers) (length asked.1 + 1)
              (record m { answers = asked.1 }) (omega arith) (omega arith))

  -- What the validator accepts of an answer.
  abbrev pub Accepted : String → Type 0
  Accepted v = (value : String) × (validator value ≡ ok v)

  judge-Accepted :
      (s : Script String) (m : Machine) (value : String) (r : Result String)
      → validator value ≡ r
      → IfOk Accepted (s m).0
      → IfOk Accepted (judge s m r).0
  judge-Accepted s m value (ok v) h k = (value, h)
  judge-Accepted s m value (raise e) h k = elim (Bool-cases (is_validation_error e)) [
    | inl again ↦ rw again k
    | inr final ↦ rw final tt
  ]

  validated_within-Accepted :
      (rounds : ℕ) (m : Machine) → IfOk Accepted (validated_within rounds validator default m).0
  unfolding validated_within
  validated_within-Accepted zero m = tt
  validated_within-Accepted (suc rounds) m =
      next-Gives_any Accepted
        (λ value m'. judge (validated_within rounds validator default) m' (validator value))
        (prompt_text default (is_none default) m)
        (λ value m'.
          judge-Accepted (validated_within rounds validator default) m' value (validator value) refl
            (validated_within-Accepted rounds m'))

  prompt_validated-Accepted : (m : Machine) → IfOk Accepted (prompt_validated validator default m).0
  unfolding prompt_validated
  prompt_validated-Accepted m = validated_within-Accepted (length m.answers + 1) m

validate_owner_id-given : (v w : String) → validate_owner_id v ≡ ok w → is_empty w ≡ false
unfolding validate_owner_id
validate_owner_id-given v w h = elim (Bool-cases (is_empty v)) [
  | inl nothing ↦ ground (arith, h, nothing)
  | inr something ↦ ground (arith, h, something)
]

abbrev Given : String → Type 0
Given v = is_empty v ≡ false

given_or-Given :
    (a : Option String) (s : Script String) (m : Machine)
    → ((m' : Machine) → IfOk Given (s m').0)
    → IfOk Given (given_or a s m).0
given_or-Given none s m h = h m
given_or-Given (some a) s m h = elim (Bool-cases (is_empty a)) [
  | inl blank ↦ rw blank (h m)
  | inr word ↦ rw word word
]

IfOk-Given : (r : Result String) → IfOk (Accepted validate_owner_id none) r → IfOk Given r
IfOk-Given (ok v) (value, h) = validate_owner_id-given value v h
IfOk-Given (raise e) h = tt

module _ (urlparse : String → Result Url) (environ : String → Option String) (args : Args) where
  -- What the installation needs of its inputs.
  abbrev pub IsUsable : Inputs → Type 0
  IsUsable d =
      (is_empty d.token ≡ false)
      × (is_empty d.owner_id ≡ false)
      × ((value : String) × (validate_url urlparse true value ≡ ok d.webhook_base_url))

  collect_given-IsUsable : IfOk IsUsable (collect_given urlparse environ args)
  unfolding collect_given
  collect_given-IsUsable =
      let token = text_or args.token (get_or (environ "RUBIKA_BOT_TOKEN") "") in
      let owner = text_or args.owner_id (get_or (environ "RUBIKA_OWNER_ID") "") in
      let base = or_text args.webhook_base_url (get_or (environ "RUBIKA_WEBHOOK_BASE_URL") "") in
      elim (Bool-cases (is_empty token)) [
        | inl h ↦ rw h tt
        | inr t ↦ elim (Bool-cases (is_empty owner)) [
          | inl h ↦ rw (t, h) tt
          | inr o ↦ elim (Result-cases (validate_url urlparse true base)) [
            | inl (url, valid) ↦ rw (t, o, valid) (t, o, (base, valid))
            | inr (e, invalid) ↦ rw (t, o, invalid) tt
          ]
        ]
      ]

  collect_asked-IsUsable : (m : Machine) → IfOk IsUsable (collect_asked urlparse environ args m).0
  unfolding collect_asked
  collect_asked-IsUsable m =
      next-Gives IsUsable Given _ (given_or args.token (prompt_text none true) m)
        (given_or-Given args.token (prompt_text none true) m (λ m'. text_from_given m'.answers))
        (λ token m1 t.
          next-Gives IsUsable Given _
            (given_or args.owner_id (prompt_validated validate_owner_id none) m1)
            (given_or-Given args.owner_id (prompt_validated validate_owner_id none) m1 (λ m'.
              IfOk-Given (prompt_validated validate_owner_id none m').0
                (prompt_validated-Accepted validate_owner_id none m')))
            (λ owner m2 o.
              next-Gives_any IsUsable {B = String} _ (with_default args.api_base_url m2) (λ api m3.
                next-Gives IsUsable
                  (Accepted (validate_url urlparse true) (some args.webhook_base_url)) _
                  (prompt_validated (validate_url urlparse true) (some args.webhook_base_url) m3)
                  (prompt_validated-Accepted (validate_url urlparse true)
                    (some args.webhook_base_url) m3)
                  (λ url m4 u.
                    next-Gives_any IsUsable
                      (λ texts m'.
                        next (λ choices. return (inputs_of token owner api url texts choices))
                          (ask_choices m'))
                      (ask_texts args m4)
                      (λ texts m5.
                        next-Gives_any IsUsable
                          (λ choices. return (inputs_of token owner api url texts choices))
                          (ask_choices m5) (λ choices m6. (t, o, u)))))))

  -- What `collect_inputs` returns, in both modes, has a token and an owner, and its webhook address
  -- is one that `validate_url` made of some text, which may be empty.
  pub collect_inputs-IsUsable :
      (m : Machine) → IfOk IsUsable (collect_inputs urlparse environ args m).0
  unfolding collect_inputs
  collect_inputs-IsUsable m = elim (Bool-cases args.non_interactive) [
    | inl given ↦ rw given collect_given-IsUsable
    | inr asked ↦ rw asked (collect_asked-IsUsable m)
  ]
