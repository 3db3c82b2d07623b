-- ===== src/Cli/Doctor/Checks/Counted.antt =====
-- What the tables of the doctor count.
use rubica_bot.Prelude.{
  ℕ, ◌+◌, ◌≡◌, refl, ap, ◌∙◌, String, Bool, true, ◌&&◌, List, [], ◌∷◌, str_eq, eq_iff, eq_refl,
  arith, if◌then◌else◌, inl, inr, Bool-cases,
}
use rubica_bot.Prelude.Lists.{any}
use rubica_bot.Cli.Doctor.Checks.{
  DoctorCheck, is_fail, is_warn, distinct, sections_of, count_section, count_sections,
  render_doctor_tables, number_of,
}

-- The number of the checks with a property in a section.
number_in : (DoctorCheck → Bool) → String → List DoctorCheck → ℕ
number_in p s [] = 0
number_in p s (c ∷ cs) = (if str_eq c.section s && p c then 1 else 0) + number_in p s cs

number_in_all : (DoctorCheck → Bool) → List String → List DoctorCheck → ℕ
unfolding number_in
number_in_all p [] cs = 0
number_in_all p (s ∷ ss) cs = number_in p s cs + number_in_all p ss cs

occurrences : String → List String → ℕ
occurrences x [] = 0
occurrences x (y ∷ ys) = (if str_eq x y then 1 else 0) + occurrences x ys

occurrences-distinct :
    (x : String) (found xs : List String)
    → occurrences x (distinct found xs)
      ≡ (if any (str_eq x) found then 0 else if any (str_eq x) xs then 1 else 0)
unfolding occurrences distinct any
occurrences-distinct x found [] = ground arith
occurrences-distinct x found (y ∷ ys) =
    ground (arith, eq_iff x y, occurrences-distinct x (y ∷ found) ys)

number_in_all-nil : (p : DoctorCheck → Bool) (ss : List String) → number_in_all p ss [] ≡ 0
unfolding number_in_all number_in
number_in_all-nil p [] = refl
number_in_all-nil p (s ∷ ss) = omega (arith, number_in_all-nil p ss)

number_in_all-cons :
    (p : DoctorCheck → Bool) (ss : List String) (c : DoctorCheck) (cs : List DoctorCheck)
    → number_in_all p ss (c ∷ cs)
      ≡ (if p c then occurrences c.section ss else 0) + number_in_all p ss cs
unfolding number_in_all number_in occurrences
number_in_all-cons p [] c cs = ground arith
number_in_all-cons p (s ∷ ss) c cs = ground (arith, number_in_all-cons p ss c cs)

-- Every section of the checks occurs once.
number_in_all-once :
    (p : DoctorCheck → Bool) (ss : List String) (cs : List DoctorCheck)
    → ((x : String) → any (str_eq x) (sections_of cs) ≡ true → occurrences x ss ≡ 1)
    → number_in_all p ss cs ≡ number_of p cs
unfolding number_of any sections_of
number_in_all-once p ss [] once = number_in_all-nil p ss
number_in_all-once p ss (c ∷ cs) once =
    let here = once c.section (ground (arith, eq_refl c.section)) in
    let rest = number_in_all-once p ss cs (λ x h. once x (ground (arith, h))) in
    number_in_all-cons p ss c cs ∙ ground (arith, here, rest)

count_section_lem :
    (s : String) (cs : List DoctorCheck) (f w : ℕ)
    → count_section s cs (f, w) ≡ (f + number_in is_fail s cs, w + number_in is_warn s cs)
unfolding count_section number_in
count_section_lem s [] f w = ground arith
count_section_lem s (c ∷ cs) f w = elim (Bool-cases (str_eq c.section s)) [
  | inl here ↦ rw here (
      count_section_lem s cs (if is_fail c then f + 1 else f) (if is_warn c then w + 1 else w)
      ∙ ground arith)
  | inr elsewhere ↦ rw elsewhere (count_section_lem s cs f w ∙ ground arith)
]

count_sections_lem :
    (ss : List String) (cs : List DoctorCheck) (f w : ℕ)
    → count_sections ss cs (f, w)
      ≡ (f + number_in_all is_fail ss cs, w + number_in_all is_warn ss cs)
unfolding count_sections number_in_all
count_sections_lem [] cs f w = ground arith
count_sections_lem (s ∷ ss) cs f w =
    ap (count_sections ss cs) (count_section_lem s cs f w)
    ∙ count_sections_lem ss cs (f + number_in is_fail s cs) (w + number_in is_warn s cs)
    ∙ ground arith

-- The tables count every failed check and every warning once, whatever sections they are in.
pub render_doctor_tables_lem :
    (checks : List DoctorCheck)
    → render_doctor_tables checks ≡ (number_of is_fail checks, number_of is_warn checks)
unfolding render_doctor_tables any
render_doctor_tables_lem checks =
    let sections = distinct [] (sections_of checks) in
    let once = λ (x : String) (h : any (str_eq x) (sections_of checks) ≡ true).
      occurrences-distinct x [] (sections_of checks) ∙ rw h refl in
    count_sections_lem sections checks 0 0
    ∙ ground (
      arith,
      number_in_all-once is_fail sections checks once,
      number_in_all-once is_warn sections checks once,
    )
