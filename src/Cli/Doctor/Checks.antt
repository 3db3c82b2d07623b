-- ===== src/Cli/Doctor/Checks.antt =====
-- app/cli/rubikactl.py: `DoctorCheck` and `_render_doctor_tables`, which counts the failures and the
-- warnings section by section. The tables that it prints are left out.
pub mod Counted
use rubica_bot.Prelude.{
  ℕ, ◌+◌, String, Bool, true, false, Option, List, [], ◌∷◌, str_eq, if◌then◌else◌,
}
use rubica_bot.Prelude.Lists.{any}

pub data Status : Type 0 where
  fine warn fail : Status

pub record DoctorCheck : Type 0 where
  pub section : String
  pub status : Status
  pub label : String
  pub detail : String
  pub fix : Option String

-- What `_add_check` and `_add_warning` append.
abbrev pub check : String → Bool → String → String → Option String → List DoctorCheck
check section ok label detail fix =
    record {
      section = section;
      status = if ok then fine else fail;
      label = label;
      detail = detail;
      fix = fix;
    }
    ∷ []

abbrev pub warning : String → String → String → Option String → List DoctorCheck
warning section label detail fix =
    record { section = section; status = warn; label = label; detail = detail; fix = fix } ∷ []

abbrev pub is_fail : DoctorCheck → Bool
is_fail c = elim c.status [ fail ↦ true | _ ↦ false ]

abbrev pub is_warn : DoctorCheck → Bool
is_warn c = elim c.status [ warn ↦ true | _ ↦ false ]

-- dict.fromkeys(…), after the keys that were seen
unfoldable pub distinct : List String → List String → List String
unfolding any
distinct found [] = []
distinct found (x ∷ xs) =
    let known = any (str_eq x) found in
    let rest = distinct (x ∷ found) xs in if known then rest else x ∷ rest

unfoldable pub sections_of : List DoctorCheck → List String
sections_of [] = []
sections_of (c ∷ cs) = c.section ∷ sections_of cs

-- The inner loop, over the checks of a section.
unfoldable pub count_section : String → List DoctorCheck → ℕ × ℕ → ℕ × ℕ
count_section section [] (failures, warnings) = (failures, warnings)
count_section section (c ∷ cs) (failures, warnings) = count_section section cs (
    if str_eq c.section section
    then (
      if is_fail c then failures + 1 else failures,
      if is_warn c then warnings + 1 else warnings,
    )
    else (failures, warnings))

unfoldable pub count_sections : List String → List DoctorCheck → ℕ × ℕ → ℕ × ℕ
unfolding count_section
count_sections [] checks counts = counts
count_sections (s ∷ ss) checks counts = count_sections ss checks (count_section s checks counts)

unfoldable pub render_doctor_tables : List DoctorCheck → ℕ × ℕ
unfolding distinct sections_of count_sections
render_doctor_tables checks = count_sections (distinct [] (sections_of checks)) checks (0, 0)

-- The number of the checks with a property.
unfoldable pub number_of : (DoctorCheck → Bool) → List DoctorCheck → ℕ
number_of p [] = 0
number_of p (c ∷ cs) = (if p c then 1 else 0) + number_of p cs
