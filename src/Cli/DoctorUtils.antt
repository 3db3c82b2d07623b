-- ===== src/Cli/DoctorUtils.antt =====
-- app/cli/doctor_utils.py.
pub mod Masked
use rubica_bot.Prelude.{ℕ, zero, suc, ◌+◌, ◌-◌, ◌*◌, String, Bool, leb, ◌==◌, if◌then◌else◌}
use rubica_bot.Prelude.Text.{◌<+>◌, is_empty, count, starts_with}

-- s[:n] and s[n:]
unfoldable pub prefix : ℕ → String → String
prefix zero s = ""
prefix (suc n) String.[] = ""
prefix (suc n) (String.◌∷◌ c s) = String.◌∷◌ c (prefix n s)

unfoldable pub after : ℕ → String → String
after zero s = s
after (suc n) String.[] = ""
after (suc n) (String.◌∷◌ c s) = after n s

-- s[-n:], which is all of s for n = 0
unfoldable pub suffix : ℕ → String → String
unfolding after count
suffix n s = if n == 0 then s else after (count s - n) s

-- "*" * n
unfoldable pub stars : ℕ → String
stars zero = ""
stars (suc n) = "*" <+> stars n

unfoldable pub mask_secret : ℕ → String → String
unfolding prefix suffix stars count
mask_secret visible value =
    if is_empty value
    then ""
    else if leb (count value) (visible * 2)
    then stars (count value)
    else prefix visible value <+> "..." <+> suffix visible value

unfoldable pub parse_sqlite_path : String → String
unfolding starts_with after
parse_sqlite_path db_url = if starts_with db_url "sqlite:///" then after 10 db_url else db_url
