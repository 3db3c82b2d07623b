-- ===== src/Utils/Security.antt =====
-- app/utils/security.py. `hmac` and `hashlib` are the argument `hexdigest`: the HMAC-SHA256 of a body
-- under a secret, in hexadecimal.
use rubica_bot.Prelude.{
  String, Bool, true, ◌&&◌, ◌||◌, Option, none, some, str_eq, ltb, if◌then◌else◌,
}
use Prim.Native.Char.{code}
use rubica_bot.Prelude.Text.{is_empty}
use rubica_bot.Result.{Result, ok, raise, type_error}

-- `not x`, for a text that may be missing
abbrev pub missing : Option String → Bool
missing none = true
missing (some s) = is_empty s

unfoldable pub is_ascii : String → Bool
is_ascii String.[] = true
is_ascii (String.◌∷◌ c s) = ltb (code c) 128 && is_ascii s

-- hmac.compare_digest(a, b) on texts raises `TypeError` for what is not ASCII.
unfoldable pub compare_digest : String → String → Result Bool
unfolding is_ascii
compare_digest a b = if is_ascii a && is_ascii b then ok (str_eq a b) else raise type_error

abbrev text_of : Option String → String
text_of none = ""
text_of (some s) = s

module _ (hexdigest : String → String → String) where
  unfoldable pub verify_signature : String → Option String → Option String → Result Bool
  unfolding compare_digest
  verify_signature raw_body signature secret =
      if missing signature || missing secret
      then ok true
      else compare_digest (text_of signature) (hexdigest (text_of secret) raw_body)
