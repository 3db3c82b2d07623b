-- ===== src/Cli/Machine.antt =====
-- What the command line tools do to a machine, whose files, commands, answers and posts are its state.
-- A path is absolute and is the list of its components. Links and permissions are left out.
pub mod Files
pub mod Trees
pub mod Keeps
use Prim.Native.Char.{code}
use rubica_bot.Prelude.{
  String, Bool, true, false, not, ◌&&◌, ◌||◌, Option, none, some, List, [], ◌∷◌, ◌++◌, str_eq, ◌==◌,
  if◌then◌else◌,
}
use rubica_bot.Prelude.Text.{◌<+>◌, is_empty, join, reverse_onto, starts_with}
use rubica_bot.Result.{
  Result, ok, raise, value_error, file_exists_error, file_not_found_error, not_a_directory_error,
  os_error, called_process_error,
}
use rubica_bot.Json.{Value}

abbrev pub FilePath : Type 0
FilePath = List String

abbrev pub show_path : FilePath → String
unfolding join
show_path p = "/" <+> join "/" p

pub data Node : Type 0 where
  file : String → Node
  directory : Node

abbrev pub FileSystem : Type 0
FileSystem = FilePath → Option Node

-- The rest of a path below another.
unfoldable pub below : FilePath → FilePath → Option FilePath
below [] q = some q
below (a ∷ p) [] = none
below (a ∷ p) (b ∷ q) = if str_eq a b then below p q else none

-- The name up to its last dot, and what follows the dot.
unfoldable pub at_last_dot : String → Option (String × String)
at_last_dot String.[] = none
at_last_dot (String.◌∷◌ c s) = elim (at_last_dot s) [
  | some (a, b) ↦ some (String.◌∷◌ c a, b)
  | none ↦ if code c == b'.' then some ("", s) else none
]

-- A name with its suffix, if it has one, replaced by `.bak`.
unfoldable pub bak_name : String → String
unfolding at_last_dot
bak_name name = elim (at_last_dot name) [
  | some (stem, suffix) ↦
      if is_empty stem || is_empty suffix then name <+> ".bak" else stem <+> ".bak"
  | none ↦ name <+> ".bak"
]

-- path.with_suffix(".bak")
unfoldable pub with_bak : FilePath → Result FilePath
unfolding bak_name
with_bak [] = raise value_error
with_bak (name ∷ []) = ok (bak_name name ∷ [])
with_bak (d ∷ e ∷ p) = elim (with_bak (e ∷ p)) [ ok q ↦ ok (d ∷ q) | raise e ↦ raise e ]

pub record Machine : Type 0 where
  pub files : FileSystem
  -- the commands that ran, oldest first
  pub ran : List (List String)
  -- what the user will answer: the texts and the choices that rich's prompts return
  pub answers : List String
  pub choices : List Bool
  -- the addresses and bodies that were posted, oldest first
  pub posted : List (String × Value)

-- What a command does to the files, and whether it ends with the status 0.
abbrev pub Programs : Type 0
Programs = List String → FileSystem → Bool × FileSystem

abbrev pub Script {ℓ} : Type ℓ → Type ℓ
Script A = Machine → Result A × Machine

abbrev pub next {ℓ} : {A B : Type ℓ} → (A → Script B) → Result A × Machine → Result B × Machine
next f (ok a, m) = f a m
next f (raise e, m) = (raise e, m)

infixl 5 ◌>>=◌ ◌>>◌
abbrev pub ◌>>=◌ {ℓ} : {A B : Type ℓ} → Script A → (A → Script B) → Script B
(s >>= f) m = next f (s m)

abbrev pub ◌>>◌ {ℓ} : {B : Type ℓ} → Script {ℓ} Unit → Script B → Script B
(s >> t) m = next (λ _. t) (s m)

abbrev pub return {ℓ} : {A : Type ℓ} → A → Script A
return a m = (ok a, m)

abbrev pub lift {ℓ} : {A : Type ℓ} → Result A → Script A
lift r m = (r, m)

abbrev pub when : Bool → Script {0} Unit → Script {0} Unit
when true s = s
when false s = return tt

abbrev pub is_there : Option Node → Bool
is_there none = false
is_there (some node) = true

abbrev pub is_directory : Option Node → Bool
is_directory (some directory) = true
is_directory _ = false

-- path.exists()
abbrev pub exists : FilePath → Script Bool
exists p m = (ok (is_there (m.files p)), m)

-- run(cmd), with check=True
unfoldable pub run : Programs → List String → Script {0} Unit
run programs cmd m =
    let (good, files') = programs cmd m.files in
    (
      if good then ok tt else raise called_process_error,
      record m { files = files'; ran = m.ran ++ cmd ∷ [] },
    )

-- httpx.post(address, json=body), raise_for_status() and json(): the service's answer is a parameter.
unfoldable pub post : (String → Value → Result Value) → String → Value → Script Value
post reply address body m =
    (reply address body, record m { posted = m.posted ++ (address, body) ∷ [] })
