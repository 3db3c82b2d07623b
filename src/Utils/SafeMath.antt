-- ===== src/Utils/SafeMath.antt =====
-- app/utils/safe_math.py: `safe_eval`. A tree of the module `ast` is the name of its class and its
-- child nodes. The arguments are `ast.parse(…, mode="eval")` and what `eval` makes of a compiled
-- tree: a number, given by its text in the format `g`, or (`none`) a value that is no number.
pub mod Refused
use rubica_bot.Prelude.{
  String, Bool, true, ◌&&◌, Option, none, some, List, [], ◌∷◌, ltb, str_eq, if◌then◌else◌,
}
use rubica_bot.Prelude.Lists.{any}
use rubica_bot.Prelude.Text.{count}
use rubica_bot.Result.{Result, ok, raise, bad_value, ◌>>=◌}

mutual
  pub data Node : Type 0 where
    node : String → Nodes → Node

  pub data Nodes : Type 0 where
    none_left : Nodes
    child : Node → Nodes → Nodes

abbrev pub allowed_nodes : List String
allowed_nodes =
    "Expression" ∷ "BinOp" ∷ "UnaryOp" ∷ "Add" ∷ "Sub" ∷ "Mult" ∷ "Div" ∷ "FloorDiv" ∷ "Mod" ∷ "Pow"
    ∷ "UAdd" ∷ "USub" ∷ "Constant" ∷ []

unfoldable mutual
  unfolding any

  -- `isinstance(node, ALLOWED_NODES)` for every node of ast.walk(tree)
  pub is_allowed : Node → Bool
  is_allowed (node kind nodes) = any (str_eq kind) allowed_nodes && are_allowed nodes

  pub are_allowed : Nodes → Bool
  are_allowed none_left = true
  are_allowed (child n nodes) = is_allowed n && are_allowed nodes

abbrev pub too_long : String
too_long =
    "\u{639}\u{628}\u{627}\u{631}\u{62a} \u{62e}\u{6cc}\u{644}\u{6cc} \u{637}\u{648}\u{644}\u{627}\u{646}\u{6cc} \u{627}\u{633}\u{62a}."

abbrev pub not_allowed : String
not_allowed =
    "\u{639}\u{628}\u{627}\u{631}\u{62a} \u{63a}\u{6cc}\u{631}\u{645}\u{62c}\u{627}\u{632} \u{627}\u{633}\u{62a}."

abbrev pub no_number : String
no_number =
    "\u{646}\u{62a}\u{6cc}\u{62c}\u{647} \u{646}\u{627}\u{645}\u{639}\u{62a}\u{628}\u{631} \u{627}\u{633}\u{62a}."

abbrev number : Option String → Result String
number (some g) = ok g
number none = raise (bad_value no_number)

module _ (parse : String → Result Node) (evaluate : Node → Result (Option String)) where
  abbrev pub eval_tree : Node → Result String
  eval_tree tree =
      if is_allowed tree then evaluate tree >>= number else raise (bad_value not_allowed)

  unfoldable pub safe_eval : String → Result String
  unfolding is_allowed count
  safe_eval expression =
      if ltb 80 (count expression)
      then raise (bad_value too_long)
      else parse expression >>= eval_tree
