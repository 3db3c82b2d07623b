-- ===== src/Utils/SafeMath/Refused.antt =====
-- What `safe_eval` refuses.
use mathlib.Core.Path.{subst}
use rubica_bot.Prelude.{
  ◌≡◌, refl, sym, String, Bool, true, false, ◌&&◌, Option, List, [], ◌∷◌, ltb, str_eq, eq_iff,
  if◌then◌else◌, arith, Bool-cases, inl, inr,
}
use rubica_bot.Prelude.Lists.{any}
use rubica_bot.Prelude.Text.{count}
use rubica_bot.Result.{Result, ok, raise, bad_value}
use rubica_bot.Utils.SafeMath.{
  Node, Nodes, node, none_left, child, allowed_nodes, is_allowed, are_allowed, too_long,
  not_allowed, safe_eval,
}

-- A node of this kind is somewhere in the tree, at any depth.
mutual
  pub data Occurs (kind : String) : Node → Type 0 where
    at_root : {nodes : Nodes} → Occurs kind (node kind nodes)
    under : {root : String} {nodes : Nodes} → OccursIn kind nodes → Occurs kind (node root nodes)

  pub data OccursIn (kind : String) : Nodes → Type 0 where
    in_first : {n : Node} {nodes : Nodes} → Occurs kind n → OccursIn kind (child n nodes)
    in_rest : {n : Node} {nodes : Nodes} → OccursIn kind nodes → OccursIn kind (child n nodes)

-- The expressions of Python that are more than arithmetic on constants.
abbrev pub code_kinds : List String
code_kinds =
    "Call" ∷ "Attribute" ∷ "Name" ∷ "Subscript" ∷ "Slice" ∷ "Starred" ∷ "Lambda" ∷ "NamedExpr"
    ∷ "IfExp" ∷ "BoolOp" ∷ "Compare" ∷ "JoinedStr" ∷ "FormattedValue" ∷ "List" ∷ "Tuple" ∷ "Set"
    ∷ "Dict" ∷ "ListComp" ∷ "SetComp" ∷ "DictComp" ∷ "GeneratorExp" ∷ "Await" ∷ "Yield"
    ∷ "YieldFrom" ∷ []

-- No kind is in two lists, if none of the first is in the second.
apart :
    (kind : String) (l allowed : List String)
    → any (str_eq kind) l ≡ true
    → any (λ k. any (str_eq k) allowed) l ≡ false
    → any (str_eq kind) allowed ≡ false
unfolding any
apart kind [] allowed h e = absurd (ground arith)
apart kind (k ∷ l) allowed h e = elim (Bool-cases (str_eq kind k)) [
  | inl same ↦
      subst (λ (k : String). any (str_eq k) allowed ≡ false) (sym ((eq_iff kind k).0 same))
        (ground arith)
  | inr other ↦ apart kind l allowed (ground arith) (ground arith)
]

code_not_allowed :
    (kind : String) → any (str_eq kind) code_kinds ≡ true → any (str_eq kind) allowed_nodes ≡ false
code_not_allowed kind h = apart kind code_kinds allowed_nodes h (unfold any in refl)

first_fails : (a b : Bool) → a ≡ false → a && b ≡ false
first_fails a b h = ground (arith, h)

second_fails : (a b : Bool) → b ≡ false → a && b ≡ false
second_fails a b h = ground (arith, h)

mutual
  unfolding is_allowed are_allowed

  Occurs-refused :
      (kind : String) (tree : Node)
      → any (str_eq kind) allowed_nodes ≡ false
      → Occurs kind tree
      → is_allowed tree ≡ false
  Occurs-refused kind (node k nodes) h (at_root) = first_fails _ (are_allowed nodes) h
  Occurs-refused kind (node root nodes) h (under o) =
      second_fails _ (are_allowed nodes) (OccursIn-refused kind nodes h o)

  OccursIn-refused :
      (kind : String) (nodes : Nodes)
      → any (str_eq kind) allowed_nodes ≡ false
      → OccursIn kind nodes
      → are_allowed nodes ≡ false
  OccursIn-refused kind none_left h o = elim o [ ]
  OccursIn-refused kind (child n nodes) h (in_first o) =
      first_fails (is_allowed n) _ (Occurs-refused kind n h o)
  OccursIn-refused kind (child n nodes) h (in_rest o) =
      second_fails _ (are_allowed nodes) (OccursIn-refused kind nodes h o)

-- A text whose tree has, at any depth, a call, an attribute, a name, a subscript, a lambda or another
-- expression of Python that is not arithmetic on constants is refused with the ValueError for its
-- length or for what is not allowed, whatever the evaluator would make of it.
pub safe_eval_refused :
    (parse : String → Result Node) (evaluate : Node → Result (Option String))
    (expression kind : String) (tree : Node)
    → parse expression ≡ ok tree
    → any (str_eq kind) code_kinds ≡ true
    → Occurs kind tree
    → safe_eval parse evaluate expression
      ≡ raise (bad_value (if ltb 80 (count expression) then too_long else not_allowed))
unfolding safe_eval
safe_eval_refused parse evaluate expression kind tree parsed code o =
    let bad : is_allowed tree ≡ false = Occurs-refused kind tree (code_not_allowed kind code) o in
    elim (Bool-cases (ltb 80 (count expression))) [
      | inl long ↦ rw long refl
      | inr short ↦ rw (short, parsed, bad) refl
    ]
