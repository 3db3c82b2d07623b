-- ===== src/Cli/Machine/Trees.antt =====
-- What the operations on trees leave under a path.
use mathlib.Core.Path.{subst}
use mathlib.Core.List.{append-nil}
use rubica_bot.Prelude.{
  ◌≡◌, ◌≢◌, ◌⊎◌, inl, inr, refl, sym, ap, ◌∙◌, false, Option, none, some, [], ◌∷◌, ◌++◌, String,
  str_eq, eq_iff, eq_refl, arith, Option-cases, Bool-cases,
}
use rubica_bot.Result.{ok, Result-cases}
use rubica_bot.Cli.Machine.{
  FilePath, Node, directory, FileSystem, Machine, below, with_bak, bak_name,
}
use rubica_bot.Cli.Machine.Files.{
  without, with_tree, tree_at, clear, rmtree, move, move_over, is_below,
}

pub below-append : (p r : FilePath) → below p (p ++ r) ≡ some r
unfolding below
below-append [] r = refl
below-append (a ∷ p) r = rw (eq_refl a) (below-append p r)

-- Nothing is below both.
abbrev pub Apart : FilePath → FilePath → Type 0
Apart p q = ((r : FilePath) → below p (q ++ r) ≡ none) × ((r : FilePath) → below q (p ++ r) ≡ none)

ne-str_eq : (a b : String) → a ≢ b → str_eq a b ≡ false
ne-str_eq a b h = elim (Bool-cases (str_eq a b)) [
  | inl same ↦ absurd (h ((eq_iff a b).0 same))
  | inr other ↦ other
]

Apart-cons : (a : String) (p q : FilePath) → Apart p q → Apart (a ∷ p) (a ∷ q)
unfolding below
Apart-cons a p q (f, g) = (λ r. rw (eq_refl a) (f r), λ r. rw (eq_refl a) (g r))

Apart-one : (a b : String) → a ≢ b → Apart (a ∷ []) (b ∷ [])
unfolding below
Apart-one a b h = (λ r. rw (ne-str_eq a b h) refl, λ r. rw (ne-str_eq b a (λ e. h (sym e))) refl)

pub with_bak-Apart : (p q : FilePath) → with_bak p ≡ ok q → q ≢ p → Apart p q
unfolding with_bak
with_bak-Apart [] q h n = cc
with_bak-Apart (a ∷ []) q h n =
    let e : bak_name a ∷ [] ≡ q = cc in
    subst (Apart (a ∷ [])) e
      (Apart-one a (bak_name a) (λ same. n (sym e ∙ ap (λ x. x ∷ []) (sym same))))
with_bak-Apart (a ∷ b ∷ p) q h n = elim (Result-cases (with_bak (b ∷ p))) [
  | inl (q', kept) ↦
      let e : a ∷ q' ≡ q = ground (arith, h, kept) in
      subst (Apart (a ∷ b ∷ p)) e (
        Apart-cons a (b ∷ p) q'
          (with_bak-Apart (b ∷ p) q' kept (λ same. n (sym e ∙ ap (λ x. a ∷ x) same))))
  | inr (error, raised) ↦ ground (arith, h, raised)
]

module _ (p : FilePath) (tree fs : FileSystem) where
  pub with_tree-at : (r : FilePath) → with_tree p tree fs (p ++ r) ≡ tree r
  unfolding with_tree
  with_tree-at r = rw (below-append p r, with_tree)

  pub with_tree-apart : (q : FilePath) → below p q ≡ none → with_tree p tree fs q ≡ fs q
  unfolding with_tree
  with_tree-apart q h = rw (h, with_tree)

pub without-at : (p : FilePath) (fs : FileSystem) (r : FilePath) → without p fs (p ++ r) ≡ none
unfolding without
without-at p fs r = rw (below-append p r, without)

pub without-apart :
    (p : FilePath) (fs : FileSystem) (q : FilePath) → below p q ≡ none → without p fs q ≡ fs q
unfolding without
without-apart p fs q h = rw (h, without)

-- A path at which `rmtree` does not fail.
abbrev pub IsFree : Option Node → Type 0
IsFree n = (n ≡ none) ⊎ (n ≡ some directory)

unfoldable pub cleared : FilePath → Machine → Machine
cleared q m = elim (m.files q) [ none ↦ m | some n ↦ record m { files = without q m.files } ]

pub clear_lem : (q : FilePath) (m : Machine) → IsFree (m.files q) → clear q m ≡ (ok tt, cleared q m)
unfolding clear rmtree cleared
clear_lem q m (inl h) = rw (h, cleared) refl
clear_lem q m (inr h) = rw (h, cleared) (rw (h, rmtree) refl)

pub cleared-apart :
    (q p : FilePath) (m : Machine) → below q p ≡ none → (cleared q m).files p ≡ m.files p
unfolding cleared
cleared-apart q p m h = elim (Option-cases (m.files q)) [
  | inl free ↦ rw (free, cleared) refl
  | inr (n, there) ↦ rw (there, cleared) (without-apart q m.files p h)
]

pub cleared_self : (q : FilePath) (m : Machine) → (cleared q m).files q ≡ none
unfolding cleared
cleared_self q m = elim (Option-cases (m.files q)) [
  | inl free ↦ rw (free, cleared) free
  | inr (n, there) ↦
      rw (there, cleared) (ap (without q m.files) (sym (append-nil q)) ∙ without-at q m.files [])
]

pub cleared-at :
    (q : FilePath) (m : Machine)
    → m.files q ≡ some directory
    → (r : FilePath) → (cleared q m).files (q ++ r) ≡ none
unfolding cleared
cleared-at q m there r = rw (there, cleared) (without-at q m.files r)

apart_self : (p q : FilePath) → ((r : FilePath) → below p (q ++ r) ≡ none) → below p q ≡ none
apart_self p q h = ap (below p) (sym (append-nil q)) ∙ h []

module _ (p q : FilePath) (m : Machine) (apart : Apart p q) where
  abbrev pub moved : Machine
  moved = record (cleared q m) {
    files = with_tree q (tree_at p (cleared q m).files) (without p (cleared q m).files);
  }

  pub move_over_lem :
      m.files p ≡ some directory → IsFree (m.files q) → move_over p q m ≡ (ok tt, moved)
  unfolding move_over move
  move_over_lem h k =
      let here = cleared-apart q p m (apart_self q p (apart.1)) ∙ h in
      let free = cleared_self q m in
      rw (clear_lem q m k)
        (rw (free, here) (rw (apart_self p q (apart.0), is_below) (rw free refl)))

  pub moved-to : (r : FilePath) → moved.files (q ++ r) ≡ m.files (p ++ r)
  moved-to r =
      with_tree-at q (tree_at p (cleared q m).files) (without p (cleared q m).files) r
      ∙ cleared-apart q (p ++ r) m (apart.1 r)

  pub moved-from : (r : FilePath) → moved.files (p ++ r) ≡ none
  moved-from r =
      with_tree-apart q (tree_at p (cleared q m).files) (without p (cleared q m).files) (p ++ r)
        (apart.1 r)
      ∙ without-at p (cleared q m).files r

  -- All else stays.
  pub moved-apart : (s : FilePath) → below p s ≡ none → below q s ≡ none → moved.files s ≡ m.files s
  moved-apart s f g =
      with_tree-apart q (tree_at p (cleared q m).files) (without p (cleared q m).files) s g
      ∙ without-apart p (cleared q m).files s f
      ∙ cleared-apart q s m g
