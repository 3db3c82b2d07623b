-- ===== src/Db/Migrations/Statements.antt =====
-- What executing the statements of app/db/migrations.py does to a schema that fits the program's.
use rubica_bot.Prelude.{
  ◌≡◌, refl, ap, sym, ◌∙◌, String, Bool, true, ◌&&◌, Option, none, some, List, [], ◌∷◌, ◌++◌,
  str_eq, eq_iff, eq_refl, if◌then◌else◌, ◌⊎◌, inl, inr, arith, Bool-cases,
}
use rubica_bot.Prelude.Lists.{any, all}
use mathlib.Core.Path.{subst}
use rubica_bot.Result.{ok, ◌>>=◌, Returns, Returns-bind, Returns-weaken}
use rubica_bot.Db.Messages.Selection.{All}
use rubica_bot.Db.Migrations.{
  Column, Statement, create_table, create_index, Table, Schema, find_table, has_column, index_table,
  add_table, execute, execute_all, initial_schema,
}

unfoldable pub tables_of : List Statement → List Table
tables_of [] = []
tables_of (create_table name columns key ∷ l) =
    record { name = name; columns = columns; primary_key = key } ∷ tables_of l
tables_of (create_index _ _ _ ∷ l) = tables_of l

unfoldable pub declared : String → Option Table
unfolding find_table tables_of
declared name = find_table name (tables_of initial_schema)

-- Where a table has the name of one of the program's, it is the program's.
abbrev pub Fits : Schema → Type 0
Fits s =
    (name : String) (t : Table)
    → find_table name s.tables ≡ some t
    → (declared name ≡ none) ⊎ (declared name ≡ some t)

abbrev pub HasTable : String → Schema → Type 0
HasTable name s = (t : Table) × (find_table name s.tables ≡ some t)

-- What the statement creates is there.
abbrev pub Holds : Schema → Statement → Type 0
Holds s (create_table name _ _) = HasTable name s
Holds s (create_index name _ _) = any (str_eq name) s.indexes ≡ true

-- No table and no index is lost or changed.
abbrev pub Extends : Schema → Schema → Type 0
Extends s s' =
    ((name : String) (t : Table)
      → find_table name s.tables ≡ some t
      → find_table name s'.tables ≡ some t)
    × ((name : String) → any (str_eq name) s.indexes ≡ true → any (str_eq name) s'.indexes ≡ true)

pub Extends-Holds : (s s' : Schema) (st : Statement) → Extends s s' → Holds s st → Holds s' st
Extends-Holds s s' (create_table name _ _) e (t, h) = (t, e.0 name t h)
Extends-Holds s s' (create_index name _ _) e h = e.1 name h

pub Extends-refl : (s : Schema) → Extends s s
Extends-refl s = (λ name t h. h, λ name h. h)

pub Extends-trans : (a b c : Schema) → Extends a b → Extends b c → Extends a c
Extends-trans a b c h k = (λ name t e. k.0 name t (h.0 name t e), λ name e. k.1 name (h.1 name e))

-- Each statement agrees with the tables that the program declares.
abbrev pub IsDeclared : Statement → Type 0
IsDeclared (create_table name columns key) =
    declared name ≡ some (record { name = name; columns = columns; primary_key = key })
IsDeclared (create_index _ table columns) =
    (t : Table) × (declared table ≡ some t) × (all (has_column t) columns ≡ true)

-- An index is created after its table.
abbrev pub IsReady : Schema → Statement → Type 0
IsReady s (create_table _ _ _) = Unit
IsReady s (create_index _ table _) = HasTable table s

pub find_table-append :
    (name : String) (ts : List Table) (t : Table)
    → find_table name (ts ++ t ∷ []) ≡ (elim (find_table name ts) [
      | some u ↦ some u
      | none ↦ if str_eq t.name name then some t else none
    ])
unfolding find_table
find_table-append name [] t = refl
find_table-append name (u ∷ ts) t = ground (arith, find_table-append name ts t)

abbrev pub Done : Schema → Statement → Schema → Type 0
Done s st s' = Holds s' st × Extends s s' × Fits s' × (s'.versions ≡ s.versions)

module _ (name : String) (columns : List Column) (key : List String) where
  abbrev pub the_table : Table
  the_table = record { name = name; columns = columns; primary_key = key }

  pub fits_appended :
      (o : Option Table) (n : String) (t : Table)
      → ((u : Table) → o ≡ some u → (declared n ≡ none) ⊎ (declared n ≡ some u))
      → IsDeclared (create_table name columns key)
      → (elim o [ some u ↦ some u | none ↦ if str_eq name n then some the_table else none ])
        ≡ some t
      → (declared n ≡ none) ⊎ (declared n ≡ some t)
  fits_appended (some u) n t f d e = f t e
  fits_appended none n t f d e = elim (Bool-cases (str_eq name n)) [
    | inl same ↦ inr (ground (arith, eq_iff name n, same, d, e))
    | inr other ↦ ground (arith, other, e)
  ]

  pub add_table_lem :
      (o : Option Table) (s : Schema)
      → find_table name s.tables ≡ o
      → IsDeclared (create_table name columns key)
      → Fits s
      → Returns (Done s (create_table name columns key)) (add_table o the_table s)
  unfolding find_table
  add_table_lem (some t) s e d f = ((t, e), Extends-refl s, f, refl)
  add_table_lem none s e d f = (
    (the_table, find_table-append name s.tables the_table ∙ ground (arith, e, eq_refl name)),
    (λ n t h. find_table-append n s.tables the_table ∙ ground (arith, h), λ n h. h),
    λ n t h.
        fits_appended (find_table n s.tables) n t (f n) d
          (sym (find_table-append n s.tables the_table) ∙ h),
    refl,
  )

-- A table that fits has the columns of the declared one.
pub fits_columns :
    (table : String) (columns : List (String × Bool)) (t u : Table)
    → (declared table ≡ none) ⊎ (declared table ≡ some t)
    → declared table ≡ some u
    → all (has_column u) columns ≡ true
    → all (has_column t) columns ≡ true
fits_columns table columns t u (inl h) d c = ground (arith, h, d)
fits_columns table columns t u (inr h) d c = cc

pub index_table_lem :
    (name table : String) (columns : List (String × Bool)) (t : Table) (s : Schema)
    → all (has_column t) columns ≡ true
    → Fits s
    → Returns (Done s (create_index name table columns)) (index_table (some t) name columns s)
unfolding any
index_table_lem name table columns t s c f =
    rw c (ground (arith, eq_refl name), (λ n t h. h, λ n h. ground (arith, h)), f, refl)

pub execute_lem :
    (st : Statement) (s : Schema)
    → IsDeclared st
    → IsReady s st
    → Fits s
    → Returns (Done s st) (execute st s)
unfolding execute
execute_lem (create_table name columns key) s d r f =
    add_table_lem name columns key (find_table name s.tables) s refl d f
execute_lem (create_index name table columns) s (u, d, c) (t, h) f =
    elim (Bool-cases (any (str_eq name) s.indexes)) [
      | inl there ↦ rw there (there, Extends-refl s, f, refl)
      | inr absent ↦ rw absent (
          rw h (
            index_table_lem name table columns t s
              (fits_columns table columns t u (f table t h) d c) f))
    ]

-- What is there already is not created again.
pub execute_held : (st : Statement) (s : Schema) → Holds s st → execute st s ≡ ok s
unfolding execute
execute_held (create_table name columns key) s (t, h) = rw h refl
execute_held (create_index name table columns) s h = rw h refl

pub execute_all_held :
    (sts : List Statement) (s : Schema) → All (Holds s) sts → execute_all sts s ≡ ok s
unfolding execute_all
execute_all_held [] s h = refl
execute_all_held (st ∷ sts) s h =
    ap (λ r. r >>= execute_all sts) (execute_held st s h.0) ∙ execute_all_held sts s h.1

-- The statements stand in an order in which each index finds its table.
abbrev pub is_ordered : List String → List Statement → Bool
is_ordered names [] = true
is_ordered names (create_table name _ _ ∷ sts) = is_ordered (name ∷ names) sts
is_ordered names (create_index _ table _ ∷ sts) = any (str_eq table) names && is_ordered names sts

abbrev pub HaveTables : Schema → List String → Type 0
HaveTables s names = (name : String) → any (str_eq name) names ≡ true → HasTable name s

abbrev pub AllDone : Schema → List Statement → Schema → Type 0
AllDone s sts s' = All (Holds s') sts × Extends s s' × Fits s' × (s'.versions ≡ s.versions)

pub All-map :
    (P Q : Statement → Type 0) (l : List Statement)
    → ((x : Statement) → P x → Q x)
    → All P l
    → All Q l
All-map P Q [] f h = tt
All-map P Q (x ∷ l) f h = (f x h.0, All-map P Q l f h.1)

pub is_ordered-IsReady :
    (names : List String) (st : Statement) (sts : List Statement) (s : Schema)
    → is_ordered names (st ∷ sts) ≡ true
    → HaveTables s names
    → IsReady s st
is_ordered-IsReady names (create_table _ _ _) sts s o h = tt
is_ordered-IsReady names (create_index _ table _) sts s o h = h table (ground (arith, o))

abbrev pub with_name : Statement → List String → List String
with_name (create_table name _ _) names = name ∷ names
with_name (create_index _ _ _) names = names

pub is_ordered-rest :
    (names : List String) (st : Statement) (sts : List Statement)
    → is_ordered names (st ∷ sts) ≡ true
    → is_ordered (with_name st names) sts ≡ true
is_ordered-rest names (create_table _ _ _) sts o = o
is_ordered-rest names (create_index _ _ _) sts o = ground (arith, o)

pub HaveTables-step :
    (names : List String) (st : Statement) (s s' : Schema)
    → Done s st s'
    → HaveTables s names
    → HaveTables s' (with_name st names)
unfolding any
HaveTables-step names (create_index _ _ _) s s' (h, e, _, _) t n g =
    ((t n g).0, e.0 n (t n g).0 (t n g).1)
HaveTables-step names (create_table name _ _) s s' (h, e, _, _) t n g =
    elim (Bool-cases (str_eq n name)) [
      | inl same ↦ subst (λ k. HasTable k s') (sym ((eq_iff n name).0 same)) h
      | inr other ↦ let old = t n (ground (arith, other, g)) in (old.0, e.0 n old.0 old.1)
    ]

pub execute_all_lem :
    (names : List String) (sts : List Statement) (s : Schema)
    → All IsDeclared sts
    → is_ordered names sts ≡ true
    → HaveTables s names
    → Fits s
    → Returns (AllDone s sts) (execute_all sts s)
unfolding execute_all
execute_all_lem names [] s d o h f = (tt, Extends-refl s, f, refl)
execute_all_lem names (st ∷ sts) s d o h f =
    Returns-bind (Done s st) (AllDone s (st ∷ sts)) (execute st s) (execute_all sts)
      (execute_lem st s d.0 (is_ordered-IsReady names st sts s o h) f)
      (λ s' done.
        Returns-weaken (AllDone s' sts) (AllDone s (st ∷ sts)) (execute_all sts s')
          (λ s'' (held, e, f', v). (
            (Extends-Holds s' s'' st e done.0, held),
            Extends-trans s s' s'' done.1 e,
            f',
            v ∙ done.3,
          ))
          (execute_all_lem (with_name st names) sts s' d.1 (is_ordered-rest names st sts o)
            (HaveTables-step names st s s' done h) done.2))
