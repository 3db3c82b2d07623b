-- ===== src/Cli/Machine/Files.antt =====
-- `pathlib` and `shutil` on the files of a machine.
use Prim.Native.Char.{code}
use rubica_bot.Prelude.{
  String, Bool, true, false, not, ◌&&◌, ◌||◌, none, some, [], ◌∷◌, ◌++◌, str_eq, ◌==◌,
  if◌then◌else◌,
}
use rubica_bot.Prelude.Text.{is_empty, reverse_onto, starts_with}
use rubica_bot.Result.{
  ok, raise, file_exists_error, file_not_found_error, not_a_directory_error, os_error,
}
use rubica_bot.Cli.Machine.{
  FilePath, show_path, Node, file, directory, FileSystem, below, Script, ◌>>=◌, ◌>>◌, when,
  is_there, is_directory, exists,
}

unfoldable pub without : FilePath → FileSystem → FileSystem
unfolding below
without p fs q = elim (below p q) [ some r ↦ none | none ↦ fs q ]

-- The files of `from` under `p` as well.
unfoldable pub with_tree : FilePath → FileSystem → FileSystem → FileSystem
unfolding below
with_tree p tree fs q = elim (below p q) [ some r ↦ tree r | none ↦ fs q ]

abbrev pub tree_at : FilePath → FileSystem → FileSystem
tree_at p fs r = fs (p ++ r)

-- shutil.rmtree(path)
unfoldable pub rmtree : FilePath → Script {0} Unit
unfolding without
rmtree p m = elim (m.files p) [
  | none ↦ (raise file_not_found_error, m)
  | some (file text) ↦ (raise not_a_directory_error, m)
  | some directory ↦ (ok tt, record m { files = without p m.files })
]

-- shutil.copytree(source, target)
unfoldable pub copytree : FilePath → FilePath → Script {0} Unit
unfolding with_tree
copytree p q m = elim (m.files p) [
  | none ↦ (raise file_not_found_error, m)
  | some (file text) ↦ (raise not_a_directory_error, m)
  | some directory ↦
      if is_there (m.files q)
      then (raise (file_exists_error (show_path q)), m)
      else (ok tt, record m { files = with_tree q (tree_at p m.files) m.files })
]

unfoldable pub name_of : FilePath → FilePath
name_of [] = []
name_of (a ∷ []) = a ∷ []
name_of (a ∷ b ∷ p) = name_of (b ∷ p)

abbrev pub is_below : FilePath → FilePath → Bool
unfolding below
is_below p q = elim (below p q) [ some r ↦ true | none ↦ false ]

-- shutil.move(source, target): into the target, if that is a directory. A file that is there is
-- replaced by a file, and not by a directory. A directory is not moved below itself.
unfoldable pub move : FilePath → FilePath → Script {0} Unit
unfolding without with_tree name_of is_below
move p q m =
    let inside = is_directory (m.files q) in
    let target = if inside then q ++ name_of p else q in
    if not (is_there (m.files p))
    then (raise file_not_found_error, m)
    else if inside && is_there (m.files target)
    then (raise (file_exists_error (show_path target)), m)
    else if is_directory (m.files p) && is_there (m.files target)
    then (raise not_a_directory_error, m)
    else if is_directory (m.files p) && is_below p target
    then (raise os_error, m)
    else (ok tt, record m { files = with_tree target (tree_at p m.files) (without p m.files) })

-- One node more.
unfoldable pub with_node : FilePath → Node → FileSystem → FileSystem
unfolding below
with_node p n fs q = elim (below p q) [ none ↦ fs q | some [] ↦ some n | some (a ∷ r) ↦ fs q ]

unfoldable pub parent_of : FilePath → FilePath
parent_of [] = []
parent_of (a ∷ []) = []
parent_of (a ∷ b ∷ p) = a ∷ parent_of (b ∷ p)

-- path.write_text(text)
unfoldable pub write_text : FilePath → String → Script {0} Unit
unfolding with_node parent_of
write_text p text m =
    if is_directory (m.files p)
    then (raise os_error, m)
    else if not (is_directory (m.files (parent_of p)))
    then (raise file_not_found_error, m)
    else (ok tt, record m { files = with_node p (file text) m.files })

-- path.mkdir(parents=True, exist_ok=True), for the components after `done`
unfoldable pub mkdir_from : FilePath → FilePath → Script {0} Unit
unfolding with_node
mkdir_from done [] m = (ok tt, m)
mkdir_from done (a ∷ rest) m =
    let p = done ++ a ∷ [] in
    elim (m.files p) [
      | none ↦ mkdir_from p rest (record m { files = with_node p directory m.files })
      | some directory ↦ mkdir_from p rest m
      | some (file text) ↦ (raise (file_exists_error (show_path p)), m)
    ]

unfoldable pub mkdir : FilePath → Script {0} Unit
unfolding mkdir_from
mkdir p = mkdir_from [] p

-- path.read_text()
unfoldable pub read_text : FilePath → Script String
read_text p m = elim (m.files p) [
  | some (file text) ↦ (ok text, m)
  | some directory ↦ (raise os_error, m)
  | none ↦ (raise file_not_found_error, m)
]

-- Empty components and `.` are left out.
abbrev pub one_part : String → FilePath
one_part part = if is_empty part || str_eq part "." then [] else part ∷ []

-- The components of a path's text, whose first is being read.
unfoldable pub parts_from : String → String → FilePath
unfolding reverse_onto
parts_from part String.[] = one_part (reverse_onto part "")
parts_from part (String.◌∷◌ c s) =
    let rest = parts_from (if code c == b'/' then "" else String.◌∷◌ c part) s in
    if code c == b'/' then one_part (reverse_onto part "") ++ rest else rest

-- base / text
unfoldable pub join_path : FilePath → String → FilePath
unfolding parts_from starts_with
join_path base text =
    if starts_with text "/" then parts_from "" text else base ++ parts_from "" text

-- if path.exists(): shutil.rmtree(path)
unfoldable pub clear : FilePath → Script {0} Unit
unfolding rmtree
clear p = do there ← exists p; when there (rmtree p)

-- if target.exists(): shutil.rmtree(target); shutil.move(source, target)
unfoldable pub move_over : FilePath → FilePath → Script {0} Unit
unfolding clear move
move_over p q = do clear q; move p q
