-- ===== src/Macros.antt =====
-- src/macros/src/lib.rs: the tree of nested modules that the generate macros make of the packages.
pub mod Tree
pub mod Includes
use trillium_grpc.Prelude.{
  ◌==◌, Bool, true, false, [], ◌∷◌, ◌++◌, List, Option, none, some, Bytes, codes, ltb, beq,
  if◌then◌else◌, Result, ok, err, ◌>>=◌, contains,
}
use trillium_grpc.Text.Ascii.{split}

-- The order of `str`, on which a `BTreeMap` stands.
abbrev pub lt_bytes : Bytes → Bytes → Bool
lt_bytes [] [] = false
lt_bytes [] (y ∷ ys) = true
lt_bytes (x ∷ xs) [] = false
lt_bytes (x ∷ xs) (y ∷ ys) = let rest = lt_bytes xs ys in if x == y then rest else ltb x y

-- `children` is a `BTreeMap`, its entries in order.
mutual
  pub data ModTree : Type 0 where
    node : Children → Option Bytes → ModTree

  pub data Children : Type 0 where
    empty : Children
    child : Bytes → ModTree → Children → Children

abbrev pub default_tree : ModTree
default_tree = node empty none

-- `Path::file_stem`: the name up to its last dot, unless that is its first byte.
unfoldable pub before_last_dot : Bytes → Option Bytes
before_last_dot [] = none
before_last_dot (c ∷ s) = elim (before_last_dot s) [
  | some stem ↦ some (c ∷ stem)
  | none ↦ if c == b'.' then some [] else none
]

-- The stem of a file name without separators; `.` and `..` are no file names.
unfoldable pub file_stem : Bytes → Option Bytes
unfolding before_last_dot
file_stem name =
    if contains ([] ∷ codes "." ∷ codes ".." ∷ []) name then none else elim (before_last_dot name) [
      | none ↦ some name
      | some stem ↦ elim stem [ [] ↦ some name | c ∷ s ↦ some (c ∷ s) ]
    ]

-- `children.entry(seg).or_default()`, and what is done with the entry.
unfoldable pub entry : Bytes → (ModTree → Result Bytes ModTree) → Children → Result Bytes Children
entry seg change empty = do t ← change default_tree; ok (child seg t empty)
entry seg change (child k t rest) =
    let here = (do t' ← change t; ok (child k t' rest)) in
    let before = (do t' ← change default_tree; ok (child seg t' (child k t rest))) in
    let later = (do rest' ← entry seg change rest; ok (child k t rest')) in
    if beq k seg then here else if lt_bytes seg k then before else later

-- `contents.replace(content)`, where nothing may be replaced.
unfoldable pub set_contents : Bytes → Bytes → ModTree → Result Bytes ModTree
set_contents duplicate content (node children none) = ok (node children (some content))
set_contents duplicate content (node children (some old)) = err duplicate

-- The walk of the cursor along the segments of a stem.
unfoldable pub insert_at : Bytes → List Bytes → Bytes → ModTree → Result Bytes ModTree
unfolding set_contents entry
insert_at duplicate [] content t = set_contents duplicate content t
insert_at duplicate (seg ∷ segs) content (node children contents) = do
  children' ← entry seg (insert_at duplicate segs content) children
  ok (node children' contents)

abbrev pub duplicate_output : Bytes → Bytes
duplicate_output stem = codes "duplicate codegen output for package " ++ stem

abbrev pub unexpected_filename : Bytes → Bytes
unexpected_filename name = codes "unexpected codegen output filename: " ++ name

-- The stem of a file, or the error that it has none; every name is UTF-8.
unfoldable pub stem_of : Bytes → Result Bytes Bytes
stem_of name = elim (file_stem name) [ none ↦ err (unexpected_filename name) | some stem ↦ ok stem ]

-- The files one after another, into a tree.
unfoldable pub insert_files : List (Bytes × Bytes) → ModTree → Result Bytes ModTree
unfolding insert_at stem_of
insert_files [] t = ok t
insert_files ((name, content) ∷ files) t = do
  stem ← stem_of name
  t' ← insert_at (duplicate_output stem) (split b'.' stem) content t
  insert_files files t'

unfoldable pub build_tree : List (Bytes × Bytes) → Result Bytes ModTree
unfolding insert_files
build_tree files = insert_files files default_tree

-- The include paths: the parents of the sources, each once, in the order of their first source.
unfoldable pub add_parents : List (Option Bytes) → List Bytes → List Bytes
add_parents [] includes = includes
add_parents (none ∷ parents) includes = add_parents parents includes
add_parents (some parent ∷ parents) includes =
    let seen = add_parents parents includes in
    let added = add_parents parents (includes ++ parent ∷ []) in
    if contains includes parent then seen else added
