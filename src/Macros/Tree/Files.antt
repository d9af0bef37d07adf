-- ===== src/Macros/Tree/Files.antt =====
-- `build_tree` of src/macros/src/lib.rs on all the files of a run.
use trillium_grpc.Prelude.{
  ◌≡◌, refl, ap, ◌∙◌, sym, subst, Bool, true, false, [], ◌∷◌, List, Option, none, some, Bytes,
  if◌then◌else◌, Result, ok, err, ◌>>=◌, arith, beq→eq, Option-cases, inl, inr, unwrap_or,
}
use trillium_grpc.Text.Ascii.{split}
use trillium_grpc.Macros.{
  ModTree, default_tree, insert_at, insert_files, build_tree, file_stem, stem_of, duplicate_output,
  unexpected_filename,
}
use trillium_grpc.Macros.Tree.{lookup, lookup-default, same, Inserts, insert_at-Inserts}

-- The path of the module that a file goes into.
abbrev pub segments : Bytes → List Bytes
segments name = split b'.' (unwrap_or (file_stem name) [])

-- The contents of the first file that goes to a path.
abbrev pub find_file : List Bytes → List (Bytes × Bytes) → Option Bytes
find_file path [] = none
find_file path ((name, content) ∷ files) =
    let later = find_file path files in if same (segments name) path then some content else later

abbrev or_else : Option Bytes → Option Bytes → Option Bytes
or_else none b = b
or_else (some a) b = some a

same→eq : (p q : List Bytes) → same p q ≡ true → p ≡ q
same→eq [] [] h = refl
same→eq [] (y ∷ ys) h = absurd cc
same→eq (x ∷ xs) [] h = absurd cc
same→eq (x ∷ xs) (y ∷ ys) h = ground (arith, beq→eq x y, same→eq xs ys)

module _ (d : Bytes) (segs : List Bytes) (content : Bytes) (t : ModTree) where
  pub insert-free :
      lookup segs t ≡ none
      → (t' : ModTree) × (insert_at d segs content t ≡ ok t')
        × ((path : List Bytes)
            → lookup path t' ≡ (if same segs path then some content else lookup path t))
  insert-free free =
      subst (λ o. Inserts segs content t o (insert_at d segs content t)) free
        (insert_at-Inserts d segs content t)

  insert-taken :
      (old : Bytes) → lookup segs t ≡ some old → (x : Bytes) × (insert_at d segs content t ≡ err x)
  insert-taken old taken =
      subst (λ o. Inserts segs content t o (insert_at d segs content t)) taken
        (insert_at-Inserts d segs content t)

-- What an insertion that succeeds says.
insert-ok :
    (d : Bytes) (segs : List Bytes) (content : Bytes) (t t' : ModTree)
    → insert_at d segs content t ≡ ok t'
    → (lookup segs t ≡ none)
      × ((path : List Bytes)
          → lookup path t' ≡ (if same segs path then some content else lookup path t))
insert-ok d segs content t t' e = elim (Option-cases (lookup segs t)) [
  | inr (old, taken) ↦
      let (x, bad) = insert-taken d segs content t old taken in absurd (ground (arith, bad, e))
  | inl free ↦
      let (t1, good, sees) = insert-free d segs content t free in
      let equal : t1 ≡ t' = ground (arith, good, e) in
      (free, λ path. ap (lookup path) (sym equal) ∙ sees path)
]

first_of :
    {A : Type 0}
    → (r : Result Bytes A) (next : A → Result Bytes ModTree) (t : ModTree) → (r >>= next) ≡ ok t
    → (a : A) × (r ≡ ok a) × (next a ≡ ok t)
first_of (ok a) next t e = (a, refl, e)
first_of (err x) next t e = absurd (ground (arith, e))

stem_of-ok : (name stem : Bytes) → stem_of name ≡ ok stem → file_stem name ≡ some stem
unfolding stem_of
stem_of-ok name stem e = go (file_stem name) e
  where
    go :
        (o : Option Bytes)
        → (elim o [ none ↦ err (unexpected_filename name) | some s ↦ ok s ]) ≡ ok stem
        → o ≡ some stem
    go none e = absurd (ground (arith, e))
    go (some s) e = ground (arith, e)

or_else-same :
    (b : Bool) (content : Bytes) (l f : Option Bytes)
    → (b ≡ true → l ≡ none)
    → or_else (if b then some content else l) f ≡ or_else l (if b then some content else f)
or_else-same true content l f free = ap (λ o. or_else o (some content)) (sym (free refl))
or_else-same false content l f free = refl

or_else-none : (o : Option Bytes) → or_else o none ≡ o
or_else-none none = refl
or_else-none (some a) = refl

-- A run over a file and others that succeeds inserts at a free path, and goes on.
pub insert_files-first :
    (name content : Bytes) (files : List (Bytes × Bytes)) (t t' : ModTree)
    → insert_files ((name, content) ∷ files) t ≡ ok t'
    → (t1 : ModTree) × (insert_files files t1 ≡ ok t')
      × ((s : Bytes) × (file_stem name ≡ some s))
      × (lookup (segments name) t ≡ none)
      × ((path : List Bytes)
          → lookup path t1 ≡ (if same (segments name) path then some content else lookup path t))
unfolding insert_files
insert_files-first name content files t t' e =
    let (stem, named, e1) = first_of (stem_of name) _ t' e in
    let h : file_stem name ≡ some stem = stem_of-ok name stem named in
    let path : split b'.' stem ≡ segments name = ap (λ o. split b'.' (unwrap_or o [])) (sym h) in
    let (t1, first, rest) =
      first_of (insert_at (duplicate_output stem) (split b'.' stem) content t) (insert_files files)
        t' e1 in
    let (free, sees) =
      insert-ok (duplicate_output stem) (segments name) content t t1
        (ap (λ p. insert_at (duplicate_output stem) p content t) (sym path) ∙ first) in
    (t1, rest, (stem, h), free, sees)

lookup-insert_files :
    (files : List (Bytes × Bytes)) (t t' : ModTree) (path : List Bytes)
    → insert_files files t ≡ ok t'
    → lookup path t' ≡ or_else (lookup path t) (find_file path files)
unfolding insert_files
lookup-insert_files [] t t' path e =
    ap (lookup path) (ground (arith, e)) ∙ sym (or_else-none (lookup path t))
lookup-insert_files ((name, content) ∷ files) t t' path e =
    let (t1, rest, named, free, sees) = insert_files-first name content files t t' e in
    lookup-insert_files files t1 t' path rest
    ∙ ap (λ o. or_else o (find_file path files)) (sees path)
    ∙ or_else-same (same (segments name) path) content (lookup path t) (find_file path files)
        (λ h. ap (λ p. lookup p t) (sym (same→eq (segments name) path h)) ∙ free)

-- In a tree that is built, the module at each path holds the contents of the file whose stem,
-- split at its dots, is that path, and no contents where no file has that path.
pub build_tree-lookup :
    (files : List (Bytes × Bytes)) (t : ModTree) (path : List Bytes)
    → build_tree files ≡ ok t
    → lookup path t ≡ find_file path files
unfolding build_tree
build_tree-lookup files t path e =
    lookup-insert_files files default_tree t path e
    ∙ ap (λ o. or_else o (find_file path files)) (lookup-default path)
