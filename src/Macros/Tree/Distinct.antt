-- ===== src/Macros/Tree/Distinct.antt =====
-- Which files `build_tree` of src/macros/src/lib.rs takes.
use trillium_grpc.Prelude.{
  ◌≡◌, ◌↔◌, refl, ap, ◌∙◌, sym, Bool, true, false, [], ◌∷◌, List, Option, none, some, Bytes,
  if◌then◌else◌, ok, err, ◌>>=◌, arith, All, unwrap_or,
}
use trillium_grpc.Text.Ascii.{split}
use trillium_grpc.Macros.{
  ModTree, default_tree, insert_at, insert_files, build_tree, file_stem, stem_of, duplicate_output,
  unexpected_filename,
}
use trillium_grpc.Macros.Tree.{lookup, lookup-default, same}
use trillium_grpc.Macros.Tree.Files.{segments, insert-free, insert_files-first}

-- A file with a stem.
abbrev pub Named : Bytes × Bytes → Type 0
Named f = (stem : Bytes) × (file_stem f.0 ≡ some stem)

-- No two files have the same path.
abbrev pub Distinct : List (Bytes × Bytes) → Type 0
Distinct [] = Unit
Distinct (f ∷ files) =
    All (λ (g : Bytes × Bytes). same (segments f.0) (segments g.0) ≡ false) files × Distinct files

abbrev Free : ModTree → List (Bytes × Bytes) → Type 0
Free t = All (λ (f : Bytes × Bytes). lookup (segments f.0) t ≡ none)

-- What a tree holds after an insertion.
abbrev Sees : List Bytes → Bytes → ModTree → ModTree → Type 0
Sees segs content t t' =
    (path : List Bytes) → lookup path t' ≡ (if same segs path then some content else lookup path t)

test-none :
    (b : Bool) (content : Bytes) (l : Option Bytes)
    → (if b then some content else l) ≡ none
    → (b ≡ false) × (l ≡ none)
test-none true content l e = absurd (ground (arith, e))
test-none false content l e = (refl, e)

module _ (f : Bytes × Bytes) (t t' : ModTree) (sees : Sees (segments f.0) f.1 t t') where
  -- A path is free after an insertion if it was so before and is another one, and only then.
  free_after :
      (files : List (Bytes × Bytes))
      → Free t files
      → All (λ (g : Bytes × Bytes). same (segments f.0) (segments g.0) ≡ false) files
      → Free t' files
  free_after [] _ _ = tt
  free_after (g ∷ files) (free, frees) (other, others) = (
    sees (segments g.0) ∙ ap (λ b. if b then some f.1 else lookup (segments g.0) t) other ∙ free,
    free_after files frees others,
  )

  free_before :
      (files : List (Bytes × Bytes))
      → Free t' files
      → Free t files × All (λ (g : Bytes × Bytes). same (segments f.0) (segments g.0) ≡ false) files
  free_before [] _ = (tt, tt)
  free_before (g ∷ files) (free, frees) =
      let (other, free') =
        test-none (same (segments f.0) (segments g.0)) f.1 (lookup (segments g.0) t)
          (sym (sees (segments g.0)) ∙ free) in
      let (frees', others) = free_before files frees in ((free', frees'), (other, others))

accepts :
    (files : List (Bytes × Bytes)) (t : ModTree)
    → All Named files
    → Free t files
    → Distinct files
    → (t' : ModTree) × (insert_files files t ≡ ok t')
unfolding insert_files stem_of
accepts [] t _ _ _ = (t, refl)
accepts ((name, content) ∷ files) t ((stem, h), named) (free, frees) (others, distinct) =
    let (t1, first, sees) = insert-free (duplicate_output stem) (segments name) content t free in
    let (t2, rest) =
      accepts files t1 named (free_after (name, content) t t1 sees files frees others) distinct in
    let path : segments name ≡ split b'.' stem = ap (λ o. split b'.' (unwrap_or o [])) h in
    (
      t2,
      ap
            (λ o. (elim o [ none ↦ err (unexpected_filename name) | some s ↦ ok s ]) >>= λ s.
              insert_at (duplicate_output s) (split b'.' s) content t >>= insert_files files)
            h
          ∙ ap (λ p. insert_at (duplicate_output stem) p content t >>= insert_files files)
              (sym path)
          ∙ ap (λ r. r >>= insert_files files) first
          ∙ rest,
    )

accepted :
    (files : List (Bytes × Bytes)) (t t' : ModTree)
    → insert_files files t ≡ ok t'
    → All Named files × Free t files × Distinct files
accepted [] t t' _ = (tt, tt, tt)
accepted ((name, content) ∷ files) t t' e =
    let (t1, rest, named, free, sees) = insert_files-first name content files t t' e in
    let (nameds, frees, distinct) = accepted files t1 t' rest in
    let (frees', others) = free_before (name, content) t t1 sees files frees in
    ((named, nameds), (free, frees'), (others, distinct))

default-Free : (files : List (Bytes × Bytes)) → Free default_tree files
default-Free [] = tt
default-Free (f ∷ files) = (lookup-default (segments f.0), default-Free files)

-- A tree is built exactly if every file name has a stem and no two stems split at their dots into
-- the same path.
pub build_tree_iff :
    (files : List (Bytes × Bytes))
    → ((t : ModTree) × (build_tree files ≡ ok t)) ↔ (All Named files × Distinct files)
unfolding build_tree
build_tree_iff files = (
  λ (t, e). let (named, free, distinct) = accepted files default_tree t e in (named, distinct),
  λ (named, distinct). accepts files default_tree named (default-Free files) distinct,
)
