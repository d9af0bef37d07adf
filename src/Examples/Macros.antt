-- ===== src/Examples/Macros.antt =====
-- The theorems on the macros' modules at concrete inputs: src/macros/src/lib.rs.
use trillium_grpc.Prelude.{◌≡◌, ◌↔◌, refl, [], ◌∷◌, List, Option, some, none, Bytes, codes, ok, All}
use trillium_grpc.Text.Ascii.{split}
use trillium_grpc.Macros.{
  ModTree, node, empty, child, build_tree, insert_files, insert_at, entry, set_contents, stem_of,
  file_stem, before_last_dot,
}
use trillium_grpc.Macros.Tree.{lookup}
use trillium_grpc.Macros.Tree.Files.{find_file, build_tree-lookup}
use trillium_grpc.Macros.Tree.Distinct.{Named, Distinct, build_tree_iff}

abbrev files : List (Bytes × Bytes)
files = (codes "a.b.rs", codes "B") ∷ (codes "a.rs", codes "A") ∷ []

abbrev tree : ModTree
tree =
    node
      (child (codes "a")
        (node (child (codes "b") (node empty (some (codes "B"))) empty) (some (codes "A"))) empty)
      none

build_tree-lookup_example :
    lookup (codes "a" ∷ codes "b" ∷ []) tree ≡ find_file (codes "a" ∷ codes "b" ∷ []) files
unfolding build_tree insert_files insert_at entry set_contents stem_of file_stem before_last_dot
    split
build_tree-lookup_example = build_tree-lookup files tree (codes "a" ∷ codes "b" ∷ []) refl

build_tree_iff_example :
    ((t : ModTree) × (build_tree files ≡ ok t)) ↔ (All Named files × Distinct files)
build_tree_iff_example = build_tree_iff files

abbrev parents : List (Option Bytes)
parents = some (codes "p") ∷ none ∷ some (codes "q") ∷ some (codes "p") ∷ []
