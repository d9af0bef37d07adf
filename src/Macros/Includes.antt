-- ===== src/Macros/Includes.antt =====
-- The include paths that `expand` of src/macros/src/lib.rs passes to the code generator.
use trillium_grpc.Prelude.{
  ◌≡◌, refl, ap, ◌∙◌, sym, true, [], ◌∷◌, ◌++◌, List, Option, none, some, Bytes, beq, beq→eq,
  Bool-cases, inl, inr, if◌then◌else◌, arith, contains, append-nil, append_assoc,
}
use trillium_grpc.Macros.{add_parents}

-- The list without one path.
abbrev pub without : Bytes → List Bytes → List Bytes
without p [] = []
without p (q ∷ qs) = let rest = without p qs in if beq p q then rest else q ∷ rest

-- The parents, each at its first place only.
abbrev pub firsts : List (Option Bytes) → List Bytes
firsts [] = []
firsts (none ∷ parents) = firsts parents
firsts (some p ∷ parents) = p ∷ without p (firsts parents)

-- The paths that a list does not have yet.
abbrev new_in : List Bytes → List Bytes → List Bytes
new_in includes [] = []
new_in includes (q ∷ qs) =
    let rest = new_in includes qs in if contains includes q then rest else q ∷ rest

new_in-nothing : (qs : List Bytes) → new_in [] qs ≡ qs
new_in-nothing [] = refl
new_in-nothing (q ∷ qs) = ap (λ l. q ∷ l) (new_in-nothing qs)

contains-append :
    (includes : List Bytes) (p q : Bytes)
    → contains (includes ++ p ∷ []) q ≡ (if contains includes q then true else beq p q)
contains-append [] p q = ground arith
contains-append (i ∷ includes) p q = ground (arith, contains-append includes p q)

new_in-seen :
    (includes : List Bytes) (p : Bytes) (qs : List Bytes)
    → contains includes p ≡ true
    → new_in includes (without p qs) ≡ new_in includes qs
new_in-seen includes p [] h = refl
new_in-seen includes p (q ∷ qs) h = elim (Bool-cases (beq p q)) [
  | inl same ↦ ground (arith, same, h, beq→eq p q same, new_in-seen includes p qs h)
  | inr other ↦ ground (arith, other, new_in-seen includes p qs h)
]

new_in-added :
    (includes : List Bytes) (p : Bytes) (qs : List Bytes)
    → new_in (includes ++ p ∷ []) qs ≡ new_in includes (without p qs)
new_in-added includes p [] = refl
new_in-added includes p (q ∷ qs) =
    ground (arith, contains-append includes p q, new_in-added includes p qs)

add_parents-new_in :
    (parents : List (Option Bytes)) (includes : List Bytes)
    → add_parents parents includes ≡ includes ++ new_in includes (firsts parents)
unfolding add_parents
add_parents-new_in [] includes = sym (append-nil includes)
add_parents-new_in (none ∷ parents) includes = add_parents-new_in parents includes
add_parents-new_in (some p ∷ parents) includes = elim (Bool-cases (contains includes p)) [
  | inl seen ↦ rw seen (
      add_parents-new_in parents includes
      ∙ ap (λ l. includes ++ l) (sym (new_in-seen includes p (firsts parents) seen)))
  | inr added ↦ rw added (
      add_parents-new_in parents (includes ++ p ∷ [])
      ∙ append_assoc includes (p ∷ []) _
      ∙ ap (λ l. includes ++ p ∷ l) (new_in-added includes p (firsts parents)))
]

-- The include paths are the parents of the sources in the order of the sources, each at its first
-- place only.
pub add_parents-firsts : (parents : List (Option Bytes)) → add_parents parents [] ≡ firsts parents
add_parents-firsts parents = add_parents-new_in parents [] ∙ new_in-nothing (firsts parents)
