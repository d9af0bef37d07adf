-- ===== src/Codegen/Imports/Covered.antt =====
-- What the needs of a package in codegen/src/lib.rs cover, and the order of its imports.
use trillium_grpc.Prelude.{
  ◌≡◌, refl, ap, ◌∙◌, inl, inr, Bool, true, false, ◌||◌, ◌&&◌, [], ◌∷◌, List, Bytes, beq, contains,
  arith, beq→eq, Bool-cases,
}
use trillium_grpc.Codegen.{Method}
use trillium_grpc.Codegen.Routing.{Listed}
use trillium_grpc.Codegen.Imports.{
  Needs, needs_shape, needs_method, needs_methods, pushed_items, insert_sorted, sort_unstable,
  dedup, grpc_items,
}

contains-insert_sorted :
    (x : Bytes) (ys : List Bytes) (z : Bytes)
    → contains (insert_sorted x ys) z ≡ (beq x z || contains ys z)
unfolding insert_sorted
contains-insert_sorted x [] z = refl
contains-insert_sorted x (y ∷ ys) z = ground (arith, contains-insert_sorted x ys z)

contains-sort_unstable :
    (xs : List Bytes) (z : Bytes) → contains (sort_unstable xs) z ≡ contains xs z
unfolding sort_unstable
contains-sort_unstable [] z = refl
contains-sort_unstable (x ∷ xs) z =
    contains-insert_sorted x (sort_unstable xs) z
    ∙ ap (λ b. beq x z || b) (contains-sort_unstable xs z)

contains-dedup : (xs : List Bytes) (z : Bytes) → contains (dedup xs) z ≡ contains xs z
unfolding dedup
contains-dedup [] z = refl
contains-dedup (x ∷ []) z = refl
contains-dedup (x ∷ y ∷ ys) z = elim (Bool-cases (beq x y)) [
  | inl same ↦ ground (arith, same, contains-dedup (y ∷ ys) z, beq→eq x y same)
  | inr other ↦ ground (arith, other, contains-dedup (y ∷ ys) z)
]

pub contains-grpc_items :
    (n : Needs) (client server : Bool) (z : Bytes)
    → contains (grpc_items n client server) z ≡ contains (pushed_items n client server) z
unfolding grpc_items
contains-grpc_items n client server z =
    contains-dedup _ z ∙ contains-sort_unstable (pushed_items n client server) z

-- The needs cover a method of a shape.
abbrev pub covers : Needs → Bool → Bool → Bool
covers n false false = n.grpc_conn && n.unary_conn
covers n true false = n.grpc_conn && n.unary_conn && n.stream_client
covers n false true = n.grpc_conn && n.streaming_conn && n.stream_server
covers n true true = n.grpc_conn && n.bidi && n.bidi_conn

needs_method-covers :
    (m : Method) (n : Needs)
    → covers (needs_method m n) m.client_streaming m.server_streaming ≡ true
unfolding needs_method needs_shape
needs_method-covers m n = go m.client_streaming m.server_streaming
  where
    go : (c s : Bool) → covers (record (needs_shape c s n) { grpc_conn = true }) c s ≡ true
    go false false = refl
    go true false = refl
    go false true = refl
    go true true = refl

needs_method_keeps :
    (m : Method) (n : Needs) (c s : Bool)
    → covers n c s ≡ true
    → covers (needs_method m n) c s ≡ true
unfolding needs_method needs_shape
needs_method_keeps m n = go m.client_streaming m.server_streaming
  where
    go :
        (c s c' s' : Bool)
        → covers n c' s' ≡ true
        → covers (record (needs_shape c s n) { grpc_conn = true }) c' s' ≡ true
    go c s c' s' h = ground (arith, h)

pub needs_methods_keeps :
    (methods : List Method) (n : Needs) (c s : Bool)
    → covers n c s ≡ true
    → covers (needs_methods methods n) c s ≡ true
unfolding needs_methods
needs_methods_keeps [] n c s h = h
needs_methods_keeps (m ∷ methods) n c s h =
    needs_methods_keeps methods (needs_method m n) c s (needs_method_keeps m n c s h)

pub needs_methods-covers :
    (methods : List Method) (n : Needs) (m : Method)
    → Listed m methods
    → covers (needs_methods methods n) m.client_streaming m.server_streaming ≡ true
unfolding needs_methods
needs_methods-covers [] n m at = absurd at
needs_methods-covers (k ∷ methods) n m (inl e) =
    needs_methods_keeps methods (needs_method k n) m.client_streaming m.server_streaming (
      ap (λ j. covers (needs_method k n) j.client_streaming j.server_streaming) e
      ∙ needs_method-covers k n)
needs_methods-covers (k ∷ methods) n m (inr at) =
    needs_methods-covers methods (needs_method k n) m at
