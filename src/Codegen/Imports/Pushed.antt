-- ===== src/Codegen/Imports/Pushed.antt =====
-- The names that render_imports of codegen/src/lib.rs pushes for the needs that cover a method.
use trillium_grpc.Prelude.{
  ◌≡◌, refl, ap, ◌∙◌, sym, inl, inr, Bool, true, false, [], ◌∷◌, ◌++◌, List, Bytes, codes, beq,
  contains, arith, All, beq_refl, beq→eq, Bool-cases,
}
use trillium_grpc.Codegen.Imports.Covered.{covers}
use trillium_grpc.Codegen.Imports.{
  Needs, push_if, push_server, push_client, server_names, client_names,
}

pub contains_left :
    (xs ys : List Bytes) (x : Bytes) → contains xs x ≡ true → contains (xs ++ ys) x ≡ true
contains_left [] ys x h = absurd (ground (arith, h))
contains_left (y ∷ xs) ys x h = ground (arith, h, contains_left xs ys x)

contains_right :
    (xs ys : List Bytes) (x : Bytes) → contains ys x ≡ true → contains (xs ++ ys) x ≡ true
contains_right [] ys x h = h
contains_right (y ∷ xs) ys x h = ground (arith, contains_right xs ys x h)

kept_if :
    (b : Bool) (name : Bytes) (items : List Bytes) (x : Bytes)
    → contains items x ≡ true
    → contains (push_if b name items) x ≡ true
kept_if true name items x h = contains_left items (name ∷ []) x h
kept_if false name items x h = h

pushed_if :
    (b : Bool) (name : Bytes) (items : List Bytes)
    → b ≡ true
    → contains (push_if b name items) name ≡ true
pushed_if true name items _ = contains_right items (name ∷ []) name (ground (arith, beq_refl name))
pushed_if false name items e = absurd (ground (arith, e))

-- What is in each of some names is in one of them.
pub all_in :
    (names items : List Bytes) (x : Bytes)
    → All (λ name. contains items name ≡ true) names
    → contains names x ≡ true
    → contains items x ≡ true
all_in [] items x _ h = absurd (ground (arith, h))
all_in (name ∷ names) items x (here, rest) h = elim (Bool-cases (beq name x)) [
  | inl same ↦ ap (λ y. contains items y) (sym (beq→eq name x same)) ∙ here
  | inr other ↦ all_in names items x rest (ground (arith, h, other))
]

module _ (n : Needs) (items : List Bytes) where
  pub push_server_base :
      (x : Bytes)
      → contains (items ++ codes "Server" ∷ codes "Status" ∷ codes "prepare_grpc_conn" ∷ []) x
        ≡ true
      → contains (push_server n items) x ≡ true
  unfolding push_server
  push_server_base x h =
      kept_if n.stream_server _ _ x (kept_if n.bidi _ _ x (kept_if n.grpc_conn _ _ x h))

  pub push_client_base :
      (x : Bytes)
      → contains (items ++ codes "ServiceClient" ∷ codes "trillium_client::Client" ∷ []) x ≡ true
      → contains (push_client n items) x ≡ true
  unfolding push_client
  push_client_base x h =
      kept_if n.stream_client _ _ x
        (kept_if n.bidi_conn _ _ x (kept_if n.streaming_conn _ _ x (kept_if n.unary_conn _ _ x h)))

  module _ (prost : contains items (codes "Prost") ≡ true) where
    pub server_names-pushed :
        (c s : Bool)
        → covers n c s ≡ true
        → All (λ name. contains (push_server n items) name ≡ true) (server_names c s)
    unfolding server_names push_server
    server_names-pushed c s h = go c s h
      where
        conn_name :
            n.grpc_conn ≡ true → contains (push_server n items) (codes "GrpcServerConn") ≡ true
        conn_name e =
            kept_if n.stream_server _ _ _ (kept_if n.bidi _ _ _ (pushed_if n.grpc_conn _ _ e))

        always :
            All
              (λ name. contains (push_server n items) name ≡ true)
              (codes "Status" ∷ codes "Prost" ∷ [])
        always = (
          push_server_base _ (contains_right items _ _ refl),
          (push_server_base _ (contains_left items _ _ prost), tt),
        )

        go :
            (c s : Bool)
            → covers n c s ≡ true
            → All (λ name. contains (push_server n items) name ≡ true) (server_names c s)
        go false false h = (conn_name (ground (arith, h)), always)
        go false true h = (
          conn_name (ground (arith, h)),
          (pushed_if n.stream_server _ _ (ground (arith, h)), always),
        )
        go true false h = (conn_name (ground (arith, h)), always)
        go true true h = (
          conn_name (ground (arith, h)),
          (kept_if n.stream_server _ _ _ (pushed_if n.bidi _ _ (ground (arith, h))), always),
        )

    pub client_names-pushed :
        (c s : Bool)
        → covers n c s ≡ true
        → All (λ name. contains (push_client n items) name ≡ true) (client_names c s)
    unfolding client_names push_client
    client_names-pushed c s h = go c s h
      where
        always : contains (push_client n items) (codes "Prost") ≡ true
        always = push_client_base _ (contains_left items _ _ prost)

        unary_name : n.unary_conn ≡ true → contains (push_client n items) (codes "UnaryConn") ≡ true
        unary_name e = kept_if n.stream_client _ _ _ (
            kept_if n.bidi_conn _ _ _
              (kept_if n.streaming_conn _ _ _ (pushed_if n.unary_conn _ _ e)))

        go :
            (c s : Bool)
            → covers n c s ≡ true
            → All (λ name. contains (push_client n items) name ≡ true) (client_names c s)
        go false false h = (unary_name (ground (arith, h)), (always, tt))
        go true false h = (
          pushed_if n.stream_client _ _ (ground (arith, h)),
          (unary_name (ground (arith, h)), (always, tt)),
        )
        go false true h = (
          kept_if n.stream_client _ _ _
              (kept_if n.bidi_conn _ _ _ (pushed_if n.streaming_conn _ _ (ground (arith, h)))),
          (always, tt),
        )
        go true true h = (
          kept_if n.stream_client _ _ _ (pushed_if n.bidi_conn _ _ (ground (arith, h))),
          (always, tt),
        )
