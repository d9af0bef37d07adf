-- ===== src/Codegen/Routing.antt =====
-- Which requests the generated handlers of codegen/src/lib.rs serve, and the paths that the generated
-- clients ask for.
use trillium_grpc.Prelude.{
  ◌≡◌, ◌↔◌, ◌⊎◌, inl, inr, refl, ap, ◌∙◌, sym, Bool, true, false, [], ◌∷◌, ◌++◌, List, Option, none,
  some, Bytes, codes, beq, beq→eq, beq_refl, if◌then◌else◌, and_then, arith, All, Bool-cases,
  append_assoc,
}
use trillium_grpc.Codegen.{
  Method, Service, server_prefix, strip_prefix, dispatch_match, route, client_prefix,
  with_service_prefix, trim_end_slashes,
}

abbrev pub Listed : {A : Type 0} → A → List A → Type 0
Listed m [] = ⊥
Listed m (k ∷ methods) = (m ≡ k) ⊎ Listed m methods

-- No two methods have the same name.
abbrev pub DistinctNames : List Method → Type 0
DistinctNames [] = Unit
DistinctNames (m ∷ methods) =
    All (λ (k : Method). beq m.proto_name k.proto_name ≡ false) methods × DistinctNames methods

strip_prefix-append : (p s : Bytes) → strip_prefix (p ++ s) p ≡ some s
unfolding strip_prefix
strip_prefix-append [] s = refl
strip_prefix-append (c ∷ p) s = ground (arith, strip_prefix-append p s)

strip_prefix-some : (s p r : Bytes) → strip_prefix s p ≡ some r → s ≡ p ++ r
unfolding strip_prefix
strip_prefix-some s [] r e = ground (arith, e)
strip_prefix-some [] (p ∷ ps) r e = absurd (ground (arith, e))
strip_prefix-some (c ∷ s) (p ∷ ps) r e = ground (arith, e, strip_prefix-some s ps r)

dispatch_match_sound :
    (path : Bytes) (methods : List Method) (m : Method)
    → dispatch_match path methods ≡ some m
    → Listed m methods × (path ≡ codes "/" ++ m.proto_name)
unfolding dispatch_match
dispatch_match_sound path [] m e = absurd (ground (arith, e))
dispatch_match_sound path (k ∷ methods) m e =
    elim (Bool-cases (beq path (codes "/" ++ k.proto_name))) [
      | inl same ↦
          let first : k ≡ m = ground (arith, e, same) in
          (
            inl (sym first),
            beq→eq path (codes "/" ++ k.proto_name) same
                ∙ ap (λ j. codes "/" ++ j.proto_name) first,
          )
      | inr other ↦
          let (at, named) = dispatch_match_sound path methods m (ground (arith, e, other)) in
          (inr at, named)
    ]

distinct_name :
    (name : Bytes) (m : Method) (methods : List Method)
    → All (λ (k : Method). beq name k.proto_name ≡ false) methods
    → Listed m methods
    → beq name m.proto_name ≡ false
distinct_name name m [] _ at = absurd at
distinct_name name m (k ∷ methods) (other, others) (inl e) =
    ap (λ j. beq name j.proto_name) e ∙ other
distinct_name name m (k ∷ methods) (other, others) (inr at) = distinct_name name m methods others at

beq_sym : (s t : Bytes) → beq s t ≡ beq t s
beq_sym [] [] = refl
beq_sym [] (y ∷ ys) = refl
beq_sym (x ∷ xs) [] = refl
beq_sym (x ∷ xs) (y ∷ ys) = ground (arith, beq_sym xs ys)

dispatch_match_complete :
    (m : Method) (methods : List Method)
    → DistinctNames methods
    → Listed m methods
    → dispatch_match (codes "/" ++ m.proto_name) methods ≡ some m
unfolding dispatch_match
dispatch_match_complete m [] _ at = absurd at
dispatch_match_complete m (k ∷ methods) _ (inl e) =
    rw (ap (λ j. beq m.proto_name j.proto_name) (sym e) ∙ beq_refl m.proto_name) (ap some (sym e))
dispatch_match_complete m (k ∷ methods) (others, distinct) (inr at) =
    rw (beq_sym m.proto_name k.proto_name ∙ distinct_name k.proto_name m methods others at)
      (dispatch_match_complete m methods distinct at)

route_to :
    (service : Service) (m : Method) (is_post : Bool)
    → route service (server_prefix service ++ (codes "/" ++ m.proto_name)) is_post
      ≡ (if is_post then dispatch_match (codes "/" ++ m.proto_name) service.methods else none)
unfolding route
route_to service m is_post =
    ap (λ o. and_then o λ method. if is_post then dispatch_match method service.methods else none)
      (strip_prefix-append (server_prefix service) (codes "/" ++ m.proto_name))

-- What a stripped prefix and the method of the request say, if a method is found.
found :
    (service : Service) (path : Bytes) (m : Method) (o : Option Bytes) (is_post : Bool)
    → strip_prefix path (server_prefix service) ≡ o
    → (and_then o λ method. if is_post then dispatch_match method service.methods else none)
      ≡ some m
    → (is_post ≡ true)
      × Listed m service.methods
      × (path ≡ server_prefix service ++ (codes "/" ++ m.proto_name))
found service path m none is_post _ e = absurd (ground (arith, e))
found service path m (some rest) false _ e = absurd (ground (arith, e))
found service path m (some rest) true stripped e =
    let (at, named) = dispatch_match_sound rest service.methods m e in
    (
      refl,
      at,
      strip_prefix-some path (server_prefix service) rest stripped
          ∙ ap (λ r. server_prefix service ++ r) named,
    )

-- A generated handler whose methods have different names runs a method exactly if the request is a
-- POST, the method is one of the service's, and the path is the service's prefix, a slash and the
-- name of the method.
pub route_iff :
    (service : Service) (path : Bytes) (is_post : Bool) (m : Method)
    → DistinctNames service.methods
    → (route service path is_post ≡ some m) ↔ (
        (is_post ≡ true)
        × Listed m service.methods
        × (path ≡ server_prefix service ++ (codes "/" ++ m.proto_name)))
unfolding route
route_iff service path is_post m distinct = (forth, back)
  where
    forth :
        route service path is_post ≡ some m
        → (is_post ≡ true)
          × Listed m service.methods
          × (path ≡ server_prefix service ++ (codes "/" ++ m.proto_name))
    forth e = found service path m (strip_prefix path (server_prefix service)) is_post refl e

    back :
        (is_post ≡ true)
          × Listed m service.methods
          × (path ≡ server_prefix service ++ (codes "/" ++ m.proto_name))
        → route service path is_post ≡ some m
    back (post, at, same) =
        ap (λ p. route service p is_post) same
        ∙ route_to service m is_post
        ∙ ap (λ b. if b then dispatch_match (codes "/" ++ m.proto_name) service.methods else none)
            post
        ∙ dispatch_match_complete m service.methods distinct at

prefixes : (service : Service) → server_prefix service ≡ codes "/" ++ client_prefix service
unfolding server_prefix client_prefix
prefixes service = ground arith

-- The path that a generated client asks for, with a base URL at the root of a host, is the one under
-- which the generated handler runs that very method, if the methods have different names and the name
-- is joined to the base path at its end.
pub client_path-route :
    (join : Bytes → Bytes → Bytes) (service : Service) (base_path : Bytes) (m : Method)
    → trim_end_slashes base_path ≡ []
    → join (with_service_prefix base_path (client_prefix service)) m.proto_name
      ≡ with_service_prefix base_path (client_prefix service) ++ m.proto_name
    → DistinctNames service.methods
    → Listed m service.methods
    → route service (join (with_service_prefix base_path (client_prefix service)) m.proto_name) true
      ≡ some m
unfolding with_service_prefix
client_path-route join service base_path m root joined distinct at =
    (route_iff service _ true m distinct).1 (
      refl,
      at,
      joined
          ∙ ap (λ b. (b ++ codes "/" ++ client_prefix service ++ codes "/") ++ m.proto_name) root
          ∙ append_assoc (codes "/" ++ client_prefix service) (codes "/") m.proto_name
          ∙ ap (λ p. p ++ (codes "/" ++ m.proto_name)) (sym (prefixes service)),
    )
