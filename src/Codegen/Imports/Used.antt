-- ===== src/Codegen/Imports/Used.antt =====
-- The names that the code of a package uses and its `use` block, of codegen/src/lib.rs.
use trillium_grpc.Prelude.{
  subst, ◌≡◌, refl, ◌∙◌, ◌⊎◌, inl, inr, Bool, true, false, [], ◌∷◌, ◌++◌, List, Bytes, codes, beq,
  contains, arith, Bool-cases,
}
use trillium_grpc.Codegen.Imports.Covered.{
  covers, contains-grpc_items, needs_methods_keeps, needs_methods-covers,
}
use trillium_grpc.Codegen.{Method, Service}
use trillium_grpc.Codegen.Routing.{Listed}
use trillium_grpc.Codegen.Imports.{
  note_services, Needs, TrilliumServiceGenerator, note_service, push_server, push_client,
  pushed_items, grpc_items, server_names, client_names, names_of,
}
use trillium_grpc.Codegen.Imports.Pushed.{
  contains_left, all_in, push_server_base, push_client_base, server_names-pushed,
  client_names-pushed,
}

in_either :
    (xs ys : List Bytes) (x : Bytes)
    → contains (xs ++ ys) x ≡ true
    → (contains xs x ≡ true) ⊎ (contains ys x ≡ true)
in_either [] ys x h = inr h
in_either (y ∷ xs) ys x h = elim (Bool-cases (beq y x)) [
  | inl same ↦ inl (ground (arith, same))
  | inr other ↦ elim (in_either xs ys x (ground (arith, h, other))) [
    | inl left ↦ inl (ground (arith, left))
    | inr right ↦ inr right
  ]
]

abbrev first_items : List Bytes
first_items = codes "prost" ∷ codes "Prost" ∷ []

module _ (n : Needs) (m : Method) (x : Bytes)
    (covered : covers n m.client_streaming m.server_streaming ≡ true) where
  server_pushed :
      (items : List Bytes)
      → contains items (codes "Prost") ≡ true
      → contains (server_names m.client_streaming m.server_streaming) x ≡ true
      → contains (push_server n items) x ≡ true
  server_pushed items prost h =
      all_in (server_names m.client_streaming m.server_streaming) (push_server n items) x
        (server_names-pushed n items prost m.client_streaming m.server_streaming covered) h

  client_pushed :
      (items : List Bytes)
      → contains items (codes "Prost") ≡ true
      → contains (client_names m.client_streaming m.server_streaming) x ≡ true
      → contains (push_client n items) x ≡ true
  client_pushed items prost h =
      all_in (client_names m.client_streaming m.server_streaming) (push_client n items) x
        (client_names-pushed n items prost m.client_streaming m.server_streaming covered) h

  both_pushed :
      (c s : Bool) → contains (names_of c s m) x ≡ true → contains (pushed_items n c s) x ≡ true
  unfolding names_of pushed_items
  both_pushed false false at = absurd (ground (arith, at))
  both_pushed true false at = client_pushed first_items refl at
  both_pushed false true at =
      elim (in_either (server_names m.client_streaming m.server_streaming) [] x at) [
        | inl served ↦ server_pushed first_items refl served
        | inr nothing ↦ absurd (ground (arith, nothing))
      ]
  both_pushed true true at =
      elim (in_either (server_names m.client_streaming m.server_streaming)
        (client_names m.client_streaming m.server_streaming) x at) [
          | inl served ↦ push_client_base n (push_server n first_items) x (
              contains_left (push_server n first_items) _ x (server_pushed first_items refl served))
          | inr called ↦
              client_pushed (push_server n first_items)
                (push_server_base n first_items (codes "Prost") refl) called
        ]

abbrev noted_needs : List Service → TrilliumServiceGenerator → Needs
noted_needs services g = (note_services services g).needs

note_services_keeps :
    (services : List Service) (g : TrilliumServiceGenerator) (c s : Bool)
    → covers g.needs c s ≡ true
    → covers (noted_needs services g) c s ≡ true
unfolding note_services note_service
note_services_keeps [] g c s h = h
note_services_keeps (k ∷ services) g c s h =
    note_services_keeps services (note_service k g) c s
      (needs_methods_keeps k.methods g.needs c s h)

note_services-covers :
    (services : List Service) (g : TrilliumServiceGenerator) (service : Service) (m : Method)
    → Listed service services
    → Listed m service.methods
    → covers (noted_needs services g) m.client_streaming m.server_streaming ≡ true
unfolding note_services note_service
note_services-covers [] g service m at _ = absurd at
note_services-covers (k ∷ services) g service m (inl e) listed =
    note_services_keeps services (note_service k g) m.client_streaming m.server_streaming (
      needs_methods-covers k.methods g.needs m
        (subst (λ (j : Service). Listed m j.methods) e listed))
note_services-covers (k ∷ services) g service m (inr at) listed =
    note_services-covers services (note_service k g) service m at listed

pub note_services-sides :
    (services : List Service) (g : TrilliumServiceGenerator)
    → ((note_services services g).client ≡ g.client)
      × ((note_services services g).server ≡ g.server)
unfolding note_services note_service
note_services-sides [] g = (refl, refl)
note_services-sides (k ∷ services) g = note_services-sides services (note_service k g)

-- Every name of this crate that the code of a method uses, in the halves that are generated, is
-- imported for the package of its service.
pub names_of-grpc_items :
    (services : List Service) (g : TrilliumServiceGenerator) (service : Service) (m : Method)
    (name : Bytes)
    → Listed service services
    → Listed m service.methods
    → contains (names_of g.client g.server m) name ≡ true
    → contains (grpc_items (note_services services g).needs g.client g.server) name ≡ true
names_of-grpc_items services g service m name at listed used =
    contains-grpc_items (noted_needs services g) g.client g.server name
    ∙ both_pushed (noted_needs services g) m name
        (note_services-covers services g service m at listed) g.client g.server used
