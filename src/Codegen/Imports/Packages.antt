-- ===== src/Codegen/Imports/Packages.antt =====
-- One generator of codegen/src/lib.rs used for package after package.
use trillium_grpc.Prelude.{◌≡◌, refl, ap, ◌∙◌, Bool, [], ◌∷◌, List, Bytes, map}
use trillium_grpc.Codegen.{Service}
use trillium_grpc.Codegen.Imports.{new, note_services, finalize_package, generate_packages}
use trillium_grpc.Codegen.Imports.Used.{note_services-sides}

-- After a package, only the halves that are generated are left of the state.
finalize_package-new :
    (code : Bytes) (services : List Service) (client server : Bool)
    → (finalize_package code (note_services services (new client server))).0 ≡ new client server
unfolding finalize_package
finalize_package-new code services client server =
    let (same_client, same_server) = note_services-sides services (new client server) in
    ap (λ b. new b (note_services services (new client server)).server) same_client
    ∙ ap (λ b. new client b) same_server

-- One generator that is used for package after package, with the reset at the end of each, gives each
-- package the block that a generator of its own gives.
pub generate_packages_fresh :
    (client server : Bool) (packages : List (List Service × Bytes))
    → generate_packages packages (new client server)
      ≡ map (λ p. (finalize_package p.1 (note_services p.0 (new client server))).1) packages
unfolding generate_packages
generate_packages_fresh client server [] = refl
generate_packages_fresh client server ((services, code) ∷ packages) =
    ap (λ rest. (finalize_package code (note_services services (new client server))).1 ∷ rest)
      (ap (generate_packages packages) (finalize_package-new code services client server)
        ∙ generate_packages_fresh client server packages)
