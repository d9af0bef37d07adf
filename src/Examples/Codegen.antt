-- ===== src/Examples/Codegen.antt =====
-- The theorems on generated handlers and clients at concrete inputs: codegen/src/lib.rs.
use trillium_grpc.Prelude.{
  List, Bytes, map, contains, ◌≡◌, ◌↔◌, refl, true, false, [], ◌∷◌, ◌++◌, some, codes, inl,
}
use trillium_grpc.Codegen.{
  Method, Service, route, server_prefix, client_prefix, with_service_prefix, trim_end_slashes,
}
use trillium_grpc.Codegen.Imports.{
  names_of, client_names, server_names, grpc_items, note_services, new, generate_packages,
  finalize_package,
}
use trillium_grpc.Codegen.Imports.Used.{names_of-grpc_items}
use trillium_grpc.Codegen.Imports.Packages.{generate_packages_fresh}
use trillium_grpc.Codegen.Routing.{Listed, route_iff, client_path-route}

abbrev hello : Method
hello = record {
  name = codes "hello";
  proto_name = codes "Hello";
  input_type = codes "A";
  output_type = codes "B";
  client_streaming = false;
  server_streaming = false;
}

abbrev greeter : Service
greeter = record {
  name = codes "Greeter";
  proto_name = codes "Greeter";
  package_name = codes "g";
  methods = hello ∷ [];
}

route_iff_example : (route greeter (codes "/g.Greeter/Hello") true ≡ some hello) ↔ (
    (true ≡ true)
    × Listed hello greeter.methods
    × (codes "/g.Greeter/Hello" ≡ server_prefix greeter ++ (codes "/" ++ hello.proto_name)))
route_iff_example = route_iff greeter (codes "/g.Greeter/Hello") true hello (tt, tt)

client_path-route_example :
    route greeter (with_service_prefix (codes "/") (client_prefix greeter) ++ hello.proto_name) true
    ≡ some hello
unfolding trim_end_slashes
client_path-route_example =
    client_path-route (λ base name. base ++ name) greeter (codes "/") hello refl refl (tt, tt)
      (inl refl)

names_of-grpc_items_example :
    contains
      (grpc_items (note_services (greeter ∷ []) (new true true)).needs true true)
      (codes "UnaryConn")
    ≡ true
unfolding names_of client_names server_names
names_of-grpc_items_example =
    names_of-grpc_items (greeter ∷ []) (new true true) greeter hello (codes "UnaryConn") (inl refl)
      (inl refl) refl

abbrev packages : List (List Service × Bytes)
packages = (greeter ∷ [], codes "mod a {}") ∷ ([], codes "struct B;") ∷ []

generate_packages_fresh_example :
    generate_packages packages (new true false)
    ≡ map (λ p. (finalize_package p.1 (note_services p.0 (new true false))).1) packages
generate_packages_fresh_example = generate_packages_fresh true false packages
