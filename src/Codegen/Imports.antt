-- ===== src/Codegen/Imports.antt =====
-- The `use` block that codegen/src/lib.rs puts before the code of a package: what the services of the
-- package need, and the names that are imported for it.
pub mod Covered
pub mod Pushed
pub mod Used
pub mod Packages
use trillium_grpc.Prelude.{
  ℕ, ◌+◌, ltb, Bool, true, false, ◌||◌, [], ◌∷◌, ◌++◌, List, Bytes, codes, beq, if◌then◌else◌,
}
use trillium_grpc.Text.Ascii.{join}
use trillium_grpc.Macros.{lt_bytes}
use trillium_grpc.Codegen.{Method, Service}

pub record Needs : Type 0 where
  pub stream_client : Bool
  pub stream_server : Bool
  pub grpc_conn : Bool
  pub bidi : Bool
  pub unary_conn : Bool
  pub streaming_conn : Bool
  pub bidi_conn : Bool

abbrev pub no_needs : Needs
no_needs = record {
  stream_client = false;
  stream_server = false;
  grpc_conn = false;
  bidi = false;
  unary_conn = false;
  streaming_conn = false;
  bidi_conn = false;
}

unfoldable pub needs_shape : Bool → Bool → Needs → Needs
needs_shape false false needs = record needs { unary_conn = true }
needs_shape true false needs = record needs { unary_conn = true; stream_client = true }
needs_shape false true needs = record needs { streaming_conn = true; stream_server = true }
needs_shape true true needs = record needs { bidi = true; bidi_conn = true }

unfoldable pub needs_method : Method → Needs → Needs
unfolding needs_shape
needs_method m needs = record (needs_shape m.client_streaming m.server_streaming needs) {
  grpc_conn = true;
}

unfoldable pub needs_methods : List Method → Needs → Needs
unfolding needs_method
needs_methods [] needs = needs
needs_methods (m ∷ methods) needs = needs_methods methods (needs_method m needs)

-- The counter is below 2 ^ 32: a package does not have that many services.
pub record TrilliumServiceGenerator : Type 0 where
  pub client : Bool
  pub server : Bool
  pub services_in_package : ℕ
  pub needs : Needs

abbrev pub new : Bool → Bool → TrilliumServiceGenerator
new client server = record {
  client = client;
  server = server;
  services_in_package = 0;
  needs = no_needs;
}

-- What `generate` keeps of a service, beside the code that it appends.
unfoldable pub note_service : Service → TrilliumServiceGenerator → TrilliumServiceGenerator
unfolding needs_methods
note_service service g = record g {
  services_in_package = g.services_in_package + 1;
  needs = needs_methods service.methods g.needs;
}

-- The calls of `generate` for the services of a package.
unfoldable pub note_services : List Service → TrilliumServiceGenerator → TrilliumServiceGenerator
unfolding note_service
note_services [] g = g
note_services (service ∷ services) g = note_services services (note_service service g)

abbrev pub push_if : Bool → Bytes → List Bytes → List Bytes
push_if b name items = if b then items ++ name ∷ [] else items

unfoldable pub push_server : Needs → List Bytes → List Bytes
push_server needs items =
    let base = items ++ codes "Server" ∷ codes "Status" ∷ codes "prepare_grpc_conn" ∷ [] in
    push_if needs.stream_server (codes "Stream") (
      push_if needs.bidi (codes "BidiResponder")
        (push_if needs.grpc_conn (codes "GrpcServerConn") base))

unfoldable pub push_client : Needs → List Bytes → List Bytes
push_client needs items =
    let base = items ++ codes "ServiceClient" ∷ codes "trillium_client::Client" ∷ [] in
    push_if needs.stream_client (codes "Stream") (
      push_if needs.bidi_conn (codes "BidiConn") (
        push_if needs.streaming_conn (codes "StreamingConn")
          (push_if needs.unary_conn (codes "UnaryConn") base)))

-- The names in the order in which they are pushed.
unfoldable pub pushed_items : Needs → Bool → Bool → List Bytes
unfolding push_server push_client
pushed_items needs client server =
    let both = push_if (client || server) (codes "Prost") (codes "prost" ∷ []) in
    let served = if server then push_server needs both else both in
    if client then push_client needs served else served

-- `sort_unstable` and `dedup`.
unfoldable pub insert_sorted : Bytes → List Bytes → List Bytes
insert_sorted x [] = x ∷ []
insert_sorted x (y ∷ ys) =
    let later = y ∷ insert_sorted x ys in if lt_bytes y x then later else x ∷ y ∷ ys

unfoldable pub sort_unstable : List Bytes → List Bytes
unfolding insert_sorted
sort_unstable [] = []
sort_unstable (x ∷ xs) = insert_sorted x (sort_unstable xs)

unfoldable pub dedup : List Bytes → List Bytes
dedup [] = []
dedup (x ∷ []) = x ∷ []
dedup (x ∷ y ∷ ys) = let rest = dedup (y ∷ ys) in if beq x y then rest else x ∷ rest

unfoldable pub grpc_items : Needs → Bool → Bool → List Bytes
unfolding pushed_items sort_unstable dedup
grpc_items needs client server = dedup (sort_unstable (pushed_items needs client server))

unfoldable pub server_preamble : Needs → Bool → Bytes
server_preamble needs server =
    let trillium_items =
      (if needs.bidi
        then codes "Conn, Handler, Method, Upgrade"
        else codes "Conn, Handler, Method") in
    if server
    then codes "use std::sync::Arc;\nuse trillium::{" ++ trillium_items ++ codes "};\n"
    else []

unfoldable pub render_imports : Needs → Bool → Bool → Bytes
unfolding grpc_items server_preamble
render_imports needs client server =
    server_preamble needs server
    ++ codes "use trillium_grpc::{"
    ++ join (codes ", ") (grpc_items needs client server)
    ++ codes "};\n\n"

-- The block is put before the code of the package, and the counters start again.
unfoldable pub finalize_package :
    Bytes → TrilliumServiceGenerator → TrilliumServiceGenerator × Bytes
unfolding render_imports
finalize_package buf g =
    let buf' =
      (if ltb 0 g.services_in_package
        then render_imports g.needs g.client g.server ++ buf
        else buf) in
    (record g { services_in_package = 0; needs = no_needs }, buf')

-- The packages of a run one after another, each with its services and the code made of them.
unfoldable pub generate_packages :
    List (List Service × Bytes) → TrilliumServiceGenerator → List Bytes
unfolding note_services finalize_package
generate_packages [] g = []
generate_packages ((services, code) ∷ packages) g =
    let (g', buf) = finalize_package code (note_services services g) in
    buf ∷ generate_packages packages g'

-- The names of this crate in the code of a method: its trait method and its arm in the server half,
-- and its method in the client half.
unfoldable pub server_names : Bool → Bool → List Bytes
server_names false false = codes "GrpcServerConn" ∷ codes "Status" ∷ codes "Prost" ∷ []
server_names false true =
    codes "GrpcServerConn" ∷ codes "Stream" ∷ codes "Status" ∷ codes "Prost" ∷ []
server_names true false = codes "GrpcServerConn" ∷ codes "Status" ∷ codes "Prost" ∷ []
server_names true true =
    codes "GrpcServerConn" ∷ codes "BidiResponder" ∷ codes "Status" ∷ codes "Prost" ∷ []

unfoldable pub client_names : Bool → Bool → List Bytes
client_names false false = codes "UnaryConn" ∷ codes "Prost" ∷ []
client_names true false = codes "Stream" ∷ codes "UnaryConn" ∷ codes "Prost" ∷ []
client_names false true = codes "StreamingConn" ∷ codes "Prost" ∷ []
client_names true true = codes "BidiConn" ∷ codes "Prost" ∷ []

unfoldable pub names_of : Bool → Bool → Method → List Bytes
unfolding server_names client_names
names_of client server m =
    (if server then server_names m.client_streaming m.server_streaming else [])
    ++ (if client then client_names m.client_streaming m.server_streaming else [])
