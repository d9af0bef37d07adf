-- ===== src/Codegen.antt =====
-- codegen/src/lib.rs: what the generated modules do with a service, beside their text. The descriptors
-- are those of `prost_build`.
pub mod Routing
pub mod Imports
use trillium_grpc.Prelude.{
  ◌==◌, Bool, [], ◌∷◌, ◌++◌, List, Option, none, some, Bytes, codes, beq, if◌then◌else◌, and_then,
}

pub record Method : Type 0 where
  pub name : Bytes
  pub proto_name : Bytes
  pub input_type : Bytes
  pub output_type : Bytes
  pub client_streaming : Bool
  pub server_streaming : Bool

pub record Service : Type 0 where
  pub name : Bytes
  pub proto_name : Bytes
  pub package_name : Bytes
  pub methods : List Method

-- The `PREFIX` of a generated handler.
unfoldable pub server_prefix : Service → Bytes
server_prefix service =
    if beq service.package_name []
    then codes "/" ++ service.proto_name
    else codes "/" ++ service.package_name ++ codes "." ++ service.proto_name

-- `path.strip_prefix(PREFIX)`.
unfoldable pub strip_prefix : Bytes → Bytes → Option Bytes
strip_prefix s [] = some s
strip_prefix [] (p ∷ ps) = none
strip_prefix (c ∷ s) (p ∷ ps) = let rest = strip_prefix s ps in if c == p then rest else none

-- The arms that name the method, in order.
unfoldable pub dispatch_match : Bytes → List Method → Option Method
dispatch_match path [] = none
dispatch_match path (m ∷ methods) =
    let later = dispatch_match path methods in
    if beq path (codes "/" ++ m.proto_name) then some m else later

-- Which method a generated handler runs for a path, and for a POST or not; `none` where it returns the
-- conn as it is.
unfoldable pub route : Service → Bytes → Bool → Option Method
unfolding server_prefix strip_prefix dispatch_match
route service path is_post =
    and_then (strip_prefix path (server_prefix service))
      λ method. if is_post then dispatch_match method service.methods else none

-- The prefix of a generated client, and its place in the base URL's path.
unfoldable pub client_prefix : Service → Bytes
client_prefix service =
    if beq service.package_name []
    then service.proto_name
    else service.package_name ++ codes "." ++ service.proto_name

unfoldable pub trim_end_slashes : Bytes → Bytes
trim_end_slashes [] = []
trim_end_slashes (c ∷ s) =
    let rest = trim_end_slashes s in
    if beq rest [] then (if c == b'/' then [] else c ∷ []) else c ∷ rest

unfoldable pub with_service_prefix : Bytes → Bytes → Bytes
unfolding trim_end_slashes
with_service_prefix base_path prefix =
    trim_end_slashes base_path ++ codes "/" ++ prefix ++ codes "/"
