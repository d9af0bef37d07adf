-- ===== src/Codec.antt =====
-- codec/mod.rs and codec/prost_codec.rs: the trait that connects a wire format to its messages.
use trillium_grpc.Prelude.{Bytes, codes, ◌++◌, Result, map_err}
use trillium_grpc.Deps.{Message}
use trillium_grpc.Status
use trillium_grpc.Status.{Status}

pub record Codec (T : Type 0) : Type 0 where
  pub content_type_suffix : Bytes
  pub encode : T → Result Status Bytes
  pub decode : Bytes → Result Status T

-- The `Codec` of `Prost` for a message type.
abbrev pub prost : {T : Type 0} → Message T → Codec T
prost m = record {
  content_type_suffix = codes "proto";
  encode =
      λ value. map_err (λ e. Status.internal (codes "prost encode failed: " ++ e)) (m.encode value);
  decode = λ bytes.
      map_err (λ e. Status.invalid_argument (codes "prost decode failed: " ++ e)) (m.decode bytes);
}
