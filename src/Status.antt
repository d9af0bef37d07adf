-- ===== src/Status.antt =====
-- status.rs: the outcome of an RPC and its trailers. The code and the percent-encoding have modules
-- of their own below.
pub mod Codes
pub mod Percent
pub mod Trailers
use trillium_grpc.Prelude.{
  Bool, true, false, [], Bytes, codes, if◌then◌else◌, Result, ok, err, and_then, map_option,
  unwrap_or,
}
use trillium_grpc.Text.Decimal.{to_decimal, parse_uint}
use trillium_grpc.Deps.{HeadersApi, Base64}
use trillium_grpc.Metadata
use trillium_grpc.Metadata.{Metadata, from_headers}
use trillium_grpc.Status.Codes.{Code, from_u8, as_u8}
use trillium_grpc.Status.Percent.{percent_encode, percent_decode}

pub record Status : Type 0 where
  pub code : Code
  pub message : Bytes
  pub metadata : Metadata

-- `Status::new`, `Status::ok`, and the constructors that `status_constructors!` writes.
abbrev pub new : Code → Bytes → Status
new code message = record { code = code; message = message; metadata = Metadata.new }

abbrev pub ok_status : Status
ok_status = record { code = Code.ok; message = []; metadata = Metadata.new }

abbrev pub cancelled : Bytes → Status
cancelled = new Code.cancelled

abbrev pub unknown : Bytes → Status
unknown = new Code.unknown

abbrev pub invalid_argument : Bytes → Status
invalid_argument = new Code.invalid_argument

abbrev pub deadline_exceeded : Bytes → Status
deadline_exceeded = new Code.deadline_exceeded

abbrev pub resource_exhausted : Bytes → Status
resource_exhausted = new Code.resource_exhausted

abbrev pub unimplemented : Bytes → Status
unimplemented = new Code.unimplemented

abbrev pub internal : Bytes → Status
internal = new Code.internal

abbrev pub unavailable : Bytes → Status
unavailable = new Code.unavailable

abbrev pub is_ok_code : Code → Bool
is_ok_code Code.ok = true
is_ok_code _ = false

unfoldable pub is_ok : Status → Bool
is_ok s = is_ok_code s.code

unfoldable pub with_metadata : Status → Metadata → Status
with_metadata s m = record s { metadata = m }

-- `s.is_empty()`.
is_empty : Bytes → Bool
is_empty s = elim s [ [] ↦ true | _ ↦ false ]

module _ ⦃api : HeadersApi⦄ ⦃b64 : Base64⦄ where
  write_message : Bytes → api.Headers → api.Headers
  unfolding is_empty
  write_message message h =
      if is_empty message then h else api.insert h (codes "grpc-message") (percent_encode message)

  unfoldable pub write_into : Status → api.Headers → api.Headers
  unfolding write_message
  write_into s h =
      let h1 = api.insert h (codes "grpc-status") (to_decimal (as_u8 s.code)) in
      Metadata.write_into s.metadata (write_message s.message h1)

  unfoldable pub into_trailers : Status → api.Headers
  unfolding write_into
  into_trailers s = write_into s api.new

  -- The code in the headers: a missing, unparseable or unlisted one is `Unknown`.
  unfoldable pub trailer_code : api.Headers → Code
  trailer_code h =
      unwrap_or (and_then (and_then (api.get_str h (codes "grpc-status")) (parse_uint 255)) from_u8)
        Code.unknown

  unfoldable pub trailer_message : api.Headers → Bytes
  trailer_message h =
      unwrap_or (map_option percent_decode (api.get_str h (codes "grpc-message"))) []

  unfoldable pub from_trailers : api.Headers → Result Status (Unit {0})
  unfolding trailer_code trailer_message
  from_trailers h =
      if is_ok_code (trailer_code h)
      then ok tt
      else err
          (record { code = trailer_code h; message = trailer_message h; metadata = from_headers h })
