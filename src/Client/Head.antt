-- ===== src/Client/Head.antt =====
-- What a response's head and its end say, in client/conn.rs: `process_head`, `http_to_grpc_status`,
-- `decode_response` and `finish_from_trailers`.
pub mod Verdict
use trillium_grpc.Prelude.{
  ℕ, ◌||◌, ◌==◌, ◌++◌, Option, none, some, Bytes, codes, if◌then◌else◌, and_then, unwrap_or, Result,
  ok, err, map_err, ok_or, is_some, ◌>>=◌, ◌>>◌,
}
use trillium_grpc.Text.Decimal.{to_decimal}
use trillium_grpc.Deps.{HeadersApi, Base64, Features, Debug}
use trillium_grpc.ContentType.{parse_grpc_content_type}
use trillium_grpc.Encoding.{Encoding, identity, from_grpc_encoding}
use trillium_grpc.Codec.{Codec}
use trillium_grpc.Status
use trillium_grpc.Status.{Status, from_trailers}
use trillium_grpc.Status.Codes.{Code}

unfoldable pub http_code : ℕ → Code
http_code http =
    if http == 400
    then Code.internal
    else if http == 401
    then Code.unauthenticated
    else if http == 403
    then Code.permission_denied
    else if http == 404
    then Code.unimplemented
    else if http == 429 || http == 502 || http == 503 || http == 504
    then Code.unavailable
    else Code.unknown

unfoldable pub http_to_grpc_status : ℕ → Status
unfolding http_code
http_to_grpc_status http = Status.new (http_code http) (codes "HTTP " ++ to_decimal http)

unfoldable pub decode_response : {T : Type 0} → Codec T → Bytes → Result Status T
decode_response codec bytes = map_err (λ s. Status.new Code.internal s.message) (codec.decode bytes)

module _ ⦃api : HeadersApi⦄ where
  pub record Head : Type 0 where
    pub response_headers : api.Headers
    pub response_encoding : Encoding
    pub head_status : Option (Result Status (Unit {0}))

  unfoldable pub check_http : Option ℕ → Result Status (Unit {0})
  check_http none = err (http_to_grpc_status 0)
  check_http (some s) = if s == 200 then ok tt else err (http_to_grpc_status s)

  unfoldable pub check_content_type : ⦃show : Debug⦄ → Option Bytes → Result Status (Unit {0})
  check_content_type ⦃show⦄ ct =
      if is_some (and_then ct parse_grpc_content_type)
      then ok tt
      else err (Status.unknown (codes "unexpected response content-type: " ++ show.debug_option ct))

  unfoldable pub encoding_of :
      ⦃build : Features⦄ ⦃show : Debug⦄ → Option Bytes → Result Status Encoding
  encoding_of none = ok identity
  encoding_of ⦃show = show⦄ (some s) =
      ok_or (from_grpc_encoding s)
        (Status.internal (codes "unsupported grpc-encoding " ++ show.debug_str s))

  module _ ⦃b64 : Base64⦄ where
    -- The status in the head, if there is one.
    unfoldable pub head_status_of : api.Headers → Option (Result Status (Unit {0}))
    head_status_of headers =
        if is_some (api.get_str headers (codes "grpc-status"))
        then some (from_trailers headers)
        else none

    -- On the HTTP status and the headers of the response.
    unfoldable pub process_head :
        ⦃build : Features⦄ ⦃show : Debug⦄ → Option ℕ → api.Headers → Result Status Head
    unfolding check_http check_content_type encoding_of head_status_of
    process_head http_status headers = do
      check_http http_status
      check_content_type (api.get_str headers (codes "content-type"))
      encoding ← encoding_of (api.get_str headers (codes "grpc-encoding"))
      ok (record {
        response_headers = headers;
        response_encoding = encoding;
        head_status = head_status_of headers;
      })

    -- `finish_from_trailers` on what the live state holds: the headers and the status of the head, and
    -- the trailers that came behind the body. The status, and the trailers that are kept.
    unfoldable pub finish_from_trailers :
        api.Headers
        → Option (Result Status (Unit {0}))
        → Option api.Headers
        → Result Status (Unit {0}) × api.Headers
    finish_from_trailers response_headers head_status received =
        let trailers = unwrap_or received api.new in
        if is_some (api.get_str trailers (codes "grpc-status"))
        then (from_trailers trailers, trailers)
        else elim head_status [
          | some status ↦ (status, response_headers)
          | none ↦ (from_trailers trailers, trailers)
        ]
