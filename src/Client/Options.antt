-- ===== src/Client/Options.antt =====
-- client/service_client.rs: the options of a service client, kept in its default headers.
use trillium_grpc.Prelude.{◌≡◌, refl, true, Option, codes, if◌then◌else◌, and_then, unwrap_or, ◌==◌}
use trillium_grpc.Deps.{HeadersApi, Features}
use trillium_grpc.Encoding.{Encoding, identity, is_identity, from_grpc_encoding, as_grpc_encoding}
use trillium_grpc.Encoding.Tokens.{is_built, token-is_utf8, from_grpc_encoding_iff}
use trillium_grpc.Timeout.{Duration, format_grpc_timeout, parse_grpc_timeout, as_nanos}

module _ ⦃api : HeadersApi⦄ where
  -- Each takes the client's default headers and returns them changed.
  unfoldable pub set_outbound_compression : api.Headers → Encoding → api.Headers
  set_outbound_compression headers encoding =
      if is_identity encoding
      then api.remove headers (codes "grpc-encoding")
      else api.insert headers (codes "grpc-encoding") (as_grpc_encoding encoding)

  unfoldable pub outbound_compression : ⦃build : Features⦄ → api.Headers → Encoding
  outbound_compression headers =
      unwrap_or (and_then (api.get_str headers (codes "grpc-encoding")) from_grpc_encoding) identity

  unfoldable pub set_default_timeout : api.Headers → Duration → api.Headers
  set_default_timeout headers duration =
      if as_nanos duration == 0
      then api.remove headers (codes "grpc-timeout")
      else api.insert headers (codes "grpc-timeout") (format_grpc_timeout duration)

  unfoldable pub default_timeout : api.Headers → Option Duration
  default_timeout headers = and_then (api.get_str headers (codes "grpc-timeout")) parse_grpc_timeout

  -- The compression that was set last, `Identity` included, is the one that calls are made with, if
  -- the build has it.
  pub outbound-set :
      ⦃build : Features⦄ (headers : api.Headers) (e : Encoding)
      → is_built e ≡ true
      → outbound_compression (set_outbound_compression headers e) ≡ e
  unfolding outbound_compression set_outbound_compression
  outbound-set headers identity built =
      rw (api.get_str-remove_self headers (codes "grpc-encoding")) refl
  outbound-set headers e built =
      rw
        (
          api.get_str-insert_self headers (codes "grpc-encoding") (as_grpc_encoding e)
              (token-is_utf8 e),
          (from_grpc_encoding_iff (as_grpc_encoding e) e).1 (refl, built),
        )
        refl
