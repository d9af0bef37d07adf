-- ===== src/Server/Preflight/Accepts.antt =====
-- When `prepare_grpc_conn` of src/server/dispatch.rs lets a request through.
use trillium_grpc.Prelude.{◌≡◌, refl, true, some, Bytes, codes, ok, beq_refl}
use trillium_grpc.Deps.{HeadersApi, Features}
use trillium_grpc.ContentType.{parse_grpc_content_type, has_te_trailers}
use trillium_grpc.Server.Conn.{ConnApi}
use trillium_grpc.Server.Negotiate.{negotiate_response_encoding}
use trillium_grpc.Server.Preflight.{
  is_served, codec_matches, accept_conn, with_encoding, prepare_grpc_conn,
}

module _ ⦃api : HeadersApi⦄ ⦃conns : ConnApi api.Headers⦄ where
  pub codec_matches_lem :
      (conn : conns.Conn) (content_type suffix : Bytes)
      → api.get_str (conns.request_headers conn) (codes "content-type") ≡ some content_type
      → parse_grpc_content_type content_type ≡ some suffix
      → codec_matches conn suffix ≡ true
  unfolding codec_matches is_served
  codec_matches_lem conn content_type suffix found names = rw (found, names) (beq_refl suffix)

  pub prepare_accepts :
      ⦃build : Features⦄ (conn : conns.Conn) (suffix : Bytes)
      → codec_matches conn suffix ≡ true
      → has_te_trailers (conns.request_headers conn) ≡ true
      → prepare_grpc_conn conn suffix
        ≡ ok (
            with_encoding
              (accept_conn conn suffix)
              (negotiate_response_encoding (conns.request_headers conn)))
  unfolding prepare_grpc_conn
  prepare_accepts conn suffix served te = rw (served, te) refl
