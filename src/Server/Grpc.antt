-- ===== src/Server/Grpc.antt =====
-- server/grpc_conn.rs: `GrpcServerConn`, what a service method has of its call.
use trillium_grpc.Prelude.{
  ℕ, ◌+◌, ◌≡◌, Option, none, some, Bytes, codes, Result, ok, and_then, map_option, arith, inl, inr,
  Option-cases,
}
use trillium_grpc.Deps.{HeadersApi, Debug}
use trillium_grpc.Status.{Status}
use trillium_grpc.Timeout.{parse_grpc_timeout, as_nanos}
use trillium_grpc.Encoding.{Encoding}
use trillium_grpc.Server.Conn.{ConnApi}
use trillium_grpc.Server.Requests
use trillium_grpc.Server.Requests.{RequestStream}
use trillium_grpc.Server.Cancellation.{from_conn, deadline_of}

module _ ⦃api : HeadersApi⦄ ⦃conns : ConnApi api.Headers⦄ where
  pub record GrpcServerConn : Type 1 where
    pub conn : conns.Conn
    pub response_trailers : api.Headers
    pub request_encoding : Encoding
    pub deadline : Option ℕ

  -- `new` at the instant `now`.
  unfoldable pub new : ℕ → conns.Conn → Encoding → GrpcServerConn
  new now conn request_encoding = record {
    conn = conn;
    response_trailers = api.new;
    request_encoding = request_encoding;
    deadline =
        map_option (λ d. now + as_nanos d)
          (and_then (api.get_str (conns.request_headers conn) (codes "grpc-timeout"))
            parse_grpc_timeout);
  }

  unfoldable pub received_headers : GrpcServerConn → api.Headers
  received_headers g = conns.request_headers g.conn

  -- What is done through `response_headers_mut` and `response_trailers_mut`.
  unfoldable pub update_response_headers :
      GrpcServerConn → (api.Headers → api.Headers) → GrpcServerConn
  update_response_headers g change = record g {
    conn = conns.set_response_headers g.conn (change (conns.response_headers g.conn));
  }

  unfoldable pub update_response_trailers :
      GrpcServerConn → (api.Headers → api.Headers) → GrpcServerConn
  update_response_trailers g change = record g { response_trailers = change g.response_trailers }

  -- The stream reads the request body of the connection.
  unfoldable pub requests :
      {T : Type 0} → GrpcServerConn → (Bytes → Result Status T) → RequestStream T conns.Incoming
  unfolding Requests.new
  requests g decode = Requests.new (conns.request_body g.conn) decode g.request_encoding

  unfoldable pub into_parts : GrpcServerConn → conns.Conn × api.Headers
  into_parts g = (g.conn, g.response_trailers)

  deadline-agrees :
      ⦃show : Debug⦄ (now : ℕ) (header : Option Bytes) (deadline : Option ℕ)
      → deadline_of now header ≡ ok deadline
      → map_option (λ d. now + as_nanos d) (and_then header parse_grpc_timeout) ≡ deadline
  unfolding deadline_of
  deadline-agrees now none deadline e = ground (arith, e)
  deadline-agrees now (some s) deadline e = elim (Option-cases (parse_grpc_timeout s)) [
    | inl bad ↦ absurd (ground (arith, bad, e))
    | inr (d, good) ↦ ground (arith, good, e)
  ]

  -- The deadline that a method sees is the one that its call is raced against, once the request has
  -- passed the check of its `grpc-timeout`: that a malformed one is passed over here is never seen.
  pub new-deadline :
      ⦃show : Debug⦄ (now : ℕ) (conn : conns.Conn) (e : Encoding) (deadline : Option ℕ)
      → from_conn now (conns.request_headers conn) ≡ ok deadline
      → (new now conn e).deadline ≡ deadline
  unfolding new from_conn
  new-deadline now conn e deadline passed = deadline-agrees now _ deadline passed
