-- ===== src/Client/Accepted.antt =====
-- A call of src/client/conn.rs in the eyes of src/server/dispatch.rs: the request that is fired passes
-- the server's checks.
use trillium_grpc.Prelude.{
  ℕ, ◌+◌, ◌-◌, ◌*◌, ◌≤◌, ◌≡◌, ap, ◌∙◌, sym, true, some, Bytes, codes, ok, subst, arith, unwrap_or,
  [],
}
use trillium_grpc.Text.Utf8.{is_utf8}
use trillium_grpc.Deps.{HeadersApi, Base64, Debug, Features}
use trillium_grpc.Metadata.Invariant.{IsWellFormed}
use trillium_grpc.ContentType.{parse_grpc_content_type, has_te_trailers}
use trillium_grpc.ContentType.Trailers.{has_te_trailers_lem}
use trillium_grpc.Timeout.{max_value}
use trillium_grpc.Timeout.RoundTrip.{of_nanos, as_nanos-of_nanos}
use trillium_grpc.Server.Conn.{ConnApi}
use trillium_grpc.Server.Negotiate.{
  Declares, extract_request_encoding, extract_request_encoding_iff,
}
use trillium_grpc.Server.Preflight.{codec_matches, prepare_grpc_conn}
use trillium_grpc.Server.Preflight.Accepts.{codec_matches_lem, prepare_accepts}
use trillium_grpc.Server.Cancellation.{from_conn, from_conn-covers}
use trillium_grpc.Client.Network.{Network}
use trillium_grpc.Client.State.{Pending, GrpcClientConn}
use trillium_grpc.Client.Opening.{request_headers_of, build_request}
use trillium_grpc.Client.Request.{request-type, request-encoding, request-timeout, request-te}

module _ ⦃api : HeadersApi⦄ ⦃net : Network api.Headers⦄ ⦃b64 : Base64⦄ ⦃build : Features⦄
    {Req Resp : Type 0} (now : ℕ) (c : GrpcClientConn Req Resp) (p : Pending) (body : Bytes)
    (good : IsWellFormed p.request_metadata) where
  headers-build_request :
      net.request_headers (build_request now c p body)
      ≡ request_headers_of now c p (net.default_headers p.client)
  unfolding build_request
  headers-build_request =
      net.headers-body _ body
      ∙ net.headers-set _ _
      ∙ ap (request_headers_of now c p) (net.headers-post p.client p.path)

  -- The request that is fired for a call with well-formed metadata, over a client whose default headers
  -- name the codec that the call compresses with, or none if it does not, is accepted by the preflight
  -- of a server of the same codec suffix, and the server reads its messages with that codec.
  pub request_accepted :
      ⦃show : Debug⦄ ⦃conns : ConnApi api.Headers⦄ (conn : conns.Conn) (suffix : Bytes)
      → is_utf8 p.content_type ≡ true
      → parse_grpc_content_type p.content_type ≡ some suffix
      → Declares
          (api.get_str (net.default_headers p.client) (codes "grpc-encoding"))
          c.outbound_encoding
      → conns.request_headers conn ≡ net.request_headers (build_request now c p body)
      → ((accepted : conns.Conn) × (prepare_grpc_conn conn suffix ≡ ok accepted))
        × (extract_request_encoding (conns.request_headers conn) ≡ ok c.outbound_encoding)
  request_accepted ⦃conns = conns⦄ conn suffix text names codec sent =
      let headers = sent ∙ headers-build_request in
      let typed : codec_matches conn suffix ≡ true =
        codec_matches_lem conn p.content_type suffix
          (ap (λ h. api.get_str h (codes "content-type")) headers
            ∙ request-type now c p _ good text)
          names in
      let te : has_te_trailers (conns.request_headers conn) ≡ true = has_te_trailers_lem _ (
        ap (λ h. unwrap_or (api.get_values h (codes "te")) []) headers
        ∙ request-te now c p _ good) in
      (
        (_, prepare_accepts conn suffix typed te),
        (extract_request_encoding_iff _ c.outbound_encoding).1 (
            subst (λ h. Declares (api.get_str h (codes "grpc-encoding")) c.outbound_encoding)
              (sym headers) (request-encoding now c p _ good codec)),
      )

  -- A call's deadline reaches the server: counted from the request's arrival, it expires no sooner than
  -- the time that the call had left, and later by at most one part in 99,999, if that is at most
  -- 99,999,999 hours.
  pub request_deadline :
      ⦃show : Debug⦄ (deadline arrival : ℕ)
      → c.deadline ≡ some deadline
      → deadline - now ≤ max_value * (3600 * 1_000_000_000)
      → (t : ℕ) × (from_conn arrival (net.request_headers (build_request now c p body))
          ≡ ok (some t))
        × (arrival + (deadline - now) ≤ t)
        × ((t - (arrival + (deadline - now))) * 99_999 ≤ deadline - now)
  request_deadline deadline arrival e le =
      let (t, read, above, near) =
        from_conn-covers arrival (net.request_headers (build_request now c p body))
          (of_nanos (deadline - now))
          (ap (λ h. api.get_str h (codes "grpc-timeout")) headers-build_request
            ∙ request-timeout now c p _ good deadline e)
          (omega (arith, as_nanos-of_nanos (deadline - now), le)) in
      (
        t,
        read,
        omega (arith, as_nanos-of_nanos (deadline - now), above),
        omega (arith, as_nanos-of_nanos (deadline - now), near),
      )
