-- ===== src/Client/Opening.antt =====
-- How a call of client/conn.rs fires its request and takes the head: `build_request`,
-- `materialize_reading`, `materialize_duplex` and `open_head`.
use trillium_grpc.Prelude.{
  ℕ, ◌-◌, [], ◌++◌, List, map, Option, none, some, Bytes, codes, if◌then◌else◌, Result, ok, err,
  map_err,
}
use trillium_grpc.Deps.{HeadersApi, Base64, Debug, Features}
use trillium_grpc.Metadata
use trillium_grpc.Status
use trillium_grpc.Status.{Status}
use trillium_grpc.Timeout.{format_grpc_timeout}
use trillium_grpc.Timeout.RoundTrip.{of_nanos}
use trillium_grpc.Encoding.{Encoding, is_identity, as_grpc_encoding, accepted_encodings}
use trillium_grpc.Frame.Reader.{Poll, pending, ready, new_state}
use trillium_grpc.Server.Cancellation.Polling.{Combinators}
use trillium_grpc.Client.Head.{Head, process_head}
use trillium_grpc.Client.Network.{Network, Look}
use trillium_grpc.Client.Race.{Wake, race}
use trillium_grpc.Client.State
use trillium_grpc.Client.State.{Pending, Live, Inner, GrpcClientConn, fail}

unfoldable pub transport_error : Bytes → Status
transport_error e = Status.unavailable (codes "transport error: " ++ e)

-- A poll of a future of the transport whose error is mapped.
abbrev pub map_found :
    {A : Type 0} → (Bytes → Status) → Poll (Result Bytes A) → Poll (Result Status A)
map_found f pending = pending
map_found f (ready r) = ready (map_err f r)

abbrev pub wake_of : {A : Type 0} → (Bytes → Status) → Look A → Wake A
wake_of f l = record { cancelled = l.cancelled; now = l.now; future = map_found f l.found }

module _ ⦃api : HeadersApi⦄ where
  -- The headers that `build_request` sets, in order, on those that the client starts from.
  unfoldable pub base_headers : ⦃build : Features⦄ → Bytes → api.Headers → api.Headers
  base_headers content_type h =
      let typed = api.insert h (codes "content-type") content_type in
      let te = api.insert typed (codes "te") (codes "trailers") in
      api.insert te (codes "grpc-accept-encoding") accepted_encodings

  unfoldable pub encoding_header : Encoding → api.Headers → api.Headers
  encoding_header e h =
      if is_identity e then h else api.insert h (codes "grpc-encoding") (as_grpc_encoding e)

  -- `deadline.saturating_duration_since(now)`.
  unfoldable pub timeout_header : ℕ → Option ℕ → api.Headers → api.Headers
  timeout_header now none h = h
  timeout_header now (some deadline) h =
      api.insert h (codes "grpc-timeout") (format_grpc_timeout (of_nanos (deadline - now)))

module _ ⦃api : HeadersApi⦄ ⦃net : Network api.Headers⦄ where
  -- What a step of a call gives: its result, or nothing if the polls do not get there, and the call.
  abbrev pub Step : Type 0 → Type 0 → Type 0 → Type 0
  Step Req Resp A = Option (Result Status A) × GrpcClientConn Req Resp

  abbrev pub live_of : {R : Type 0} → R → Head → Live R
  live_of reader head = record {
    reader = reader;
    response_headers = head.response_headers;
    read_state = new_state;
    response_encoding = head.response_encoding;
    head_status = head.head_status;
  }

  module _ ⦃b64 : Base64⦄ ⦃build : Features⦄ {Req Resp : Type 0} where
    unfoldable pub request_headers_of :
        ℕ → GrpcClientConn Req Resp → Pending → api.Headers → api.Headers
    unfolding base_headers encoding_header timeout_header
    request_headers_of now c p h = Metadata.write_into p.request_metadata (
        timeout_header now c.deadline
          (encoding_header c.outbound_encoding (base_headers p.content_type h)))

    unfoldable pub build_request : ℕ → GrpcClientConn Req Resp → Pending → Bytes → net.Request
    unfolding request_headers_of
    build_request now c p body =
        let posted = net.post p.client p.path in
        net.with_body
          (net.set_request_headers posted (request_headers_of now c p (net.request_headers posted)))
          body

    -- The call once its head is checked; `mk` is the phase that it goes into.
    abbrev pub after_head :
        (Head → Inner) → GrpcClientConn Req Resp → Result Status Head → Step Req Resp (Unit {0})
    after_head mk c (ok head) = (some (ok tt), record c { inner = mk head })
    after_head mk c (err status) = let (result, c') = fail c status in (some result, c')

    abbrev pub after_open :
        ⦃show : Debug⦄
        → (net.Conn → Head → Inner)
        → GrpcClientConn Req Resp
        → Option (Result Status net.Conn)
        → Step Req Resp (Unit {0})
    after_open mk c none = (none, c)
    after_open mk c (some (err status)) = let (result, c') = fail c status in (some result, c')
    after_open mk c (some (ok conn)) =
        after_head (mk conn) c (process_head (net.status conn) (net.response_headers conn))

    abbrev pub take_body : GrpcClientConn Req Resp → Pending → GrpcClientConn Req Resp
    take_body c p = record c { inner = State.pending (record p { body = [] }) }

    -- The request with the body taken out of the call, and what its future comes to.
    abbrev pub fire_with :
        ⦃show : Debug⦄ ⦃lib : Combinators⦄
        → (net.Request → List (Look net.Conn))
        → (net.Conn → Head → Inner)
        → ℕ
        → GrpcClientConn Req Resp
        → Pending
        → Option Status
        → Step Req Resp (Unit {0})
    fire_with send mk now c p (some status) =
        let (result, c') = fail (record c { init_error = none }) status in (some result, c')
    fire_with send mk now c p none =
        let request = build_request now c p p.body in
        after_open mk (take_body c p)
          (race c.deadline now (map (wake_of transport_error) (send request)))

    unfoldable pub materialize_reading :
        ⦃show : Debug⦄ ⦃lib : Combinators⦄
        → ℕ
        → GrpcClientConn Req Resp
        → Pending
        → Step Req Resp (Unit {0})
    materialize_reading now c p =
        fire_with net.fire (λ conn head. State.reading (live_of conn head)) now c p c.init_error

    unfoldable pub materialize_duplex :
        ⦃show : Debug⦄ ⦃lib : Combinators⦄
        → ℕ
        → GrpcClientConn Req Resp
        → Pending
        → Step Req Resp (Unit {0})
    materialize_duplex now c p =
        fire_with net.upgrade (λ conn head. State.duplex (live_of (net.into_upgrade conn) head)) now
          c p c.init_error

    -- Firing the request of a call that is pending.
    unfoldable pub materialize :
        ⦃show : Debug⦄ ⦃lib : Combinators⦄
        → ℕ
        → GrpcClientConn Req Resp
        → Pending
        → Step Req Resp (Unit {0})
    unfolding materialize_duplex materialize_reading
    materialize now c p =
        if c.full_duplex then materialize_duplex now c p else materialize_reading now c p

    unfoldable pub head_opened :
        ⦃show : Debug⦄ ⦃lib : Combinators⦄
        → ℕ
        → GrpcClientConn Req Resp
        → Inner
        → Step Req Resp (Unit {0})
    unfolding materialize
    head_opened now c (State.pending p) = materialize now c p
    head_opened now c _ = (some (ok tt), c)

    unfoldable pub open_head :
        ⦃show : Debug⦄ ⦃lib : Combinators⦄ → ℕ → GrpcClientConn Req Resp → Step Req Resp (Unit {0})
    unfolding head_opened
    open_head now c = head_opened now c c.inner
