-- ===== src/Server/Dispatch.antt =====
-- The run-phase dispatch of src/server/dispatch.rs: from an accepted connection to its response, for a
-- method of each of the four shapes.
pub mod Answers
pub mod Refusals
use trillium_grpc.Prelude.{ℕ, true, List, Option, none, some, Result, ok, err, ◌>>=◌}
use trillium_grpc.Deps.{HeadersApi, Base64, Debug, Features, Compressors}
use trillium_grpc.Status.{Status}
use trillium_grpc.Codec.{Codec}
use trillium_grpc.Encoding.{Encoding, default_max_message_size}
use trillium_grpc.Frame.Reader.{
  Poll, pending, ready, ReadState, Polled, new_state, poll_read_message,
}
use trillium_grpc.Server.Conn.{ConnApi}
use trillium_grpc.Server.Grpc
use trillium_grpc.Server.Grpc.{GrpcServerConn, into_parts}
use trillium_grpc.Server.Negotiate.{extract_request_encoding, negotiate_response_encoding}
use trillium_grpc.Server.Cancellation.{from_conn}
use trillium_grpc.Server.Cancellation.Steps.{StepCombinators, Tick, race}
use trillium_grpc.Server.Requests.{no_request, second_request}
use trillium_grpc.Server.Respond.{
  respond, error_response, error_response_with_trailers, finish_unary,
}
use trillium_grpc.Server.Streaming
use trillium_grpc.Server.Streaming.{Items}
use trillium_grpc.Server.Bidi.{new_upgrade}

module _ ⦃api : HeadersApi⦄ ⦃conns : ConnApi api.Headers⦄ where
  -- A service method: what it is given starts a future, whose polls change the call.
  pub record Method (X : Type 0) (A : Type 0) : Type 2 where
    pub Future : Type 1
    pub start : GrpcServerConn → X → Future
    pub poll : Future → Poll (Result Status A) × Future
    pub call : Future → GrpcServerConn

  -- Where the future of a call is that reads its one request and then runs the method.
  pub data Serving (Req : Type 0) (F : Type 1) : Type 1 where
    first : ReadState → GrpcServerConn → Serving Req F
    second : Req → ReadState → GrpcServerConn → Serving Req F
    running : F → Serving Req F

  -- The body's read state lives on the connection.
  abbrev pub put_back : GrpcServerConn → conns.Incoming → GrpcServerConn
  put_back g reader = record g { conn = conns.set_request_body g.conn reader }

  module _ {Req A : Type 0} (method : Method Req A) where
    abbrev pub call_of : Serving Req method.Future → GrpcServerConn
    call_of (first state g) = g
    call_of (second req state g) = g
    call_of (running f) = method.call f

    abbrev pub as_running :
        Poll (Result Status A) × method.Future → Poll (Result Status A) × Serving Req method.Future
    as_running (polled, f) = (polled, running f)

    unfoldable pub second_found :
        Req
        → GrpcServerConn
        → Polled Req conns.Incoming
        → Poll (Result Status A) × Serving Req method.Future
    second_found req g (pending, state, reader) = (pending, second req state (put_back g reader))
    second_found req g (ready none, state, reader) =
        as_running (method.poll (method.start (put_back g reader) req))
    second_found req g (ready (some (err status)), state, reader) =
        (ready (err status), second req state (put_back g reader))
    second_found req g (ready (some (ok _)), state, reader) =
        (ready (err second_request), second req state (put_back g reader))

    module _ ⦃crates : Compressors⦄ (codec : Codec Req) where
      abbrev pub poll_request : ReadState → GrpcServerConn → Polled Req conns.Incoming
      poll_request state g =
          poll_read_message codec.decode g.request_encoding default_max_message_size
            ⦃read = conns.read_body⦄ (conns.request_body g.conn) state

      unfoldable pub poll_second :
          Req → ReadState → GrpcServerConn → Poll (Result Status A) × Serving Req method.Future
      unfolding second_found
      poll_second req state g = second_found req g (poll_request state g)

      unfoldable pub first_found :
          GrpcServerConn
          → Polled Req conns.Incoming
          → Poll (Result Status A) × Serving Req method.Future
      unfolding poll_second
      first_found g (pending, state, reader) = (pending, first state (put_back g reader))
      first_found g (ready none, state, reader) =
          (ready (err no_request), first state (put_back g reader))
      first_found g (ready (some (err status)), state, reader) =
          (ready (err status), first state (put_back g reader))
      first_found g (ready (some (ok req)), state, reader) =
          poll_second req state (put_back g reader)

      -- A poll of `async { let req = read_one(&mut grpc).await?; f(&mut grpc, req).await }`.
      unfoldable pub poll_serving :
          Serving Req method.Future → Poll (Result Status A) × Serving Req method.Future
      unfolding first_found
      poll_serving (first state g) = first_found g (poll_request state g)
      poll_serving (second req state g) = poll_second req state g
      poll_serving (running f) = as_running (method.poll f)

  module _ ⦃build : Features⦄ ⦃show : Debug⦄ where
    -- What a call is checked for before its method runs: its encoding and its deadline.
    unfoldable pub admit : ℕ → conns.Conn → Result Status (Encoding × Option ℕ)
    admit now conn = do
      encoding ← extract_request_encoding (conns.request_headers conn)
      deadline ← from_conn now (conns.request_headers conn)
      ok (encoding, deadline)

  module _ ⦃b64 : Base64⦄ ⦃crates : Compressors⦄ where
    -- The response of a unary or a client-streaming call, once its race is decided.
    abbrev pub unary_response :
        {T : Type 0}
        → Codec T
        → Encoding
        → Option (Result Status T)
        → GrpcServerConn
        → Option conns.Conn
    unary_response codec encoding none g = none
    unary_response codec encoding (some result) g =
        let (conn, trailers) = into_parts g in
        some (finish_unary codec conn result encoding trailers)

    abbrev pub stream_response :
        {T : Type 0}
        → Codec T
        → Encoding
        → Option (Result Status (Items T))
        → GrpcServerConn
        → Option conns.Conn
    stream_response codec encoding none g = none
    stream_response codec encoding (some (ok stream)) g =
        let (conn, trailers) = into_parts g in
        some (respond conn (Streaming.new stream codec.encode encoding trailers true))
    stream_response codec encoding (some (err status)) g =
        let (conn, trailers) = into_parts g in
        some (error_response_with_trailers conn status trailers)

    -- The conn is upgraded with the state that drives the loop, or answered with the error.
    abbrev pub bidi_response :
        {Req Resp R : Type 0}
        → Codec Req
        → Codec Resp
        → Encoding
        → Encoding
        → Option (Result Status R)
        → GrpcServerConn
        → Option conns.Conn
    bidi_response req resp request_encoding response_encoding none g = none
    bidi_response req resp request_encoding response_encoding (some (ok responder)) g =
        let (conn, trailers) = into_parts g in
        let state =
          new_upgrade responder trailers req.decode resp.encode request_encoding response_encoding
            g.deadline in
        some (conns.halt (conns.upgrade (conns.with_state conn state)))
    bidi_response req resp request_encoding response_encoding (some (err status)) g =
        let (conn, trailers) = into_parts g in
        some (error_response_with_trailers conn status trailers)

    -- A call that is not admitted is answered with the error.
    abbrev pub or_refuse :
        Result Status (Encoding × Option ℕ)
        → conns.Conn
        → (Encoding → Option ℕ → Option conns.Conn)
        → Option conns.Conn
    or_refuse (err status) conn serve = some (error_response conn status)
    or_refuse (ok (encoding, deadline)) conn serve = serve encoding deadline

    module _ ⦃build : Features⦄ ⦃show : Debug⦄ ⦃steps : StepCombinators⦄ where
      -- `ticks` are the polls of the executor from the instant `now` on; `none` if they do not get to
      -- the response.
      unfoldable pub unary_impl :
          {Req Resp : Type 0}
          → Codec Req
          → Codec Resp
          → Method Req Resp
          → ℕ
          → List Tick
          → conns.Conn
          → Option conns.Conn
      unary_impl req resp method now ticks conn =
          or_refuse (admit now conn) conn λ encoding deadline.
            let (result, s) =
              race deadline now (poll_serving method req) ticks
                (first new_state (Grpc.new now conn encoding)) in
            unary_response resp (negotiate_response_encoding (conns.request_headers conn)) result
              (call_of method s)

      unfoldable pub client_streaming_impl :
          {Resp : Type 0}
          → Codec Resp
          → Method (Unit {0}) Resp
          → ℕ
          → List Tick
          → conns.Conn
          → Option conns.Conn
      client_streaming_impl resp method now ticks conn =
          or_refuse (admit now conn) conn λ encoding deadline.
            let (result, f) =
              race deadline now method.poll ticks (method.start (Grpc.new now conn encoding) tt) in
            unary_response resp (negotiate_response_encoding (conns.request_headers conn)) result
              (method.call f)

      unfoldable pub server_streaming_impl :
          {Req Resp : Type 0}
          → Codec Req
          → Codec Resp
          → Method Req (Items Resp)
          → ℕ
          → List Tick
          → conns.Conn
          → Option conns.Conn
      server_streaming_impl req resp method now ticks conn =
          or_refuse (admit now conn) conn λ encoding deadline.
            let (result, s) =
              race deadline now (poll_serving method req) ticks
                (first new_state (Grpc.new now conn encoding)) in
            stream_response resp (negotiate_response_encoding (conns.request_headers conn)) result
              (call_of method s)

      unfoldable pub bidi_prologue_impl :
          {Req Resp R : Type 0}
          → Codec Req
          → Codec Resp
          → Method (Unit {0}) R
          → ℕ
          → List Tick
          → conns.Conn
          → Option conns.Conn
      bidi_prologue_impl req resp prologue now ticks conn =
          or_refuse (admit now conn) conn λ encoding deadline.
            let (result, f) =
              race deadline now prologue.poll ticks
                (prologue.start (Grpc.new now conn encoding) tt) in
            bidi_response req resp encoding
              (negotiate_response_encoding (conns.request_headers conn)) result (prologue.call f)
