-- ===== src/Client/Driving.antt =====
-- How a call of client/conn.rs is driven: `send`, `close_send`, `recv` and `read_one`.
use trillium_grpc.Prelude.{
  ℕ, true, ◌++◌, List, map, Option, none, some, Bytes, codes, if◌then◌else◌, Result, ok, err,
  map_err,
}
use trillium_grpc.Deps.{HeadersApi, Base64, Debug, Features, Compressors}
use trillium_grpc.Status
use trillium_grpc.Status.{Status}
use trillium_grpc.Frame.Source.{AsyncRead}
use trillium_grpc.Frame.Reader.{Poll, ready, Polled, poll_read_message}
use trillium_grpc.Server.Cancellation.Polling.{Combinators, map_poll}
use trillium_grpc.Client.Network.{Network, Look}
use trillium_grpc.Client.Race.{Tick, race, race_step}
use trillium_grpc.Client.State
use trillium_grpc.Client.State.{
  Live, Inner, GrpcClientConn, encode_message, is_trailers_only, finish,
}
use trillium_grpc.Client.Opening.{Step, wake_of, materialize}

abbrev pub send_after_close : Status
send_after_close = Status.internal (codes "send after close_send")

abbrev pub send_after_start : Status
send_after_start = Status.internal (codes "send after response started")

abbrev pub write_error : Bytes → Status
write_error e = Status.unavailable (codes "write error: " ++ e)

abbrev pub close_error : Bytes → Status
close_error e = Status.unavailable (codes "close error: " ++ e)

abbrev pub bodied_trailers_only : Status
bodied_trailers_only =
    Status.internal (codes "trailers-only response (grpc-status in headers) carried a message body")

-- When the request of a `recv` fires, when its read starts, and what the read's polls find.
pub record Moment : Type 0 where
  pub fires : ℕ
  pub reads : ℕ
  pub ticks : List Tick

module _ ⦃api : HeadersApi⦄ ⦃net : Network api.Headers⦄ where
  abbrev pub live_polled :
      {T R : Type 0} → Live R → Polled T R → Poll (Option (Result Status T)) × Live R
  live_polled live (polled, state, reader) =
      (polled, record live { read_state = state; reader = reader })

  -- A poll of `poll_read_message` on a live response.
  abbrev pub poll_live :
      ⦃crates : Compressors⦄ {T R : Type 0}
      → AsyncRead R
      → (Bytes → Result Status T)
      → ℕ
      → Live R
      → Poll (Option (Result Status T)) × Live R
  poll_live read decode max live = live_polled live (
      poll_read_message decode live.response_encoding max ⦃read = read⦄ live.reader live.read_state)

abbrev pub Read : Type 0 → Type 0
Read Resp = Result Status (Option (Result Status Resp))

module _ ⦃api : HeadersApi⦄ ⦃net : Network api.Headers⦄ {Req Resp : Type 0} where
  abbrev pub reading_polled :
      GrpcClientConn Req Resp
      → Poll (Option (Result Status Resp)) × Live net.Conn
      → Poll (Read Resp) × GrpcClientConn Req Resp
  reading_polled c (polled, live) = (map_poll ok polled, record c { inner = State.reading live })

  abbrev pub duplex_polled :
      GrpcClientConn Req Resp
      → Poll (Option (Result Status Resp)) × Live net.Upgrade
      → Poll (Read Resp) × GrpcClientConn Req Resp
  duplex_polled c (polled, live) = (map_poll ok polled, record c { inner = State.duplex live })

  unfoldable pub poll_inner :
      ⦃crates : Compressors⦄
      → GrpcClientConn Req Resp
      → Inner
      → Poll (Read Resp) × GrpcClientConn Req Resp
  poll_inner c (State.reading live) =
      reading_polled c (poll_live net.read_conn c.decode c.max_message_size live)
  poll_inner c (State.duplex live) =
      duplex_polled c (poll_live net.read_upgrade c.decode c.max_message_size live)
  poll_inner c _ = (ready (ok none), c)

  -- A poll of the future that reads one frame.
  unfoldable pub poll_frame :
      ⦃crates : Compressors⦄ → GrpcClientConn Req Resp → Poll (Read Resp) × GrpcClientConn Req Resp
  unfolding poll_inner
  poll_frame c = poll_inner c c.inner

  module _ ⦃b64 : Base64⦄ where
    -- The end of the body gives the verdict of the trailers.
    abbrev pub ended :
        Result Status (Unit {0}) × GrpcClientConn Req Resp → Step Req Resp (Option Resp)
    ended (ok _, c) = (some (ok none), c)
    ended (err status, c) = (some (err status), c)

    -- What a read says of the call.
    abbrev pub after_read :
        Option (Read Resp) × GrpcClientConn Req Resp → Step Req Resp (Option Resp)
    after_read (none, c) = (none, c)
    after_read (some (err status), c) = (some (err status), c)
    after_read (some (ok none), c) = ended (finish c)
    after_read (some (ok (some (err status))), c) = (some (err status), (finish c).1)
    after_read (some (ok (some (ok message))), c) =
        if is_trailers_only c
        then (some (err bodied_trailers_only), (finish c).1)
        else (some (ok (some message)), c)

    unfoldable pub read_one :
        ⦃crates : Compressors⦄ ⦃lib : Combinators⦄
        → Moment
        → GrpcClientConn Req Resp
        → Step Req Resp (Option Resp)
    unfolding poll_frame
    read_one at c = after_read (race_step c.deadline at.reads poll_frame at.ticks c)

    -- `recv` once the call is no longer pending.
    unfoldable pub recv_inner :
        ⦃crates : Compressors⦄ ⦃lib : Combinators⦄
        → Moment
        → GrpcClientConn Req Resp
        → Inner
        → Step Req Resp (Option Resp)
    unfolding read_one
    recv_inner at c (State.pending p) = (none, c)
    recv_inner at c (State.reading live) = read_one at c
    recv_inner at c (State.duplex live) = read_one at c
    recv_inner at c (State.done response_headers trailers) = (some (ok none), c)
    recv_inner at c (State.failed status) =
        (some (err status), record c { inner = State.done api.new api.new })

    -- `?` on what firing the request gives.
    abbrev pub then_recv :
        ⦃crates : Compressors⦄ ⦃lib : Combinators⦄
        → Moment
        → Step Req Resp (Unit {0})
        → Step Req Resp (Option Resp)
    then_recv at (none, c) = (none, c)
    then_recv at (some (err status), c) = (some (err status), c)
    then_recv at (some (ok _), c) = recv_inner at c c.inner

    unfoldable pub recv_from :
        ⦃crates : Compressors⦄ ⦃lib : Combinators⦄ ⦃build : Features⦄ ⦃show : Debug⦄
        → Moment
        → GrpcClientConn Req Resp
        → Inner
        → Step Req Resp (Option Resp)
    unfolding recv_inner materialize
    recv_from at c (State.pending p) = then_recv at (materialize at.fires c p)
    recv_from at c inner = recv_inner at c inner

    unfoldable pub recv :
        ⦃crates : Compressors⦄ ⦃lib : Combinators⦄ ⦃build : Features⦄ ⦃show : Debug⦄
        → Moment
        → GrpcClientConn Req Resp
        → Step Req Resp (Option Resp)
    unfolding recv_from
    recv at c = recv_from at c c.inner

    -- Closing the write half of a live full-duplex call.
    abbrev pub closed :
        GrpcClientConn Req Resp
        → Live net.Upgrade
        → Result Bytes (Unit {0}) × net.Upgrade
        → Step Req Resp (Unit {0})
    closed c live (result, transport) = (
      some (map_err close_error result),
      record c { inner = State.duplex (record live { reader = transport }) },
    )

    abbrev pub close_live : GrpcClientConn Req Resp → Inner → Step Req Resp (Unit {0})
    close_live c (State.duplex live) = closed c live (net.close live.reader)
    close_live c _ = (some (ok tt), c)

    abbrev pub then_close : Step Req Resp (Unit {0}) → Step Req Resp (Unit {0})
    then_close (none, c) = (none, c)
    then_close (some (err status), c) = (some (err status), c)
    then_close (some (ok _), c) = close_live c c.inner

    unfoldable pub close_from :
        ⦃lib : Combinators⦄ ⦃build : Features⦄ ⦃show : Debug⦄
        → ℕ
        → GrpcClientConn Req Resp
        → Inner
        → Step Req Resp (Unit {0})
    unfolding materialize
    close_from now c (State.pending p) =
        let p' = record p { send_closed = true } in
        let opened = materialize now (record c { inner = State.pending p' }) p' in
        if c.full_duplex then then_close opened else opened
    close_from now c inner = close_live c inner

    unfoldable pub close_send :
        ⦃lib : Combinators⦄ ⦃build : Features⦄ ⦃show : Debug⦄
        → ℕ
        → GrpcClientConn Req Resp
        → Step Req Resp (Unit {0})
    unfolding close_from
    close_send now c = close_from now c c.inner

  -- A write of a frame on a live full-duplex call, and the transport behind it.
  abbrev pub written :
      ⦃lib : Combinators⦄
      → ℕ
      → GrpcClientConn Req Resp
      → Live net.Upgrade
      → List (Look (Unit {0})) × net.Upgrade
      → Step Req Resp (Unit {0})
  written now c live (looks, transport) = (
    race c.deadline now (map (wake_of write_error) looks),
    record c { inner = State.duplex (record live { reader = transport }) },
  )

  unfoldable pub send_frame :
      ⦃lib : Combinators⦄ → ℕ → GrpcClientConn Req Resp → Bytes → Inner → Step Req Resp (Unit {0})
  send_frame now c frame (State.pending p) =
      if p.send_closed
      then (some (err send_after_close), c)
      else (some (ok tt), record c { inner = State.pending (record p { body = p.body ++ frame }) })
  send_frame now c frame (State.duplex live) = written now c live (net.write_all live.reader frame)
  send_frame now c frame _ = (some (err send_after_start), c)

  unfoldable pub send_encoded :
      ⦃lib : Combinators⦄
      → ℕ
      → GrpcClientConn Req Resp
      → Result Status Bytes
      → Step Req Resp (Unit {0})
  unfolding send_frame
  send_encoded now c (ok frame) = send_frame now c frame c.inner
  send_encoded now c (err status) = (some (err status), c)

  unfoldable pub send :
      ⦃crates : Compressors⦄ ⦃lib : Combinators⦄
      → ℕ
      → GrpcClientConn Req Resp
      → Req
      → Step Req Resp (Unit {0})
  unfolding send_encoded encode_message
  send now c message = send_encoded now c (encode_message c message)
