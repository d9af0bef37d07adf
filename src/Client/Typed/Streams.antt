-- ===== src/Client/Typed/Streams.antt =====
-- `StreamingConn` of src/client/typed.rs.
use trillium_grpc.Prelude.{
  ℕ, ◌≡◌, false, List, Option, none, some, Bytes, Result, ok, err, map_option,
}
use trillium_grpc.Deps.{HeadersApi, Base64, Debug, Features, Compressors}
use trillium_grpc.Status.{Status}
use trillium_grpc.Codec.{Codec}
use trillium_grpc.Server.Cancellation.Polling.{Combinators}
use trillium_grpc.Client.Network.{Network}
use trillium_grpc.Client.State
use trillium_grpc.Client.State.{
  GrpcClientConn, buffer_request, add_ascii_metadata, add_binary_metadata, set_deadline_from_now,
}
use trillium_grpc.Timeout.{Duration}
use trillium_grpc.Client.Opening.{Step, open_head}
use trillium_grpc.Client.Driving.{Moment, recv}
use trillium_grpc.Prelude.{ap, refl, arith}
use trillium_grpc.Client.Lifecycle.{Event, run_events}
use trillium_grpc.Client.Lifecycle.History.{run_events_done}
use trillium_grpc.Client.Lifecycle.Ended.{recv-end}
use trillium_grpc.Client.Typed.{opened, and_next}

module _ {Resp : Type 0} where
  -- The item of the stream that a `recv` comes to.
  abbrev pub item_of : Result Status (Option Resp) → Option (Result Status Resp)
  item_of (ok none) = none
  item_of (ok (some message)) = some (ok message)
  item_of (err status) = some (err status)

module _ ⦃api : HeadersApi⦄ ⦃net : Network api.Headers⦄ where
  -- The engine of a streaming call. That it is moved into the future of a `recv` and back is not
  -- seen from outside.
  pub record StreamingConn (Req Resp : Type 0) : Type 0 where
    pub engine : GrpcClientConn Req Resp

  module _ {Req Resp : Type 0} where
    unfoldable pub server_streaming :
        ⦃build : Features⦄ ⦃crates : Compressors⦄
        → Codec Req
        → Codec Resp
        → ℕ
        → net.Client
        → Bytes
        → Req
        → StreamingConn Req Resp
    server_streaming req resp now client path request = record {
      engine = buffer_request (opened req resp now client path false) request;
    }

    unfoldable pub with_ascii_metadata :
        ⦃show : Debug⦄ → StreamingConn Req Resp → Bytes → Bytes → StreamingConn Req Resp
    with_ascii_metadata s key value = record s { engine = add_ascii_metadata s.engine key value }

    unfoldable pub with_binary_metadata :
        ⦃show : Debug⦄ → StreamingConn Req Resp → Bytes → Bytes → StreamingConn Req Resp
    with_binary_metadata s key value = record s { engine = add_binary_metadata s.engine key value }

    unfoldable pub with_timeout : ℕ → StreamingConn Req Resp → Duration → StreamingConn Req Resp
    with_timeout now s timeout = record s { engine = set_deadline_from_now now s.engine timeout }

    unfoldable pub metadata : StreamingConn Req Resp → Option api.Headers
    metadata s = State.headers s.engine

    unfoldable pub trailers : StreamingConn Req Resp → Option api.Headers
    trailers s = State.trailers s.engine

    module _ ⦃b64 : Base64⦄ ⦃build : Features⦄ ⦃show : Debug⦄ ⦃crates : Compressors⦄
        ⦃lib : Combinators⦄ where
      abbrev pub streamed :
          Step Req Resp (Option Resp)
          → Option (Option (Result Status Resp)) × StreamingConn Req Resp
      streamed (r, c) = (map_option item_of r, record { engine = c })

      -- `next` of a server stream.
      unfoldable pub next :
          Moment
          → StreamingConn Req Resp
          → Option (Option (Result Status Resp)) × StreamingConn Req Resp
      next at s = streamed (recv at s.engine)

      -- `.await` on a server stream.
      unfoldable pub read_head :
          ℕ → StreamingConn Req Resp → Option (Result Status (StreamingConn Req Resp))
      read_head now s = and_next (open_head now s.engine) λ c. some (ok (record { engine = c }))

module _ {Resp : Type 0} where
  item-end :
      (r : Option (Result Status (Option Resp)))
      → map_option item_of r ≡ some none
      → r ≡ some (ok none)
  item-end none e = absurd cc
  item-end (some (ok none)) e = refl
  item-end (some (ok (some m))) e = absurd (ground (arith, e))
  item-end (some (err status)) e = absurd (ground (arith, e))

module _ ⦃api : HeadersApi⦄ ⦃net : Network api.Headers⦄ ⦃b64 : Base64⦄ ⦃build : Features⦄
    ⦃show : Debug⦄ ⦃crates : Compressors⦄ ⦃lib : Combinators⦄ {Req Resp : Type 0} where
  -- A server stream that has ended yields nothing more, whatever else is done with its call.
  pub next_fused :
      (at later : Moment) (s : StreamingConn Req Resp) (events : List (Event Req))
      → (next at s).0 ≡ some none
      → (next later (record { engine = run_events events (next at s).1.engine })).0 ≡ some none
  unfolding next
  next_fused at later s events over =
      let ended = recv-end at s.engine (item-end _ over) in
      ap (map_option item_of) (run_events_done events (recv at s.engine).1 later ended).1
