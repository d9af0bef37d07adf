-- ===== src/Client/Typed/Bidi.antt =====
-- `BidiConn` of src/client/typed.rs.
use trillium_grpc.Prelude.{ℕ, true, Option, Bytes, Result, map_option}
use trillium_grpc.Deps.{HeadersApi, Base64, Debug, Features, Compressors}
use trillium_grpc.Status.{Status}
use trillium_grpc.Codec.{Codec}
use trillium_grpc.Server.Cancellation.Polling.{Combinators}
use trillium_grpc.Client.Network.{Network}
use trillium_grpc.Client.State
use trillium_grpc.Client.State.{
  GrpcClientConn, add_ascii_metadata, add_binary_metadata, set_deadline_from_now,
}
use trillium_grpc.Timeout.{Duration}
use trillium_grpc.Client.Opening.{Step}
use trillium_grpc.Client.Driving.{Moment, send, close_send, recv}
use trillium_grpc.Client.Typed.{opened}
use trillium_grpc.Client.Typed.Streams.{item_of}

module _ ⦃api : HeadersApi⦄ ⦃net : Network api.Headers⦄ where
  pub record BidiConn (Req Resp : Type 0) : Type 0 where
    pub engine : GrpcClientConn Req Resp

  module _ {Req Resp : Type 0} where
    unfoldable pub bidi :
        ⦃build : Features⦄ → Codec Req → Codec Resp → ℕ → net.Client → Bytes → BidiConn Req Resp
    bidi req resp now client path = record { engine = opened req resp now client path true }

    unfoldable pub with_ascii_metadata :
        ⦃show : Debug⦄ → BidiConn Req Resp → Bytes → Bytes → BidiConn Req Resp
    with_ascii_metadata b key value = record b { engine = add_ascii_metadata b.engine key value }

    unfoldable pub with_binary_metadata :
        ⦃show : Debug⦄ → BidiConn Req Resp → Bytes → Bytes → BidiConn Req Resp
    with_binary_metadata b key value = record b { engine = add_binary_metadata b.engine key value }

    unfoldable pub with_timeout : ℕ → BidiConn Req Resp → Duration → BidiConn Req Resp
    with_timeout now b timeout = record b { engine = set_deadline_from_now now b.engine timeout }

    unfoldable pub metadata : BidiConn Req Resp → Option api.Headers
    metadata b = State.headers b.engine

    unfoldable pub trailers : BidiConn Req Resp → Option api.Headers
    trailers b = State.trailers b.engine

    -- What a step of the engine gives, with the engine put back.
    abbrev pub driven :
        {A : Type 0} → Step Req Resp A → Option (Result Status A) × BidiConn Req Resp
    driven (r, c) = (r, record { engine = c })

    module _ ⦃b64 : Base64⦄ ⦃build : Features⦄ ⦃show : Debug⦄ ⦃crates : Compressors⦄
        ⦃lib : Combinators⦄ where
      abbrev pub exchanged :
          Step Req Resp (Option Resp) → Option (Option (Result Status Resp)) × BidiConn Req Resp
      exchanged (r, c) = (map_option item_of r, record { engine = c })

      unfoldable pub next :
          Moment → BidiConn Req Resp → Option (Option (Result Status Resp)) × BidiConn Req Resp
      next at b = exchanged (recv at b.engine)

      unfoldable pub recv_message :
          Moment → BidiConn Req Resp → Option (Result Status (Option Resp)) × BidiConn Req Resp
      recv_message at b = driven (recv at b.engine)

      unfoldable pub send_message :
          ℕ → BidiConn Req Resp → Req → Option (Result Status (Unit {0})) × BidiConn Req Resp
      send_message now b message = driven (send now b.engine message)

      unfoldable pub half_close :
          ℕ → BidiConn Req Resp → Option (Result Status (Unit {0})) × BidiConn Req Resp
      half_close now b = driven (close_send now b.engine)
