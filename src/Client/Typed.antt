-- ===== src/Client/Typed.antt =====
-- The typed handles of src/client/typed.rs: `UnaryConn`, `StreamingConn` and `BidiConn`.
pub mod Unary
pub mod Streams
pub mod Bidi
use trillium_grpc.Prelude.{
  ℕ, Bool, false, [], ◌∷◌, List, Option, none, some, Bytes, Result, ok, err, codes, and_then,
  map_option, unwrap_or, ◌>>◌, ok_or,
}
use trillium_grpc.Deps.{HeadersApi, Base64, Debug, Features, Compressors}
use trillium_grpc.Metadata
use trillium_grpc.Status
use trillium_grpc.Status.{Status}
use trillium_grpc.Timeout.{Duration, parse_grpc_timeout}
use trillium_grpc.Codec.{Codec}
use trillium_grpc.Server.Cancellation.Polling.{Combinators}
use trillium_grpc.Client.Network.{Network}
use trillium_grpc.Client.State
use trillium_grpc.Client.State.{
  GrpcClientConn, buffer_request, add_ascii_metadata, add_binary_metadata, set_deadline_from_now,
  headers, trailers,
}
use trillium_grpc.Client.Opening.{Step}
use trillium_grpc.Client.Driving.{Moment, send, close_send, recv}

abbrev pub several_messages : Status
several_messages = Status.internal (codes "unary response had multiple messages")

abbrev pub no_message : Status
no_message = Status.internal (codes "unary response had no message")

abbrev pub not_awaited : Status
not_awaited = Status.internal (codes "call has not been awaited")

-- When the request messages are sent, when the call is half-closed, and the two reads.
pub record Schedule : Type 0 where
  pub sent_at : ℕ
  pub closed_at : ℕ
  pub first_read : Moment
  pub second_read : Moment

-- What a response is found to be: its message, if there was one, and the verdict.
abbrev pub Outcome : Type 0 → Type 0
Outcome Resp = Option Resp × Result Status (Unit {0})

module _ {Resp : Type 0} where
  abbrev pub message_of : Outcome Resp → Result Status Resp
  message_of (message, verdict) = do verdict; ok_or message no_message

  abbrev pub message_from : Option (Outcome Resp) → Result Status Resp
  message_from none = err not_awaited
  message_from (some outcome) = message_of outcome

module _ ⦃api : HeadersApi⦄ ⦃net : Network api.Headers⦄ where
  unfoldable pub default_timeout : net.Client → Option Duration
  default_timeout client =
      and_then (api.get_str (net.default_headers client) (codes "grpc-timeout")) parse_grpc_timeout

  -- The request source is the messages that it will yield.
  pub record UnaryConn (Req Resp : Type 0) : Type 0 where
    pub engine : GrpcClientConn Req Resp
    pub requests : Option (List Req)
    pub outcome : Option (Outcome Resp)

  module _ {Req Resp : Type 0} where
    -- A call of the client's default timeout that is not fired.
    abbrev pub opened :
        ⦃build : Features⦄
        → Codec Req
        → Codec Resp
        → ℕ
        → net.Client
        → Bytes
        → Bool
        → GrpcClientConn Req Resp
    opened req resp now client path full_duplex =
        State.new req resp now client path Metadata.new (default_timeout client) full_duplex

    unfoldable pub unary :
        ⦃build : Features⦄ ⦃crates : Compressors⦄
        → Codec Req
        → Codec Resp
        → ℕ
        → net.Client
        → Bytes
        → Req
        → UnaryConn Req Resp
    unfolding default_timeout
    unary req resp now client path request = record {
      engine = buffer_request (opened req resp now client path false) request;
      requests = none;
      outcome = none;
    }

    unfoldable pub client_streaming :
        ⦃build : Features⦄
        → Codec Req
        → Codec Resp
        → ℕ
        → net.Client
        → Bytes
        → List Req
        → UnaryConn Req Resp
    unfolding default_timeout
    client_streaming req resp now client path requests = record {
      engine = opened req resp now client path false;
      requests = some requests;
      outcome = none;
    }

    unfoldable pub with_ascii_metadata :
        ⦃show : Debug⦄ → UnaryConn Req Resp → Bytes → Bytes → UnaryConn Req Resp
    with_ascii_metadata u key value = record u { engine = add_ascii_metadata u.engine key value }

    unfoldable pub with_binary_metadata :
        ⦃show : Debug⦄ → UnaryConn Req Resp → Bytes → Bytes → UnaryConn Req Resp
    with_binary_metadata u key value = record u { engine = add_binary_metadata u.engine key value }

    unfoldable pub with_timeout : ℕ → UnaryConn Req Resp → Duration → UnaryConn Req Resp
    with_timeout now u timeout = record u { engine = set_deadline_from_now now u.engine timeout }

    unfoldable pub metadata : UnaryConn Req Resp → Option api.Headers
    metadata u = headers u.engine

    unfoldable pub trailers_of_call : UnaryConn Req Resp → Option api.Headers
    trailers_of_call u = trailers u.engine

    unfoldable pub message : UnaryConn Req Resp → Option Resp
    message u = and_then u.outcome λ (o : Outcome Resp). o.0

    unfoldable pub status : UnaryConn Req Resp → Result Status (Unit {0})
    status u = unwrap_or (map_option (λ (o : Outcome Resp). o.1) u.outcome) (ok tt)

    unfoldable pub into_message : UnaryConn Req Resp → Result Status Resp
    into_message u = message_from u.outcome

    -- What the two reads of `read_unary` make of a response.
    abbrev pub after_second :
        Resp → Step Req Resp (Option Resp) → Option (Outcome Resp) × GrpcClientConn Req Resp
    after_second message (none, c) = (none, c)
    after_second message (some (ok none), c) = (some (some message, ok tt), c)
    after_second message (some (ok (some _)), c) = (some (none, err several_messages), c)
    after_second message (some (err status), c) = (some (some message, err status), c)

    abbrev pub after_first :
        (GrpcClientConn Req Resp → Step Req Resp (Option Resp))
        → Step Req Resp (Option Resp)
        → Option (Outcome Resp) × GrpcClientConn Req Resp
    after_first again (none, c) = (none, c)
    after_first again (some (ok (some message)), c) = after_second message (again c)
    after_first again (some (ok none), c) = (some (none, err no_message), c)
    after_first again (some (err status), c) = (some (none, err status), c)

    -- `?` on a step of the call.
    abbrev pub and_next :
        {A : Type 0}
        → Step Req Resp (Unit {0})
        → (GrpcClientConn Req Resp → Option (Result Status A))
        → Option (Result Status A)
    and_next (none, c) next = none
    and_next (some (err status), c) next = some (err status)
    and_next (some (ok _), c) next = next c

    -- The sends of the request messages, up to the first that fails.
    abbrev pub and_send :
        Step Req Resp (Unit {0})
        → (GrpcClientConn Req Resp → Step Req Resp (Unit {0}))
        → Step Req Resp (Unit {0})
    and_send (none, c) rest = (none, c)
    and_send (some (err status), c) rest = (some (err status), c)
    and_send (some (ok _), c) rest = rest c

    unfoldable pub send_each :
        ⦃crates : Compressors⦄ ⦃lib : Combinators⦄
        → ℕ
        → List Req
        → GrpcClientConn Req Resp
        → Step Req Resp (Unit {0})
    send_each now [] c = (some (ok tt), c)
    send_each now (m ∷ ms) c = and_send (send now c m) (send_each now ms)

    abbrev pub finished :
        Option (Outcome Resp) × GrpcClientConn Req Resp
        → Option (Result Status (UnaryConn Req Resp))
    finished (none, c) = none
    finished (some outcome, c) =
        some (ok (record { engine = c; requests = none; outcome = some outcome }))

    module _ ⦃b64 : Base64⦄ ⦃build : Features⦄ ⦃show : Debug⦄ ⦃crates : Compressors⦄
        ⦃lib : Combinators⦄ where
      unfoldable pub read_unary :
          Moment
          → Moment
          → GrpcClientConn Req Resp
          → Option (Outcome Resp) × GrpcClientConn Req Resp
      read_unary first_read second_read c = after_first (recv second_read) (recv first_read c)

      -- `.await` on a unary call.
      unfoldable pub into_future :
          Schedule → UnaryConn Req Resp → Option (Result Status (UnaryConn Req Resp))
      unfolding send_each read_unary
      into_future at u = and_next (send_each at.sent_at (unwrap_or u.requests []) u.engine) λ c.
          and_next (close_send at.closed_at c)
            λ c'. finished (read_unary at.first_read at.second_read c')
