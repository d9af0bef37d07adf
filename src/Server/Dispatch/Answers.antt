-- ===== src/Server/Dispatch/Answers.antt =====
-- How the dispatch of src/server/dispatch.rs answers a call, whatever its method does.
use trillium_grpc.Prelude.{ℕ, ◌≡◌, ap, true, List, Option, none, some, Bytes, Result, ok, err}
use trillium_grpc.Deps.{HeadersApi, Base64, Debug, Features, Compressors}
use trillium_grpc.Status.{Status}
use trillium_grpc.Status.Codes.{Code}
use trillium_grpc.Codec.{Codec}
use trillium_grpc.Encoding.{Encoding}
use trillium_grpc.Server.Conn.{ConnApi}
use trillium_grpc.Server.Grpc.{GrpcServerConn, into_parts}
use trillium_grpc.Server.Cancellation.Steps.{StepCombinators, Tick}
use trillium_grpc.Server.Respond.{
  respond, error_response, error_response_with_trailers, finish_unary, send_framed,
}
use trillium_grpc.Server.Streaming.{Items}
use trillium_grpc.Server.Dispatch.Refusals.{
  Refused, admit_refuses, AnswersWith, error_response-AnswersWith,
}
use trillium_grpc.Server.Dispatch.{
  Method, admit, or_refuse, unary_impl, client_streaming_impl, server_streaming_impl,
  bidi_prologue_impl, unary_response, stream_response, bidi_response,
}

module _ ⦃api : HeadersApi⦄ ⦃conns : ConnApi api.Headers⦄ ⦃b64 : Base64⦄
    ⦃crates : Compressors⦄ where
  -- A response, if there is one, is halted.
  abbrev pub Halts : Option conns.Conn → Type 0
  Halts none = Unit
  Halts (some conn) = conns.is_halted conn ≡ true

  respond-halted :
      {X : Type 0} (conn : conns.Conn) (body : X) → conns.is_halted (respond conn body) ≡ true
  unfolding respond
  respond-halted conn body = conns.halted-halt _

  error_response_with_trailers-halted :
      (conn : conns.Conn) (status : Status) (trailers : api.Headers)
      → conns.is_halted (error_response_with_trailers conn status trailers) ≡ true
  unfolding error_response_with_trailers
  error_response_with_trailers-halted conn status trailers = respond-halted conn _

  error_response-halted :
      (conn : conns.Conn) (status : Status) → conns.is_halted (error_response conn status) ≡ true
  unfolding error_response
  error_response-halted conn status = error_response_with_trailers-halted conn status _

  send_framed-halted :
      (conn : conns.Conn) (r : Result Status Bytes) (trailers : api.Headers)
      → conns.is_halted (send_framed conn r trailers) ≡ true
  unfolding send_framed
  send_framed-halted conn (ok frame) trailers = respond-halted conn _
  send_framed-halted conn (err status) trailers =
      error_response_with_trailers-halted conn status trailers

  module _ {T : Type 0} (codec : Codec T) (encoding : Encoding) where
    unary_response-Halts :
        (r : Option (Result Status T)) (g : GrpcServerConn)
        → Halts (unary_response codec encoding r g)
    unfolding into_parts finish_unary
    unary_response-Halts none g = tt
    unary_response-Halts (some (ok t)) g = send_framed-halted _ _ _
    unary_response-Halts (some (err status)) g = error_response_with_trailers-halted _ status _

    stream_response-Halts :
        (r : Option (Result Status (Items T))) (g : GrpcServerConn)
        → Halts (stream_response codec encoding r g)
    unfolding into_parts
    stream_response-Halts none g = tt
    stream_response-Halts (some (ok stream)) g = respond-halted _ _
    stream_response-Halts (some (err status)) g = error_response_with_trailers-halted _ status _

  bidi_response-Halts :
      {Req Resp R : Type 0} (req : Codec Req) (resp : Codec Resp) (e f : Encoding)
      (r : Option (Result Status R)) (g : GrpcServerConn)
      → Halts (bidi_response req resp e f r g)
  unfolding into_parts
  bidi_response-Halts req resp e f none g = tt
  bidi_response-Halts req resp e f (some (ok responder)) g = conns.halted-halt _
  bidi_response-Halts req resp e f (some (err status)) g =
      error_response_with_trailers-halted _ status _

  or_refuse-Halts :
      (r : Result Status (Encoding × Option ℕ)) (conn : conns.Conn)
      (serve : Encoding → Option ℕ → Option conns.Conn)
      → ((e : Encoding) (d : Option ℕ) → Halts (serve e d))
      → Halts (or_refuse r conn serve)
  or_refuse-Halts (err status) conn serve h = error_response-halted conn status
  or_refuse-Halts (ok (e, d)) conn serve h = h e d

  or_refuse-err :
      (r : Result Status (Encoding × Option ℕ)) (conn : conns.Conn)
      (serve : Encoding → Option ℕ → Option conns.Conn) (status : Status)
      → r ≡ err status
      → or_refuse r conn serve ≡ some (error_response conn status)
  or_refuse-err r conn serve status e = ap (λ q. or_refuse q conn serve) e

  module _ ⦃build : Features⦄ ⦃show : Debug⦄ where
    module _ ⦃steps : StepCombinators⦄ {Req Resp R : Type 0} (req : Codec Req) (resp : Codec Resp)
        (unary : Method Req Resp) (collect : Method (Unit {0}) Resp)
        (stream : Method Req (Items Resp)) (prologue : Method (Unit {0}) R) (now : ℕ)
        (ticks : List Tick) (conn : conns.Conn) where
      -- Whatever a method does and however its race ends, the response that the dispatch of its shape
      -- puts together is halted, so that no later handler touches it.
      pub impl-Halts :
          Halts (unary_impl req resp unary now ticks conn)
          × Halts (client_streaming_impl resp collect now ticks conn)
          × Halts (server_streaming_impl req resp stream now ticks conn)
          × Halts (bidi_prologue_impl req resp prologue now ticks conn)
      unfolding unary_impl client_streaming_impl server_streaming_impl bidi_prologue_impl
      impl-Halts = (
        or_refuse-Halts (admit now conn) conn _ λ e d. unary_response-Halts resp _ _ _,
        or_refuse-Halts (admit now conn) conn _ λ e d. unary_response-Halts resp _ _ _,
        or_refuse-Halts (admit now conn) conn _ λ e d. stream_response-Halts resp _ _ _,
        or_refuse-Halts (admit now conn) conn _ λ e d. bidi_response-Halts req resp e _ _ _,
      )

      -- A request whose `grpc-encoding` names no codec of the build, or whose encoding is fine but whose
      -- `grpc-timeout` is not digits of a number that fits, and a unit, is answered before its method is
      -- started: the answer is the same in every shape and for all methods, a halted response without
      -- bytes whose `grpc-status` is the number of `Unimplemented` for the encoding, and of
      -- `InvalidArgument` for the timeout.
      pub impl_refuses :
          (code : Code)
          → Refused (conns.request_headers conn) code
          → (answer : conns.Conn) × AnswersWith code answer
            × (unary_impl req resp unary now ticks conn ≡ some answer)
            × (client_streaming_impl resp collect now ticks conn ≡ some answer)
            × (server_streaming_impl req resp stream now ticks conn ≡ some answer)
            × (bidi_prologue_impl req resp prologue now ticks conn ≡ some answer)
      unfolding unary_impl client_streaming_impl server_streaming_impl bidi_prologue_impl
      impl_refuses code wrong =
          let (status, e, owed, good) = admit_refuses now conn code wrong in
          (
            error_response conn status,
            error_response-AnswersWith conn status code good owed,
            or_refuse-err _ conn _ status e,
            or_refuse-err _ conn _ status e,
            or_refuse-err _ conn _ status e,
            or_refuse-err _ conn _ status e,
          )
