-- ===== src/Server/Respond.antt =====
-- How a half-duplex response is put together in src/server/dispatch.rs: `respond`, the error
-- responses and `finish_unary`.
use trillium_grpc.Prelude.{◌≡◌, ◌∙◌, [], some, Bytes, Result, ok, err, true}
use trillium_grpc.Deps.{HeadersApi, Base64, Compressors}
use trillium_grpc.Status.{Status, ok_status, write_into, trailer_code}
use trillium_grpc.Status.Trailers.{trailer_code-write_into}
use trillium_grpc.Metadata.Invariant.{IsWellFormed}
use trillium_grpc.Codec.{Codec}
use trillium_grpc.Encoding.{Encoding}
use trillium_grpc.Frame.Writer.{encode_frame}
use trillium_grpc.Server.Conn.{ConnApi}
use trillium_grpc.Server.Body

module _ ⦃api : HeadersApi⦄ ⦃conns : ConnApi api.Headers⦄ where
  unfoldable pub respond : {X : Type 0} → conns.Conn → X → conns.Conn
  respond conn body = conns.halt (conns.with_body conn (conns.new_with_trailers body))

  module _ ⦃b64 : Base64⦄ where
    unfoldable pub error_response_with_trailers : conns.Conn → Status → api.Headers → conns.Conn
    unfolding respond
    error_response_with_trailers conn status trailers =
        respond conn (Body.new [] (write_into status trailers))

    unfoldable pub error_response : conns.Conn → Status → conns.Conn
    unfolding error_response_with_trailers
    error_response conn status = error_response_with_trailers conn status api.new

    -- What is sent for the framed response, or for the error that took its place.
    unfoldable pub send_framed : conns.Conn → Result Status Bytes → api.Headers → conns.Conn
    unfolding error_response_with_trailers respond
    send_framed conn (ok frame) trailers =
        respond conn (Body.new frame (write_into ok_status trailers))
    send_framed conn (err status) trailers = error_response_with_trailers conn status trailers

    unfoldable pub finish_unary :
        {T : Type 0} ⦃crates : Compressors⦄
        → Codec T
        → conns.Conn
        → Result Status T
        → Encoding
        → api.Headers
        → conns.Conn
    unfolding send_framed
    finish_unary codec conn (ok resp) response_encoding trailers =
        send_framed conn (encode_frame codec resp response_encoding) trailers
    finish_unary codec conn (err status) response_encoding trailers =
        error_response_with_trailers conn status trailers

    -- The response carries a one-shot body of those bytes and those trailers, and is halted.
    pub record Carries (conn : conns.Conn) (bytes : Bytes) (trailers : api.Headers) : Type 1 where
      pub body : conns.body conn ≡ some (conns.new_with_trailers (Body.new bytes trailers))
      pub halted : conns.is_halted conn ≡ true

    respond-Carries :
        (conn : conns.Conn) (bytes : Bytes) (trailers : api.Headers)
        → Carries (respond conn (Body.new bytes trailers)) bytes trailers
    unfolding respond
    respond-Carries conn bytes trailers = record {
      body = conns.body-halt _ ∙ conns.body-body _ _;
      halted = conns.halted-halt _;
    }

    pub error_response-Carries :
        (conn : conns.Conn) (status : Status)
        → Carries (error_response conn status) [] (write_into status api.new)
    unfolding error_response error_response_with_trailers
    error_response-Carries conn status = respond-Carries conn [] _

    module _ {T : Type 0} ⦃crates : Compressors⦄ (codec : Codec T) (encoding : Encoding) where
      -- What a handler's result comes to: the frame of its response, or an error.
      abbrev pub framed_result : Result Status T → Result Status Bytes
      framed_result (ok resp) = encode_frame codec resp encoding
      framed_result (err status) = err status

      -- The bytes that are sent for it, and the status behind them.
      abbrev pub sent : Result Status Bytes → Bytes × Status
      sent (ok frame) = (frame, ok_status)
      sent (err status) = ([], status)

      send_framed-Carries :
          (conn : conns.Conn) (r : Result Status Bytes) (trailers : api.Headers)
          → Carries (send_framed conn r trailers) (sent r).0 (write_into (sent r).1 trailers)
      unfolding send_framed error_response_with_trailers
      send_framed-Carries conn (ok frame) trailers = respond-Carries conn frame _
      send_framed-Carries conn (err status) trailers = respond-Carries conn [] _

      -- Whatever a unary or client-streaming method returns, its response is halted with one body:
      -- the frame of the returned message, or nothing where the method or the encoding failed; and the
      -- trailers behind it, laid over those that the handler set, carry the code of the outcome, if
      -- the metadata of the status is well-formed.
      pub finish_unary-sent :
          (conn : conns.Conn) (result : Result Status T) (trailers : api.Headers)
          → IsWellFormed (sent (framed_result result)).1.metadata
          → Carries
              (finish_unary codec conn result encoding trailers)
              (sent (framed_result result)).0
              (write_into (sent (framed_result result)).1 trailers)
            × (trailer_code (write_into (sent (framed_result result)).1 trailers)
                ≡ (sent (framed_result result)).1.code)
      unfolding finish_unary error_response_with_trailers
      finish_unary-sent conn (ok resp) trailers good =
          (send_framed-Carries conn _ trailers, trailer_code-write_into _ trailers good)
      finish_unary-sent conn (err status) trailers good =
          (respond-Carries conn [] _, trailer_code-write_into status trailers good)
