-- ===== src/Client/State.antt =====
-- The state of a call in client/conn.rs: what it holds in each phase, its builders and its end.
use trillium_grpc.Prelude.{
  ℕ, ◌+◌, Bool, false, [], ◌++◌, Option, none, some, Bytes, codes, Result, ok, err, ◌>>=◌,
  unwrap_or, map_option, get_or_insert, is_some,
}
use trillium_grpc.Deps.{HeadersApi, Base64, Debug, Features, Compressors}
use trillium_grpc.Metadata.{Metadata, insert_ascii, insert_binary}
use trillium_grpc.Metadata.Key.{MetadataError, error_text}
use trillium_grpc.Status
use trillium_grpc.Status.{Status}
use trillium_grpc.Timeout.{Duration, as_nanos}
use trillium_grpc.Codec.{Codec}
use trillium_grpc.Encoding.{Encoding, default_max_message_size}
use trillium_grpc.Frame.Writer.{encode_payload}
use trillium_grpc.Frame.Reader.{ReadState}
use trillium_grpc.Client.Options.{outbound_compression}
use trillium_grpc.Client.Head.{decode_response, finish_from_trailers}
use trillium_grpc.Client.Network.{Network}

module _ ⦃api : HeadersApi⦄ ⦃net : Network api.Headers⦄ where
  pub record Pending : Type 0 where
    pub client : net.Client
    pub path : Bytes
    pub content_type : Bytes
    pub request_metadata : Metadata
    pub body : Bytes
    pub send_closed : Bool

  pub record Live (R : Type 0) : Type 0 where
    pub reader : R
    pub response_headers : api.Headers
    pub read_state : ReadState
    pub response_encoding : Encoding
    pub head_status : Option (Result Status (Unit {0}))

  pub data Inner : Type 0 where
    pending : Pending → Inner
    reading : Live net.Conn → Inner
    duplex : Live net.Upgrade → Inner
    done : api.Headers → api.Headers → Inner
    failed : Status → Inner

  -- What a phase shows of the response.
  abbrev pub headers_of : Inner → Option api.Headers
  headers_of (reading live) = some live.response_headers
  headers_of (duplex live) = some live.response_headers
  headers_of (done response_headers trailers) = some response_headers
  headers_of _ = none

  abbrev pub trailers_of : Inner → Option api.Headers
  trailers_of (done response_headers trailers) = some trailers
  trailers_of _ = none

  abbrev pub trailers_only_of : Inner → Bool
  trailers_only_of (reading live) = is_some live.head_status
  trailers_only_of (duplex live) = is_some live.head_status
  trailers_only_of _ = false

  -- The call's cancellation channel is what the polls of its races find, and not a field.
  pub record GrpcClientConn (Req Resp : Type 0) : Type 0 where
    pub inner : Inner
    pub decode : Bytes → Result Status Resp
    pub encode : Req → Result Status Bytes
    pub outbound_encoding : Encoding
    pub max_message_size : ℕ
    pub full_duplex : Bool
    pub deadline : Option ℕ
    pub init_error : Option Status

  module _ {Req Resp : Type 0} where
    -- `open` at the instant `now`.
    unfoldable pub open_call :
        ℕ
        → net.Client
        → Bytes
        → Bytes
        → Metadata
        → Option Duration
        → (Req → Result Status Bytes)
        → (Bytes → Result Status Resp)
        → Encoding
        → Bool
        → GrpcClientConn Req Resp
    open_call now client path content_type metadata timeout encode decode outbound_encoding
          full_duplex =
        record {
          inner = pending (record {
            client = client;
            path = path;
            content_type = content_type;
            request_metadata = metadata;
            body = [];
            send_closed = false;
          });
          decode = decode;
          encode = encode;
          outbound_encoding = outbound_encoding;
          max_message_size = default_max_message_size;
          full_duplex = full_duplex;
          deadline = map_option (λ d. now + as_nanos d) timeout;
          init_error = none;
        }

    unfoldable pub new :
        ⦃build : Features⦄
        → Codec Req
        → Codec Resp
        → ℕ
        → net.Client
        → Bytes
        → Metadata
        → Option Duration
        → Bool
        → GrpcClientConn Req Resp
    unfolding open_call outbound_compression
    new req resp now client path metadata timeout full_duplex =
        open_call now client path (codes "application/grpc+" ++ req.content_type_suffix) metadata
          timeout req.encode (decode_response resp)
          (outbound_compression (net.default_headers client)) full_duplex

    -- What a builder does with the result of an insert.
    abbrev pub defer :
        ⦃show : Debug⦄
        → GrpcClientConn Req Resp
        → Result MetadataError (Unit {0})
        → GrpcClientConn Req Resp
    defer c (ok _) = c
    defer c (err e) = record c {
      init_error = some (
          unwrap_or c.init_error
            (Status.invalid_argument (codes "invalid metadata: " ++ error_text e)));
    }

    abbrev pub add_with :
        ⦃show : Debug⦄
        → (Metadata → Metadata × Result MetadataError (Unit {0}))
        → GrpcClientConn Req Resp
        → Inner
        → GrpcClientConn Req Resp
    add_with insert c (pending p) =
        let (metadata, result) = insert p.request_metadata in
        defer (record c { inner = pending (record p { request_metadata = metadata }) }) result
    add_with insert c _ = c

    unfoldable pub add_ascii_metadata :
        ⦃show : Debug⦄ → GrpcClientConn Req Resp → Bytes → Bytes → GrpcClientConn Req Resp
    add_ascii_metadata c key value = add_with (λ m. insert_ascii m key value) c c.inner

    unfoldable pub add_binary_metadata :
        ⦃show : Debug⦄ → GrpcClientConn Req Resp → Bytes → Bytes → GrpcClientConn Req Resp
    add_binary_metadata c key value = add_with (λ m. insert_binary m key value) c c.inner

    unfoldable pub set_deadline_from_now :
        ℕ → GrpcClientConn Req Resp → Duration → GrpcClientConn Req Resp
    set_deadline_from_now now c timeout = record c { deadline = some (now + as_nanos timeout) }

    -- The frame of a message.
    unfoldable pub encode_message :
        ⦃crates : Compressors⦄ → GrpcClientConn Req Resp → Req → Result Status Bytes
    encode_message c message = do
      payload ← c.encode message
      encode_payload payload c.outbound_encoding

    abbrev pub extend_body : GrpcClientConn Req Resp → Bytes → Inner → GrpcClientConn Req Resp
    extend_body c frame (pending p) = record c {
      inner = pending (record p { body = p.body ++ frame });
    }
    extend_body c frame _ = c

    abbrev pub buffer_frame :
        GrpcClientConn Req Resp → Result Status Bytes → GrpcClientConn Req Resp
    buffer_frame c (ok frame) = extend_body c frame c.inner
    buffer_frame c (err status) = record c { init_error = get_or_insert c.init_error status }

    unfoldable pub buffer_request :
        ⦃crates : Compressors⦄ → GrpcClientConn Req Resp → Req → GrpcClientConn Req Resp
    unfolding encode_message
    buffer_request c message = buffer_frame c (encode_message c message)

    unfoldable pub headers : GrpcClientConn Req Resp → Option api.Headers
    headers c = headers_of c.inner

    unfoldable pub trailers : GrpcClientConn Req Resp → Option api.Headers
    trailers c = trailers_of c.inner

    unfoldable pub is_trailers_only : GrpcClientConn Req Resp → Bool
    is_trailers_only c = trailers_only_of c.inner

    -- The call is over, with the status and the trailers that its end says.
    abbrev pub end_with :
        GrpcClientConn Req Resp
        → api.Headers
        → Result Status (Unit {0}) × api.Headers
        → Result Status (Unit {0}) × GrpcClientConn Req Resp
    end_with c response_headers (status, kept) =
        (status, record c { inner = done response_headers kept })

    module _ ⦃b64 : Base64⦄ where
      unfoldable pub finish_inner :
          GrpcClientConn Req Resp → Inner → Result Status (Unit {0}) × GrpcClientConn Req Resp
      finish_inner c (reading live) = end_with c live.response_headers (
          finish_from_trailers live.response_headers live.head_status
            (net.response_trailers live.reader))
      finish_inner c (duplex live) = end_with c live.response_headers (
          finish_from_trailers live.response_headers live.head_status
            (net.received_trailers live.reader))
      finish_inner c _ = end_with c api.new (finish_from_trailers api.new none none)

      -- `finish_from_trailers` on the call.
      unfoldable pub finish :
          GrpcClientConn Req Resp → Result Status (Unit {0}) × GrpcClientConn Req Resp
      unfolding finish_inner
      finish c = finish_inner c c.inner

    unfoldable pub fail {ℓ} :
        {A : Type ℓ} → GrpcClientConn Req Resp → Status → Result Status A × GrpcClientConn Req Resp
    fail c status = (err status, record c { inner = failed status })
