-- ===== src/Server/Bidi.antt =====
-- server/bidi.rs: a full-duplex call behind the upgrade, and its `Channel` of src/server/streaming.rs.
pub mod Drive
use trillium_grpc.Prelude.{ℕ, ◌++◌, Option, Bytes, codes, Result, ok, err, map_err, ◌>>=◌}
use trillium_grpc.Deps.{HeadersApi, Compressors}
use trillium_grpc.Status
use trillium_grpc.Status.{Status}
use trillium_grpc.Encoding.{Encoding, default_max_message_size}
use trillium_grpc.Frame.Writer.{encode_payload}
use trillium_grpc.Frame.Source.{AsyncRead}
use trillium_grpc.Frame.Reader.{Poll, ReadState, Polled, new_state, poll_read_message}

module _ ⦃api : HeadersApi⦄ where
  -- What crosses from the run phase to the upgrade: `R` is the responder's type.
  pub record BidiState (Req Resp R : Type 0) : Type 0 where
    pub responder : R
    pub base_trailers : api.Headers
    pub decode : Bytes → Result Status Req
    pub encode : Resp → Result Status Bytes
    pub request_encoding : Encoding
    pub response_encoding : Encoding
    pub deadline : Option ℕ

  -- `BidiUpgrade::new`.
  unfoldable pub new_upgrade :
      {Req Resp R : Type 0}
      → R
      → api.Headers
      → (Bytes → Result Status Req)
      → (Resp → Result Status Bytes)
      → Encoding
      → Encoding
      → Option ℕ
      → BidiState Req Resp R
  new_upgrade responder base_trailers decode encode request_encoding response_encoding deadline =
      record {
        responder = responder;
        base_trailers = base_trailers;
        decode = decode;
        encode = encode;
        request_encoding = request_encoding;
        response_encoding = response_encoding;
        deadline = deadline;
      }

  -- The upgraded transport: its reads, a write awaited to its end, and the trailers that end it.
  pub record Upgrades : Type 1 where
    pub Upgrade : Type 0
    pub read : AsyncRead Upgrade
    pub write_all : Upgrade → Bytes → Result Bytes (Unit {0}) × Upgrade
    pub send_trailers : Upgrade → api.Headers → Result Bytes (Unit {0}) × Upgrade

  module _ ⦃net : Upgrades⦄ where
    pub record Channel (Req Resp : Type 0) : Type 0 where
      pub upgrade : net.Upgrade
      pub response_trailers : api.Headers
      pub state : ReadState
      pub decode : Bytes → Result Status Req
      pub encode : Resp → Result Status Bytes
      pub inbound_encoding : Encoding
      pub outbound_encoding : Encoding
      pub max_message_size : ℕ

    module _ {Req Resp : Type 0} where
      unfoldable pub new :
          net.Upgrade
          → api.Headers
          → (Bytes → Result Status Req)
          → (Resp → Result Status Bytes)
          → Encoding
          → Encoding
          → Channel Req Resp
      new upgrade response_trailers decode encode inbound_encoding outbound_encoding = record {
        upgrade = upgrade;
        response_trailers = response_trailers;
        state = new_state;
        decode = decode;
        encode = encode;
        inbound_encoding = inbound_encoding;
        outbound_encoding = outbound_encoding;
        max_message_size = default_max_message_size;
      }

      -- What is done through `response_trailers_mut`.
      unfoldable pub update_trailers :
          Channel Req Resp → (api.Headers → api.Headers) → Channel Req Resp
      update_trailers ch change = record ch { response_trailers = change ch.response_trailers }

      module _ ⦃crates : Compressors⦄ where
        abbrev pub polled :
            Channel Req Resp
            → Polled Req net.Upgrade
            → Poll (Option (Result Status Req)) × Channel Req Resp
        polled ch (item, state, upgrade) = (item, record ch { state = state; upgrade = upgrade })

        -- A poll of `recv`.
        unfoldable pub poll_recv :
            Channel Req Resp → Poll (Option (Result Status Req)) × Channel Req Resp
        poll_recv ch = polled ch (
            poll_read_message ch.decode ch.inbound_encoding ch.max_message_size ⦃read = net.read⦄
              ch.upgrade ch.state)

        abbrev pub written :
            Channel Req Resp
            → Result Bytes (Unit {0}) × net.Upgrade
            → Result Status (Unit {0}) × Channel Req Resp
        written ch (result, upgrade) = (
          map_err (λ e. Status.unavailable (codes "write error: " ++ e)) result,
          record ch { upgrade = upgrade },
        )

        abbrev pub write_frame :
            Channel Req Resp → Result Status Bytes → Result Status (Unit {0}) × Channel Req Resp
        write_frame ch (err status) = (err status, ch)
        write_frame ch (ok frame) = written ch (net.write_all ch.upgrade frame)

        unfoldable pub send : Channel Req Resp → Resp → Result Status (Unit {0}) × Channel Req Resp
        send ch value =
            write_frame ch
              (do payload ← ch.encode value; encode_payload payload ch.outbound_encoding)
