-- ===== src/Server/Requests.antt =====
-- `RequestStream` of src/server/streaming.rs, and `read_one` of src/server/dispatch.rs.
use trillium_grpc.Prelude.{
  ℕ, ◌+◌, ◌≤◌, ◌<◌, ◌≡◌, ap, ◌∙◌, sym, append-nil, [], ◌++◌, Option, none, some, Bytes, codes,
  Result, ok, err, length, arith,
}
use trillium_grpc.Deps.{Compressors}
use trillium_grpc.Status
use trillium_grpc.Status.{Status}
use trillium_grpc.Encoding.{Encoding, default_max_message_size}
use trillium_grpc.Encoding.Caps.{AllLossless}
use trillium_grpc.Frame.Writer.{encode_payload}
use trillium_grpc.Frame.Source.{AsyncRead, Script, contents, IsLive, waits, script_reader}
use trillium_grpc.Frame.Reader.{ReadState, new_state, Awaited, await_message}
use trillium_grpc.Frame.Reader.Frames.{await-encode_payload}
use trillium_grpc.Frame.Reader.Ends.{await_end}

pub record RequestStream (T R : Type 0) : Type 0 where
  pub reader : R
  pub state : ReadState
  pub decode : Bytes → Result Status T
  pub encoding : Encoding
  pub max_message_size : ℕ

abbrev pub no_request : Status
no_request =
    Status.unimplemented
      (codes "expected exactly one request message, but the request stream was empty")

abbrev pub second_request : Status
second_request =
    Status.unimplemented
      (codes "expected exactly one request message, but the request stream had more than one")

-- What `read_one` makes of a first message and what is received behind it.
abbrev pub second : {T : Type 0} → T → Option (Result Status (Option T)) → Option (Result Status T)
second req none = none
second req (some (err status)) = some (err status)
second req (some (ok (some _))) = some (err second_request)
second req (some (ok none)) = some (ok req)

module _ {T R : Type 0} where
  unfoldable pub new : R → (Bytes → Result Status T) → Encoding → RequestStream T R
  new reader decode encoding = record {
    reader = reader;
    state = new_state;
    decode = decode;
    encoding = encoding;
    max_message_size = default_max_message_size;
  }

  -- What `recv` makes of a message; the first option is whether the polls were enough.
  abbrev pub received :
      RequestStream T R → Awaited T R → Option (Result Status (Option T)) × RequestStream T R
  received s (none, state, reader) = (none, record s { state = state; reader = reader })
  received s (some none, state, reader) =
      (some (ok none), record s { state = state; reader = reader })
  received s (some (some (ok t)), state, reader) =
      (some (ok (some t)), record s { state = state; reader = reader })
  received s (some (some (err e)), state, reader) =
      (some (err e), record s { state = state; reader = reader })

  unfoldable pub recv :
      ⦃crates : Compressors⦄ ⦃read : AsyncRead R⦄
      → ℕ
      → RequestStream T R
      → Option (Result Status (Option T)) × RequestStream T R
  recv polls s =
      received s (await_message s.decode s.encoding s.max_message_size polls s.reader s.state)

  abbrev pub first :
      (RequestStream T R → Option (Result Status (Option T)) × RequestStream T R)
      → Option (Result Status (Option T)) × RequestStream T R
      → Option (Result Status T)
  first again (none, s) = none
  first again (some (err status), s) = some (err status)
  first again (some (ok none), s) = some (err no_request)
  first again (some (ok (some req)), s) = second req (again s).0

  unfoldable pub read_one :
      ⦃crates : Compressors⦄ ⦃read : AsyncRead R⦄ → ℕ → RequestStream T R → Option (Result Status T)
  read_one polls s = first (recv polls) (recv polls s)

module _ {T : Type 0} ⦃crates : Compressors⦄ (decode : Bytes → Result Status T) (e : Encoding) where
  -- A request body without a message is refused as `Unimplemented`.
  pub read_one-empty :
      (evs : Script) (polls : ℕ)
      → contents evs ≡ []
      → IsLive evs
      → waits evs < polls
      → read_one polls (new evs decode e) ≡ some (err no_request)
  unfolding read_one recv new
  read_one-empty evs polls empty live enough =
      let (evs', read) =
        await_end decode e default_max_message_size [] polls evs empty (omega arith) live enough in
      ap (λ a. first (recv polls) (received (new evs decode e) a)) read

  module _ (good : AllLossless crates) (d bytes : Bytes) (t : T)
      (small : length d ≤ default_max_message_size) (made : encode_payload d e ≡ ok bytes)
      (short : length bytes ≤ default_max_message_size + 5) (known : decode d ≡ ok t) where
    -- A request body of exactly one message yields that message, whatever pieces it arrives in without
    -- a failure, in one poll more than the transport makes its reader wait, where the compression crates are lossless, the message decodes, and both the message and the payload
    -- of its frame, which is the compressed message, respect the default size cap.
    pub read_one-single :
        (evs : Script) (polls : ℕ)
        → contents evs ≡ bytes
        → IsLive evs
        → waits evs < polls
        → read_one polls (new evs decode e) ≡ some (ok t)
    unfolding read_one recv new
    read_one-single evs polls text live enough =
        let (evs', read, left, live', fewer) =
          await-encode_payload decode default_max_message_size d (omega arith) small good e bytes []
            evs polls made short (omega arith) (text ∙ sym (append-nil bytes)) live enough in
        let (evs'', over) =
          await_end decode e default_max_message_size [] polls evs' left (omega arith) live'
            (omega arith) in
        ap (λ a. first (recv polls) (received (new evs decode e) a))
          (read ∙ ap (λ r. (some (some r), new_state, evs')) known)
        ∙ ap (λ a. second t (received (new evs' decode e) a).0) over

    -- A request body that goes on with a second message is refused as `Unimplemented`, whatever pieces
    -- it arrives in without a failure, in one poll more than the transport makes its reader wait, where the
    -- compression crates are lossless, both messages decode, and each message and the payload of its
    -- frame, which is the compressed message, respect the default size cap.
    pub read_one-second :
        (evs : Script) (polls : ℕ) (d2 bytes2 rest : Bytes) (t2 : T)
        → length d2 ≤ default_max_message_size
        → encode_payload d2 e ≡ ok bytes2
        → length bytes2 ≤ default_max_message_size + 5
        → decode d2 ≡ ok t2
        → contents evs ≡ bytes ++ (bytes2 ++ rest)
        → IsLive evs
        → waits evs < polls
        → read_one polls (new evs decode e) ≡ some (err second_request)
    unfolding read_one recv new
    read_one-second evs polls d2 bytes2 rest t2 small2 made2 short2 known2 text live enough =
        let (evs', read, left, live', fewer) =
          await-encode_payload decode default_max_message_size d (omega arith) small good e bytes
            (bytes2 ++ rest) evs polls made short (omega arith) text live enough in
        let (evs'', read2, left2, live'', fewer2) =
          await-encode_payload decode default_max_message_size d2 (omega arith) small2 good e bytes2
            rest evs' polls made2 short2 (omega arith) left live' (omega arith) in
        ap (λ a. first (recv polls) (received (new evs decode e) a))
          (read ∙ ap (λ r. (some (some r), new_state, evs')) known)
        ∙ ap (λ a. second t (received (new evs' decode e) a).0)
            (read2 ∙ ap (λ r. (some (some r), new_state, evs'')) known2)
