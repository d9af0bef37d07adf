-- ===== src/Frame/Reader.antt =====
-- frame/reader.rs: the state machine that reads one message after another.
pub mod Filling
pub mod Frames
pub mod Ends
use trillium_grpc.Prelude.{
  ℕ, zero, suc, ◌+◌, ◌-◌, ◌*◌, ◌^◌, Bool, true, false, not, [], ◌∷◌, ◌++◌, Option, none, some,
  Bytes, codes, ltb, ◌==◌, if◌then◌else◌, Result, err, ◌>>=◌, length, take, drop, replicate, get_or,
}
use trillium_grpc.Text.Decimal.{to_decimal}
use trillium_grpc.Deps.{Compressors}
use trillium_grpc.Status
use trillium_grpc.Status.{Status}
use trillium_grpc.Encoding.{Encoding, identity, is_identity, decompress, default_max_message_size}
use trillium_grpc.Frame.Writer.{prefix_len}
use trillium_grpc.Frame.Source.{ReadPoll, AsyncRead}

pub data Poll {ℓ} (A : Type ℓ) : Type ℓ where
  pending : Poll A
  ready : A → Poll A

-- The buffer, and how much of it is filled.
pub data ReadState : Type 0 where
  reading_prefix : Bytes → ℕ → ReadState
  reading_payload : Bool → Bytes → ℕ → ReadState
  done : ReadState

abbrev pub new_state : ReadState
new_state = reading_prefix (replicate prefix_len 0) 0

-- `buf[filled..filled + n].copy_from_slice(bytes)`.
unfoldable pub copy_at : ℕ → Bytes → Bytes → Bytes
copy_at filled bytes buf = take filled buf ++ (bytes ++ drop (filled + length bytes) buf)

-- How the loop `while filled < buf.len()` ends.
pub data Fill : Type 0 where
  waiting : Bytes → ℕ → Fill
  broken : Bytes → Fill
  ended : ℕ → Fill
  full : Bytes → Fill

-- `u32::from_be_bytes` of the last four bytes of a prefix.
unfoldable pub prefix_length : Bytes → ℕ
prefix_length buf =
    get_or buf 1 0 * 2 ^ 24 + get_or buf 2 0 * 2 ^ 16 + get_or buf 3 0 * 2 ^ 8 + get_or buf 4 0

abbrev pub too_long : ℕ → ℕ → Status
too_long len max = Status.resource_exhausted (
    codes "received message of "
    ++ (to_decimal len ++ (codes " bytes exceeds limit of " ++ to_decimal max)))

abbrev pub read_error : Bytes → Status
read_error e = Status.unavailable (codes "read error: " ++ e)

module _ {R : Type 0} ⦃read : AsyncRead R⦄ where
  -- A read brings at least one byte or ends the loop, so a round for each missing byte is enough.
  unfoldable pub fill : ℕ → R → Bytes → ℕ → Fill × R
  fill zero r buf filled = (full buf, r)
  fill (suc fuel) r buf filled =
      let (polled, r') = read.poll_read r (length buf - filled) in
      let next : Fill × R = elim polled [
        | ReadPoll.pending ↦ (waiting buf filled, r')
        | ReadPoll.failed e ↦ (broken e, r')
        | ReadPoll.ready bytes ↦ elim bytes [
          | [] ↦ (ended filled, r')
          | b ∷ bs ↦ fill fuel r' (copy_at filled (b ∷ bs) buf) (filled + length (b ∷ bs))
        ]
      ] in
      if ltb filled (length buf) then next else (full buf, r)

-- What a poll for a message, and waiting for one, give: the new state and the reader beside it.
abbrev pub Polled : Type 0 → Type 0 → Type 0
Polled T R = Poll (Option (Result Status T)) × ReadState × R

abbrev pub Awaited : Type 0 → Type 0 → Type 0
Awaited T R = Option (Option (Result Status T)) × ReadState × R

module _ {T : Type 0} ⦃crates : Compressors⦄ (decode : Bytes → Result Status T)
    (encoding : Encoding) (max : ℕ) where
  -- What a complete frame yields.
  unfoldable pub deliver : Bool → Bytes → Result Status T
  deliver false payload = decode payload
  deliver true payload =
      if is_identity encoding
      then err (Status.internal (codes "received compressed message but no encoding negotiated"))
      else do bytes ← decompress encoding payload max; decode bytes

  payload_result : {R : Type 0} → Bool → Fill × R → Polled T R
  unfolding deliver
  payload_result compressed (waiting payload filled, r) =
      (pending, reading_payload compressed payload filled, r)
  payload_result compressed (broken e, r) = (ready (some (err (read_error e))), done, r)
  payload_result compressed (ended filled, r) =
      (ready (some (err (Status.internal (codes "unexpected EOF in frame payload")))), done, r)
  payload_result compressed (full payload, r) =
      (ready (some (deliver compressed payload)), new_state, r)

  module _ {R : Type 0} ⦃read : AsyncRead R⦄ where
    poll_payload : Bool → Bytes → ℕ → R → Polled T R
    unfolding payload_result fill
    poll_payload compressed payload filled r =
        payload_result compressed (fill (length payload - filled) r payload filled)

    prefix_result : Fill × R → Polled T R
    unfolding poll_payload prefix_length
    prefix_result (waiting buf filled, r) = (pending, reading_prefix buf filled, r)
    prefix_result (broken e, r) = (ready (some (err (read_error e))), done, r)
    prefix_result (ended filled, r) = if filled == 0 then (ready none, done, r) else (
      ready (some (err (Status.internal (codes "unexpected EOF in frame prefix")))),
      done,
      r,
    )
    prefix_result (full buf, r) =
        let len = prefix_length buf in
        let next = poll_payload (not (get_or buf 0 0 == 0)) (replicate len 0) 0 r in
        if ltb max len then (ready (some (err (too_long len max))), done, r) else next

    unfoldable pub poll_read_message : R → ReadState → Polled T R
    unfolding prefix_result fill
    poll_read_message r done = (ready none, done, r)
    poll_read_message r (reading_prefix buf filled) =
        prefix_result (fill (prefix_len - filled) r buf filled)
    poll_read_message r (reading_payload compressed payload filled) =
        poll_payload compressed payload filled r

    unfoldable pub after_poll : Polled T R → (ReadState → R → Awaited T R) → Awaited T R
    after_poll (pending, state, r) again = again state r
    after_poll (ready item, state, r) again = (some item, state, r)

    -- `poll_fn(…).await` and `next().await`: the executor polls until something is ready; `none` says
    -- that it was not after so many polls.
    unfoldable pub await_message : ℕ → R → ReadState → Awaited T R
    unfolding after_poll
    await_message zero r state = (none, state, r)
    await_message (suc polls) r state =
        after_poll (poll_read_message r state) (λ state' r'. await_message polls r' state')

-- `MessageStream`: a reader with its state. The pin and the waker carry no data.
pub record MessageStream (T R : Type 0) : Type 0 where
  pub reader : R
  pub state : ReadState
  pub max_message_size : ℕ
  pub encoding : Encoding
  pub decode : Bytes → Result Status T

module _ {T R : Type 0} where
  unfoldable pub new : R → (Bytes → Result Status T) → MessageStream T R
  new reader decode = record {
    reader = reader;
    state = new_state;
    max_message_size = default_max_message_size;
    encoding = identity;
    decode = decode;
  }

  unfoldable pub with_max_message_size : MessageStream T R → ℕ → MessageStream T R
  with_max_message_size s max = record s { max_message_size = max }

  unfoldable pub with_encoding : MessageStream T R → Encoding → MessageStream T R
  with_encoding s encoding = record s { encoding = encoding }

  unfoldable pub poll_next :
      ⦃crates : Compressors⦄ ⦃read : AsyncRead R⦄
      → MessageStream T R
      → Poll (Option (Result Status T)) × MessageStream T R
  unfolding poll_read_message
  poll_next s =
      let (polled, state, reader) =
        poll_read_message s.decode s.encoding s.max_message_size s.reader s.state in
      (polled, record s { reader = reader; state = state })
