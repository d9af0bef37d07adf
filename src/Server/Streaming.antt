-- ===== src/Server/Streaming.antt =====
-- `StreamBody` of server/body.rs: a response body that pulls a method's stream as it is read.
pub mod Delivery
pub mod Drain
use trillium_grpc.Prelude.{
  ℕ, zero, suc, ◌+◌, min, Bool, true, false, List, [], ◌∷◌, Option, none, some, Bytes, Result, ok,
  err, ◌>>=◌, length, take, drop, ltb, if◌then◌else◌, unwrap_or,
}
use trillium_grpc.Deps.{HeadersApi, Base64, Compressors}
use trillium_grpc.Status.{Status, ok_status, write_into}
use trillium_grpc.Encoding.{Encoding}
use trillium_grpc.Frame.Writer.{encode_payload}
use trillium_grpc.Frame.Reader.{Poll, pending, ready}

-- What the polls of a method's stream give, one after another; when they are used up the stream has
-- ended.
abbrev pub Items : Type 0 → Type 0
Items T = List (Poll (Option (Result Status T)))

abbrev pub next_item : {T : Type 0} → Items T → Poll (Option (Result Status T)) × Items T
next_item [] = (ready none, [])
next_item (item ∷ items) = (item, items)

-- `(encode)(&resp).and_then(|payload| encode_payload(&payload, encoding))`.
abbrev pub framed :
    {T : Type 0} ⦃crates : Compressors⦄
    → (T → Result Status Bytes)
    → Encoding
    → T
    → Result Status Bytes
framed encode encoding resp = do payload ← encode resp; encode_payload payload encoding

module _ ⦃api : HeadersApi⦄ where
  pub record StreamBody (T : Type 0) : Type 0 where
    pub stream : Items T
    pub encode : T → Result Status Bytes
    pub encoding : Encoding
    pub base_trailers : api.Headers
    -- Whether a cancellation signal is attached.
    pub cancel : Bool
    pub queued : Bytes
    pub pos : ℕ
    pub status : Option Status
    pub finished : Bool

  module _ {T : Type 0} where
    unfoldable pub new :
        Items T → (T → Result Status Bytes) → Encoding → api.Headers → Bool → StreamBody T
    new stream encode encoding base_trailers cancel = record {
      stream = stream;
      encode = encode;
      encoding = encoding;
      base_trailers = base_trailers;
      cancel = cancel;
      queued = [];
      pos = 0;
      status = none;
      finished = false;
    }

    -- `finished = true; status = Some(status)`, and the read that says so.
    unfoldable pub finish : StreamBody T → Status → Poll Bytes × StreamBody T
    finish b status = (ready [], record b { finished = true; status = some status })

    unfoldable pub read_queued : StreamBody T → ℕ → Poll Bytes × StreamBody T
    read_queued b room =
        let remaining = drop b.pos b.queued in
        let n = min (length remaining) room in
        (ready (take n remaining), record b { pos = b.pos + n })

    module _ ⦃crates : Compressors⦄ where
      unfoldable pub after_framed :
          Result Status Bytes
          → StreamBody T
          → (StreamBody T → Poll Bytes × StreamBody T)
          → Poll Bytes × StreamBody T
      unfolding finish
      after_framed (ok frame) b again = again (record b { queued = frame; pos = 0 })
      after_framed (err status) b again = finish b status

      -- What follows an item of the stream; `again` is the next round of the loop.
      unfoldable pub after_item :
          Poll (Option (Result Status T))
          → StreamBody T
          → (StreamBody T → Poll Bytes × StreamBody T)
          → Poll Bytes × StreamBody T
      unfolding finish after_framed
      after_item pending b again = (pending, b)
      after_item (ready none) b again = finish b (unwrap_or b.status ok_status)
      after_item (ready (some (err status))) b again = finish b status
      after_item (ready (some (ok resp))) b again =
          after_framed (framed b.encode b.encoding resp) b again

      unfoldable pub pull :
          StreamBody T → (StreamBody T → Poll Bytes × StreamBody T) → Poll Bytes × StreamBody T
      unfolding after_item
      pull b again =
          let (item, stream) = next_item b.stream in
          after_item item (record b { stream = stream }) again

      -- A poll of the signal, if there is one, comes before the stream.
      unfoldable pub check_cancel :
          Poll Status
          → StreamBody T
          → (StreamBody T → Poll Bytes × StreamBody T)
          → Poll Bytes × StreamBody T
      unfolding finish pull
      check_cancel pending b again = pull b again
      check_cancel (ready status) b again = if b.cancel then finish b status else pull b again

      -- The loop of `poll_read`. A frame is never empty, so a round behind the one that pulls it hands
      -- bytes over: two rounds are enough.
      unfoldable pub read_loop : ℕ → Poll Status → StreamBody T → ℕ → Poll Bytes × StreamBody T
      unfolding read_queued check_cancel
      read_loop zero signal b room = (pending, b)
      read_loop (suc rounds) signal b room =
          let next = check_cancel signal b (λ b'. read_loop rounds signal b' room) in
          if ltb b.pos (length b.queued)
          then read_queued b room
          else if b.finished
          then (ready [], b)
          else next

      unfoldable pub poll_read : Poll Status → StreamBody T → ℕ → Poll Bytes × StreamBody T
      unfolding read_loop
      poll_read signal b room = read_loop 2 signal b room

    unfoldable pub trailers : ⦃b64 : Base64⦄ → StreamBody T → api.Headers × StreamBody T
    trailers b = (
      write_into (unwrap_or b.status ok_status) b.base_trailers,
      record b { base_trailers = api.new; status = none },
    )
