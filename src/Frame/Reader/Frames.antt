-- ===== src/Frame/Reader/Frames.antt =====
-- One frame read by the state machine of src/frame/reader.rs, over every run of the transport.
use trillium_grpc.Prelude.{
  ℕ, zero, suc, ◌+◌, ◌-◌, ◌^◌, ◌≤◌, ◌<◌, ◌≡◌, refl, ap, sym, ◌∙◌, subst, true, false, not, ◌∷◌,
  ◌++◌, none, some, Bytes, arith, length, replicate, length-replicate, ◌==◌, le→ltb, Result, ok,
  inl, inr, Result-cases,
}
use trillium_grpc.Deps.{Compressors}
use trillium_grpc.Status.{Status}
use trillium_grpc.Encoding.{Encoding, identity, is_identity, compress}
use trillium_grpc.Encoding.Caps.{AllLossless, decompress-compress}
use trillium_grpc.Frame.Writer.{to_be_bytes, frame, encode_payload, prefix_len}
use trillium_grpc.Frame.Source.{Script, contents, IsLive, waits, script_reader}
use trillium_grpc.Frame.Reader.{
  pending, ready, ReadState, reading_prefix, reading_payload, done, new_state, Fill, waiting,
  broken, ended, full, prefix_length, deliver, Polled, payload_result, poll_payload, prefix_result,
  poll_read_message, await_message, after_poll, Awaited,
}
use trillium_grpc.Frame.Reader.Filling.{Spells, FillsTo, fill-FillsTo}

prefix_length-be : (flag n : ℕ) → n < 2 ^ 32 → prefix_length (flag ∷ to_be_bytes n) ≡ n
unfolding prefix_length to_be_bytes
prefix_length-be flag n h = omega arith

abbrev header : ℕ → Bytes → Bytes
header flag payload = flag ∷ to_be_bytes (length payload)

-- What is read and what is to come spell the frame and then `rest`.
abbrev pub Holds : ReadState → Script → ℕ → Bytes → Bytes → Type 0
Holds (reading_prefix buf filled) evs flag payload rest =
    Spells buf filled evs (flag ∷ to_be_bytes (length payload)) (payload ++ rest)
Holds (reading_payload compressed buf filled) evs flag payload rest =
    (compressed ≡ not (flag == 0)) × Spells buf filled evs payload rest
Holds done evs flag payload rest = ⊥

pub Holds-new :
    (evs : Script) (flag : ℕ) (payload rest : Bytes)
    → contents evs ≡ frame flag payload ++ rest
    → IsLive evs
    → Holds new_state evs flag payload rest
unfolding frame to_be_bytes
Holds-new evs flag payload rest text live = record {
  room = refl;
  within = omega arith;
  text = text;
  live = live;
}

module _ {T : Type 0} ⦃crates : Compressors⦄ (decode : Bytes → Result Status T)
    (encoding : Encoding) (max : ℕ) (flag : ℕ) (payload rest : Bytes) where
  -- A poll either waits, with the frame still to be had and fewer waits ahead, or yields the message
  -- and leaves what follows the frame.
  abbrev pub Reads : ℕ → Polled T Script → Type 0
  Reads n (pending, state, evs) = Holds state evs flag payload rest × (waits evs < n)
  Reads n (ready none, state, evs) = ⊥
  Reads n (ready (some item), state, evs) =
      (item ≡ deliver decode encoding max (not (flag == 0)) payload)
      × (state ≡ new_state)
      × (contents evs ≡ rest)
      × IsLive evs
      × (waits evs ≤ n)

  payload_result-Reads :
      (n : ℕ) (f : Fill) (evs : Script)
      → FillsTo payload rest n f evs
      → Reads n (payload_result decode encoding max (not (flag == 0)) (f, evs))
  unfolding payload_result FillsTo
  payload_result-Reads n (waiting buf filled) evs (s, fewer) = ((refl, s), fewer)
  payload_result-Reads n (full buf) evs (same, left, live, le) =
      (ap (deliver decode encoding max (not (flag == 0))) same, refl, left, live, le)
  payload_result-Reads n (broken e) evs h = absurd h
  payload_result-Reads n (ended k) evs h = absurd h

  poll_payload-Reads :
      (buf : Bytes) (filled : ℕ) (evs : Script)
      → Spells buf filled evs payload rest
      → Reads (waits evs) (poll_payload decode encoding max (not (flag == 0)) buf filled evs)
  unfolding poll_payload
  poll_payload-Reads buf filled evs s =
      payload_result-Reads (waits evs) _ _
        (fill-FillsTo (length buf - filled) buf filled evs payload rest s (omega arith))

  Reads-mono : (m n : ℕ) (p : Polled T Script) → m ≤ n → Reads m p → Reads n p
  Reads-mono m n (pending, state, evs) h (s, w) = (s, omega arith)
  Reads-mono m n (ready none, state, evs) h r = absurd r
  Reads-mono m n (ready (some item), state, evs) h (a, b, c, d, e) = (a, b, c, d, omega arith)

  module _ (short : length payload < 2 ^ 32) (small : length payload ≤ max) where
    prefix_full-Reads :
        (n : ℕ) (evs : Script)
        → contents evs ≡ payload ++ rest
        → IsLive evs
        → waits evs ≤ n
        → Reads n (prefix_result decode encoding max (full (header flag payload), evs))
    unfolding prefix_result
    prefix_full-Reads n evs left live le =
        rw (prefix_length-be flag (length payload) short, le→ltb max (length payload) small)
          (Reads-mono (waits evs) n _ le (
            poll_payload-Reads (replicate (length payload) 0) 0 evs (record {
              room = length-replicate (length payload) 0;
              within = omega arith;
              text = left;
              live = live;
            })))

    prefix_result-Reads :
        (n : ℕ) (f : Fill) (evs : Script)
        → FillsTo (header flag payload) (payload ++ rest) n f evs
        → Reads n (prefix_result decode encoding max (f, evs))
    unfolding FillsTo
    prefix_result-Reads n (waiting buf filled) evs (s, fewer) = unfold prefix_result in (s, fewer)
    prefix_result-Reads n (full buf) evs (same, left, live, le) =
        subst (λ b. Reads n (prefix_result decode encoding max (full b, evs))) (sym same)
          (prefix_full-Reads n evs left live le)
    prefix_result-Reads n (broken e) evs h = absurd h
    prefix_result-Reads n (ended k) evs h = absurd h

    poll-Reads :
        (state : ReadState) (evs : Script)
        → Holds state evs flag payload rest
        → Reads (waits evs) (poll_read_message decode encoding max evs state)
    unfolding poll_read_message to_be_bytes
    poll-Reads (reading_prefix buf filled) evs s = prefix_result-Reads (waits evs) _ _ (
        fill-FillsTo (prefix_len - filled) buf filled evs (header flag payload) (payload ++ rest) s
          (omega (arith, s.room)))
    poll-Reads (reading_payload compressed buf filled) evs (same, s) =
        subst (λ c. Reads (waits evs) (poll_payload decode encoding max c buf filled evs))
          (sym same) (poll_payload-Reads buf filled evs s)
    poll-Reads done evs h = absurd h

    abbrev pub IsAwaited : ℕ → Awaited T Script → Type 0
    IsAwaited n (none, state, evs) = ⊥
    IsAwaited n (some item, state, evs) = Reads n (ready item, state, evs)

    IsAwaited-mono : (m n : ℕ) (p : Awaited T Script) → m ≤ n → IsAwaited m p → IsAwaited n p
    IsAwaited-mono m n (none, state, evs) h r = r
    IsAwaited-mono m n (some item, state, evs) h r = Reads-mono m n (ready item, state, evs) h r

    after_poll-IsAwaited :
        (n : ℕ) (p : Polled T Script) (again : ReadState → Script → Awaited T Script)
        → Reads n p
        → ((state : ReadState) (evs : Script)
            → Holds state evs flag payload rest
            → waits evs < n
            → IsAwaited (waits evs) (again state evs))
        → IsAwaited n (after_poll decode encoding max p again)
    unfolding after_poll
    after_poll-IsAwaited n (pending, state, evs) again (holds, fewer) step =
        IsAwaited-mono (waits evs) n _ (omega arith) (step state evs holds fewer)
    after_poll-IsAwaited n (ready item, state, evs) again reads step = reads

    pub await-Reads :
        (polls : ℕ) (state : ReadState) (evs : Script)
        → Holds state evs flag payload rest
        → waits evs < polls
        → IsAwaited (waits evs) (await_message decode encoding max polls evs state)
    unfolding await_message
    await-Reads zero state evs holds enough = absurd (omega arith)
    await-Reads (suc polls) state evs holds enough =
        after_poll-IsAwaited (waits evs) _ _ (poll-Reads state evs holds)
          λ state' evs' holds' fewer. await-Reads polls state' evs' holds' (omega arith)

    -- Written out: the item, the state behind it, and a reader that holds the rest.
    await_exact :
        (polls : ℕ) (evs : Script)
        → contents evs ≡ frame flag payload ++ rest
        → IsLive evs
        → waits evs < polls
        → (evs' : Script) × (await_message decode encoding max polls evs new_state ≡ (
          some (some (deliver decode encoding max (not (flag == 0)) payload)),
          new_state,
          evs',
        ))
          × (contents evs' ≡ rest)
          × IsLive evs'
          × (waits evs' ≤ waits evs)
    await_exact polls evs text live enough =
        out _ (await-Reads polls new_state evs (Holds-new evs flag payload rest text live) enough)
      where
        out :
            (p : Awaited T Script)
            → IsAwaited (waits evs) p
            → (evs' : Script) × (p ≡ (
              some (some (deliver decode encoding max (not (flag == 0)) payload)),
              new_state,
              evs',
            ))
              × (contents evs' ≡ rest)
              × IsLive evs'
              × (waits evs' ≤ waits evs)
        out (none, state, e) h = absurd h
        out (some none, state, e) h = absurd h
        out (some (some item), state, e) (a, b, c, d, f) =
            (e, λ i. (some (some (a i)), b i, e), c, d, f)

length-frame : (flag : ℕ) (p : Bytes) → length (frame flag p) ≡ length p + 5
unfolding frame to_be_bytes
length-frame flag p = omega arith

module _ {T : Type 0} ⦃crates : Compressors⦄ (decode : Bytes → Result Status T) (max : ℕ)
    (d : Bytes) (fits : max + 1 < 2 ^ 64) (small : length d ≤ max) (good : AllLossless crates) where
  deliver-compress :
      (e : Encoding) (z : Bytes)
      → is_identity e ≡ false
      → compress e d ≡ ok z
      → deliver decode e max true z ≡ decode d
  unfolding deliver
  deliver-compress e z packed h =
      rw (packed, decompress-compress e d z max good fits h, le→ltb max (length d) small)

  -- The flag and the payload of the frame that `encode_payload` writes, and what they deliver.
  framed :
      (e : Encoding) (bytes : Bytes)
      → encode_payload d e ≡ ok bytes
      → (flag : ℕ) × (p : Bytes) × (bytes ≡ frame flag p)
        × (deliver decode e max (not (flag == 0)) p ≡ decode d)
  unfolding encode_payload
  framed identity bytes h = (0, d, ground arith, unfold deliver in refl)
  framed e bytes h = elim (Result-cases (compress e d)) [
    | inl (z, packed) ↦ (1, z, ground arith, deliver-compress e z refl packed)
    | inr (s, failed) ↦ absurd (ground arith)
  ]

  -- A message that `encode_payload` framed is delivered as what the decoder makes of it, a value or an
  -- error, with every codec, whatever chunks the transport cuts the bytes into and however often it
  -- makes the reader wait, where the compression crates are lossless, the message is within the size
  -- cap, the payload of its frame is within the cap too, and within 32 bits, the cap plus one is below
  -- 2 ^ 64, and the transport brings its bytes without a failure. The reader is left at the first byte
  -- behind the frame, in the state for the next message, also where the decoder fails.
  pub await-encode_payload :
      (e : Encoding) (bytes rest : Bytes) (evs : Script) (polls : ℕ)
      → encode_payload d e ≡ ok bytes
      → length bytes ≤ max + 5
      → length bytes < 2 ^ 32 + 5
      → contents evs ≡ bytes ++ rest
      → IsLive evs
      → waits evs < polls
      → (evs' : Script) × (await_message decode e max polls evs new_state
          ≡ (some (some (decode d)), new_state, evs'))
        × (contents evs' ≡ rest)
        × IsLive evs'
        × (waits evs' ≤ waits evs)
  await-encode_payload e bytes rest evs polls made short fit text live enough =
      let (flag, p, same, delivered) = framed e bytes made in
      let size : length bytes ≡ length p + 5 = ap length same ∙ length-frame flag p in
      let (evs', read, left, live', fewer) =
        await_exact decode e max flag p rest (omega arith) (omega arith) polls evs
          (text ∙ ap (λ b. b ++ rest) same) live enough in
      (evs', read ∙ ap (λ r. (some (some r), new_state, evs')) delivered, left, live', fewer)
