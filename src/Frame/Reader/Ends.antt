-- ===== src/Frame/Reader/Ends.antt =====
-- How reading ends in src/frame/reader.rs: the end of the file, between frames and inside one, and a
-- frame above the size cap.
use trillium_grpc.Prelude.{
  ℕ, zero, suc, ◌+◌, ◌-◌, ◌≤◌, ◌<◌, ◌≡◌, refl, ap, sym, ◌∙◌, subst, [], ◌∷◌, ◌++◌, Option, none,
  some, Bytes, codes, arith, length, take, length-take, length-append, lt→ltb, Result, err,
  append_assoc,
}
use trillium_grpc.Deps.{Compressors}
use trillium_grpc.Status
use trillium_grpc.Status.{Status}
use trillium_grpc.Encoding.{Encoding}
use trillium_grpc.Frame.Writer.{prefix_len}
use trillium_grpc.Frame.Source.{Script, contents, IsLive, waits, script_reader}
use trillium_grpc.Frame.Reader.{
  pending, ready, ReadState, reading_prefix, reading_payload, done, new_state, Fill, waiting,
  broken, ended, full, copy_at, fill, Polled, Awaited, prefix_result, poll_read_message, after_poll,
  await_message,
}
use trillium_grpc.Frame.Reader.Filling.{
  play-Played, waited, arrived, over, length-copy_at, take-copy_at,
}

-- What is read and what is to come are the bytes `x`, too few for the buffer.
pub record Short (buf : Bytes) (filled : ℕ) (evs : Script) (x : Bytes) : Type 0 where
  pub within : filled ≤ length buf
  pub text : take filled buf ++ contents evs ≡ x
  pub too_few : length x < length buf
  pub live : IsLive evs

unfoldable pub EndsShort : Bytes → ℕ → ℕ → Fill → Script → Type 0
EndsShort x room n (waiting buf filled) evs =
    Short buf filled evs x × (length buf ≡ room) × (waits evs < n)
EndsShort x room n (ended filled) evs = filled ≡ length x
EndsShort x room n _ evs = ⊥

EndsShort-mono :
    (x : Bytes) (room m n : ℕ) (f : Fill) (evs : Script)
    → m ≤ n
    → EndsShort x room m f evs
    → EndsShort x room n f evs
unfolding EndsShort
EndsShort-mono x room m n (waiting buf filled) evs h (a, b, c) = (a, b, omega arith)
EndsShort-mono x room m n (ended k) evs h e = e
EndsShort-mono x room m n (broken e) evs h r = absurd r
EndsShort-mono x room m n (full b) evs h r = absurd r

abbrev Outcome : Bytes → ℕ → ℕ → Fill × Script → Type 0
Outcome x room n p = EndsShort x room n p.0 p.1

Short-lt :
    (buf : Bytes) (filled : ℕ) (evs : Script) (x : Bytes)
    → Short buf filled evs x
    → filled < length buf
Short-lt buf filled evs x s = omega (
  arith,
  s.within,
  s.too_few,
  ap length s.text,
  length-append {0} (take filled buf) (contents evs),
  length-take {0} filled buf,
)

fill-EndsShort :
    (fuel : ℕ) (buf : Bytes) (filled : ℕ) (evs : Script) (x : Bytes)
    → Short buf filled evs x
    → length buf ≤ filled + fuel
    → EndsShort x (length buf) (waits evs) (fill fuel evs buf filled).0 (fill fuel evs buf filled).1
unfolding fill
fill-EndsShort zero buf filled evs x s enough = absurd (omega (arith, Short-lt buf filled evs x s))
fill-EndsShort (suc fuel) buf filled evs x s enough =
    let room : filled < length buf = Short-lt buf filled evs x s in
    let open_test = lt→ltb filled (length buf) room in
    elim (play-Played evs (length buf - filled) s.live (omega arith)) [
      | waited evs' e same live fewer ↦
          subst (Outcome x (length buf) (waits evs)) {x = (waiting buf filled, evs')}
            (ground (arith, e, open_test))
            (unfold EndsShort in
              (
                record {
                  within = s.within;
                  text = ap (λ l. take filled buf ++ l) (sym same) ∙ s.text;
                  too_few = s.too_few;
                  live = live;
                },
                refl,
                fewer,
              ))
      | arrived b bs evs' e split live fits le ↦
          let within : filled + length (b ∷ bs) ≤ length buf = omega arith in
          let same = length-copy_at filled (b ∷ bs) buf within in
          subst (Outcome x (length buf) (waits evs))
            {x = fill fuel evs' (copy_at filled (b ∷ bs) buf) (filled + length (b ∷ bs))}
            (ground (arith, e, open_test))
            (EndsShort-mono x (length buf) (waits evs') (waits evs) _ _ le (
              subst
                (λ r.
                  Outcome x r (waits evs')
                    (fill fuel evs' (copy_at filled (b ∷ bs) buf) (filled + length (b ∷ bs))))
                same
                (fill-EndsShort fuel (copy_at filled (b ∷ bs) buf) (filled + length (b ∷ bs)) evs' x
                  (record {
                    within = omega arith;
                    text =
                        ap (λ l. l ++ contents evs') (take-copy_at filled (b ∷ bs) buf within)
                        ∙ append_assoc (take filled buf) (b ∷ bs) (contents evs')
                        ∙ ap (λ l. take filled buf ++ l) (sym split)
                        ∙ s.text;
                    too_few = omega (arith, s.too_few);
                    live = live;
                  })
                  (omega arith))))
      | over e none_left ↦
          subst (Outcome x (length buf) (waits evs)) {x = (ended filled, [])}
            (ground (arith, e, open_test))
            (unfold EndsShort in
              omega (
                arith,
                s.within,
                ap length s.text,
                ap length none_left,
                length-append {0} (take filled buf) (contents evs),
                length-take {0} filled buf,
              ))
    ]

-- What a reader that ends after the bytes `x`, fewer than a prefix, yields.
abbrev pub end_item : {T : Type 0} → Bytes → Option (Result Status T)
end_item [] = none
end_item (c ∷ s) = some (err (Status.internal (codes "unexpected EOF in frame prefix")))

ended_result :
    {T : Type 0} ⦃crates : Compressors⦄ (decode : Bytes → Result Status T) (encoding : Encoding)
    (max k : ℕ) (x : Bytes) (evs : Script)
    → k ≡ length x
    → prefix_result decode encoding max (ended k, evs) ≡ (ready (end_item x), done, evs)
unfolding prefix_result
ended_result decode encoding max k [] evs e = ground (arith, e)
ended_result decode encoding max k (c ∷ s) evs e = ground (arith, e)

module _ {T : Type 0} ⦃crates : Compressors⦄ (decode : Bytes → Result Status T)
    (encoding : Encoding) (max : ℕ) (x : Bytes) where
  abbrev Nears : ReadState → Script → Type 0
  Nears (reading_prefix buf filled) evs = Short buf filled evs x × (length buf ≡ prefix_len)
  Nears _ evs = ⊥

  abbrev Closes : ℕ → Polled T Script → Type 0
  Closes n (pending, state, evs) = Nears state evs × (waits evs < n)
  Closes n (ready item, state, evs) = (item ≡ end_item x) × (state ≡ done)

  ended-Closes :
      (n k : ℕ) (evs : Script)
      → k ≡ length x
      → Closes n (prefix_result decode encoding max (ended k, evs))
  ended-Closes n k evs e =
      subst (Closes n) (sym (ended_result decode encoding max k x evs e)) (refl, refl)

  prefix_result-Closes :
      (n : ℕ) (f : Fill) (evs : Script)
      → EndsShort x prefix_len n f evs
      → Closes n (prefix_result decode encoding max (f, evs))
  unfolding EndsShort
  prefix_result-Closes n (waiting buf filled) evs (s, room, fewer) =
      unfold prefix_result in ((s, room), fewer)
  prefix_result-Closes n (ended k) evs e = ended-Closes n k evs e
  prefix_result-Closes n (broken e) evs h = absurd h
  prefix_result-Closes n (full b) evs h = absurd h

  poll-Closes :
      (state : ReadState) (evs : Script)
      → Nears state evs
      → Closes (waits evs) (poll_read_message decode encoding max evs state)
  unfolding poll_read_message
  poll-Closes (reading_prefix buf filled) evs (s, room) = prefix_result-Closes (waits evs) _ _ (
      subst
        (λ r.
          EndsShort x r (waits evs) (fill (prefix_len - filled) evs buf filled).0
            (fill (prefix_len - filled) evs buf filled).1)
        room (fill-EndsShort (prefix_len - filled) buf filled evs x s (omega (arith, room))))
  poll-Closes (reading_payload compressed buf filled) evs h = absurd h
  poll-Closes done evs h = absurd h

  abbrev IsClosed : Awaited T Script → Type 0
  IsClosed (none, state, evs) = ⊥
  IsClosed (some item, state, evs) = (item ≡ end_item x) × (state ≡ done)

  after_poll-IsClosed :
      (n : ℕ) (p : Polled T Script) (again : ReadState → Script → Awaited T Script)
      → Closes n p
      → ((state : ReadState) (evs : Script)
          → Nears state evs
          → waits evs < n
          → IsClosed (again state evs))
      → IsClosed (after_poll decode encoding max p again)
  unfolding after_poll
  after_poll-IsClosed n (pending, state, evs) again (near, fewer) step = step state evs near fewer
  after_poll-IsClosed n (ready item, state, evs) again closes step = closes

  await-IsClosed :
      (polls : ℕ) (state : ReadState) (evs : Script)
      → Nears state evs
      → waits evs < polls
      → IsClosed (await_message decode encoding max polls evs state)
  unfolding await_message
  await-IsClosed zero state evs near enough = absurd (omega arith)
  await-IsClosed (suc polls) state evs near enough =
      after_poll-IsClosed (waits evs) _ _ (poll-Closes state evs near)
        λ state' evs' near' fewer. await-IsClosed polls state' evs' near' (omega arith)

  -- A transport that ends after fewer bytes than a prefix has ends the stream for good: cleanly if
  -- there was no byte, with the error that the prefix is cut short if there was one.
  pub await_end :
      (polls : ℕ) (evs : Script)
      → contents evs ≡ x
      → length x < prefix_len
      → IsLive evs
      → waits evs < polls
      → (evs' : Script) × (await_message decode encoding max polls evs new_state
          ≡ (some (end_item x), done, evs'))
  await_end polls evs text short live enough = out _ (
      await-IsClosed polls new_state evs
        (record { within = omega arith; text = text; too_few = short; live = live }, refl) enough)
    where
      out :
          (p : Awaited T Script)
          → IsClosed p
          → (evs' : Script) × (p ≡ (some (end_item x), done, evs'))
      out (none, state, e) h = absurd h
      out (some item, state, e) (a, b) = (e, λ i. (some (a i), b i, e))
