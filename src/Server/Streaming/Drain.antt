-- ===== src/Server/Streaming/Drain.antt =====
-- Reading a streamed response body to its end, in src/server/body.rs.
use trillium_grpc.Prelude.{
  ℕ, zero, suc, ◌+◌, ◌≤◌, ◌<◌, min, ◌≡◌, refl, ap, sym, ◌∙◌, Bool, true, false, [], ◌∷◌, ◌++◌,
  Option, none, some, Bytes, Result, ok, err, length, drop, ltb, if◌then◌else◌, unwrap_or,
  map_option, arith, length-drop, length-append, length-take, Result-cases, inl, inr, ltb→le,
  ltb→lt, lt→ltb, drop_all,
}
use trillium_grpc.Deps.{HeadersApi, Base64, Compressors}
use trillium_grpc.Status.{Status, ok_status, write_into, trailer_code}
use trillium_grpc.Status.Trailers.{trailer_code-write_into}
use trillium_grpc.Metadata.Invariant.{IsWellFormed}
use trillium_grpc.Encoding.{Encoding, identity, compress}
use trillium_grpc.Frame.Writer.{encode_payload, frame}
use trillium_grpc.Frame.Reader.{Poll, pending, ready}
use trillium_grpc.Server.Streaming.{
  Items, StreamBody, finish, read_queued, framed, after_framed, after_item, pull, check_cancel,
  read_loop, poll_read, trailers, new,
}
use trillium_grpc.Server.Streaming.Delivery.{frames, ending, owed, outcome, Keeps, loop-Keeps}

encode_payload-cons :
    ⦃crates : Compressors⦄ (payload : Bytes) (e : Encoding) (f : Bytes)
    → encode_payload payload e ≡ ok f
    → 0 < length f
unfolding encode_payload frame
encode_payload-cons payload identity f h = ground (arith, h)
encode_payload-cons payload e f h = elim (Result-cases (compress e payload)) [
  | inl (z, packed) ↦ ground (arith, h, packed)
  | inr (s, failed) ↦ absurd (ground (arith, h, failed))
]

module _ ⦃api : HeadersApi⦄ {T : Type 0} ⦃crates : Compressors⦄ where
  -- A poll either waits, with one item of the stream gone, or hands bytes over, or the body is over.
  abbrev Steps : StreamBody T → Poll Bytes × StreamBody T → Type 0
  Steps b (pending, b') = length b'.stream < length b.stream
  Steps b (ready [], b') = (b'.finished ≡ true) × (owed b' ≡ [])
  Steps b (ready (c ∷ s), b') = length b'.stream ≤ length b.stream

  -- A chunk that is not empty.
  handed-Steps :
      (b b' : StreamBody T) (chunk : Bytes)
      → 0 < length chunk
      → length b'.stream ≤ length b.stream
      → Steps b (ready chunk, b')
  handed-Steps b b' [] some_bytes le = absurd (omega arith)
  handed-Steps b b' (c ∷ s) some_bytes le = le

  read_queued-Steps :
      (b b' : StreamBody T) (room : ℕ)
      → b'.pos < length b'.queued
      → length b'.stream ≤ length b.stream
      → Steps b (read_queued b' (suc room))
  unfolding read_queued
  read_queued-Steps b b' room more le =
      handed-Steps b _ _
        (omega (
          arith,
          length-take (min (length (drop b'.pos b'.queued)) (suc room)) (drop b'.pos b'.queued),
          length-drop b'.pos b'.queued,
        ))
        le

  -- One round on a body that has bytes queued hands them over.
  queued-Steps :
      (b b' : StreamBody T) (room : ℕ)
      → b'.pos < length b'.queued
      → length b'.stream ≤ length b.stream
      → Steps b (read_loop 1 pending b' (suc room))
  unfolding read_loop
  queued-Steps b b' room more le =
      rw (lt→ltb b'.pos (length b'.queued) more) (read_queued-Steps b b' room more le)

  abbrev again : ℕ → StreamBody T → Poll Bytes × StreamBody T
  again room b = read_loop 1 pending b (suc room)

  module _ (b : StreamBody T) (room : ℕ) (drained : drop b.pos b.queued ≡ [])
      (live : b.finished ≡ false) where
    framed-Steps :
        (r : Result Status Bytes) (items : Items T)
        → ((f : Bytes) → r ≡ ok f → 0 < length f)
        → length items ≤ length b.stream
        → Steps b (after_framed r (record b { stream = items }) (again room))
    unfolding after_framed finish
    framed-Steps (ok f) items filled le =
        queued-Steps b (record b { stream = items; queued = f; pos = 0 }) room (filled f refl) le
    framed-Steps (err s) items filled le = (refl, rw drained refl)

    framed-cons : (resp : T) (f : Bytes) → framed b.encode b.encoding resp ≡ ok f → 0 < length f
    framed-cons resp f h = elim (Result-cases (b.encode resp)) [
      | inl (payload, made) ↦ encode_payload-cons payload b.encoding f (ground (arith, h, made))
      | inr (s, failed) ↦ absurd (ground (arith, h, failed))
    ]

    pull-Steps :
        (items : Items T)
        → b.stream ≡ items
        → Steps b (pull (record b { stream = items }) (again room))
    unfolding pull after_item finish
    pull-Steps [] e = (refl, rw drained refl)
    pull-Steps (pending ∷ items) e = omega (arith, ap length e)
    pull-Steps (ready none ∷ items) e = (refl, rw drained refl)
    pull-Steps (ready (some (err s)) ∷ items) e = (refl, rw drained refl)
    pull-Steps (ready (some (ok resp)) ∷ items) e =
        framed-Steps (framed b.encode b.encoding resp) items (framed-cons resp)
          (omega (arith, ap length e))

  next-Steps :
      (b : StreamBody T) (room : ℕ) (more over : Bool)
      → ltb b.pos (length b.queued) ≡ more
      → b.finished ≡ over
      → Steps b (
          if more
          then read_queued b (suc room)
          else if over
          then (ready [], b)
          else check_cancel pending b (again room))
  unfolding check_cancel
  next-Steps b room true over e f = read_queued-Steps b b room (ltb→lt _ _ e) (omega arith)
  next-Steps b room false true e f =
      (f, rw (drop_all b.pos b.queued (ltb→le b.pos (length b.queued) e), f) refl)
  next-Steps b room false false e f =
      pull-Steps b room (drop_all b.pos b.queued (ltb→le b.pos (length b.queued) e)) f b.stream refl

  poll-Steps : (b : StreamBody T) (room : ℕ) → Steps b (poll_read pending b (suc room))
  unfolding poll_read read_loop
  poll-Steps b room = next-Steps b room _ _ refl refl

  abbrev prepend : Bytes → Option Bytes × StreamBody T → Option Bytes × StreamBody T
  prepend chunk (none, b) = (none, b)
  prepend chunk (some rest, b) = (some (chunk ++ rest), b)

  abbrev after_read :
      Poll Bytes × StreamBody T
      → (StreamBody T → Option Bytes × StreamBody T)
      → Option Bytes × StreamBody T
  after_read (pending, b) go = go b
  after_read (ready [], b) go = (some [], b)
  after_read (ready (c ∷ s), b) go = prepend (c ∷ s) (go b)

  -- Reading the body, `suc room` bytes at most at a time, until a read yields nothing: all that was
  -- read, or nothing where so many polls did not get there.
  abbrev pub read_all : ℕ → ℕ → StreamBody T → Option Bytes × StreamBody T
  read_all zero room b = (none, b)
  read_all (suc n) room b = after_read (poll_read pending b (suc room)) (λ b'. read_all n room b')

  record IsDrained (b : StreamBody T) (p : Option Bytes × StreamBody T) : Type 0 where
    pub all_read : p.0 ≡ some (owed b)
    pub status : unwrap_or p.1.status ok_status ≡ outcome b
    pub base : p.1.base_trailers ≡ b.base_trailers

  prepend-IsDrained :
      (b b' : StreamBody T) (chunk : Bytes) (p : Option Bytes × StreamBody T)
      → Keeps b (ready chunk, b')
      → IsDrained b' p
      → IsDrained b (prepend chunk p)
  prepend-IsDrained b b' chunk (none, b'') k d = absurd (ground (arith, d.all_read))
  prepend-IsDrained b b' chunk (some rest, b'') k d = record {
    all_read = ap (map_option (λ t. chunk ++ t)) d.all_read ∙ ap some k.delivers;
    status = d.status ∙ k.ends_alike;
    base = d.base ∙ k.same_trailers;
  }

  after_read-IsDrained :
      (n : ℕ) (b : StreamBody T) (p : Poll Bytes × StreamBody T)
      (go : StreamBody T → Option Bytes × StreamBody T)
      → Keeps b p
      → Steps b p
      → length (owed b) + length b.stream < suc n
      → ((b' : StreamBody T) → length (owed b') + length b'.stream < n → IsDrained b' (go b'))
      → IsDrained b (after_read p go)
  after_read-IsDrained n b (pending, b') go k fewer enough step =
      let d = step b' (omega (arith, ap length k.delivers)) in
      record {
        all_read = d.all_read ∙ ap some k.delivers;
        status = d.status ∙ k.ends_alike;
        base = d.base ∙ k.same_trailers;
      }
  after_read-IsDrained n b (ready [], b') go k (over, nothing) enough step =
      let ended : unwrap_or b'.status ok_status ≡ outcome b' = rw over refl in
      record {
        all_read = ap some (sym nothing ∙ k.delivers);
        status = ended ∙ k.ends_alike;
        base = k.same_trailers;
      }
  after_read-IsDrained n b (ready (c ∷ s), b') go k le enough step =
      prepend-IsDrained b b' (c ∷ s) (go b') k
        (step b' (omega (arith, ap length k.delivers, length-append s (owed b'))))

  read_all-IsDrained :
      (n room : ℕ) (b : StreamBody T)
      → length (owed b) + length b.stream < n
      → IsDrained b (read_all n room b)
  unfolding poll_read
  read_all-IsDrained zero room b enough = absurd (omega arith)
  read_all-IsDrained (suc n) room b enough =
      after_read-IsDrained n b _ _ (loop-Keeps 2 b (suc room)) (poll-Steps b room) enough
        λ b' less. read_all-IsDrained n room b' less

  -- A streamed response that is read to its end, in reads of one size, whatever it is, and however
  -- often the stream makes them wait, is the frames of the stream's messages in order, up to the first that does
  -- not encode; and its trailers, laid over those that the handler set, carry the code of how the
  -- stream ended: the error that cut it short, or `Ok`. The polls that it takes are bounded. The
  -- status must have well-formed metadata, and the signal stays quiet.
  pub read_all-new :
      ⦃b64 : Base64⦄ (items : Items T) (encode : T → Result Status Bytes) (encoding : Encoding)
      (base : api.Headers) (cancel : Bool) (n room : ℕ)
      → length (frames encode encoding items) + length items < n
      → IsWellFormed (ending encode encoding ok_status items).metadata
      → ((read_all n room (new items encode encoding base cancel)).0
          ≡ some (frames encode encoding items))
        × ((trailers (read_all n room (new items encode encoding base cancel)).1).0
            ≡ write_into (ending encode encoding ok_status items) base)
        × (trailer_code (trailers (read_all n room (new items encode encoding base cancel)).1).0
            ≡ (ending encode encoding ok_status items).code)
  unfolding new trailers
  read_all-new items encode encoding base cancel n room enough good =
      let d = read_all-IsDrained n room (new items encode encoding base cancel) enough in
      let wrote : (trailers (read_all n room (new items encode encoding base cancel)).1).0
          ≡ write_into (ending encode encoding ok_status items) base =
        λ i. write_into (d.status i) (d.base i) in
      (d.all_read, wrote, ap trailer_code wrote ∙ trailer_code-write_into _ base good)
