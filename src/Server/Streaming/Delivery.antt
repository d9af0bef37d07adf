-- ===== src/Server/Streaming/Delivery.antt =====
-- What a streamed response body delivers, in src/server/body.rs.
use trillium_grpc.Prelude.{
  ℕ, zero, suc, ◌+◌, min, ◌≡◌, refl, ap, sym, ◌∙◌, Bool, true, false, [], ◌∷◌, ◌++◌, none, some,
  Bytes, Result, ok, err, length, take, drop, ltb, if◌then◌else◌, unwrap_or, drop-drop, drop_all,
  take-append-drop, append_assoc, ltb→le,
}
use trillium_grpc.Deps.{HeadersApi, Compressors}
use trillium_grpc.Status.{Status, ok_status}
use trillium_grpc.Encoding.{Encoding}
use trillium_grpc.Frame.Reader.{Poll, pending, ready}
use trillium_grpc.Server.Streaming.{
  Items, StreamBody, finish, read_queued, framed, after_framed, after_item, pull, check_cancel,
  read_loop,
}

-- What a message that encodes, or does not, puts before the rest.
abbrev pub frame_then : Result Status Bytes → Bytes → Bytes
frame_then (ok frame) rest = frame ++ rest
frame_then (err s) rest = []

abbrev pub status_then : Result Status Bytes → Status → Status
status_then (ok frame) rest = rest
status_then (err s) rest = s

module _ {T : Type 0} ⦃crates : Compressors⦄ (encode : T → Result Status Bytes)
    (encoding : Encoding) where
  -- The frames of a stream's messages, up to its end, its error or the first message that does not
  -- encode; and the status that it ends with, `d` for a clean end.
  abbrev pub frames : Items T → Bytes
  frames [] = []
  frames (pending ∷ items) = frames items
  frames (ready none ∷ items) = []
  frames (ready (some (err s)) ∷ items) = []
  frames (ready (some (ok resp)) ∷ items) = frame_then (framed encode encoding resp) (frames items)

  abbrev pub ending : Status → Items T → Status
  ending d [] = d
  ending d (pending ∷ items) = ending d items
  ending d (ready none ∷ items) = d
  ending d (ready (some (err s)) ∷ items) = s
  ending d (ready (some (ok resp)) ∷ items) =
      status_then (framed encode encoding resp) (ending d items)

abbrev pub bytes_of : Poll Bytes → Bytes
bytes_of pending = []
bytes_of (ready bytes) = bytes

module _ ⦃api : HeadersApi⦄ {T : Type 0} ⦃crates : Compressors⦄ where
  -- What a body has yet to hand over, and the status that it will end with.
  abbrev pub owed : StreamBody T → Bytes
  owed b = drop b.pos b.queued ++ (if b.finished then [] else frames b.encode b.encoding b.stream)

  abbrev pub outcome : StreamBody T → Status
  outcome b =
      if b.finished
      then unwrap_or b.status ok_status
      else ending b.encode b.encoding (unwrap_or b.status ok_status) b.stream

  pub record Keeps (b : StreamBody T) (p : Poll Bytes × StreamBody T) : Type 0 where
    pub delivers : bytes_of p.0 ++ owed p.1 ≡ owed b
    pub ends_alike : outcome p.1 ≡ outcome b
    pub same_trailers : p.1.base_trailers ≡ b.base_trailers

  read_queued-Keeps : (b : StreamBody T) (room : ℕ) → Keeps b (read_queued b room)
  unfolding read_queued
  read_queued-Keeps b room = record {
    delivers =
        sym (
          append_assoc (take (min (length (drop b.pos b.queued)) room) (drop b.pos b.queued))
            (drop (b.pos + min (length (drop b.pos b.queued)) room) b.queued)
            (if b.finished then [] else frames b.encode b.encoding b.stream))
        ∙ ap (λ l. l ++ (if b.finished then [] else frames b.encode b.encoding b.stream))
            (ap (λ l. take (min (length (drop b.pos b.queued)) room) (drop b.pos b.queued) ++ l)
                (sym (drop-drop (min (length (drop b.pos b.queued)) room) b.pos b.queued))
              ∙ take-append-drop (min (length (drop b.pos b.queued)) room) (drop b.pos b.queued));
    ends_alike = refl;
    same_trailers = refl;
  }

  module _ (b : StreamBody T) (drained : drop b.pos b.queued ≡ []) (live : b.finished ≡ false) where
    abbrev at : Items T → StreamBody T
    at items = record b { stream = items }

    module _ (again : StreamBody T → Poll Bytes × StreamBody T)
        (step : (b' : StreamBody T) → Keeps b' (again b')) where
      framed-delivers :
          (r : Result Status Bytes) (items : Items T)
          → bytes_of (after_framed r (at items) again).0 ++ owed (after_framed r (at items) again).1
            ≡ frame_then r (frames b.encode b.encoding items)
      unfolding after_framed finish
      framed-delivers (ok frame) items =
          (step (record b { stream = items; queued = frame; pos = 0 })).delivers ∙ rw live refl
      framed-delivers (err s) items = rw drained refl

      framed-ends :
          (r : Result Status Bytes) (items : Items T)
          → outcome (after_framed r (at items) again).1
            ≡ status_then r (ending b.encode b.encoding (unwrap_or b.status ok_status) items)
      unfolding after_framed finish
      framed-ends (ok frame) items =
          (step (record b { stream = items; queued = frame; pos = 0 })).ends_alike ∙ rw live refl
      framed-ends (err s) items = refl

      framed-trailers :
          (r : Result Status Bytes) (items : Items T)
          → (after_framed r (at items) again).1.base_trailers ≡ b.base_trailers
      unfolding after_framed finish
      framed-trailers (ok frame) items =
          (step (record b { stream = items; queued = frame; pos = 0 })).same_trailers
      framed-trailers (err s) items = refl

      pull-at : (items : Items T) → Keeps (at items) (pull (at items) again)
      unfolding pull after_item finish
      pull-at [] = record {
        delivers = rw (drained, live) refl;
        ends_alike = rw live refl;
        same_trailers = refl;
      }
      pull-at (pending ∷ items) = record {
        delivers = refl;
        ends_alike = refl;
        same_trailers = refl;
      }
      pull-at (ready none ∷ items) = record {
        delivers = rw (drained, live) refl;
        ends_alike = rw live refl;
        same_trailers = refl;
      }
      pull-at (ready (some (err s)) ∷ items) = record {
        delivers = rw (drained, live) refl;
        ends_alike = rw live refl;
        same_trailers = refl;
      }
      pull-at (ready (some (ok resp)) ∷ items) = record {
        delivers =
            framed-delivers (framed b.encode b.encoding resp) items ∙ rw (drained, live) refl;
        ends_alike = framed-ends (framed b.encode b.encoding resp) items ∙ rw live refl;
        same_trailers = framed-trailers (framed b.encode b.encoding resp) items;
      }

  module _ (b : StreamBody T) (room : ℕ) where
    next-Keeps :
        (again : StreamBody T → Poll Bytes × StreamBody T)
        → ((b' : StreamBody T) → Keeps b' (again b'))
        → (more over : Bool) → ltb b.pos (length b.queued) ≡ more
        → b.finished ≡ over
        → Keeps b (
            if more
            then read_queued b room
            else if over
            then (ready [], b)
            else check_cancel pending b again)
    unfolding check_cancel
    next-Keeps again step true over e f = read_queued-Keeps b room
    next-Keeps again step false true e f = record {
      delivers = refl;
      ends_alike = refl;
      same_trailers = refl;
    }
    next-Keeps again step false false e f =
        pull-at b (drop_all b.pos b.queued (ltb→le b.pos (length b.queued) e)) f again step b.stream

  pub loop-Keeps :
      (rounds : ℕ) (b : StreamBody T) (room : ℕ) → Keeps b (read_loop rounds pending b room)
  unfolding read_loop
  loop-Keeps zero b room = record { delivers = refl; ends_alike = refl; same_trailers = refl }
  loop-Keeps (suc rounds) b room =
      next-Keeps b room (λ b'. read_loop rounds pending b' room) (λ b'. loop-Keeps rounds b' room) _
        _ refl refl
