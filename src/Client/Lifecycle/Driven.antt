-- ===== src/Client/Lifecycle/Driven.antt =====
-- The history of a call of src/client/conn.rs goes through its phases in order.
use trillium_grpc.Prelude.{
  ℕ, ◌≡◌, refl, ap, sym, subst, Bool, true, false, [], ◌∷◌, List, Option, none, some, Bytes, Result,
  ok, err, if◌then◌else◌,
}
use trillium_grpc.Deps.{HeadersApi, Base64, Debug, Features, Compressors}
use trillium_grpc.Status.{Status}
use trillium_grpc.Server.Cancellation.Polling.{Combinators}
use trillium_grpc.Client.Network.{Network}
use trillium_grpc.Client.Race.{race_step_keeps}
use trillium_grpc.Client.State
use trillium_grpc.Client.State.{Inner, GrpcClientConn, finish, is_trailers_only, encode_message}
use trillium_grpc.Client.Opening.{Step, open_head, head_opened}
use trillium_grpc.Client.Driving.{
  Moment, Read, send, close_send, recv, recv_from, recv_inner, read_one, after_read, ended,
  poll_frame, then_recv, then_close, close_live, close_from, send_encoded, send_frame,
}
use trillium_grpc.Client.Lifecycle.{
  Phase, reading, duplex, done, phase_of, Move, ends_reading, ends_duplex, delivers, Moves,
  then_moves, Event, sends, closes, opens, receives, perform, run_events,
}
use trillium_grpc.Client.Lifecycle.Steps.{
  CameFrom, IsIn, materialize-CameFrom, poll_frame-IsIn, finish-IsIn,
}

module _ ⦃api : HeadersApi⦄ ⦃net : Network api.Headers⦄ ⦃b64 : Base64⦄ {Req Resp : Type 0}
    {full_duplex : Bool} {p : Phase} where
  finish-CameFrom :
      (c : GrpcClientConn Req Resp) (q : Phase)
      → IsIn full_duplex q c
      → Moves full_duplex p q
      → Move full_duplex q done
      → CameFrom full_duplex p (finish c).1
  finish-CameFrom c q at way over =
      let h = finish-IsIn c at.kind in
      record {
        kind = h.kind;
        way = subst (Moves full_duplex p) (sym h.phase) (then_moves way over);
      }

  in-CameFrom :
      (c : GrpcClientConn Req Resp) (q : Phase)
      → IsIn full_duplex q c
      → Moves full_duplex p q
      → CameFrom full_duplex p c
  in-CameFrom c q at way = record {
    kind = at.kind;
    way = subst (Moves full_duplex p) (sym at.phase) way;
  }

  ended-fst :
      (r : Result Status (Unit {0}) × GrpcClientConn Req Resp)
      → CameFrom full_duplex p r.1
      → CameFrom full_duplex p (ended r).1
  ended-fst (ok _, c) h = h
  ended-fst (err status, c) h = h

  chosen :
      {A : Type 0} (flag : Bool) (a b : Step Req Resp A)
      → CameFrom full_duplex p a.1
      → CameFrom full_duplex p b.1
      → CameFrom full_duplex p (if flag then a else b).1
  chosen true a b h k = h
  chosen false a b h k = k

  after_read-CameFrom :
      (q : Phase) (r : Option (Read Resp) × GrpcClientConn Req Resp)
      → IsIn full_duplex q r.1
      → Moves full_duplex p q
      → Move full_duplex q done
      → CameFrom full_duplex p (after_read r).1
  after_read-CameFrom q (none, c) at way over = in-CameFrom c q at way
  after_read-CameFrom q (some (err status), c) at way over = in-CameFrom c q at way
  after_read-CameFrom q (some (ok none), c) at way over =
      ended-fst (finish c) (finish-CameFrom c q at way over)
  after_read-CameFrom q (some (ok (some (err status))), c) at way over =
      finish-CameFrom c q at way over
  after_read-CameFrom q (some (ok (some (ok message))), c) at way over =
      chosen (is_trailers_only c) _ _ (finish-CameFrom c q at way over) (in-CameFrom c q at way)

  module _ ⦃crates : Compressors⦄ ⦃lib : Combinators⦄ where
    read_one-CameFrom :
        (q : Phase) (at : Moment) (c : GrpcClientConn Req Resp)
        → IsIn full_duplex q c
        → Moves full_duplex p q
        → Move full_duplex q done
        → CameFrom full_duplex p (read_one at c).1
    unfolding read_one
    read_one-CameFrom q at c h way over =
        after_read-CameFrom q _
          (race_step_keeps (IsIn full_duplex q) c.deadline at.reads poll_frame poll_frame-IsIn
            at.ticks c h)
          way over

    recv_inner-CameFrom :
        (at : Moment) (c : GrpcClientConn Req Resp) (inner : Inner)
        → c.inner ≡ inner
        → CameFrom full_duplex p c
        → CameFrom full_duplex p (recv_inner at c inner).1
    unfolding recv_inner
    recv_inner-CameFrom at c (State.pending pend) e from = from
    recv_inner-CameFrom at c (State.reading live) e from =
        read_one-CameFrom reading at c (record { kind = from.kind; phase = ap phase_of e })
          (subst (λ i. Moves full_duplex p (phase_of i)) e from.way) ends_reading
    recv_inner-CameFrom at c (State.duplex live) e from =
        read_one-CameFrom duplex at c (record { kind = from.kind; phase = ap phase_of e })
          (subst (λ i. Moves full_duplex p (phase_of i)) e from.way) ends_duplex
    recv_inner-CameFrom at c (State.done response_headers trailers) e from = from
    recv_inner-CameFrom at c (State.failed status) e from = record {
      kind = from.kind;
      way = then_moves (subst (λ i. Moves full_duplex p (phase_of i)) e from.way) delivers;
    }

    then_recv-CameFrom :
        (at : Moment) (r : Step Req Resp (Unit {0}))
        → CameFrom full_duplex p r.1
        → CameFrom full_duplex p (then_recv at r).1
    then_recv-CameFrom at (none, c) from = from
    then_recv-CameFrom at (some (err status), c) from = from
    then_recv-CameFrom at (some (ok _), c) from = recv_inner-CameFrom at c c.inner refl from

  close_live-CameFrom :
      (c : GrpcClientConn Req Resp) (inner : Inner)
      → c.inner ≡ inner
      → CameFrom full_duplex p c
      → CameFrom full_duplex p (close_live c inner).1
  close_live-CameFrom c (State.duplex live) e from = record {
    kind = from.kind;
    way = subst (λ i. Moves full_duplex p (phase_of i)) e from.way;
  }
  close_live-CameFrom c (State.pending pend) e from = from
  close_live-CameFrom c (State.reading live) e from = from
  close_live-CameFrom c (State.done response_headers trailers) e from = from
  close_live-CameFrom c (State.failed status) e from = from

  then_close-CameFrom :
      (r : Step Req Resp (Unit {0}))
      → CameFrom full_duplex p r.1
      → CameFrom full_duplex p (then_close r).1
  then_close-CameFrom (none, c) from = from
  then_close-CameFrom (some (err status), c) from = from
  then_close-CameFrom (some (ok _), c) from = close_live-CameFrom c c.inner refl from

  send_frame-CameFrom :
      ⦃lib : Combinators⦄ (now : ℕ) (c : GrpcClientConn Req Resp) (frame : Bytes) (inner : Inner)
      → c.inner ≡ inner
      → CameFrom full_duplex p c
      → CameFrom full_duplex p (send_frame now c frame inner).1
  unfolding send_frame
  send_frame-CameFrom now c frame (State.pending pend) e from =
      chosen pend.send_closed _ _ from (record {
        kind = from.kind;
        way = subst (λ i. Moves full_duplex p (phase_of i)) e from.way;
      })
  send_frame-CameFrom now c frame (State.duplex live) e from = record {
    kind = from.kind;
    way = subst (λ i. Moves full_duplex p (phase_of i)) e from.way;
  }
  send_frame-CameFrom now c frame (State.reading live) e from = from
  send_frame-CameFrom now c frame (State.done response_headers trailers) e from = from
  send_frame-CameFrom now c frame (State.failed status) e from = from

  send_encoded-CameFrom :
      ⦃lib : Combinators⦄ (now : ℕ) (c : GrpcClientConn Req Resp) (frame : Result Status Bytes)
      → CameFrom full_duplex p c
      → CameFrom full_duplex p (send_encoded now c frame).1
  unfolding send_encoded
  send_encoded-CameFrom now c (ok frame) from = send_frame-CameFrom now c frame c.inner refl from
  send_encoded-CameFrom now c (err status) from = from

module _ ⦃api : HeadersApi⦄ ⦃net : Network api.Headers⦄ ⦃b64 : Base64⦄ ⦃build : Features⦄
    ⦃show : Debug⦄ ⦃crates : Compressors⦄ ⦃lib : Combinators⦄ {Req Resp : Type 0}
    {full_duplex : Bool} {p : Phase} where
  opened-CameFrom :
      (now : ℕ) (c : GrpcClientConn Req Resp) (inner : Inner)
      → c.inner ≡ inner
      → CameFrom full_duplex p c
      → CameFrom full_duplex p (head_opened now c inner).1
  unfolding head_opened
  opened-CameFrom now c (State.pending pend) e from =
      materialize-CameFrom full_duplex now c pend from.kind
        (subst (λ i. Moves full_duplex p (phase_of i)) e from.way)
  opened-CameFrom now c (State.reading live) e from = from
  opened-CameFrom now c (State.duplex live) e from = from
  opened-CameFrom now c (State.done response_headers trailers) e from = from
  opened-CameFrom now c (State.failed status) e from = from

  close_from-CameFrom :
      (now : ℕ) (c : GrpcClientConn Req Resp) (inner : Inner)
      → c.inner ≡ inner
      → CameFrom full_duplex p c
      → CameFrom full_duplex p (close_from now c inner).1
  unfolding close_from
  close_from-CameFrom now c (State.pending pend) e from =
      let opened =
        materialize-CameFrom full_duplex now
          (record c { inner = State.pending (record pend { send_closed = true }) })
          (record pend { send_closed = true }) from.kind
          (subst (λ i. Moves full_duplex p (phase_of i)) e from.way) in
      chosen c.full_duplex _ _ (then_close-CameFrom _ opened) opened
  close_from-CameFrom now c (State.duplex live) e from =
      close_live-CameFrom c (State.duplex live) e from
  close_from-CameFrom now c (State.reading live) e from = from
  close_from-CameFrom now c (State.done response_headers trailers) e from = from
  close_from-CameFrom now c (State.failed status) e from = from

  recv_from-CameFrom :
      (at : Moment) (c : GrpcClientConn Req Resp) (inner : Inner)
      → c.inner ≡ inner
      → CameFrom full_duplex p c
      → CameFrom full_duplex p (recv_from at c inner).1
  unfolding recv_from
  recv_from-CameFrom at c (State.pending pend) e from = then_recv-CameFrom at _ (
      materialize-CameFrom full_duplex at.fires c pend from.kind
        (subst (λ i. Moves full_duplex p (phase_of i)) e from.way))
  recv_from-CameFrom at c (State.reading live) e from = recv_inner-CameFrom at c _ e from
  recv_from-CameFrom at c (State.duplex live) e from = recv_inner-CameFrom at c _ e from
  recv_from-CameFrom at c (State.done response_headers trailers) e from =
      recv_inner-CameFrom at c _ e from
  recv_from-CameFrom at c (State.failed status) e from = recv_inner-CameFrom at c _ e from

  perform-CameFrom :
      (event : Event Req) (c : GrpcClientConn Req Resp)
      → CameFrom full_duplex p c
      → CameFrom full_duplex p (perform event c)
  unfolding perform send close_send open_head recv
  perform-CameFrom (sends now message) c from =
      send_encoded-CameFrom now c (encode_message c message) from
  perform-CameFrom (closes now) c from = close_from-CameFrom now c c.inner refl from
  perform-CameFrom (opens now) c from = opened-CameFrom now c c.inner refl from
  perform-CameFrom (receives at) c from = recv_from-CameFrom at c c.inner refl from

  pub run_events-CameFrom :
      (events : List (Event Req)) (c : GrpcClientConn Req Resp)
      → CameFrom full_duplex p c
      → CameFrom full_duplex p (run_events events c)
  unfolding run_events
  run_events-CameFrom [] c from = from
  run_events-CameFrom (e ∷ es) c from =
      run_events-CameFrom es (perform e c) (perform-CameFrom e c from)
