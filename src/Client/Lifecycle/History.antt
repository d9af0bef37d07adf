-- ===== src/Client/Lifecycle/History.antt =====
-- What a history of the methods of src/client/conn.rs does to a call.
use trillium_grpc.Prelude.{◌≡◌, refl, ap, Bool, List, none, some, ok, ◌≢◌, arith}
use trillium_grpc.Deps.{HeadersApi, Base64, Debug, Features, Compressors}
use trillium_grpc.Server.Cancellation.Polling.{Combinators}
use trillium_grpc.Client.Network.{Network}
use trillium_grpc.Client.State
use trillium_grpc.Client.State.{Inner, GrpcClientConn}
use trillium_grpc.Client.Driving.{Moment, recv, recv_from, recv_inner}
use trillium_grpc.Client.Lifecycle.{
  Phase, unsent, done, phase_of, opens_reading, opens_duplex, breaks, ends_reading, ends_duplex,
  delivers, Moves, stays, then_moves, Event, run_events,
}
use trillium_grpc.Client.Lifecycle.Steps.{CameFrom}
use trillium_grpc.Client.Lifecycle.Driven.{run_events-CameFrom}

never_unsent : {full_duplex : Bool} {p q : Phase} → Moves full_duplex p q → q ≡ unsent → p ≡ unsent
never_unsent stays e = e
never_unsent (then_moves m opens_reading) e = absurd cc
never_unsent (then_moves m opens_duplex) e = absurd cc
never_unsent (then_moves m breaks) e = absurd cc
never_unsent (then_moves m ends_reading) e = absurd cc
never_unsent (then_moves m ends_duplex) e = absurd cc
never_unsent (then_moves m delivers) e = absurd cc

stays_done : {full_duplex : Bool} {p q : Phase} → Moves full_duplex p q → p ≡ done → q ≡ done
stays_done stays e = e
stays_done (then_moves m opens_reading) e = absurd (ground (arith, stays_done m e))
stays_done (then_moves m opens_duplex) e = absurd (ground (arith, stays_done m e))
stays_done (then_moves m breaks) e = absurd (ground (arith, stays_done m e))
stays_done (then_moves m ends_reading) e = refl
stays_done (then_moves m ends_duplex) e = refl
stays_done (then_moves m delivers) e = refl

module _ ⦃api : HeadersApi⦄ ⦃net : Network api.Headers⦄ where
  done-inner :
      (inner : Inner)
      → phase_of inner ≡ done
      → (h : api.Headers) × (t : api.Headers) × (inner ≡ State.done h t)
  done-inner (State.done h t) e = (h, t, refl)
  done-inner (State.pending p) e = absurd cc
  done-inner (State.reading live) e = absurd cc
  done-inner (State.duplex live) e = absurd cc
  done-inner (State.failed status) e = absurd cc

module _ ⦃api : HeadersApi⦄ ⦃net : Network api.Headers⦄ ⦃b64 : Base64⦄ ⦃build : Features⦄
    ⦃show : Debug⦄ ⦃crates : Compressors⦄ ⦃lib : Combinators⦄ {Req Resp : Type 0} where
  -- Whatever is done with a call, in whatever order and however often, it gets where it is by the moves
  -- of its kind: a half-duplex call from unsent to reading or failed, a full-duplex call from unsent to
  -- duplex or failed, and from each of these to done; the kind never changes.
  pub run_events-CameFrom_start :
      (events : List (Event Req)) (c : GrpcClientConn Req Resp)
      → CameFrom c.full_duplex (phase_of c.inner) (run_events events c)
  run_events-CameFrom_start events c =
      run_events-CameFrom events c (record { kind = refl; way = stays })

  -- A call whose request was fired, or failed to open, is never pending again, so that its request is
  -- never fired a second time.
  pub run_events_fired :
      (events : List (Event Req)) (c : GrpcClientConn Req Resp)
      → phase_of c.inner ≢ unsent
      → phase_of (run_events events c).inner ≢ unsent
  run_events_fired events c sent again =
      sent (never_unsent (run_events-CameFrom_start events c).way again)

  -- Once a call is done it stays done, whatever else is done with it, and a `recv` yields the end of the
  -- stream each time.
  pub run_events_done :
      (events : List (Event Req)) (c : GrpcClientConn Req Resp) (at : Moment)
      → phase_of c.inner ≡ done
      → (phase_of (run_events events c).inner ≡ done)
        × ((recv at (run_events events c)).0 ≡ some (ok none))
  unfolding recv recv_from recv_inner
  run_events_done events c at over =
      let still = stays_done (run_events-CameFrom_start events c).way over in
      let (h, t, e) = done-inner (run_events events c).inner still in
      (still, ap (λ i. (recv_from at (run_events events c) i).0) e)
