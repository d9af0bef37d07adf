-- ===== src/Client/Lifecycle/Ended.antt =====
-- When a `recv` of src/client/conn.rs says that the stream is over.
use trillium_grpc.Prelude.{
  arith, ◌≢◌, ◌≡◌, refl, ap, Bool, true, false, Option, none, some, Result, ok, err, if◌then◌else◌,
}
use trillium_grpc.Deps.{HeadersApi, Base64, Debug, Features, Compressors}
use trillium_grpc.Status.{Status}
use trillium_grpc.Server.Cancellation.Polling.{Combinators}
use trillium_grpc.Client.Network.{Network}
use trillium_grpc.Client.State
use trillium_grpc.Client.State.{Inner, GrpcClientConn, finish, is_trailers_only}
use trillium_grpc.Client.Opening.{Step, materialize}
use trillium_grpc.Client.Driving.{
  Moment, Read, recv, recv_from, recv_inner, read_one, after_read, ended, then_recv,
}
use trillium_grpc.Client.Lifecycle.{done, phase_of}
use trillium_grpc.Client.Lifecycle.Steps.{finish-IsIn}

module _ ⦃api : HeadersApi⦄ ⦃net : Network api.Headers⦄ ⦃b64 : Base64⦄ {Req Resp : Type 0} where
  ended-phase :
      (r : Result Status (Unit {0}) × GrpcClientConn Req Resp)
      → phase_of r.1.inner ≡ done
      → phase_of (ended r).1.inner ≡ done
  ended-phase (ok _, c) h = h
  ended-phase (err status, c) h = h

  message-not_end :
      (flag : Bool) (over still : Step Req Resp (Option Resp))
      → over.0 ≢ some (ok none)
      → still.0 ≢ some (ok none)
      → (if flag then over else still).0 ≢ some (ok none)
  message-not_end true over still h k = h
  message-not_end false over still h k = k

  after_read-end :
      (r : Option (Read Resp) × GrpcClientConn Req Resp)
      → (after_read r).0 ≡ some (ok none)
      → phase_of (after_read r).1.inner ≡ done
  after_read-end (none, c) e = absurd cc
  after_read-end (some (err status), c) e = absurd (ground (arith, e))
  after_read-end (some (ok none), c) e = ended-phase (finish c) (finish-IsIn c refl).phase
  after_read-end (some (ok (some (err status))), c) e = absurd (ground (arith, e))
  after_read-end (some (ok (some (ok message))), c) e =
      absurd (
        message-not_end (is_trailers_only c) _ _ (λ h. ground (arith, h)) (λ h. ground (arith, h))
          e)

  module _ ⦃crates : Compressors⦄ ⦃lib : Combinators⦄ where
    recv_inner-end :
        (at : Moment) (c : GrpcClientConn Req Resp) (inner : Inner)
        → c.inner ≡ inner
        → (recv_inner at c inner).0 ≡ some (ok none)
        → phase_of (recv_inner at c inner).1.inner ≡ done
    unfolding recv_inner read_one
    recv_inner-end at c (State.pending p) e none_left = absurd cc
    recv_inner-end at c (State.reading live) e none_left = after_read-end _ none_left
    recv_inner-end at c (State.duplex live) e none_left = after_read-end _ none_left
    recv_inner-end at c (State.done h t) e none_left = ap phase_of e
    recv_inner-end at c (State.failed status) e none_left = absurd (ground (arith, none_left))

    then_recv-end :
        (at : Moment) (r : Step Req Resp (Unit {0}))
        → (then_recv at r).0 ≡ some (ok none)
        → phase_of (then_recv at r).1.inner ≡ done
    then_recv-end at (none, c) e = absurd cc
    then_recv-end at (some (err status), c) e = absurd (ground (arith, e))
    then_recv-end at (some (ok _), c) e = recv_inner-end at c c.inner refl e

    module _ ⦃build : Features⦄ ⦃show : Debug⦄ where
      recv_from-end :
          (at : Moment) (c : GrpcClientConn Req Resp) (inner : Inner)
          → c.inner ≡ inner
          → (recv_from at c inner).0 ≡ some (ok none)
          → phase_of (recv_from at c inner).1.inner ≡ done
      unfolding recv_from
      recv_from-end at c (State.pending p) e none_left =
          then_recv-end at (materialize at.fires c p) none_left
      recv_from-end at c (State.reading live) e none_left = recv_inner-end at c _ e none_left
      recv_from-end at c (State.duplex live) e none_left = recv_inner-end at c _ e none_left
      recv_from-end at c (State.done h t) e none_left = recv_inner-end at c _ e none_left
      recv_from-end at c (State.failed status) e none_left = recv_inner-end at c _ e none_left

      -- A `recv` that yields the end of the stream leaves the call done.
      pub recv-end :
          (at : Moment) (c : GrpcClientConn Req Resp)
          → (recv at c).0 ≡ some (ok none)
          → phase_of (recv at c).1.inner ≡ done
      unfolding recv
      recv-end at c e = recv_from-end at c c.inner refl e
