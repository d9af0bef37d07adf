-- ===== src/Client/Lifecycle/Steps.antt =====
-- The methods of a call of src/client/conn.rs move it on, and never back.
use trillium_grpc.Prelude.{
  ℕ, ◌≡◌, refl, sym, subst, Bool, true, false, List, Option, none, some, Result, ok, err,
  if◌then◌else◌, map,
}
use trillium_grpc.Deps.{HeadersApi, Base64, Debug, Features, Compressors}
use trillium_grpc.Status.{Status}
use trillium_grpc.Server.Cancellation.Polling.{Combinators}
use trillium_grpc.Client.Head.{Head, process_head}
use trillium_grpc.Client.Network.{Network, Look}
use trillium_grpc.Client.Race.{race}
use trillium_grpc.Client.State
use trillium_grpc.Client.State.{Pending, Inner, GrpcClientConn, finish, finish_inner}
use trillium_grpc.Client.Opening.{
  Step, materialize, materialize_reading, materialize_duplex, after_head, take_body, after_open,
  fire_with, build_request, wake_of, transport_error,
}
use trillium_grpc.Client.Driving.{send, poll_frame, poll_inner}
use trillium_grpc.Client.Lifecycle.{
  Phase, unsent, reading, duplex, done, phase_of, Move, opens_reading, opens_duplex, breaks, Moves,
  then_moves,
}

module _ ⦃api : HeadersApi⦄ ⦃net : Network api.Headers⦄ {Req Resp : Type 0} where
  -- The call keeps its kind and has got from phase `p` to where it is by moves.
  pub record CameFrom (full_duplex : Bool) (p : Phase) (c : GrpcClientConn Req Resp) : Type 0 where
    pub kind : c.full_duplex ≡ full_duplex
    pub way : Moves full_duplex p (phase_of c.inner)

  -- The call is in phase `q`.
  pub record IsIn (full_duplex : Bool) (q : Phase) (c : GrpcClientConn Req Resp) : Type 0 where
    pub kind : c.full_duplex ≡ full_duplex
    pub phase : phase_of c.inner ≡ q

  module _ ⦃b64 : Base64⦄ ⦃build : Features⦄ {full_duplex : Bool} {p : Phase} where
    after_head-CameFrom :
        (mk : Head → Inner) (c : GrpcClientConn Req Resp) (head : Result Status Head)
        → c.full_duplex ≡ full_duplex
        → Moves full_duplex p unsent
        → ((h : Head) → Move full_duplex unsent (phase_of (mk h)))
        → CameFrom full_duplex p (after_head mk c head).1
    unfolding State.fail
    after_head-CameFrom mk c (ok head) kind way opened = record {
      kind = kind;
      way = then_moves way (opened head);
    }
    after_head-CameFrom mk c (err status) kind way opened = record {
      kind = kind;
      way = then_moves way breaks;
    }

    after_open-CameFrom :
        ⦃show : Debug⦄ (mk : net.Conn → Head → Inner) (c : GrpcClientConn Req Resp)
        (opened : Option (Result Status net.Conn))
        → ((conn : net.Conn) (h : Head) → Move full_duplex unsent (phase_of (mk conn h)))
        → Moves full_duplex p unsent
        → CameFrom full_duplex p c
        → CameFrom full_duplex p (after_open mk c opened).1
    unfolding State.fail
    after_open-CameFrom mk c none may way from = from
    after_open-CameFrom mk c (some (err status)) may way from = record {
      kind = from.kind;
      way = then_moves way breaks;
    }
    after_open-CameFrom mk c (some (ok conn)) may way from =
        after_head-CameFrom (mk conn) c (process_head (net.status conn) (net.response_headers conn))
          from.kind way (may conn)

    fire_with-CameFrom :
        ⦃show : Debug⦄ ⦃lib : Combinators⦄ (send : net.Request → List (Look net.Conn))
        (mk : net.Conn → Head → Inner) (now : ℕ) (c : GrpcClientConn Req Resp) (pend : Pending)
        (deferred : Option Status)
        → ((conn : net.Conn) (h : Head) → Move full_duplex unsent (phase_of (mk conn h)))
        → c.full_duplex ≡ full_duplex
        → Moves full_duplex p unsent
        → CameFrom full_duplex p (fire_with send mk now c pend deferred).1
    unfolding State.fail
    fire_with-CameFrom send mk now c pend (some status) may kind way = record {
      kind = kind;
      way = then_moves way breaks;
    }
    fire_with-CameFrom send mk now c pend none may kind way =
        after_open-CameFrom mk (take_body c pend)
          (race c.deadline now
            (map (wake_of transport_error) (send (build_request now c pend pend.body))))
          may way (record { kind = kind; way = way })

  module _ ⦃b64 : Base64⦄ ⦃build : Features⦄ ⦃show : Debug⦄ ⦃lib : Combinators⦄ {p : Phase} where
    either-CameFrom :
        (flag full_duplex : Bool) (yes_step no_step : Step Req Resp (Unit {0}))
        → flag ≡ full_duplex
        → (full_duplex ≡ true → CameFrom full_duplex p yes_step.1)
        → (full_duplex ≡ false → CameFrom full_duplex p no_step.1)
        → CameFrom full_duplex p (if flag then yes_step else no_step).1
    either-CameFrom true full_duplex yes_step no_step same h k = h (sym same)
    either-CameFrom false full_duplex yes_step no_step same h k = k (sym same)

    pub materialize-CameFrom :
        (full_duplex : Bool) (now : ℕ) (c : GrpcClientConn Req Resp) (pend : Pending)
        → c.full_duplex ≡ full_duplex
        → Moves full_duplex p unsent
        → CameFrom full_duplex p (materialize now c pend).1
    unfolding materialize materialize_reading materialize_duplex
    materialize-CameFrom full_duplex now c pend kind way =
        either-CameFrom c.full_duplex full_duplex _ _ kind
          (λ e.
            fire_with-CameFrom net.upgrade _ now c pend c.init_error
              (λ conn h. subst (λ f. Move f unsent duplex) (sym e) opens_duplex) kind way)
          (λ e.
            fire_with-CameFrom net.fire _ now c pend c.init_error
              (λ conn h. subst (λ f. Move f unsent reading) (sym e) opens_reading) kind way)

  module _ {full_duplex : Bool} where
    poll_inner-IsIn :
        ⦃crates : Compressors⦄ (c : GrpcClientConn Req Resp) (inner : Inner)
        → IsIn full_duplex (phase_of inner) c
        → IsIn full_duplex (phase_of inner) (poll_inner c inner).1
    unfolding poll_inner
    poll_inner-IsIn c (State.reading live) h = record { kind = h.kind; phase = refl }
    poll_inner-IsIn c (State.duplex live) h = record { kind = h.kind; phase = refl }
    poll_inner-IsIn c (State.pending pend) h = h
    poll_inner-IsIn c (State.done response_headers trailers) h = h
    poll_inner-IsIn c (State.failed status) h = h

    pub poll_frame-IsIn :
        ⦃crates : Compressors⦄ {q : Phase} (c : GrpcClientConn Req Resp)
        → IsIn full_duplex q c
        → IsIn full_duplex q (poll_frame c).1
    unfolding poll_frame
    poll_frame-IsIn c h =
        subst (λ r. IsIn full_duplex r (poll_inner c c.inner).1) h.phase
          (poll_inner-IsIn c c.inner (record { kind = h.kind; phase = refl }))

  module _ ⦃b64 : Base64⦄ {full_duplex : Bool} where
    pub finish-IsIn :
        (c : GrpcClientConn Req Resp)
        → c.full_duplex ≡ full_duplex
        → IsIn full_duplex done (finish c).1
    unfolding finish
    finish-IsIn c kind = go c.inner
      where
        go : (inner : Inner) → IsIn full_duplex done (finish_inner c inner).1
        go (State.reading live) = record { kind = kind; phase = refl }
        go (State.duplex live) = record { kind = kind; phase = refl }
        go (State.pending pend) = record { kind = kind; phase = refl }
        go (State.done response_headers trailers) = record { kind = kind; phase = refl }
        go (State.failed status) = record { kind = kind; phase = refl }
