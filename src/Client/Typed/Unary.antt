-- ===== src/Client/Typed/Unary.antt =====
-- What a unary call of src/client/typed.rs is found to be.
use trillium_grpc.Prelude.{◌≡◌, ◌↔◌, refl, ap, ◌∙◌, sym, Option, none, some, Result, ok, err, arith}
use trillium_grpc.Deps.{HeadersApi, Base64, Debug, Features, Compressors}
use trillium_grpc.Status.{Status}
use trillium_grpc.Server.Cancellation.Polling.{Combinators}
use trillium_grpc.Client.Network.{Network}
use trillium_grpc.Client.State.{GrpcClientConn}
use trillium_grpc.Client.Opening.{Step}
use trillium_grpc.Client.Driving.{Moment, recv}
use trillium_grpc.Client.Typed.{
  UnaryConn, Outcome, into_message, message_from, message_of, read_unary, after_first, after_second,
  finished,
}

module _ {Resp : Type 0} (m : Resp) where
  message_of-ok : (o : Outcome Resp) → message_of o ≡ ok m → o ≡ (some m, ok tt)
  message_of-ok (none, ok _) e = absurd cc
  message_of-ok (some x, ok _) e = ground (arith, e)
  message_of-ok (x, err status) e = absurd (ground (arith, e))

module _ ⦃api : HeadersApi⦄ ⦃net : Network api.Headers⦄ {Req Resp : Type 0} (m : Resp) where
  second-ok :
      (x : Resp) (r : Step Req Resp (Option Resp))
      → (after_second x r).0 ≡ some (some m, ok tt)
      → (x ≡ m) × (r.0 ≡ some (ok none))
  second-ok x (none, c) e = absurd cc
  second-ok x (some (ok none), c) e = (ground (arith, e), refl)
  second-ok x (some (ok (some y)), c) e = absurd (ground (arith, e))
  second-ok x (some (err status), c) e = absurd (ground (arith, e))

  first-ok :
      (again : GrpcClientConn Req Resp → Step Req Resp (Option Resp))
      (r : Step Req Resp (Option Resp))
      → (after_first again r).0 ≡ some (some m, ok tt)
      → (r.0 ≡ some (ok (some m))) × ((again r.1).0 ≡ some (ok none))
  first-ok again (none, c) e = absurd cc
  first-ok again (some (ok (some x)), c) e =
      let (same, over) = second-ok x (again c) e in (ap (λ y. some (ok (some y))) same, over)
  first-ok again (some (ok none), c) e = absurd (ground (arith, e))
  first-ok again (some (err status), c) e = absurd (ground (arith, e))

  second-from :
      (x : Resp) (r : Step Req Resp (Option Resp))
      → r.0 ≡ some (ok none)
      → (after_second x r).0 ≡ some (some x, ok tt)
  second-from x (none, c) e = absurd cc
  second-from x (some (ok none), c) e = refl
  second-from x (some (ok (some y)), c) e = absurd (ground (arith, e))
  second-from x (some (err status), c) e = absurd (ground (arith, e))

  first-from :
      (again : GrpcClientConn Req Resp → Step Req Resp (Option Resp))
      (r : Step Req Resp (Option Resp))
      → r.0 ≡ some (ok (some m))
      → (again r.1).0 ≡ some (ok none)
      → (after_first again r).0 ≡ some (some m, ok tt)
  first-from again (none, c) e over = absurd cc
  first-from again (some (ok (some x)), c) e over =
      second-from x (again c) over ∙ ap (λ y. some (some y, ok tt)) (ground (arith, e))
  first-from again (some (ok none), c) e over = absurd (ground (arith, e))
  first-from again (some (err status), c) e over = absurd (ground (arith, e))

  outcome-finished :
      (r : Option (Outcome Resp) × GrpcClientConn Req Resp) (u : UnaryConn Req Resp)
      → finished r ≡ some (ok u)
      → r.0 ≡ u.outcome
  outcome-finished (none, c) u e = absurd cc
  outcome-finished (some o, c) u e = ap outcome_in e
    where
      outcome_in : Option (Result Status (UnaryConn Req Resp)) → Option (Outcome Resp)
      outcome_in (some (ok v)) = v.outcome
      outcome_in _ = none

  module _ ⦃b64 : Base64⦄ ⦃build : Features⦄ ⦃show : Debug⦄ ⦃crates : Compressors⦄
      ⦃lib : Combinators⦄ where
    -- A unary call whose response was read yields a message if and only if the first read yields that
    -- message and the second the clean end of the stream: neither a response without a message, nor one
    -- with a second message, nor one whose trailers say an error behind the message is a success.
    pub into_message_iff :
        (a b : Moment) (c : GrpcClientConn Req Resp) (u : UnaryConn Req Resp)
        → finished (read_unary a b c) ≡ some (ok u)
        → (into_message u ≡ ok m)
          ↔ (((recv a c).0 ≡ some (ok (some m))) × ((recv b (recv a c).1).0 ≡ some (ok none)))
    unfolding into_message read_unary
    into_message_iff a b c u e = (
      λ yields. first-ok (recv b) (recv a c) (outcome-finished _ u e ∙ from_ok u.outcome yields),
      λ reads.
          ap message_from
            (sym (outcome-finished _ u e) ∙ first-from (recv b) (recv a c) reads.0 reads.1),
    )
      where
        from_ok : (o : Option (Outcome Resp)) → message_from o ≡ ok m → o ≡ some (some m, ok tt)
        from_ok none h = absurd cc
        from_ok (some o) h = ap some (message_of-ok m o h)
