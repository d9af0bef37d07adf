-- ===== src/Server/Cancellation/Steps/Cut.antt =====
-- `Cancellation::race` of src/server/dispatch.rs where a shutdown or the deadline ends it.
use trillium_grpc.Prelude.{
  ◌||◌, Bool-cases, arith, ◌++◌, ℕ, ◌≡◌, refl, ap, ◌∙◌, sym, Bool, true, false, [], ◌∷◌, List,
  Option, none, some, Result, err, leb, if◌then◌else◌, inl, inr, All, length, le→ltb,
}
use trillium_grpc.Status.{Status}
use trillium_grpc.Frame.Reader.{Poll, pending, ready}
use trillium_grpc.Server.Cancellation.Polling.{expired}
use trillium_grpc.Server.Cancellation.{shutting_down, elapsed, IsAhead}
use trillium_grpc.Server.Cancellation.Steps.{
  StepCombinators, Tick, Quiet, map_found, next_tick, interruptible, race_tick, race_ticks, race,
  run_alone, interruptible-open, race_tick-Quiet,
}

module _ {A : Type 0} {S : Type 1} where
  module _ ⦃steps : StepCombinators⦄ (step : S → Poll (Result Status A) × S) where
    interruptible-closed :
        (s : S)
        → (step s).0 ≡ pending
        → interruptible true step s ≡ (ready (err shutting_down), (step s).1)
    interruptible-closed s idle = ap map_found (steps.interrupt_step-closed step s idle)

    race_tick-closed :
        (deadline : Option ℕ) (t : Tick) (s : S)
        → (step s).0 ≡ pending
        → t.shutdown ≡ true
        → race_tick deadline step t s ≡ (ready (err shutting_down), (step s).1)
    unfolding race_tick
    race_tick-closed none t s idle down =
        ap (λ b. interruptible b step s) down ∙ interruptible-closed s idle
    race_tick-closed (some instant) t s idle down =
        let e : interruptible t.shutdown step s ≡ (ready (err shutting_down), (step s).1) =
          ap (λ b. interruptible b step s) down ∙ interruptible-closed s idle in
        steps.or_after-ready (interruptible t.shutdown step)
          (if leb instant t.now then ready (err elapsed) else pending) (err shutting_down) s
          (ap (λ p. p.0) e)
        ∙ ap (λ (p : Poll (Result Status A) × S). (ready (err shutting_down), p.1)) e

    race_tick_late :
        (deadline : Option ℕ) (t : Tick) (s : S)
        → (step s).0 ≡ pending
        → t.shutdown ≡ false
        → expired deadline t.now ≡ true
        → race_tick deadline step t s ≡ (ready (err elapsed), (step s).1)
    unfolding race_tick
    race_tick_late none t s idle up past = absurd (ground (arith, past))
    race_tick_late (some instant) t s idle up past =
        let e : interruptible t.shutdown step s ≡ step s =
          ap (λ b. interruptible b step s) up ∙ interruptible-open step s in
        steps.or_after-pending (interruptible t.shutdown step)
          (if leb instant t.now then ready (err elapsed) else pending) s (ap (λ p. p.0) e ∙ idle)
        ∙ ap
            (λ (b : Bool).
              ((if b then ready (err elapsed) else pending), (interruptible t.shutdown step s).1))
            past
        ∙ ap (λ (p : Poll (Result Status A) × S). (ready (err elapsed), p.1)) e

    race_tick_cut :
        (deadline : Option ℕ) (t : Tick) (s : S)
        → (step s).0 ≡ pending
        → t.shutdown || expired deadline t.now ≡ true
        → race_tick deadline step t s
          ≡ (ready (err (if t.shutdown then shutting_down else elapsed)), (step s).1)
    race_tick_cut deadline t s idle cut = elim (Bool-cases t.shutdown) [
      | inl down ↦
          race_tick-closed deadline t s idle down
          ∙ ap (λ (b : Bool). (ready (err (if b then shutting_down else elapsed)), (step s).1))
              (sym down)
      | inr up ↦
          race_tick_late deadline t s idle up (ground (arith, up, cut))
          ∙ ap (λ (b : Bool). (ready (err (if b then shutting_down else elapsed)), (step s).1))
              (sym up)
    ]

    -- A poll that leaves both of two runs pending takes them on together.
    next_tick-pending :
        (p : Poll (Result Status A) × S) (f g : S → Option (Result Status A) × S)
        (r : Option (Result Status A) × S) (s' : S)
        → ((s : S) → f s ≡ (none, s') → g s ≡ r)
        → next_tick p f ≡ (none, s')
        → next_tick p g ≡ r
    next_tick-pending (pending, s) f g r s' goes e = goes s e
    next_tick-pending (ready a, s) f g r s' goes e = absurd (ground (arith, ap (λ q. q.0) e))

    race_ticks-append :
        (deadline : Option ℕ) (quiet rest : List Tick) (s s' : S)
        → All (Quiet deadline) quiet
        → run_alone step (length quiet) s ≡ (none, s')
        → race_ticks deadline step (quiet ++ rest) s ≡ race_ticks deadline step rest s'
    unfolding race_ticks run_alone
    race_ticks-append deadline [] rest s s' q e = ap (λ p. race_ticks deadline step rest p.1) e
    race_ticks-append deadline (t ∷ ts) rest s s' q e =
        ap (λ p. next_tick p (race_ticks deadline step (ts ++ rest)))
          (race_tick-Quiet step deadline t s q.0)
        ∙ next_tick-pending (step s) (run_alone step (length ts)) _ _ s'
            (λ s1. race_ticks-append deadline ts rest s1 s' q.1) e

    -- A race whose future is still pending at the first poll that finds a shutdown or the deadline
    -- passed ends with the status of that cause.
    pub race_cut :
        (deadline : Option ℕ) (start : ℕ) (quiet rest : List Tick) (t : Tick) (s s' : S)
        → IsAhead deadline start
        → All (Quiet deadline) quiet
        → run_alone step (length quiet) s ≡ (none, s')
        → (step s').0 ≡ pending
        → t.shutdown || expired deadline t.now ≡ true
        → race deadline start step (quiet ++ t ∷ rest) s
          ≡ (some (err (if t.shutdown then shutting_down else elapsed)), (step s').1)
    unfolding race race_ticks
    race_cut deadline start quiet rest t s s' ahead q waits idle cut =
        started deadline ahead ∙ race_ticks-append deadline quiet (t ∷ rest) s s' q waits ∙ stopped
      where
        started :
            (d : Option ℕ)
            → IsAhead d start
            → race d start step (quiet ++ t ∷ rest) s ≡ race_ticks d step (quiet ++ t ∷ rest) s
        started none h = refl
        started (some i) h =
            ap
              (λ b.
                if b
                then (some (err elapsed), s)
                else race_ticks (some i) step (quiet ++ t ∷ rest) s)
              (le→ltb i start h)

        stopped :
            race_ticks deadline step (t ∷ rest) s'
            ≡ (some (err (if t.shutdown then shutting_down else elapsed)), (step s').1)
        stopped =
            ap (λ p. next_tick p (race_ticks deadline step rest))
              (race_tick_cut deadline t s' idle cut)
