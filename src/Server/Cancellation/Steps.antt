-- ===== src/Server/Cancellation/Steps.antt =====
-- `Cancellation::race` of src/server/dispatch.rs over a future that changes its call with every poll.
pub mod Cut
use trillium_grpc.Prelude.{
  ℕ, ◌≡◌, refl, ap, ◌∙◌, sym, Bool, true, false, [], ◌∷◌, List, Option, none, some, Result, err,
  leb, ltb, if◌then◌else◌, inl, inr, ◌⊎◌, zero, suc, All, length, le→ltb,
}
use trillium_grpc.Status.{Status}
use trillium_grpc.Frame.Reader.{Poll, pending, ready}
use trillium_grpc.Server.Cancellation.Polling.{map_poll, expired}
use trillium_grpc.Server.Cancellation.{elapsed, interrupted, IsAhead}

-- `Swansong::interrupt` and `future::or` on a left future whose polls change a state.
pub record StepCombinators : Type 2 where
  pub interrupt_step : {A : Type 0} {S : Type 1} → Bool → (S → Poll A × S) → S → Poll (Option A) × S
  pub or_after : {A : Type 0} {S : Type 1} → (S → Poll A × S) → Poll A → S → Poll A × S
  pub interrupt_step-open :
      {A : Type 0} {S : Type 1} (step : S → Poll A × S) (s : S)
      → interrupt_step false step s ≡ (map_poll some (step s).0, (step s).1)
  pub interrupt_step-closed :
      {A : Type 0} {S : Type 1} (step : S → Poll A × S) (s : S)
      → (step s).0 ≡ pending
      → interrupt_step true step s ≡ (ready none, (step s).1)
  -- The state behind a poll is the future's, whatever the poll finds.
  pub interrupt_step-state :
      {A : Type 0} {S : Type 1} (shutdown : Bool) (step : S → Poll A × S) (s : S)
      → (interrupt_step shutdown step s).1 ≡ (step s).1
  pub or_after-ready :
      {A : Type 0} {S : Type 1} (step : S → Poll A × S) (q : Poll A) (a : A) (s : S)
      → (step s).0 ≡ ready a
      → or_after step q s ≡ (ready a, (step s).1)
  pub or_after-pending :
      {A : Type 0} {S : Type 1} (step : S → Poll A × S) (q : Poll A) (s : S)
      → (step s).0 ≡ pending
      → or_after step q s ≡ (q, (step s).1)

-- What a poll finds of the shutdown and of the time.
pub record Tick : Type 0 where
  pub shutdown : Bool
  pub now : ℕ

-- A poll that is neither a shutdown nor past the deadline.
abbrev pub Quiet : Option ℕ → Tick → Type 0
Quiet deadline t = (t.shutdown ≡ false) × (expired deadline t.now ≡ false)

Poll-cases : {A : Type 0} (p : Poll A) → (p ≡ pending) ⊎ ((a : A) × (p ≡ ready a))
Poll-cases pending = inl refl
Poll-cases (ready a) = inr (a, refl)

module _ {A : Type 0} {S : Type 1} where
  abbrev pub map_found : Poll (Option (Result Status A)) × S → Poll (Result Status A) × S
  map_found (polled, s) = (map_poll interrupted polled, s)

  abbrev pub next_tick :
      Poll (Result Status A) × S → (S → Option (Result Status A) × S) → Option (Result Status A) × S
  next_tick (pending, s) again = again s
  next_tick (ready r, s) again = (some r, s)

  module _ ⦃steps : StepCombinators⦄ where
    abbrev pub interruptible :
        Bool → (S → Poll (Result Status A) × S) → S → Poll (Result Status A) × S
    interruptible shutdown step s = map_found (steps.interrupt_step shutdown step s)

    unfoldable pub race_tick :
        Option ℕ → (S → Poll (Result Status A) × S) → Tick → S → Poll (Result Status A) × S
    race_tick none step t s = interruptible t.shutdown step s
    race_tick (some instant) step t s =
        steps.or_after (interruptible t.shutdown step)
          (if leb instant t.now then ready (err elapsed) else pending) s

    unfoldable pub race_ticks :
        Option ℕ → (S → Poll (Result Status A) × S) → List Tick → S → Option (Result Status A) × S
    unfolding race_tick
    race_ticks deadline step [] s = (none, s)
    race_ticks deadline step (t ∷ ts) s =
        next_tick (race_tick deadline step t s) (λ s'. race_ticks deadline step ts s')

    -- The race that starts at `start`; `none` if the polls do not decide it.
    unfoldable pub race :
        Option ℕ
        → ℕ
        → (S → Poll (Result Status A) × S)
        → List Tick
        → S
        → Option (Result Status A) × S
    unfolding race_ticks
    race none start step ticks s = race_ticks none step ticks s
    race (some instant) start step ticks s =
        let run = race_ticks (some instant) step ticks s in
        if ltb instant start then (some (err elapsed), s) else run

  -- The future by itself, for so many polls.
  unfoldable pub run_alone : (S → Poll (Result Status A) × S) → ℕ → S → Option (Result Status A) × S
  run_alone step zero s = (none, s)
  run_alone step (suc n) s = next_tick (step s) (λ s'. run_alone step n s')

  module _ ⦃steps : StepCombinators⦄ (step : S → Poll (Result Status A) × S) where
    found-same : (p : Poll (Result Status A)) → map_poll interrupted (map_poll some p) ≡ p
    found-same pending = refl
    found-same (ready r) = refl

    pub interruptible-open : (s : S) → interruptible false step s ≡ step s
    interruptible-open s =
        ap map_found (steps.interrupt_step-open step s)
        ∙ ap (λ p. (p, (step s).1)) (found-same (step s).0)

    or_after-idle :
        (f : S → Poll (Result Status A) × S) (s : S)
        → f s ≡ step s
        → steps.or_after f pending s ≡ step s
    or_after-idle f s same = elim (Poll-cases (f s).0) [
      | inl idle ↦
          steps.or_after-pending f pending s idle ∙ ap (λ p. (p, (f s).1)) (sym idle) ∙ same
      | inr (r, found) ↦
          steps.or_after-ready f pending r s found ∙ ap (λ p. (p, (f s).1)) (sym found) ∙ same
    ]

    pub race_tick-Quiet :
        (deadline : Option ℕ) (t : Tick) (s : S)
        → Quiet deadline t
        → race_tick deadline step t s ≡ step s
    unfolding race_tick
    race_tick-Quiet none t s q = ap (λ b. interruptible b step s) q.0 ∙ interruptible-open s
    race_tick-Quiet (some instant) t s q =
        ap
          (λ b.
            steps.or_after (interruptible t.shutdown step)
              (if b then ready (err elapsed) else pending) s)
          q.1
        ∙ or_after-idle (interruptible t.shutdown step) s
            (ap (λ b. interruptible b step s) q.0 ∙ interruptible-open s)

    next_tick-same :
        (p : Poll (Result Status A) × S) (f g : S → Option (Result Status A) × S)
        → ((s : S) → f s ≡ g s)
        → next_tick p f ≡ next_tick p g
    next_tick-same (pending, s) f g same = same s
    next_tick-same (ready r, s) f g same = refl

    race_ticks-Quiet :
        (deadline : Option ℕ) (ticks : List Tick) (s : S)
        → All (Quiet deadline) ticks
        → race_ticks deadline step ticks s ≡ run_alone step (length ticks) s
    unfolding race_ticks run_alone
    race_ticks-Quiet deadline [] s q = refl
    race_ticks-Quiet deadline (t ∷ ts) s q =
        ap (λ p. next_tick p (race_ticks deadline step ts)) (race_tick-Quiet deadline t s q.0)
        ∙ next_tick-same (step s) _ _ λ s'. race_ticks-Quiet deadline ts s' q.1

    -- A race that no shutdown and no deadline disturbs is the future by itself.
    pub race-Quiet :
        (deadline : Option ℕ) (start : ℕ) (ticks : List Tick) (s : S)
        → IsAhead deadline start
        → All (Quiet deadline) ticks
        → race deadline start step ticks s ≡ run_alone step (length ticks) s
    unfolding race
    race-Quiet none start ticks s ahead q = race_ticks-Quiet none ticks s q
    race-Quiet (some t) start ticks s ahead q =
        ap (λ b. if b then (some (err elapsed), s) else race_ticks (some t) step ticks s)
          (le→ltb t start ahead)
        ∙ race_ticks-Quiet (some t) ticks s q
