-- ===== src/Client/Race.antt =====
-- `race` of src/client/conn.rs: a step of a call raced against its cancellation and its deadline.
use trillium_grpc.Prelude.{
  ℕ, ◌≡◌, ◌⊎◌, refl, ap, ◌∙◌, Bool, true, false, List, [], ◌∷◌, ◌++◌, Option, none, some, codes,
  ltb, leb, if◌then◌else◌, Result, err, All, le→ltb, Bool-cases, inl, inr, subst, sym,
}
use trillium_grpc.Status
use trillium_grpc.Status.{Status}
use trillium_grpc.Frame.Reader.{Poll, pending, ready}
use trillium_grpc.Server.Cancellation.{elapsed, IsAhead}
use trillium_grpc.Server.Cancellation.Polling.{Combinators, expired, first_ready, first_ready-quiet}

abbrev pub call_cancelled : Status
call_cancelled = Status.cancelled (codes "call cancelled")

-- What a poll of the race finds: whether the call was cancelled, the time, and the step's future.
pub record Wake (A : Type 0) : Type 0 where
  pub cancelled : Bool
  pub now : ℕ
  pub future : Poll (Result Status A)

module _ {A : Type 0} ⦃lib : Combinators⦄ where
  abbrev pub cancel : Wake A → Poll (Result Status A)
  cancel w = if w.cancelled then ready (err call_cancelled) else pending

  abbrev pub timer : ℕ → Wake A → Poll (Result Status A)
  timer instant w = if leb instant w.now then ready (err elapsed) else pending

  unfoldable pub race_poll : Option ℕ → Wake A → Poll (Result Status A)
  race_poll none w = lib.or (cancel w) w.future
  race_poll (some instant) w = lib.or (lib.or (cancel w) (timer instant w)) w.future

  -- The race that starts at `start`, over the polls of its executor; `none` if it is not decided.
  unfoldable pub race : Option ℕ → ℕ → List (Wake A) → Option (Result Status A)
  unfolding race_poll
  race none start wakes = first_ready (race_poll none) wakes
  race (some instant) start wakes =
      if ltb instant start then some (err elapsed) else first_ready (race_poll (some instant)) wakes

  -- The order in which a poll's findings count.
  abbrev pub verdict : Option ℕ → Wake A → Poll (Result Status A)
  verdict deadline w =
      if w.cancelled
      then ready (err call_cancelled)
      else if expired deadline w.now
      then ready (err elapsed)
      else w.future

  race_poll-verdict : (deadline : Option ℕ) (w : Wake A) → race_poll deadline w ≡ verdict deadline w
  unfolding race_poll
  race_poll-verdict none w = elim (Bool-cases w.cancelled) [
    | inl gone ↦ rw gone (lib.or-ready _ w.future)
    | inr live ↦ rw live (lib.or-pending w.future)
  ]
  race_poll-verdict (some t) w = elim (Bool-cases w.cancelled) [
    | inl gone ↦
        rw gone (ap (λ p. lib.or p w.future) (lib.or-ready _ (timer t w)) ∙ lib.or-ready _ w.future)
    | inr live ↦
        rw live (
          ap (λ p. lib.or p w.future) (lib.or-pending (timer t w))
          ∙ late (Bool-cases (leb t w.now)))
  ]
    where
      late :
          (leb t w.now ≡ true) ⊎ (leb t w.now ≡ false)
          → lib.or (timer t w) w.future ≡ (if leb t w.now then ready (err elapsed) else w.future)
      late (inl c) = rw c (lib.or-ready (err elapsed) w.future)
      late (inr c) = rw c (lib.or-pending w.future)

  quiet-All :
      (deadline : Option ℕ) (quiet : List (Wake A))
      → All (λ w. verdict deadline w ≡ pending) quiet
      → All (λ w. race_poll deadline w ≡ pending) quiet
  quiet-All deadline [] h = tt
  quiet-All deadline (w ∷ ws) h = (race_poll-verdict deadline w ∙ h.0, quiet-All deadline ws h.1)

  -- The first poll that finds anything decides: a cancellation wins over everything, the deadline over
  -- the step's own result, even where that is ready at the same poll, if the deadline had not passed
  -- when the race started.
  pub race_decides :
      (deadline : Option ℕ) (start : ℕ) (quiet rest : List (Wake A)) (w : Wake A)
      (r : Result Status A)
      → IsAhead deadline start
      → All (λ v. verdict deadline v ≡ pending) quiet
      → verdict deadline w ≡ ready r
      → race deadline start (quiet ++ w ∷ rest) ≡ some r
  unfolding race
  race_decides none start quiet rest w r ahead q e =
      first_ready-quiet (race_poll none) quiet (w ∷ rest) (quiet-All none quiet q)
      ∙ rw (race_poll-verdict none w ∙ e) refl
  race_decides (some t) start quiet rest w r ahead q e = rw (le→ltb t start ahead) (
      first_ready-quiet (race_poll (some t)) quiet (w ∷ rest) (quiet-All (some t) quiet q)
      ∙ rw (race_poll-verdict (some t) w ∙ e) refl)

-- What a poll finds of the cancellation and of the time, where the step is polled by the call itself.
pub record Tick : Type 0 where
  pub cancelled : Bool
  pub now : ℕ

module _ {A : Type 0} ⦃lib : Combinators⦄ where
  abbrev pub stopped : Option ℕ → Tick → Poll (Result Status A)
  stopped none t = if t.cancelled then ready (err call_cancelled) else pending
  stopped (some instant) t =
      lib.or (if t.cancelled then ready (err call_cancelled) else pending)
        (if leb instant t.now then ready (err elapsed) else pending)

module _ {A S : Type 0} where
  abbrev pub next_tick :
      Poll (Result Status A) × S → (S → Option (Result Status A) × S) → Option (Result Status A) × S
  next_tick (pending, s) again = again s
  next_tick (ready r, s) again = (some r, s)

module _ {A S : Type 0} ⦃lib : Combinators⦄ where
  unfoldable pub run_ticks :
      Option ℕ → (S → Poll (Result Status A) × S) → List Tick → S → Option (Result Status A) × S
  run_ticks deadline step [] s = (none, s)
  run_ticks deadline step (t ∷ ts) s =
      next_tick (lib.or_step (stopped deadline t) step s) (λ s'. run_ticks deadline step ts s')

  -- The race of a step whose polls change the call, from `start` on.
  unfoldable pub race_step :
      Option ℕ → ℕ → (S → Poll (Result Status A) × S) → List Tick → S → Option (Result Status A) × S
  unfolding run_ticks
  race_step none start step ticks s = run_ticks none step ticks s
  race_step (some instant) start step ticks s =
      let run = run_ticks (some instant) step ticks s in
      if ltb instant start then (some (err elapsed), s) else run

  or_step_keeps :
      (P : S → Type 0) (step : S → Poll (Result Status A) × S)
      → ((s : S) → P s → P (step s).1)
      → (q : Poll (Result Status A)) (s : S) → P s
      → P (lib.or_step q step s).1
  or_step_keeps P step keeps pending s h =
      subst (λ r. P r.1) (sym (lib.or_step-pending step s)) (keeps s h)
  or_step_keeps P step keeps (ready r) s h = subst (λ r. P r.1) (sym (lib.or_step-ready r step s)) h

  next_tick_keeps :
      (P : S → Type 0) (again : S → Option (Result Status A) × S)
      → ((s : S) → P s → P (again s).1)
      → (polled : Poll (Result Status A) × S) → P polled.1
      → P (next_tick polled again).1
  next_tick_keeps P again keeps (pending, s) h = keeps s h
  next_tick_keeps P again keeps (ready r, s) h = h

  run_ticks_keeps :
      (P : S → Type 0) (deadline : Option ℕ) (step : S → Poll (Result Status A) × S)
      → ((s : S) → P s → P (step s).1)
      → (ticks : List Tick) (s : S) → P s
      → P (run_ticks deadline step ticks s).1
  unfolding run_ticks
  run_ticks_keeps P deadline step keeps [] s h = h
  run_ticks_keeps P deadline step keeps (t ∷ ts) s h =
      next_tick_keeps P _ (λ s' h'. run_ticks_keeps P deadline step keeps ts s' h') _
        (or_step_keeps P step keeps (stopped deadline t) s h)

  -- Whatever the polls of a step keep, its race keeps.
  pub race_step_keeps :
      (P : S → Type 0) (deadline : Option ℕ) (start : ℕ) (step : S → Poll (Result Status A) × S)
      → ((s : S) → P s → P (step s).1)
      → (ticks : List Tick) (s : S) → P s
      → P (race_step deadline start step ticks s).1
  unfolding race_step
  race_step_keeps P none start step keeps ticks s h = run_ticks_keeps P none step keeps ticks s h
  race_step_keeps P (some t) start step keeps ticks s h = elim (Bool-cases (ltb t start)) [
    | inl late ↦ rw late h
    | inr ahead ↦ rw ahead (run_ticks_keeps P (some t) step keeps ticks s h)
  ]
