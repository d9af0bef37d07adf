-- ===== src/Server/Cancellation/Polling.antt =====
-- What src/server/dispatch.rs and src/client/conn.rs take from `futures_lite` and `swansong` to race
-- futures, poll by poll.
use trillium_grpc.Prelude.{
  ℕ, ◌≡◌, refl, Bool, true, false, List, [], ◌∷◌, ◌++◌, Option, none, some, leb, All,
}
use trillium_grpc.Frame.Reader.{Poll, pending, ready}

abbrev pub map_poll : {A B : Type 0} → (A → B) → Poll A → Poll B
map_poll f pending = pending
map_poll f (ready a) = ready (f a)

-- `future::or` prefers its left future; `Swansong::interrupt` yields what the future does until the
-- shutdown, and `None` where that finds the future pending.
pub record Combinators : Type 1 where
  pub or : {A : Type 0} → Poll A → Poll A → Poll A
  -- `or` of a future with one whose polls change a state.
  pub or_step : {A S : Type 0} → Poll A → (S → Poll A × S) → S → Poll A × S
  pub interrupt : {A : Type 0} → Bool → Poll A → Poll (Option A)
  pub or-ready : {A : Type 0} (a : A) (q : Poll A) → or (ready a) q ≡ ready a
  pub or-pending : {A : Type 0} (q : Poll A) → or pending q ≡ q
  pub or_step-ready :
      {A S : Type 0} (a : A) (step : S → Poll A × S) (s : S)
      → or_step (ready a) step s ≡ (ready a, s)
  pub or_step-pending :
      {A S : Type 0} (step : S → Poll A × S) (s : S) → or_step pending step s ≡ step s
  pub interrupt-open : {A : Type 0} (p : Poll A) → interrupt false p ≡ map_poll some p
  pub interrupt-closed : {A : Type 0} → interrupt {A = A} true pending ≡ ready none

abbrev pub expired : Option ℕ → ℕ → Bool
expired none now = false
expired (some instant) now = leb instant now

module _ {W A : Type 0} (poll : W → Poll A) where
  abbrev pub settle : Poll A → Option A → Option A
  settle pending later = later
  settle (ready a) later = some a

  -- The first poll that is ready decides.
  abbrev pub first_ready : List W → Option A
  first_ready [] = none
  first_ready (w ∷ ws) = settle (poll w) (first_ready ws)

  pub first_ready-quiet :
      (quiet rest : List W)
      → All (λ w. poll w ≡ pending) quiet
      → first_ready (quiet ++ rest) ≡ first_ready rest
  first_ready-quiet [] rest h = refl
  first_ready-quiet (w ∷ ws) rest h = rw h.0 (first_ready-quiet ws rest h.1)
