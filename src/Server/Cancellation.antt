-- ===== src/Server/Cancellation.antt =====
-- `Cancellation` of src/server/dispatch.rs: a method raced against the shutdown of its connection and
-- the deadline of its request. An instant is a number of nanoseconds.
pub mod Polling
pub mod Steps
use trillium_grpc.Prelude.{
  ℕ, ◌+◌, ◌-◌, ◌*◌, ◌≤◌, ◌≡◌, refl, sym, ap, ◌∙◌, Bool, true, false, List, [], ◌∷◌, ◌++◌, Option,
  none, some, Bytes, codes, ltb, leb, if◌then◌else◌, Result, ok, err, ◌>>=◌, ok_or, arith, All,
  le→ltb, ◌||◌, Bool-cases, inl, inr,
}
use trillium_grpc.Deps.{HeadersApi, Debug}
use trillium_grpc.Status
use trillium_grpc.Status.{Status}
use trillium_grpc.Timeout.{Duration, as_nanos, max_value, format_grpc_timeout, parse_grpc_timeout}
use trillium_grpc.Timeout.RoundTrip.{parse-format}
use trillium_grpc.Frame.Reader.{Poll, pending, ready}
use trillium_grpc.Server.Cancellation.Polling.{
  map_poll, Combinators, expired, first_ready, first_ready-quiet,
}

abbrev pub shutting_down : Status
shutting_down = Status.cancelled (codes "connection shutting down")

abbrev pub elapsed : Status
elapsed = Status.deadline_exceeded (codes "deadline elapsed")

-- What a poll of the race finds: whether the connection shuts down, the time, and the method's future.
pub record Wake (A : Type 0) : Type 0 where
  pub shutdown : Bool
  pub now : ℕ
  pub future : Poll (Result Status A)

module _ ⦃api : HeadersApi⦄ ⦃show : Debug⦄ where
  unfoldable pub deadline_of : ℕ → Option Bytes → Result Status (Option ℕ)
  deadline_of now none = ok none
  deadline_of now (some header) = do
    duration ←
        ok_or (parse_grpc_timeout header)
          (Status.invalid_argument (codes "malformed grpc-timeout " ++ show.debug_str header))
    ok (some (now + as_nanos duration))

  -- The deadline of the handle that is built at the instant `now`.
  unfoldable pub from_conn : ℕ → api.Headers → Result Status (Option ℕ)
  unfolding deadline_of
  from_conn now headers = deadline_of now (api.get_str headers (codes "grpc-timeout"))

  -- A deadline that a client writes into the header, up to 99,999,999 hours, is never brought forward
  -- by the server: it expires no sooner than the client asked for, counted from the request's arrival,
  -- and later by at most one part in 99,999.
  pub from_conn-covers :
      (now : ℕ) (headers : api.Headers) (d : Duration)
      → api.get_str headers (codes "grpc-timeout") ≡ some (format_grpc_timeout d)
      → as_nanos d ≤ max_value * (3600 * 1_000_000_000)
      → (t : ℕ) × (from_conn now headers ≡ ok (some t))
        × (now + as_nanos d ≤ t)
        × ((t - (now + as_nanos d)) * 99_999 ≤ as_nanos d)
  unfolding from_conn deadline_of
  from_conn-covers now headers d found le =
      let (e, read, above, near, same) = parse-format d le in
      (now + as_nanos e, rw (found, read) refl, omega arith, omega arith)

-- The deadline has not passed when the race starts.
abbrev pub IsAhead : Option ℕ → ℕ → Type 0
IsAhead none start = Unit
IsAhead (some instant) start = start ≤ instant

module _ {A : Type 0} where
  abbrev pub interrupted : Option (Result Status A) → Result Status A
  interrupted (some result) = result
  interrupted none = err shutting_down

  module _ ⦃lib : Combinators⦄ where
    abbrev pub interruptible : Wake A → Poll (Result Status A)
    interruptible w = map_poll interrupted (lib.interrupt w.shutdown w.future)

    abbrev pub timer : ℕ → Wake A → Poll (Result Status A)
    timer instant w = if leb instant w.now then ready (err elapsed) else pending

    unfoldable pub race_poll : Option ℕ → Wake A → Poll (Result Status A)
    race_poll none w = interruptible w
    race_poll (some instant) w = lib.or (interruptible w) (timer instant w)

    -- The race that starts at `start`, over the polls of its executor; `none` if it is not decided.
    unfoldable pub race : Option ℕ → ℕ → List (Wake A) → Option (Result Status A)
    unfolding race_poll
    race none start wakes = first_ready (race_poll none) wakes
    race (some instant) start wakes =
        if ltb instant start
        then some (err elapsed)
        else first_ready (race_poll (some instant)) wakes

    -- A poll that finds nothing: no shutdown, the method not done, the deadline ahead.
    abbrev pub Quiet : Option ℕ → Wake A → Type 0
    Quiet deadline w =
        (w.shutdown ≡ false) × (w.future ≡ pending) × (expired deadline w.now ≡ false)

    interruptible-open :
        (w : Wake A)
        → w.shutdown ≡ false
        → interruptible w ≡ map_poll interrupted (map_poll some w.future)
    interruptible-open w a =
        ap (λ s. map_poll interrupted (lib.interrupt s w.future)) a
        ∙ ap (map_poll interrupted) (lib.interrupt-open w.future)

    open-same : (p : Poll (Result Status A)) → map_poll interrupted (map_poll some p) ≡ p
    open-same pending = refl
    open-same (ready r) = refl

    -- Without a shutdown the method's future counts as it is.
    interruptible-future :
        (w : Wake A) (p : Poll (Result Status A))
        → w.shutdown ≡ false
        → w.future ≡ p
        → interruptible w ≡ p
    interruptible-future w p a b = interruptible-open w a ∙ open-same w.future ∙ b

    interruptible-closed :
        (w : Wake A)
        → w.shutdown ≡ true
        → w.future ≡ pending
        → interruptible w ≡ ready (err shutting_down)
    interruptible-closed w a b =
        (λ i. map_poll interrupted (lib.interrupt (a i) (b i)))
        ∙ ap (map_poll interrupted) lib.interrupt-closed

    race_poll-Quiet :
        (deadline : Option ℕ) (w : Wake A) → Quiet deadline w → race_poll deadline w ≡ pending
    unfolding race_poll
    race_poll-Quiet none w (a, b, c) = interruptible-future w pending a b
    race_poll-Quiet (some t) w (a, b, c) =
        ap (λ p. lib.or p (timer t w)) (interruptible-future w pending a b)
        ∙ lib.or-pending (timer t w)
        ∙ rw c refl

    race_poll-done :
        (deadline : Option ℕ) (w : Wake A) (r : Result Status A)
        → w.shutdown ≡ false
        → w.future ≡ ready r
        → race_poll deadline w ≡ ready r
    unfolding race_poll
    race_poll-done none w r a b = interruptible-future w (ready r) a b
    race_poll-done (some t) w r a b =
        ap (λ p. lib.or p (timer t w)) (interruptible-future w (ready r) a b)
        ∙ lib.or-ready r (timer t w)

    race_poll-late :
        (t : ℕ) (w : Wake A)
        → w.shutdown ≡ false
        → w.future ≡ pending
        → leb t w.now ≡ true
        → race_poll (some t) w ≡ ready (err elapsed)
    unfolding race_poll
    race_poll-late t w a b c =
        ap (λ p. lib.or p (timer t w)) (interruptible-future w pending a b)
        ∙ lib.or-pending (timer t w)
        ∙ rw c refl

    race_poll-closed :
        (deadline : Option ℕ) (w : Wake A)
        → w.shutdown ≡ true
        → w.future ≡ pending
        → race_poll deadline w ≡ ready (err shutting_down)
    unfolding race_poll
    race_poll-closed none w a b = interruptible-closed w a b
    race_poll-closed (some t) w a b =
        ap (λ p. lib.or p (timer t w)) (interruptible-closed w a b)
        ∙ lib.or-ready (err shutting_down) (timer t w)

    race_poll-cut :
        (deadline : Option ℕ) (w : Wake A)
        → w.future ≡ pending
        → w.shutdown || expired deadline w.now ≡ true
        → race_poll deadline w ≡ ready (err (if w.shutdown then shutting_down else elapsed))
    race_poll-cut deadline w idle cut = elim (Bool-cases w.shutdown) [
      | inl closed ↦
          race_poll-closed deadline w closed idle
          ∙ ap (λ b. ready (err (if b then shutting_down else elapsed))) (sym closed)
      | inr live ↦
          late deadline live (ground (arith, cut, live))
          ∙ ap (λ b. ready (err (if b then shutting_down else elapsed))) (sym live)
    ]
      where
        late :
            (o : Option ℕ)
            → w.shutdown ≡ false
            → expired o w.now ≡ true
            → race_poll o w ≡ ready (err elapsed)
        late none live e = absurd (ground (arith, e))
        late (some t) live e = race_poll-late t w live idle e

    Quiet-All :
        (deadline : Option ℕ) (quiet : List (Wake A))
        → All (Quiet deadline) quiet
        → All (λ w. race_poll deadline w ≡ pending) quiet
    Quiet-All deadline [] h = tt
    Quiet-All deadline (w ∷ ws) h = (race_poll-Quiet deadline w h.0, Quiet-All deadline ws h.1)

    race-Quiet :
        (deadline : Option ℕ) (start : ℕ) (quiet rest : List (Wake A)) (w : Wake A)
        (r : Result Status A)
        → IsAhead deadline start
        → All (Quiet deadline) quiet
        → race_poll deadline w ≡ ready r
        → race deadline start (quiet ++ w ∷ rest) ≡ some r
    unfolding race
    race-Quiet none start quiet rest w r ahead q e =
        first_ready-quiet (race_poll none) quiet (w ∷ rest) (Quiet-All none quiet q) ∙ (rw e refl)
    race-Quiet (some t) start quiet rest w r ahead q e = rw (le→ltb t start ahead) (
        first_ready-quiet (race_poll (some t)) quiet (w ∷ rest) (Quiet-All (some t) quiet q)
        ∙ (rw e refl))

    -- A method that is done at a poll at which no shutdown is seen has its own result, even where the
    -- deadline has passed by that poll, if it had not when the race started or at an earlier poll.
    pub race_finishes :
        (deadline : Option ℕ) (start : ℕ) (quiet rest : List (Wake A)) (w : Wake A)
        (r : Result Status A)
        → IsAhead deadline start
        → All (Quiet deadline) quiet
        → w.shutdown ≡ false
        → w.future ≡ ready r
        → race deadline start (quiet ++ w ∷ rest) ≡ some r
    race_finishes deadline start quiet rest w r ahead q a b =
        race-Quiet deadline start quiet rest w r ahead q (race_poll-done deadline w r a b)

    -- A method that is not done at the first poll that sees a shutdown or the deadline passed is cut
    -- off there: with `Cancelled` if it sees the shutdown, and with `DeadlineExceeded` if it does not.
    pub race_stops :
        (deadline : Option ℕ) (start : ℕ) (quiet rest : List (Wake A)) (w : Wake A)
        → IsAhead deadline start
        → All (Quiet deadline) quiet
        → w.future ≡ pending
        → w.shutdown || expired deadline w.now ≡ true
        → race deadline start (quiet ++ w ∷ rest)
          ≡ some (err (if w.shutdown then shutting_down else elapsed))
    race_stops deadline start quiet rest w ahead q idle cut =
        race-Quiet deadline start quiet rest w _ ahead q (race_poll-cut deadline w idle cut)
