-- ===== src/Frame/Source.antt =====
-- `AsyncRead`: what a poll of a reader gives, and the reader that plays a run of results.
use trillium_grpc.Prelude.{
  ℕ, suc, ◌≤◌, [], ◌∷◌, ◌++◌, List, Bytes, leb, if◌then◌else◌, length, take, drop, arith,
  Bool-cases, inl, inr, length-take, ◌≢◌,
}

-- `Poll<io::Result<usize>>`, with the bytes that were read in place of their number.
pub data ReadPoll : Type 0 where
  pending : ReadPoll
  failed : Bytes → ReadPoll
  ready : Bytes → ReadPoll

abbrev pub RoomFor : ℕ → ReadPoll → Type 0
RoomFor n pending = Unit
RoomFor n (failed e) = Unit
RoomFor n (ready b) = length b ≤ n

-- A reader fills at most the room that it is given.
pub record AsyncRead (R : Type 0) : Type 0 where
  pub poll_read : R → ℕ → ReadPoll × R
  pub fits : (r : R) (n : ℕ) → RoomFor n (poll_read r n).0

-- What a transport does, one event for each poll: it has nothing yet, it fails, or bytes arrive. An
-- empty arrival and the end of the run are the end of the file.
pub data Event : Type 0 where
  wait : Event
  fail : Bytes → Event
  chunk : Bytes → Event

abbrev pub Script : Type 0
Script = List Event

-- A chunk longer than the room is handed over in parts.
unfoldable pub play : Script → ℕ → ReadPoll × Script
play [] n = (ready [], [])
play (wait ∷ evs) n = (pending, evs)
play (fail e ∷ evs) n = (failed e, evs)
play (chunk b ∷ evs) n =
    if leb (length b) n then (ready b, evs) else (ready (take n b), chunk (drop n b) ∷ evs)

pub play-fits : (s : Script) (n : ℕ) → RoomFor n (play s n).0
unfolding play
play-fits [] n = omega arith
play-fits (wait ∷ evs) n = tt
play-fits (fail e ∷ evs) n = tt
play-fits (chunk b ∷ evs) n = elim (Bool-cases (leb (length b) n)) [
  | inl whole ↦ rw whole (ground arith)
  | inr part ↦ rw part (omega (arith, length-take n b))
]

instance abbrev pub script_reader : AsyncRead Script
script_reader = record { poll_read = play; fits = play-fits }

-- The bytes that are still to arrive.
abbrev pub contents : Script → Bytes
contents [] = []
contents (chunk b ∷ evs) = b ++ contents evs
contents (_ ∷ evs) = contents evs

-- A run that brings its bytes without a failure and without an early end of file.
abbrev pub IsLive : Script → Type 0
IsLive [] = Unit
IsLive (wait ∷ evs) = IsLive evs
IsLive (fail e ∷ evs) = ⊥
IsLive (chunk b ∷ evs) = (b ≢ []) × IsLive evs

-- How often a run makes its reader wait.
abbrev pub waits : Script → ℕ
waits [] = 0
waits (wait ∷ evs) = suc (waits evs)
waits (_ ∷ evs) = waits evs
