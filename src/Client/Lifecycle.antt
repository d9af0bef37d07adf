-- ===== src/Client/Lifecycle.antt =====
-- The phases of a call of src/client/conn.rs, and the operations on a call as a history.
pub mod Steps
pub mod Driven
pub mod History
pub mod Ended
use trillium_grpc.Prelude.{ℕ, Bool, true, false, [], ◌∷◌, List}
use trillium_grpc.Deps.{HeadersApi, Base64, Debug, Features, Compressors}
use trillium_grpc.Frame.Reader.{pending}
use trillium_grpc.Server.Cancellation.Polling.{Combinators}
use trillium_grpc.Client.Network.{Network}
use trillium_grpc.Client.State
use trillium_grpc.Client.State.{Inner, GrpcClientConn}
use trillium_grpc.Client.Opening
use trillium_grpc.Client.Opening.{open_head}
use trillium_grpc.Client.Driving
use trillium_grpc.Client.Driving.{Moment, send, close_send, recv}

pub data Phase : Type 0 where
  unsent reading duplex failed done : Phase

module _ ⦃api : HeadersApi⦄ ⦃net : Network api.Headers⦄ where
  abbrev pub phase_of : Inner → Phase
  phase_of (State.pending p) = unsent
  phase_of (State.reading live) = reading
  phase_of (State.duplex live) = duplex
  phase_of (State.done response_headers trailers) = done
  phase_of (State.failed status) = failed

-- The moves that a call makes, by whether it is full-duplex.
pub data Move : Bool → Phase → Phase → Type 0 where
  opens_reading : Move false unsent reading
  opens_duplex : Move true unsent duplex
  breaks : {full_duplex : Bool} → Move full_duplex unsent failed
  ends_reading : {full_duplex : Bool} → Move full_duplex reading done
  ends_duplex : {full_duplex : Bool} → Move full_duplex duplex done
  delivers : {full_duplex : Bool} → Move full_duplex failed done

pub data Moves (full_duplex : Bool) (p : Phase) : Phase → Type 0 where
  stays : Moves full_duplex p p
  then_moves : {q r : Phase} → Moves full_duplex p q → Move full_duplex q r → Moves full_duplex p r

-- What is done with a call: its methods, with the instants at which their races start.
pub data Event (Req : Type 0) : Type 0 where
  sends : ℕ → Req → Event Req
  closes : ℕ → Event Req
  opens : ℕ → Event Req
  receives : Moment → Event Req

module _ ⦃api : HeadersApi⦄ ⦃net : Network api.Headers⦄ ⦃b64 : Base64⦄ ⦃build : Features⦄
    ⦃show : Debug⦄ ⦃crates : Compressors⦄ ⦃lib : Combinators⦄ {Req Resp : Type 0} where
  unfoldable pub perform : Event Req → GrpcClientConn Req Resp → GrpcClientConn Req Resp
  perform (sends now message) c = (send now c message).1
  perform (closes now) c = (close_send now c).1
  perform (opens now) c = (open_head now c).1
  perform (receives at) c = (recv at c).1

  unfoldable pub run_events : List (Event Req) → GrpcClientConn Req Resp → GrpcClientConn Req Resp
  run_events [] c = c
  run_events (e ∷ es) c = run_events es (perform e c)
