-- ===== src/Server/Bidi/Drive.antt =====
-- `BidiState::drive` of src/server/bidi.rs: the responder's loop behind the upgrade, and the trailers
-- that end the call.
use trillium_grpc.Prelude.{
  ℕ, ◌≡◌, ◌⊎◌, ◌||◌, true, ◌∷◌, ◌++◌, List, Option, none, some, Bytes, codes, Result, ok, err, All,
  length, if◌then◌else◌,
}
use trillium_grpc.Deps.{HeadersApi, Base64}
use trillium_grpc.Status.{Status, ok_status, write_into}
use trillium_grpc.Metadata.Invariant.{IsWellFormed}
use trillium_grpc.Frame.Reader.{Poll, pending}
use trillium_grpc.Server.Cancellation.Steps.{StepCombinators, Tick, Quiet, race, run_alone}
use trillium_grpc.Server.Cancellation.{shutting_down, elapsed}
use trillium_grpc.Server.Cancellation.Polling.{expired}
use trillium_grpc.Status.Codes.{as_u8}
use trillium_grpc.Text.Decimal.{to_decimal}
use trillium_grpc.Server.Bidi
use trillium_grpc.Server.Bidi.{BidiState, Upgrades, Channel}

-- The status of a failure has well-formed metadata.
abbrev pub IsReportable : Result Status (Unit {0}) → Type 0
IsReportable (ok _) = Unit
IsReportable (err status) = IsWellFormed status.metadata

module _ ⦃api : HeadersApi⦄ where
  -- The trailers that a result is owed.
  abbrev pub Reports : Result Status (Unit {0}) → api.Headers → Type 0
  Reports (ok _) trailers = api.get_str trailers (codes "grpc-status") ≡ some (codes "0")
  Reports (err status) trailers =
      api.get_str trailers (codes "grpc-status") ≡ some (to_decimal (as_u8 status.code))

module _ ⦃api : HeadersApi⦄ ⦃net : Upgrades⦄ where
  -- `BidiResponder`: a future over a channel, whose polls change it.
  pub record Responder (R Req Resp : Type 0) : Type 2 where
    pub Future : Type 1
    pub start : R → Channel Req Resp → Future
    pub poll : Future → Poll (Result Status (Unit {0})) × Future
    pub channel : Future → Channel Req Resp

  abbrev pub verdict : Result Status (Unit {0}) → Status
  verdict (ok _) = ok_status
  verdict (err status) = status

  module _ ⦃b64 : Base64⦄ {Req Resp : Type 0} where
    -- The end of the loop: the status is written over the trailers of the channel and sent.
    abbrev pub ended :
        Option (Result Status (Unit {0}))
        → Channel Req Resp
        → Option (Result Bytes (Unit {0}) × net.Upgrade)
    ended none ch = none
    ended (some result) ch =
        some (net.send_trailers ch.upgrade (write_into (verdict result) ch.response_trailers))

  module _ ⦃b64 : Base64⦄ {R Req Resp : Type 0} where
    abbrev pub started : BidiState Req Resp R → net.Upgrade → Channel Req Resp
    started state upgrade =
        Bidi.new upgrade state.base_trailers state.decode state.encode state.request_encoding
          state.response_encoding

    module _ ⦃steps : StepCombinators⦄ (responder : Responder R Req Resp) where
      abbrev pub looped :
          ℕ
          → List Tick
          → BidiState Req Resp R
          → net.Upgrade
          → Option (Result Status (Unit {0})) × responder.Future
      looped now ticks state upgrade =
          race state.deadline now responder.poll ticks
            (responder.start state.responder (started state upgrade))

      unfoldable pub drive :
          ℕ
          → List Tick
          → BidiState Req Resp R
          → net.Upgrade
          → Option (Result Bytes (Unit {0}) × net.Upgrade)
      drive now ticks state upgrade =
          let (result, f) = looped now ticks state upgrade in ended result (responder.channel f)

      -- `drive_bidi_upgrade` on the state that the upgrade carries, if it does.
      unfoldable pub drive_bidi_upgrade :
          ℕ
          → List Tick
          → Option (BidiState Req Resp R)
          → net.Upgrade
          → Option (Result Bytes (Unit {0}) × net.Upgrade)
      unfolding drive
      drive_bidi_upgrade now ticks none upgrade = some (ok tt, upgrade)
      drive_bidi_upgrade now ticks (some state) upgrade = drive now ticks state upgrade

      abbrev first_state : BidiState Req Resp R → net.Upgrade → responder.Future
      first_state state upgrade = responder.start state.responder (started state upgrade)

      -- How the responder's polls and the ticks end a call: the responder is done before a shutdown or
      -- the deadline is found, or it is pending at the first tick that finds one of them.
      abbrev pub Ends :
          List Tick
          → BidiState Req Resp R
          → net.Upgrade
          → Result Status (Unit {0})
          → responder.Future
          → Type 1
      Ends ticks state upgrade result f =
          (All (Quiet state.deadline) ticks
            × (run_alone responder.poll (length ticks) (first_state state upgrade)
                ≡ (some result, f)))
          ⊎ ((quiet : List Tick) × (t : Tick) × (rest : List Tick) × (s : responder.Future) × (ticks
                ≡ quiet ++ t ∷ rest)
              × All (Quiet state.deadline) quiet
              × (run_alone responder.poll (length quiet) (first_state state upgrade) ≡ (none, s))
              × ((responder.poll s).0 ≡ pending)
              × (t.shutdown || expired state.deadline t.now ≡ true)
              × (result ≡ err (if t.shutdown then shutting_down else elapsed))
              × (f ≡ (responder.poll s).1))
