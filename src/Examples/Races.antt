-- ===== src/Examples/Races.antt =====
-- The theorems on races and request streams at concrete inputs: src/server/dispatch.rs,
-- src/server/streaming.rs and src/client/conn.rs.
use trillium_grpc.Prelude.{
  ℕ, ◌+◌, ◌-◌, ◌*◌, ◌≤◌, ◌≡◌, refl, Bool, true, false, [], ◌∷◌, ◌++◌, Option, some, none, Bytes,
  codes, Result, ok, err, arith, if◌then◌else◌,
}
use trillium_grpc.Text.Ascii.{eq_ignore_ascii_case}
use trillium_grpc.Text.Decimal.{to_decimal}
use trillium_grpc.Text.Utf8.{is_utf8}
use trillium_grpc.Examples.Setup.{
  assoc_headers, plain_debug, stored_codecs, stored_codecs-AllLossless,
}
use trillium_grpc.Status.{Status}
use trillium_grpc.Timeout.{Duration, as_nanos, format_grpc_timeout}
use trillium_grpc.Encoding.{gzip, compress}
use trillium_grpc.Frame.Writer.{encode_payload, frame}
use trillium_grpc.Frame.Source.{wait, chunk, script_reader}
use trillium_grpc.Frame.Reader.{Poll, pending, ready}
use trillium_grpc.Server.Cancellation
use trillium_grpc.Server.Cancellation.{
  from_conn, from_conn-covers, race_stops, shutting_down, elapsed,
}
use trillium_grpc.Server.Cancellation.Polling.{map_poll, Combinators}
use trillium_grpc.Server.Requests.{read_one, new, second_request, read_one-single, read_one-second}
use trillium_grpc.Client.Race
use trillium_grpc.Client.Race.{call_cancelled, race_decides}

abbrev pub either : {A : Type 0} → Poll A → Poll A → Poll A
either pending q = q
either (ready a) q = ready a

abbrev either_step : {A S : Type 0} → Poll A → (S → Poll A × S) → S → Poll A × S
either_step pending step s = step s
either_step (ready a) step s = (ready a, s)

abbrev pub stop : {A : Type 0} → Bool → Poll A → Poll (Option A)
stop false p = map_poll some p
stop true p = ready none

instance abbrev pub plain_combinators : Combinators
plain_combinators = record {
  or = either;
  or_step = either_step;
  interrupt = stop;
  or-ready = λ a q. refl;
  or-pending = λ q. refl;
  or_step-ready = λ a step s. refl;
  or_step-pending = λ step s. refl;
  interrupt-open = λ p. refl;
  interrupt-closed = refl;
}

abbrev hour : Duration
hour = record { secs = 3600; nanos = 0 }

from_conn-covers_example :
    (t : ℕ) × (from_conn 5 ((codes "grpc-timeout", format_grpc_timeout hour) ∷ []) ≡ ok (some t))
    × (5 + as_nanos hour ≤ t)
    × ((t - (5 + as_nanos hour)) * 99_999 ≤ as_nanos hour)
unfolding as_nanos eq_ignore_ascii_case is_utf8 format_grpc_timeout to_decimal
from_conn-covers_example =
    from_conn-covers 5 ((codes "grpc-timeout", format_grpc_timeout hour) ∷ []) hour refl
      (omega arith)

abbrev idle : Cancellation.Wake ℕ
idle = record { shutdown = false; now = 1; future = pending }

abbrev finished : Cancellation.Wake ℕ
finished = record { shutdown = false; now = 9; future = ready (ok 7) }

abbrev late : Cancellation.Wake ℕ
late = record { shutdown = false; now = 6; future = pending }

race_stops_example :
    Cancellation.race (some 5) 0 (idle ∷ late ∷ finished ∷ [])
    ≡ some (err (if late.shutdown then shutting_down else elapsed))
race_stops_example =
    race_stops (some 5) 0 (idle ∷ []) (finished ∷ []) late (omega arith) (ground arith) refl refl

abbrev answered : Race.Wake ℕ
answered = record { cancelled = true; now = 2; future = ready (ok 7) }

race_decides_example : Race.race (some 5) 0 (answered ∷ []) ≡ some (err call_cancelled)
race_decides_example =
    race_decides (some 5) 0 [] [] answered (err call_cancelled) (omega arith) tt refl

abbrev decode : Bytes → Result Status Bytes
decode = ok

abbrev framed : Bytes
framed = 1 ∷ 0 ∷ 0 ∷ 0 ∷ 3 ∷ 1 ∷ codes "hi"

read_one-single_example :
    read_one 2 (new (wait ∷ chunk framed ∷ []) decode gzip) ≡ some (ok (codes "hi"))
unfolding encode_payload frame compress
read_one-single_example =
    read_one-single decode gzip stored_codecs-AllLossless (codes "hi") framed (codes "hi")
      (omega arith) refl (omega arith) refl (wait ∷ chunk framed ∷ []) 2 refl (ground arith)
      (omega arith)

read_one-second_example :
    read_one 1 (new (chunk (framed ++ framed) ∷ []) decode gzip) ≡ some (err second_request)
unfolding encode_payload frame compress
read_one-second_example =
    read_one-second decode gzip stored_codecs-AllLossless (codes "hi") framed (codes "hi")
      (omega arith) refl (omega arith) refl (chunk (framed ++ framed) ∷ []) 1 (codes "hi") framed []
      (codes "hi") (omega arith) refl (omega arith) refl refl (ground arith) (omega arith)
