-- ===== src/Examples/Client.antt =====
-- The theorems on the client's calls at concrete inputs: src/client.
use trillium_grpc.Prelude.{
  ℕ, ◌+◌, ◌-◌, ◌*◌, ◌≤◌, ◌≡◌, ◌≢◌, ◌↔◌, refl, false, [], ◌∷◌, List, some, none, Bytes, codes, ok,
  arith, inl,
}
use trillium_grpc.Text.Ascii.{eq_ignore_ascii_case, trim, get_prefix, first_part}
use trillium_grpc.Text.Utf8.{is_utf8}
use trillium_grpc.Examples.Setup.{
  assoc_headers, plain_base64, plain_debug, all_features, stored_codecs, stored_codecs-AllLossless,
  plain_conns, plain_conn, PlainConn,
}
use trillium_grpc.Examples.Races.{plain_combinators}
use trillium_grpc.Examples.Network.{
  plain_network, plain_network, call, unsent_call, hi_frame, reply,
}
use trillium_grpc.ContentType.{parse_grpc_content_type}
use trillium_grpc.Encoding.{identity, compress}
use trillium_grpc.Frame.Writer.{encode_payload, frame}
use trillium_grpc.Frame.Source.{chunk, script_reader, play}
use trillium_grpc.Server.Negotiate.{extract_request_encoding}
use trillium_grpc.Server.Preflight.{prepare_grpc_conn}
use trillium_grpc.Server.Cancellation.{from_conn}
use trillium_grpc.Server.Requests
use trillium_grpc.Client.State
use trillium_grpc.Client.State.{GrpcClientConn, encode_message, finish, is_trailers_only}
use trillium_grpc.Client.Opening.{build_request}
use trillium_grpc.Client.Accepted.{request_accepted, request_deadline}
use trillium_grpc.Client.Driving.{
  Moment, recv, send, send_encoded, send_frame, recv_from, recv_inner, read_one, poll_frame,
  poll_inner,
}
use trillium_grpc.Client.Race.{race_step, run_ticks}
use trillium_grpc.Frame.Reader.{new_state, poll_read_message, fill, copy_at}
use trillium_grpc.Client.Head.{finish_from_trailers}
use trillium_grpc.Status.{from_trailers}
use trillium_grpc.Status.Codes.{from_u8}
use trillium_grpc.Text.Decimal.{parse_uint}
use trillium_grpc.Client.Lifecycle.{
  phase_of, unsent, done, Event, sends, closes, receives, run_events, perform,
}
use trillium_grpc.Client.Lifecycle.Steps.{CameFrom}
use trillium_grpc.Client.Lifecycle.History.{
  run_events-CameFrom_start, run_events_fired, run_events_done,
}
use trillium_grpc.Client.Delivery.{Receives, sends_arrive}
use trillium_grpc.Client.Typed.{UnaryConn, into_message, read_unary}
use trillium_grpc.Client.Typed.Unary.{into_message_iff}
use trillium_grpc.Client.Typed.Streams.{next, next_fused}

abbrev arrived : PlainConn
arrived = plain_conn (plain_network.request_headers (build_request 0 call unsent_call []))

request_accepted_example :
    ((accepted : PlainConn) × (prepare_grpc_conn arrived (codes "proto") ≡ ok accepted))
    × (extract_request_encoding arrived.request ≡ ok identity)
unfolding is_utf8 parse_grpc_content_type trim get_prefix first_part eq_ignore_ascii_case
request_accepted_example =
    request_accepted 0 call unsent_call [] tt arrived (codes "proto") refl refl (inl (refl, refl))
      refl

request_deadline_example :
    (t : ℕ) × (from_conn 7 (plain_network.request_headers (build_request 0 call unsent_call []))
      ≡ ok (some t))
    × (7 + (5_000_000_000 - 0) ≤ t)
    × ((t - (7 + (5_000_000_000 - 0))) * 99_999 ≤ 5_000_000_000 - 0)
request_deadline_example =
    request_deadline 0 call unsent_call [] tt 5_000_000_000 7 refl (omega arith)

abbrev quick : Moment
quick = record { fires = 1; reads = 1; ticks = record { cancelled = false; now = 2 } ∷ [] }

abbrev history : List (Event Bytes)
history = sends 0 (codes "hi") ∷ closes 1 ∷ receives quick ∷ receives quick ∷ []

run_events-CameFrom_start_example : CameFrom false unsent (run_events history call)
run_events-CameFrom_start_example = run_events-CameFrom_start history call

-- The call after an end without a message.
abbrev over_call : GrpcClientConn Bytes Bytes
over_call = record call { inner = State.done [] [] }

run_events_fired_example : phase_of (run_events history over_call).inner ≢ unsent
run_events_fired_example = run_events_fired history over_call (λ e. cc)

run_events_done_example :
    (phase_of (run_events history over_call).inner ≡ done)
    × ((recv quick (run_events history over_call)).0 ≡ some (ok none))
run_events_done_example = run_events_done history over_call quick refl

sends_arrive_example :
    Receives 1
      (codes "hi" ∷ [])
      (Requests.new (chunk hi_frame ∷ []) call.decode call.outbound_encoding)
unfolding encode_payload frame compress run_events perform send send_encoded send_frame
    encode_message
sends_arrive_example =
    sends_arrive call.decode 0 (codes "hi" ∷ []) call unsent_call (chunk hi_frame ∷ []) 1
      stored_codecs-AllLossless
      (
        record {
          payload = codes "hi";
          frame = hi_frame;
          encodes = refl;
          frames = refl;
          small = omega arith;
          short = omega arith;
          decodes = refl;
        },
        tt,
      )
      refl refl refl refl (ground arith) (omega arith)

-- The call when the head of the reply has come.
abbrev reading_call : GrpcClientConn Bytes Bytes
reading_call = record call {
  inner = State.reading (record {
    reader = reply;
    response_headers = reply.head;
    read_state = new_state;
    response_encoding = identity;
    head_status = none;
  });
}

abbrev over : UnaryConn Bytes Bytes
over = record {
  engine = record call { inner = State.done reply.head reply.trailing };
  requests = none;
  outcome = some (some (codes "hi"), ok tt);
}

into_message_iff_example : (into_message over ≡ ok (codes "hi")) ↔ (
    ((recv quick reading_call).0 ≡ some (ok (some (codes "hi"))))
    × ((recv quick (recv quick reading_call).1).0 ≡ some (ok none)))
unfolding read_unary recv recv_from recv_inner read_one race_step run_ticks poll_frame poll_inner
    poll_read_message fill play finish is_trailers_only copy_at finish_from_trailers
    eq_ignore_ascii_case is_utf8 from_trailers parse_uint from_u8
into_message_iff_example = into_message_iff (codes "hi") quick quick reading_call over refl

next_fused_example :
    (next quick (record {
      engine = run_events history (next quick (record { engine = over_call })).1.engine;
    })).0
    ≡ some none
unfolding next recv recv_from recv_inner
next_fused_example = next_fused quick quick (record { engine = over_call }) history refl
