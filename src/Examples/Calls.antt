-- ===== src/Examples/Calls.antt =====
-- The theorems on the server and the client at concrete inputs: src/server and src/client.
use trillium_grpc.Prelude.{
  ◌↔◌, ℕ, ◌≡◌, ◌⊎◌, refl, false, [], ◌∷◌, Option, some, none, Bytes, codes, Result, ok, err, arith,
  unwrap_or,
}
use trillium_grpc.Text.Ascii.{eq_ignore_ascii_case}
use trillium_grpc.Text.Utf8.{is_utf8}
use trillium_grpc.Text.Ascii.{is_ascii_digit}
use trillium_grpc.Text.Decimal.{parse_uint}
use trillium_grpc.Examples.Setup.{
  Assoc, assoc_headers, plain_base64, plain_debug, all_features, stored_codecs, plain_conns, raw,
  plain_conn,
}
use trillium_grpc.Encoding.{identity, gzip, compress}
use trillium_grpc.Frame.Writer.{encode_frame, encode_payload, frame}
use trillium_grpc.Status.{from_trailers, Status, ok_status, write_into, into_trailers, trailer_code}
use trillium_grpc.Status
use trillium_grpc.Status.Codes.{from_u8}
use trillium_grpc.Status.Trailers.{ReadsBack}
use trillium_grpc.Frame.Reader.{pending, ready}
use trillium_grpc.Server.Negotiate.{negotiate_response_encoding, Chosen, negotiate_best}
use trillium_grpc.Server.Preflight.{prepare_grpc_conn, Outcome, prepare-Outcome}
use trillium_grpc.Server.Respond.{finish_unary, Carries, framed_result, sent, finish_unary-sent}
use trillium_grpc.Server.Streaming
use trillium_grpc.Server.Streaming.{Items}
use trillium_grpc.Server.Streaming.Delivery.{frames, ending}
use trillium_grpc.Server.Streaming.Drain.{read_all, read_all-new}
use trillium_grpc.Client.Head.{head_status_of, Head, finish_from_trailers}
use trillium_grpc.Client.Head.Verdict.{SaysOk, finish_ok, finish-into_trailers}

abbrev request : Assoc
request =
    (codes "content-type", codes "application/grpc+proto")
    ∷ (codes "te", codes "trailers")
    ∷ (codes "grpc-encoding", codes "gzip")
    ∷ (codes "grpc-accept-encoding", codes "zstd, gzip")
    ∷ []

negotiate_best_example :
    (negotiate_response_encoding request ≡ gzip)
    ↔ Chosen (assoc_headers.get_str request (codes "grpc-accept-encoding")) gzip
negotiate_best_example = negotiate_best request gzip

prepare-Outcome_example :
    Outcome
      (plain_conn request)
      (codes "proto")
      (prepare_grpc_conn (plain_conn request) (codes "proto"))
unfolding is_utf8
prepare-Outcome_example = prepare-Outcome (plain_conn request) (codes "proto") refl

abbrev reply : Result Status Bytes
reply = ok (codes "hi")

finish_unary-sent_example :
    Carries
      (finish_unary raw (plain_conn request) reply gzip [])
      (sent raw gzip (framed_result raw gzip reply)).0
      (write_into (sent raw gzip (framed_result raw gzip reply)).1 [])
    × (trailer_code (write_into (sent raw gzip (framed_result raw gzip reply)).1 [])
        ≡ (sent raw gzip (framed_result raw gzip reply)).1.code)
unfolding encode_frame encode_payload compress
finish_unary-sent_example = finish_unary-sent raw gzip (plain_conn request) reply [] tt

abbrev replies : Items Bytes
replies =
    ready (some (ok (codes "hi")))
    ∷ pending
    ∷ ready (some (err (Status.internal (codes "no"))))
    ∷ []

read_all-new_example :
    ((read_all 20 1 (Streaming.new replies ok identity [] false)).0
      ≡ some (frames ok identity replies))
    × ((Streaming.trailers (read_all 20 1 (Streaming.new replies ok identity [] false)).1).0
        ≡ write_into (ending ok identity ok_status replies) [])
    × (trailer_code
          (Streaming.trailers (read_all 20 1 (Streaming.new replies ok identity [] false)).1).0
        ≡ (ending ok identity ok_status replies).code)
unfolding encode_payload frame
read_all-new_example = read_all-new replies ok identity [] false 20 1 (omega arith) (ground arith)

abbrev denied : Status
denied = Status.internal (codes "denied")

finish-into_trailers_example :
    ReadsBack denied (finish_from_trailers request (some (ok tt)) (some (into_trailers denied))).0
    × ((finish_from_trailers request (some (ok tt)) (some (into_trailers denied))).1
        ≡ into_trailers denied)
unfolding is_utf8
finish-into_trailers_example =
    finish-into_trailers denied request (some (ok tt)) tt (ground arith) refl

abbrev head_zero : Assoc
head_zero = (codes "grpc-status", codes "0") ∷ []

finish_ok_example :
    SaysOk (unwrap_or none [])
    ⊎ ((assoc_headers.get_str (unwrap_or none []) (codes "grpc-status") ≡ none) × SaysOk head_zero)
unfolding finish_from_trailers head_status_of from_trailers trailer_code from_u8 parse_uint
    is_ascii_digit eq_ignore_ascii_case is_utf8
finish_ok_example = finish_ok head_zero none refl

abbrev http : Option ℕ
http = some 200

abbrev head : Head
head = record { response_headers = request; response_encoding = gzip; head_status = none }
