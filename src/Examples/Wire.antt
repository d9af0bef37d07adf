-- ===== src/Examples/Wire.antt =====
-- The theorems on metadata, statuses and timeouts at concrete inputs: src/metadata.rs, src/status.rs
-- and src/timeout.rs.
use trillium_grpc.Prelude.{
  ◌*◌, ◌<◌, ◌≡◌, refl, true, not, ◌||◌, [], ◌∷◌, ◌++◌, some, Bytes, codes, ends_with, if◌then◌else◌,
  arith,
}
use trillium_grpc.Text.Decimal.RoundTrip.{value}
use trillium_grpc.Text.Utf8.{is_utf8}
use trillium_grpc.Metadata
use trillium_grpc.Metadata.{Metadata, ascii, binary, insert_ascii, insert_binary, from_headers}
use trillium_grpc.Metadata.Key.{is_valid_key, is_reserved, is_valid_ascii_value}
use trillium_grpc.Metadata.Invariant.{IsWellFormed, insert-IsWellFormed}
use trillium_grpc.Metadata.RoundTrip.{
  values_of, decode_values, header_values, values_of-from_headers, from_headers_exact,
}
use trillium_grpc.Status.{Status, from_trailers, into_trailers}
use trillium_grpc.Examples.Setup.{assoc_headers, plain_base64}
use trillium_grpc.Status.Codes.{Code}
use trillium_grpc.Status.Trailers.{ReadsBack, from_trailers-into_trailers}
use trillium_grpc.Timeout.{
  Duration, as_nanos, max_value, suffix_nanos, format_grpc_timeout, parse_grpc_timeout,
}
use trillium_grpc.Timeout.RoundTrip.{
  of_nanos, Covers, parse-format, format_saturates, parse_complete,
}

abbrev key : Bytes
key = codes "x-id"

abbrev sample : Metadata
sample = record { entries = (key, ascii (codes "7")) ∷ (codes "t-bin", binary (1 ∷ 2 ∷ [])) ∷ [] }

sample-IsWellFormed : IsWellFormed sample
unfolding is_valid_key is_reserved is_valid_ascii_value
sample-IsWellFormed = (
  (record { is_valid = refl; is_free = refl; suffix = refl }, refl),
  ((record { is_valid = refl; is_free = refl; suffix = refl }, ground arith), tt),
)

values_of-from_headers_example :
    values_of key (from_headers (Metadata.write_into sample [])).entries
    ≡ values_of key sample.entries
values_of-from_headers_example =
    values_of-from_headers sample [] key sample-IsWellFormed λ free. refl

from_headers_exact_example :
    values_of key (from_headers ((codes "X-Id", codes "7") ∷ [])).entries ≡ (
      if is_reserved key || not (is_valid_key key)
      then []
      else decode_values
          (ends_with key (codes "-bin"))
          (header_values ((codes "X-Id", codes "7") ∷ []) key))
from_headers_exact_example = from_headers_exact ((codes "X-Id", codes "7") ∷ []) key

insert-IsWellFormed_example :
    IsWellFormed (insert_ascii sample key (codes "8")).0
    × IsWellFormed (insert_binary sample key (codes "8")).0
insert-IsWellFormed_example =
    insert-IsWellFormed sample key (codes "8") sample-IsWellFormed (ground arith)

abbrev message : Bytes
message = codes "50% " ++ 0xE2 ∷ 0x9C ∷ 0x93 ∷ []

message-is_utf8 : is_utf8 message ≡ true
unfolding is_utf8
message-is_utf8 = refl

abbrev failure : Status
failure = record { code = Code.not_found; message = message; metadata = sample }

from_trailers-into_trailers_example : ReadsBack failure (from_trailers (into_trailers failure))
from_trailers-into_trailers_example =
    from_trailers-into_trailers failure sample-IsWellFormed (ground arith) message-is_utf8

abbrev two_days : Duration
two_days = record { secs = 172_800; nanos = 1 }

parse-format_example :
    Covers (as_nanos two_days) (parse_grpc_timeout (format_grpc_timeout two_days))
unfolding as_nanos
parse-format_example = parse-format two_days (omega arith)

abbrev eons : Duration
eons = record { secs = 400_000_000_000; nanos = 0 }

format_saturates_example :
    (parse_grpc_timeout (format_grpc_timeout eons)
      ≡ some (of_nanos (max_value * (3600 * 1_000_000_000))))
    × (as_nanos (of_nanos (max_value * (3600 * 1_000_000_000))) < as_nanos eons)
unfolding as_nanos
format_saturates_example = format_saturates eons (omega arith)

parse_complete_example :
    parse_grpc_timeout (codes "1000000000m")
    ≡ some (of_nanos (value 0 (codes "1000000000") * 1_000_000))
unfolding suffix_nanos
parse_complete_example =
    parse_complete (codes "1000000000") b'm' 1_000_000 (ground arith) (ground arith) (omega arith)
      refl (omega arith)
