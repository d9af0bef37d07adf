-- ===== src/Examples/Frames.antt =====
-- The theorems on encodings, content types and frames at concrete inputs: src/encoding.rs,
-- src/content_type.rs and src/frame.
use trillium_grpc.Prelude.{
  ◌≤◌, ◌≡◌, ◌↔◌, refl, [], ◌∷◌, ◌++◌, some, Bytes, codes, Result, ok, err, if◌then◌else◌, arith,
  length, ltb,
}
use trillium_grpc.Examples.Setup.{stored_codecs, all_features, stored_codecs-AllLossless}
use trillium_grpc.Status.{Status}
use trillium_grpc.Encoding.{gzip, compress, decompress, oversize, read_capped}
use trillium_grpc.Encoding.Caps.{decompress-compress, decompress-le}
use trillium_grpc.ContentType.{parse_grpc_content_type}
use trillium_grpc.ContentType.Exact.{Names, parse_grpc_content_type_iff}
use trillium_grpc.Frame.Writer.{encode_payload, frame}
use trillium_grpc.Frame.Source.{Script, wait, chunk, contents, IsLive, waits, script_reader}
use trillium_grpc.Frame.Reader.{done, new_state, await_message}
use trillium_grpc.Frame.Reader.Frames.{await-encode_payload}
use trillium_grpc.Frame.Reader.Ends.{end_item, await_end}

decompress-compress_example :
    decompress gzip (1 ∷ codes "abc") 2
    ≡ (if ltb 2 (length (codes "abc")) then err (oversize 2) else ok (codes "abc"))
decompress-compress_example =
    decompress-compress gzip (codes "abc") (1 ∷ codes "abc") 2 stored_codecs-AllLossless
      (omega arith) (unfold compress in refl)

decompress-le_example : length (codes "abc") ≤ 3
unfolding decompress read_capped
decompress-le_example = decompress-le gzip (1 ∷ codes "abc") (codes "abc") 3 refl

parse_grpc_content_type_iff_example :
    (parse_grpc_content_type (codes "application/grpc") ≡ some (codes "proto"))
    ↔ Names (codes "application/grpc") (codes "proto")
parse_grpc_content_type_iff_example =
    parse_grpc_content_type_iff (codes "application/grpc") (codes "proto")

abbrev decode : Bytes → Result Status Bytes
decode = ok

-- A compressed message in three pieces, with a wait between them and the start of the next frame
-- behind it.
abbrev pieces : Script
pieces = chunk (1 ∷ 0 ∷ []) ∷ wait ∷ chunk (0 ∷ 0 ∷ 3 ∷ 1 ∷ []) ∷ chunk (codes "hi" ++ 0 ∷ []) ∷ []

await-encode_payload_example :
    (evs' : Script) × (await_message decode gzip 100 2 pieces new_state
      ≡ (some (some (decode (codes "hi"))), new_state, evs'))
    × (contents evs' ≡ 0 ∷ [])
    × IsLive evs'
    × (waits evs' ≤ waits pieces)
await-encode_payload_example =
    await-encode_payload decode 100 (codes "hi") (omega arith) (omega arith)
      stored_codecs-AllLossless gzip (1 ∷ 0 ∷ 0 ∷ 0 ∷ 3 ∷ 1 ∷ codes "hi") (0 ∷ []) pieces 2
      (unfold encode_payload frame compress in refl) (omega arith) (omega arith) refl (ground arith)
      (omega arith)

await_end_example :
    (evs' : Script) × (await_message decode gzip 100 2 (wait ∷ chunk (0 ∷ 1 ∷ []) ∷ []) new_state
      ≡ (some (end_item (0 ∷ 1 ∷ [])), done, evs'))
await_end_example =
    await_end decode gzip 100 (0 ∷ 1 ∷ []) 2 (wait ∷ chunk (0 ∷ 1 ∷ []) ∷ []) refl (omega arith)
      (ground arith) (omega arith)
