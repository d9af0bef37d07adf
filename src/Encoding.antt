-- ===== src/Encoding.antt =====
-- encoding.rs: the compression codecs of a build. A variant that the build lacks is a constructor
-- that `all_encodings` and `from_grpc_encoding` leave out.
pub mod Tokens
pub mod Caps
use trillium_grpc.Prelude.{
  ℕ, ◌+◌, ◌*◌, ◌%◌, ◌^◌, Bool, true, false, ◌&&◌, [], ◌∷◌, ◌++◌, List, map, Option, none, some,
  ◌>>=◌, Bytes, codes, beq, if◌then◌else◌, Result, ok, err, map_err, take, length, ltb,
}
use trillium_grpc.Text.Ascii.{join}
use trillium_grpc.Text.Decimal.{to_decimal}
use trillium_grpc.Deps.{Features, Compressor, Compressors}
use trillium_grpc.Status
use trillium_grpc.Status.{Status}

abbrev pub default_max_message_size : ℕ
default_max_message_size = 4 * 1024 * 1024

pub data Encoding : Type 0 where
  identity gzip deflate zstd : Encoding

abbrev pub is_identity : Encoding → Bool
is_identity identity = true
is_identity _ = false

module _ ⦃build : Features⦄ where
  -- `Encoding::ALL`.
  unfoldable pub all_encodings : List Encoding
  all_encodings =
      identity ∷ (if build.gzip then gzip ∷ [] else [])
      ++ (if build.deflate then deflate ∷ [] else [])
      ++ (if build.zstd then zstd ∷ [] else [])

  unfoldable pub from_grpc_encoding : Bytes → Option Encoding
  from_grpc_encoding s =
      if beq s (codes "identity")
      then some identity
      else if build.gzip && beq s (codes "gzip")
      then some gzip
      else if build.deflate && beq s (codes "deflate")
      then some deflate
      else if build.zstd && beq s (codes "zstd")
      then some zstd
      else none

unfoldable pub as_grpc_encoding : Encoding → Bytes
as_grpc_encoding identity = codes "identity"
as_grpc_encoding gzip = codes "gzip"
as_grpc_encoding deflate = codes "deflate"
as_grpc_encoding zstd = codes "zstd"

unfoldable pub accepted_encodings : ⦃build : Features⦄ → Bytes
accepted_encodings = join (codes ",") (map as_grpc_encoding all_encodings)

abbrev pub oversize : ℕ → Status
oversize max_size =
    Status.resource_exhausted
      (codes "decompressed message exceeds limit of " ++ to_decimal max_size ++ codes " bytes")

-- `gzip_compress`, `deflate_compress` and `zstd_compress`.
compress_with : Compressor → Bytes → Bytes → Result Status Bytes
compress_with c ctx bytes =
    map_err (λ e. Status.internal (ctx ++ codes ": " ++ e)) (c.compress bytes)

-- What reading at most `limit` bytes of a decoder gives: an error that comes after them is not met.
read_limited : ℕ → Bytes → Bytes × Option Bytes → Result Status Bytes
read_limited limit ctx (out, none) = ok (take limit out)
read_limited limit ctx (out, some e) =
    if ltb (length out) limit
    then err (Status.internal (ctx ++ codes ": " ++ e))
    else ok (take limit out)

check_cap : ℕ → Bytes → Result Status Bytes
check_cap max_size out = if ltb max_size (length out) then err (oversize max_size) else ok out

-- `max_size as u64 + 1` is a `u64`.
unfoldable pub read_capped : Bytes × Option Bytes → ℕ → Bytes → Result Status Bytes
unfolding read_limited check_cap
read_capped stream max_size ctx = do
  out ← read_limited ((max_size + 1) % 2 ^ 64) ctx stream
  check_cap max_size out

open_zstd : Compressor → Bytes → Bytes → Result Status (Bytes × Option Bytes)
open_zstd c ctx bytes = elim (c.open_error bytes) [
  | none ↦ ok (c.stream bytes)
  | some e ↦ err (Status.internal (ctx ++ codes ": " ++ e))
]

module _ ⦃crates : Compressors⦄ where
  unfoldable pub compress : Encoding → Bytes → Result Status Bytes
  unfolding compress_with
  compress identity bytes = ok bytes
  compress gzip bytes = compress_with crates.gzip (codes "gzip compress") bytes
  compress deflate bytes = compress_with crates.deflate (codes "deflate compress") bytes
  compress zstd bytes = compress_with crates.zstd (codes "zstd compress") bytes

  unfoldable pub decompress : Encoding → Bytes → ℕ → Result Status Bytes
  unfolding check_cap open_zstd
  decompress identity bytes max_size = check_cap max_size bytes
  decompress gzip bytes max_size =
      read_capped (crates.gzip.stream bytes) max_size (codes "gzip decompress")
  decompress deflate bytes max_size =
      read_capped (crates.deflate.stream bytes) max_size (codes "deflate decompress")
  decompress zstd bytes max_size = do
    stream ← open_zstd crates.zstd (codes "zstd decompress") bytes
    read_capped stream max_size (codes "zstd decompress")
