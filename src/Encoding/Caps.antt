-- ===== src/Encoding/Caps.antt =====
-- The size cap of decompression, and decompression after compression (src/encoding.rs).
use trillium_grpc.Prelude.{
  ℕ, ◌+◌, ◌%◌, ◌^◌, ◌≤◌, ◌<◌, ◌≡◌, refl, Option, none, some, Bytes, codes, if◌then◌else◌, ok, err,
  arith, take, length, length-take, take_all, ltb, Bool-cases, Option-cases, inl, inr,
}
use native.Mathlib.Nat.{mod-eq_of_lt}
use trillium_grpc.Deps.{Compressor, Compressors, IsLossless}
use trillium_grpc.Encoding.{
  Encoding, identity, gzip, deflate, zstd, oversize, compress_with, check_cap, read_capped,
  compress, decompress,
}

check_cap-le : (max : ℕ) (out r : Bytes) → check_cap max out ≡ ok r → length r ≤ max
unfolding check_cap
check_cap-le max out r h = ground arith

read_capped-le :
    (stream : Bytes × Option Bytes) (max : ℕ) (ctx r : Bytes)
    → read_capped stream max ctx ≡ ok r
    → length r ≤ max
unfolding read_capped
read_capped-le (out, none) max ctx r h = check_cap-le max (take ((max + 1) % 2 ^ 64) out) r h
read_capped-le (out, some e) max ctx r h =
    elim (Bool-cases (ltb (length out) ((max + 1) % 2 ^ 64))) [
      | inl short ↦ absurd (ground arith)
      | inr long ↦ check_cap-le max (take ((max + 1) % 2 ^ 64) out) r (ground arith)
    ]

read_capped_whole :
    (d ctx : Bytes) (max : ℕ)
    → max + 1 < 2 ^ 64
    → read_capped (d, none) max ctx ≡ (if ltb max (length d) then err (oversize max) else ok d)
unfolding read_capped
read_capped_whole d ctx max fits = rw (mod-eq_of_lt fits) (elim (Bool-cases (ltb max (length d))) [
  | inl long ↦ ground (arith, length-take (max + 1) d)
  | inr short ↦ rw (take_all (max + 1) d (ground arith)) refl
])

compress_with-ok :
    (c : Compressor) (ctx d z : Bytes) → compress_with c ctx d ≡ ok z → c.compress d ≡ ok z
unfolding compress_with
compress_with-ok c ctx d z h = ground arith

pub record AllLossless (crates : Compressors) : Type 0 where
  pub gzip_lossless : IsLossless crates.gzip
  pub deflate_lossless : IsLossless crates.deflate
  pub zstd_lossless : IsLossless crates.zstd

module _ ⦃crates : Compressors⦄ where
  -- Whatever a peer sends and whatever the compression crates do with it, a decompressed message is
  -- never longer than the cap.
  pub decompress-le :
      (e : Encoding) (z out : Bytes) (max : ℕ) → decompress e z max ≡ ok out → length out ≤ max
  unfolding decompress
  decompress-le identity z out max h = check_cap-le max z out h
  decompress-le gzip z out max h = read_capped-le (crates.gzip.stream z) max _ out h
  decompress-le deflate z out max h = read_capped-le (crates.deflate.stream z) max _ out h
  decompress-le zstd z out max h = elim (Option-cases (crates.zstd.open_error z)) [
    | inl opened ↦
        read_capped-le (crates.zstd.stream z) max (codes "zstd decompress") out (ground arith)
    | inr (e, failed) ↦ absurd (ground arith)
  ]

  -- Where the compression crates are lossless and the cap plus one is below 2 ^ 64, so that it does not
  -- overflow, decompressing what was compressed gives the message back, if it is no longer than the
  -- cap, and otherwise is refused as oversize; so for every codec.
  pub decompress-compress :
      (e : Encoding) (d z : Bytes) (max : ℕ)
      → AllLossless crates
      → max + 1 < 2 ^ 64
      → compress e d ≡ ok z
      → decompress e z max ≡ (if ltb max (length d) then err (oversize max) else ok d)
  unfolding compress decompress
  decompress-compress identity d z max good fits h =
      let same : z ≡ d = ground arith in unfold check_cap in rw same
  decompress-compress gzip d z max good fits h =
      let made = compress_with-ok crates.gzip (codes "gzip compress") d z h in
      rw (good.gzip_lossless.inverts d z made) (read_capped_whole d _ max fits)
  decompress-compress deflate d z max good fits h =
      let made = compress_with-ok crates.deflate (codes "deflate compress") d z h in
      rw (good.deflate_lossless.inverts d z made) (read_capped_whole d _ max fits)
  decompress-compress zstd d z max good fits h =
      let made = compress_with-ok crates.zstd (codes "zstd compress") d z h in
      ground (
        arith,
        good.zstd_lossless.opens d z made,
        good.zstd_lossless.inverts d z made,
        read_capped_whole d (codes "zstd decompress") max fits,
      )
