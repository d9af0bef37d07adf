-- ===== src/Status/Percent/RoundTrip.antt =====
-- `percent_decode` after `percent_encode` (src/status.rs), and the bytes that encoding writes.
use trillium_grpc.Prelude.{
  Bool-cases, inl, inr, ℕ, ◌+◌, ◌*◌, ◌/◌, ◌%◌, ◌≤◌, ◌<◌, ◌≡◌, refl, ap, true, not, ◌&&◌, [], ◌∷◌,
  ◌++◌, some, arith, Bytes, IsBytes, ◌==◌, All, All-append, in_range, ◌≢◌,
}
use trillium_grpc.Text.Utf8.{from_utf8, is_utf8}
use trillium_grpc.Status.Percent.{
  hex_nibble, hex_value, encode_byte, percent_encode, decode_bytes, percent_decode,
}

hex_value-hex_nibble : (n : ℕ) → n < 16 → hex_value (hex_nibble n) ≡ some n
unfolding hex_value hex_nibble
hex_value-hex_nibble n h = ground arith

-- A byte that is no `%` stands for itself, whatever follows it.
decode_literal : (c : ℕ) (s : Bytes) → c ≢ b'%' → decode_bytes (c ∷ s) ≡ c ∷ decode_bytes s
unfolding decode_bytes
decode_literal c [] h = refl
decode_literal c (a ∷ []) h = refl
decode_literal c (a ∷ b ∷ s) h = ground arith

decode_escape :
    (hi lo : ℕ) (s : Bytes)
    → hi < 16
    → lo < 16
    → decode_bytes (b'%' ∷ hex_nibble hi ∷ hex_nibble lo ∷ s) ≡ (hi * 16 + lo) ∷ decode_bytes s
unfolding decode_bytes
decode_escape hi lo s p q = ground (arith, hex_value-hex_nibble hi p, hex_value-hex_nibble lo q)

decode-encode_byte :
    (b : ℕ) (s : Bytes) → b < 256 → decode_bytes (encode_byte b ++ s) ≡ b ∷ decode_bytes s
unfolding encode_byte
decode-encode_byte b s h = elim (Bool-cases (in_range 0x20 0x7E b && not (b == b'%'))) [
  | inl plain ↦ rw plain (decode_literal b s (ground arith))
  | inr hidden ↦
      rw (hidden, decode_escape (b / 16) (b % 16) s (omega arith) (omega arith))
        (ap (λ c. c ∷ decode_bytes s) (omega arith))
]

pub decode-percent_encode : (s : Bytes) → IsBytes s → decode_bytes (percent_encode s) ≡ s
unfolding percent_encode decode_bytes
decode-percent_encode [] h = refl
decode-percent_encode (b ∷ s) h =
    cc (decode-encode_byte b (percent_encode s) h.0, decode-percent_encode s h.1)

-- A message that is UTF-8, as every Rust `String` is, is read back from its encoding unchanged.
pub percent_decode-percent_encode :
    (s : Bytes) → IsBytes s → is_utf8 s ≡ true → percent_decode (percent_encode s) ≡ s
unfolding percent_decode from_utf8
percent_decode-percent_encode s bytes text = rw (decode-percent_encode s bytes, text)

abbrev pub IsPrintable : ℕ → Type 0
IsPrintable c = (0x20 ≤ c) × (c ≤ 0x7E)

encode_byte-IsPrintable : (b : ℕ) → b < 256 → All IsPrintable (encode_byte b)
unfolding encode_byte hex_nibble
encode_byte-IsPrintable b h = ground arith

-- The encoding of any bytes is printable ASCII, so that it is a legal header value.
pub percent_encode-IsPrintable : (s : Bytes) → IsBytes s → All IsPrintable (percent_encode s)
unfolding percent_encode
percent_encode-IsPrintable [] h = tt
percent_encode-IsPrintable (b ∷ s) h =
    All-append IsPrintable (encode_byte b) (percent_encode s) (encode_byte-IsPrintable b h.0)
      (percent_encode-IsPrintable s h.1)
