-- ===== src/Status/Percent.antt =====
-- The percent-encoding of `grpc-message`: `percent_encode`, `percent_decode`, `hex_nibble` and
-- `hex_value` of src/status.rs.
pub mod RoundTrip
use trillium_grpc.Prelude.{
  ℕ, ◌+◌, ◌-◌, ◌*◌, ◌/◌, ◌%◌, not, ◌&&◌, [], ◌∷◌, ◌++◌, Option, none, some, Bytes, in_range, leb,
  ◌==◌, if◌then◌else◌, unwrap_or,
}
use trillium_grpc.Text.Utf8.{from_utf8, from_utf8_lossy}

-- The digit of a number up to 15; above that the source is `unreachable!()`.
unfoldable pub hex_nibble : ℕ → ℕ
hex_nibble n = if leb n 9 then b'0' + n else b'A' + n - 10

unfoldable pub hex_value : ℕ → Option ℕ
hex_value b =
    if in_range b'0' b'9' b
    then some (b - b'0')
    else if in_range b'a' b'f' b
    then some (b - b'a' + 10)
    else if in_range b'A' b'F' b
    then some (b - b'A' + 10)
    else none

-- What one byte of the message becomes.
unfoldable pub encode_byte : ℕ → Bytes
unfolding hex_nibble
encode_byte b =
    if in_range 0x20 0x7E b && not (b == b'%')
    then b ∷ []
    else b'%' ∷ hex_nibble (b / 16) ∷ hex_nibble (b % 16) ∷ []

unfoldable pub percent_encode : Bytes → Bytes
unfolding encode_byte
percent_encode [] = []
percent_encode (b ∷ s) = encode_byte b ++ percent_encode s

-- `(hi << 4) | lo`, of two nibbles.
escaped : ℕ → ℕ → ℕ → Option ℕ
unfolding hex_value
escaped c a b =
    if c == b'%'
    then elim (hex_value a) [
      | none ↦ none
      | some hi ↦ elim (hex_value b) [ none ↦ none | some lo ↦ some (hi * 16 + lo) ]
    ]
    else none

-- The loop of `percent_decode`: with fewer than two bytes behind it a `%` stands for itself.
unfoldable pub decode_bytes : Bytes → Bytes
unfolding escaped
decode_bytes [] = []
decode_bytes (c ∷ []) = c ∷ []
decode_bytes (c ∷ a ∷ []) = c ∷ decode_bytes (a ∷ [])
decode_bytes (c ∷ a ∷ b ∷ s) =
    let literal = c ∷ decode_bytes (a ∷ b ∷ s) in
    let rest = decode_bytes s in elim (escaped c a b) [ none ↦ literal | some v ↦ v ∷ rest ]

unfoldable pub percent_decode : Bytes → Bytes
unfolding decode_bytes from_utf8 from_utf8_lossy
percent_decode s = let out = decode_bytes s in unwrap_or (from_utf8 out) (from_utf8_lossy out)
