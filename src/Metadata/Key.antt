-- ===== src/Metadata/Key.antt =====
-- The checks on keys and values of src/metadata.rs.
use trillium_grpc.Prelude.{
  ℕ, ◌≡◌, refl, ◌&&◌, ◌||◌, not, Bool, true, [], ◌∷◌, ◌++◌, Bytes, codes, arith, beq, starts_with,
  if◌then◌else◌, Result, ok, err, all, in_range, ◌==◌,
}
use trillium_grpc.Deps.{Debug}
use trillium_grpc.Text.Ascii.{to_lower, to_ascii_lowercase, eq_ignore_ascii_case}

pub data MetadataError : Type 0 where
  invalid_key : Bytes → MetadataError
  reserved_key : Bytes → MetadataError
  ascii_key_has_bin_suffix : Bytes → MetadataError
  binary_key_missing_bin_suffix : Bytes → MetadataError
  invalid_ascii_value : MetadataError

-- The text of `{e}`; `{0:?}` of a key is the caller's.
unfoldable pub error_text : ⦃show : Debug⦄ → MetadataError → Bytes
error_text ⦃show⦄ (invalid_key k) =
    codes "metadata key "
    ++ show.debug_str k
    ++ codes " contains invalid characters (must match [0-9a-z_\\-.]+)"
error_text ⦃show⦄ (reserved_key k) =
    codes "metadata key " ++ show.debug_str k ++ codes " is reserved by the gRPC framework"
error_text ⦃show⦄ (ascii_key_has_bin_suffix k) =
    codes "ASCII metadata key " ++ show.debug_str k ++ codes " must not end in -bin"
error_text ⦃show⦄ (binary_key_missing_bin_suffix k) =
    codes "binary metadata key " ++ show.debug_str k ++ codes " must end in -bin"
error_text invalid_ascii_value = codes "ASCII metadata value contains non-printable bytes"

-- `[0-9a-z_\-.]`.
unfoldable pub is_key_byte : ℕ → Bool
is_key_byte b = in_range b'0' b'9' b || in_range b'a' b'z' b || b == b'_' || b == b'-' || b == b'.'

unfoldable pub is_valid_key : Bytes → Bool
unfolding is_key_byte
is_valid_key key = not (beq key []) && all is_key_byte key

unfoldable pub validate_key : Bytes → Result MetadataError (Unit {0})
unfolding is_valid_key
validate_key key = if is_valid_key key then ok tt else err (invalid_key key)

unfoldable pub is_valid_ascii_value : Bytes → Bool
is_valid_ascii_value = all (in_range 0x20 0x7E)

unfoldable pub is_reserved : Bytes → Bool
is_reserved key =
    starts_with key (codes "grpc-")
    || beq key (codes "te")
    || beq key (codes "content-type")
    || beq key (codes "user-agent")
    || beq key (codes "host")
    || beq key (codes "connection")

lower-key_byte : (b : ℕ) → is_key_byte b ≡ true → to_lower b ≡ b
unfolding is_key_byte to_lower
lower-key_byte b h = ground arith

lower-key_bytes : (k : Bytes) → all is_key_byte k ≡ true → to_ascii_lowercase k ≡ k
unfolding to_ascii_lowercase
lower-key_bytes [] h = refl
lower-key_bytes (b ∷ k) h = cc (lower-key_byte b (ground arith), lower-key_bytes k (ground arith))

-- A valid key is lower case already.
pub lower-valid_key : (k : Bytes) → is_valid_key k ≡ true → to_ascii_lowercase k ≡ k
unfolding is_valid_key
lower-valid_key k h = lower-key_bytes k (ground arith)

-- Between valid keys the comparison of header names is equality.
pub eq_ignore-valid_key :
    (j k : Bytes)
    → is_valid_key j ≡ true
    → is_valid_key k ≡ true
    → eq_ignore_ascii_case j k ≡ beq j k
unfolding eq_ignore_ascii_case
eq_ignore-valid_key j k hj hk = rw (lower-valid_key j hj, lower-valid_key k hk)
