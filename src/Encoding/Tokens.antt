-- ===== src/Encoding/Tokens.antt =====
-- The `grpc-encoding` tokens of src/encoding.rs.
use trillium_grpc.Prelude.{
  ◌≡◌, ◌↔◌, refl, Bool, true, false, some, Bytes, codes, beq→eq, arith, ap, ◌∙◌,
}
use trillium_grpc.Text.Utf8.{is_utf8}
use trillium_grpc.Deps.{Features}
use trillium_grpc.Encoding.{
  Encoding, identity, gzip, deflate, zstd, from_grpc_encoding, as_grpc_encoding, accepted_encodings,
  all_encodings,
}
use trillium_grpc.Text.Ascii.{join}

pub token-is_utf8 : (e : Encoding) → is_utf8 (as_grpc_encoding e) ≡ true
unfolding as_grpc_encoding is_utf8
token-is_utf8 identity = refl
token-is_utf8 _ = refl

module _ ⦃build : Features⦄ where
  -- Whether the build has a codec.
  abbrev pub is_built : Encoding → Bool
  is_built identity = true
  is_built gzip = build.gzip
  is_built deflate = build.deflate
  is_built zstd = build.zstd

  from-as : (e : Encoding) → is_built e ≡ true → from_grpc_encoding (as_grpc_encoding e) ≡ some e
  unfolding from_grpc_encoding as_grpc_encoding
  from-as e h = ground arith

  as-from :
      (s : Bytes) (e : Encoding)
      → from_grpc_encoding s ≡ some e
      → (s ≡ as_grpc_encoding e) × (is_built e ≡ true)
  unfolding from_grpc_encoding as_grpc_encoding
  as-from s e h = ground (
    arith,
    beq→eq s (codes "identity"),
    beq→eq s (codes "gzip"),
    beq→eq s (codes "deflate"),
    beq→eq s (codes "zstd"),
  )

  -- In every build `from_grpc_encoding` reads exactly the tokens that `as_grpc_encoding` writes for
  -- the codecs of that build, and nothing else.
  pub from_grpc_encoding_iff :
      (s : Bytes) (e : Encoding)
      → (from_grpc_encoding s ≡ some e) ↔ ((s ≡ as_grpc_encoding e) × (is_built e ≡ true))
  from_grpc_encoding_iff s e = (as-from s e, λ h. ap from_grpc_encoding h.0 ∙ from-as e h.1)

abbrev build_of : Bool → Bool → Bool → Features
build_of g d z = record { gzip = g; deflate = d; zstd = z }

accepted_text : (g d z : Bool) → is_utf8 (accepted_encodings ⦃build = build_of g d z⦄) ≡ true
unfolding accepted_encodings all_encodings is_utf8 as_grpc_encoding join
accepted_text true true true = refl
accepted_text true true false = refl
accepted_text true false true = refl
accepted_text true false false = refl
accepted_text false true true = refl
accepted_text false true false = refl
accepted_text false false true = refl
accepted_text false false false = refl

pub accepted-is_utf8 : ⦃build : Features⦄ → is_utf8 accepted_encodings ≡ true
accepted-is_utf8 ⦃build⦄ = accepted_text build.gzip build.deflate build.zstd
