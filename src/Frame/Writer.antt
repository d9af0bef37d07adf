-- ===== src/Frame/Writer.antt =====
-- frame/writer.rs: one message as a frame.
use trillium_grpc.Prelude.{
  ℕ, ◌/◌, ◌%◌, ◌^◌, ◌≡◌, refl, [], ◌∷◌, ◌++◌, Bytes, codes, Result, ok, ◌>>=◌, length,
}
use trillium_grpc.Deps.{Compressors}
use trillium_grpc.Status.{Status}
use trillium_grpc.Codec.{Codec}
use trillium_grpc.Encoding.{Encoding, identity, compress}

abbrev pub prefix_len : ℕ
prefix_len = 5

-- `(n as u32).to_be_bytes()`.
unfoldable pub to_be_bytes : ℕ → Bytes
to_be_bytes n = let w = n % 2 ^ 32 in w / 2 ^ 24 ∷ w / 2 ^ 16 % 256 ∷ w / 2 ^ 8 % 256 ∷ w % 256 ∷ []

unfoldable pub frame : ℕ → Bytes → Bytes
unfolding to_be_bytes
frame flag payload = flag ∷ (to_be_bytes (length payload) ++ payload)

module _ ⦃crates : Compressors⦄ where
  unfoldable pub encode_payload : Bytes → Encoding → Result Status Bytes
  encode_payload payload identity = ok (frame 0 payload)
  encode_payload payload encoding = do packed ← compress encoding payload; ok (frame 1 packed)

  unfoldable pub encode_frame : {T : Type 0} → Codec T → T → Encoding → Result Status Bytes
  unfolding encode_payload
  encode_frame codec value encoding = do
    payload ← codec.encode value
    encode_payload payload encoding

framed : frame 0 (codes "hi") ≡ 0 ∷ 0 ∷ 0 ∷ 0 ∷ 2 ∷ codes "hi"
unfolding frame
framed = refl
