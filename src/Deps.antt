-- ===== src/Deps.antt =====
-- What the crate calls and does not implement, as interfaces: `trillium::Headers`, the `base64`
-- engine, the compression crates with the Cargo features that bring them in, and `{:?}` of a text.
-- The laws are the documented behaviour of those crates.
use trillium_grpc.Prelude.{
  ◌≡◌, ◌++◌, Bool, true, false, List, [], ◌∷◌, Option, none, some, Bytes, IsBytes, unwrap_or,
  if◌then◌else◌, Result, ok,
}
use trillium_grpc.Text.Ascii.{eq_ignore_ascii_case}
use trillium_grpc.Text.Utf8.{is_utf8}

-- The values that an iteration over headers shows under a lower-case name, in order.
abbrev pub collect_values : Bytes → List (Bytes × List Bytes) → List Bytes
collect_values k [] = []
collect_values k ((name, values) ∷ rest) =
    if eq_ignore_ascii_case name k then values ++ collect_values k rest else collect_values k rest

-- `trillium::Headers`: a map from case-insensitive names to lists of values.
pub record HeadersApi : Type 1 where
  pub Headers : Type 0
  pub new : Headers
  pub get_str : Headers → Bytes → Option Bytes
  pub get_values : Headers → Bytes → Option (List Bytes)
  pub insert : Headers → Bytes → Bytes → Headers
  pub append : Headers → Bytes → Bytes → Headers
  pub remove : Headers → Bytes → Headers
  pub iter : Headers → List (Bytes × List Bytes)
  -- `HeaderValue::as_str`.
  pub as_str : Bytes → Option Bytes
  pub get_str-new : (k : Bytes) → get_str new k ≡ none
  pub get_str-insert_self :
      (h : Headers) (k v : Bytes) → is_utf8 v ≡ true → get_str (insert h k v) k ≡ some v
  pub get_str-insert_ne :
      (h : Headers) (k j v : Bytes)
      → eq_ignore_ascii_case k j ≡ false
      → get_str (insert h k v) j ≡ get_str h j
  pub get_str-append_ne :
      (h : Headers) (k j v : Bytes)
      → eq_ignore_ascii_case k j ≡ false
      → get_str (append h k v) j ≡ get_str h j
  pub get_str-remove_self : (h : Headers) (k : Bytes) → get_str (remove h k) k ≡ none
  pub get_values-new : (k : Bytes) → unwrap_or (get_values new k) [] ≡ []
  pub get_values-insert :
      (h : Headers) (k j v : Bytes)
      → unwrap_or (get_values (insert h k v) j) []
        ≡ (if eq_ignore_ascii_case k j then v ∷ [] else unwrap_or (get_values h j) [])
  pub get_values-append :
      (h : Headers) (k j v : Bytes)
      → unwrap_or (get_values (append h k v) j) [] ≡ (
          if eq_ignore_ascii_case k j
          then unwrap_or (get_values h j) [] ++ v ∷ []
          else unwrap_or (get_values h j) [])
  pub get_values-iter :
      (h : Headers) (k : Bytes) → collect_values k (iter h) ≡ unwrap_or (get_values h k) []
  pub as_str_text : (v : Bytes) → is_utf8 v ≡ true → as_str v ≡ some v

-- The unpadded standard engine of `base64`.
pub record Base64 : Type 0 where
  pub encode : Bytes → Bytes
  pub decode : Bytes → Option Bytes
  pub decode-encode : (b : Bytes) → IsBytes b → decode (encode b) ≡ some b

-- `{:?}` of a `str`, of an `Option<&str>` and of a `Code`-free error text.
pub record Debug : Type 0 where
  pub debug_str : Bytes → Bytes
  pub debug_option : Option Bytes → Bytes

-- Which of the Cargo features `gzip`, `deflate` and `zstd` the build has.
pub record Features : Type 0 where
  pub gzip : Bool
  pub deflate : Bool
  pub zstd : Bool

-- One codec of `flate2` or `zstd`. Compression returns the bytes or an I/O error's text. A decoder
-- may fail to open; once open it is read: `stream` is what it yields, with the error that ends it,
-- if one does.
pub record Compressor : Type 0 where
  pub compress : Bytes → Result Bytes Bytes
  pub open_error : Bytes → Option Bytes
  pub stream : Bytes → Bytes × Option Bytes

-- A compressor's decoder opens what it compressed and yields the bytes again.
pub record IsLossless (c : Compressor) : Type 0 where
  pub opens : (d z : Bytes) → c.compress d ≡ ok z → c.open_error z ≡ none
  pub inverts : (d z : Bytes) → c.compress d ≡ ok z → c.stream z ≡ (d, none)

pub record Compressors : Type 0 where
  pub gzip : Compressor
  pub deflate : Compressor
  pub zstd : Compressor

-- `prost::Message`: both directions, or the error's text.
pub record Message (T : Type 0) : Type 0 where
  pub encode : T → Result Bytes Bytes
  pub decode : Bytes → Result Bytes T
