-- ===== src/Status/Trailers.antt =====
-- A status written as trailers and read back: `write_into`, `into_trailers` and `from_trailers` of
-- src/status.rs.
use trillium_grpc.Prelude.{
  ◌<◌, ◌≡◌, refl, ◌∙◌, true, false, [], ◌∷◌, List, none, some, Bytes, IsBytes, codes, beq→eq,
  Result, ok, err, map_option, unwrap_or, arith, All, ◌≢◌, ◌⊎◌, inl, inr,
}
use trillium_grpc.Text.Ascii.{eq_ignore_ascii_case}
use trillium_grpc.Text.Decimal.{to_decimal, parse_uint}
use trillium_grpc.Text.Utf8.{is_utf8, ascii-is_utf8}
use trillium_grpc.Deps.{HeadersApi, Base64}
use trillium_grpc.Metadata.{
  Entry, from_headers, write_entries, wire_value, write_into as write_metadata,
}
use trillium_grpc.Metadata.Invariant.{IsGood, IsWellFormed}
use trillium_grpc.Metadata.Key.{is_valid_key, is_reserved, eq_ignore-valid_key}
use trillium_grpc.Metadata.RoundTrip.{values_of, header_values, values_of-from_headers}
use trillium_grpc.Status.Codes.{Code, as_u8, from_u8-as_u8}
use trillium_grpc.Status.Percent.{percent_encode, percent_decode}
use trillium_grpc.Status.Percent.RoundTrip.{
  percent_decode-percent_encode, percent_encode-IsPrintable, IsPrintable,
}
use trillium_grpc.Status.{
  Status, is_ok_code, write_message, write_into, into_trailers, trailer_code, trailer_message,
  from_trailers,
}

parse-code : (c : Code) → parse_uint 255 (to_decimal (as_u8 c)) ≡ some (as_u8 c)
unfolding parse_uint to_decimal as_u8
parse-code Code.ok = refl
parse-code _ = refl

code-is_utf8 : (c : Code) → is_utf8 (to_decimal (as_u8 c)) ≡ true
unfolding is_utf8 to_decimal as_u8
code-is_utf8 Code.ok = refl
code-is_utf8 _ = refl

printable-ascii : (s : Bytes) → All IsPrintable s → All (λ c. c < 0x80) s
printable-ascii [] h = tt
printable-ascii (c ∷ s) h = (omega arith, printable-ascii s h.1)

encoded-is_utf8 : (s : Bytes) → IsBytes s → is_utf8 (percent_encode s) ≡ true
encoded-is_utf8 s h = ascii-is_utf8 _ (printable-ascii _ (percent_encode-IsPrintable s h))

pub is_ok_code-cases :
    (c : Code) → ((is_ok_code c ≡ true) × (c ≡ Code.ok)) ⊎ ((is_ok_code c ≡ false) × (c ≢ Code.ok))
is_ok_code-cases c = ground arith

module _ ⦃api : HeadersApi⦄ ⦃b64 : Base64⦄ where
  -- Well-formed metadata leaves every reserved name as it was.
  pub get_str-write_entries :
      (es : List Entry) (h : api.Headers) (k : Bytes)
      → All IsGood es
      → is_valid_key k ≡ true
      → is_reserved k ≡ true
      → api.get_str (write_entries es h) k ≡ api.get_str h k
  unfolding write_entries
  get_str-write_entries [] h k good valid free = refl
  get_str-write_entries ((j, v) ∷ es) h k good valid free =
      let differ : eq_ignore_ascii_case j k ≡ false =
        ground
          (arith, eq_ignore-valid_key j k good.0.0.is_valid valid, beq→eq j k, good.0.0.is_free) in
      get_str-write_entries es (api.append h j (wire_value v)) k good.1 valid free
      ∙ api.get_str-append_ne h j k (wire_value v) differ

  get_str-write_message :
      (message : Bytes) (h : api.Headers)
      → api.get_str (write_message message h) (codes "grpc-status")
        ≡ api.get_str h (codes "grpc-status")
  unfolding write_message eq_ignore_ascii_case
  get_str-write_message [] h = refl
  get_str-write_message (c ∷ s) h = api.get_str-insert_ne h _ _ _ refl

  -- The trailers carry the code of the status, whatever the headers held before.
  pub get_str-write_into :
      (s : Status) (h : api.Headers)
      → IsWellFormed s.metadata
      → api.get_str (write_into s h) (codes "grpc-status") ≡ some (to_decimal (as_u8 s.code))
  unfolding write_into write_metadata is_valid_key is_reserved
  get_str-write_into s h good =
      rw
        (
          get_str-write_entries s.metadata.entries _ (codes "grpc-status") good refl refl,
          get_str-write_message,
          api.get_str-insert_self h (codes "grpc-status") _ (code-is_utf8 s.code),
        )
        refl

  pub trailer_code-write_into :
      (s : Status) (h : api.Headers)
      → IsWellFormed s.metadata
      → trailer_code (write_into s h) ≡ s.code
  unfolding trailer_code
  trailer_code-write_into s h good =
      rw (get_str-write_into s h good, parse-code s.code, from_u8-as_u8 s.code) refl

  pub get_str-into_trailers :
      (s : Status)
      → IsWellFormed s.metadata
      → api.get_str (into_trailers s) (codes "grpc-status") ≡ some (to_decimal (as_u8 s.code))
  unfolding into_trailers write_into write_metadata is_valid_key is_reserved
  get_str-into_trailers s good = rw (
    get_str-write_entries s.metadata.entries _ (codes "grpc-status") good refl refl,
    get_str-write_message,
    api.get_str-insert_self api.new (codes "grpc-status") _ (code-is_utf8 s.code),
  )

  read-write_message :
      (message : Bytes) (h : api.Headers)
      → api.get_str h (codes "grpc-message") ≡ none
      → IsBytes message
      → is_utf8 message ≡ true
      → unwrap_or
          (map_option percent_decode (api.get_str (write_message message h) (codes "grpc-message")))
          []
        ≡ message
  unfolding write_message
  read-write_message [] h free bytes text = rw free
  read-write_message (c ∷ s) h free bytes text =
      rw (api.get_str-insert_self h (codes "grpc-message") _ (encoded-is_utf8 (c ∷ s) bytes))
        (percent_decode-percent_encode (c ∷ s) bytes text)

  pub trailer_message-write_into :
      (s : Status) (h : api.Headers)
      → IsWellFormed s.metadata
      → IsBytes s.message
      → is_utf8 s.message ≡ true
      → api.get_str h (codes "grpc-message") ≡ none
      → trailer_message (write_into s h) ≡ s.message
  unfolding trailer_message write_into write_metadata is_valid_key is_reserved eq_ignore_ascii_case
  trailer_message-write_into s h good bytes text free =
      rw (get_str-write_entries s.metadata.entries _ (codes "grpc-message") good refl refl)
        (read-write_message s.message _ (api.get_str-insert_ne h _ _ _ refl ∙ free) bytes text)

  -- An insert under a reserved name leaves the user's values as they were.
  user_values-insert :
      (h : api.Headers) (j v k : Bytes)
      → is_valid_key j ≡ true
      → is_reserved j ≡ true
      → is_valid_key k ≡ true
      → is_reserved k ≡ false
      → header_values (api.insert h j v) k ≡ header_values h k
  user_values-insert h j v k vj rj vk rk =
      ground (arith, api.get_values-insert h j k v, eq_ignore-valid_key j k vj vk, beq→eq j k)

  user_values-write_message :
      (message : Bytes) (h : api.Headers) (k : Bytes)
      → is_valid_key k ≡ true
      → is_reserved k ≡ false
      → header_values (write_message message h) k ≡ header_values h k
  unfolding write_message
  user_values-write_message [] h k valid free = refl
  user_values-write_message (c ∷ s) h k valid free =
      user_values-insert h (codes "grpc-message") _ k (unfold is_valid_key in refl)
        (unfold is_reserved in refl) valid free

  trailer_metadata-write_into :
      (s : Status) (k : Bytes)
      → IsWellFormed s.metadata
      → values_of k (from_headers (into_trailers s)).entries ≡ values_of k s.metadata.entries
  unfolding into_trailers write_into
  trailer_metadata-write_into s k good = values_of-from_headers s.metadata _ k good λ fine.
      user_values-write_message s.message _ k (ground arith) (ground arith)
      ∙ user_values-insert api.new (codes "grpc-status") _ k (unfold is_valid_key in refl)
          (unfold is_reserved in refl) (ground arith) (ground arith)
      ∙ api.get_values-new k

  abbrev pub ReadsBack : Status → Result Status (Unit {0}) → Type 0
  ReadsBack s (ok _) = s.code ≡ Code.ok
  ReadsBack s (err r) =
      (s.code ≢ Code.ok)
      × (r.code ≡ s.code)
      × (r.message ≡ s.message)
      × ((k : Bytes) → values_of k r.metadata.entries ≡ values_of k s.metadata.entries)

  -- The trailers of a status whose message is UTF-8 and whose metadata is well-formed are read back
  -- as success exactly if its code is `Ok`, and otherwise as an error with its code, its message and,
  -- under every key, the same metadata values in the same order.
  pub from_trailers-into_trailers :
      (s : Status)
      → IsWellFormed s.metadata
      → IsBytes s.message
      → is_utf8 s.message ≡ true
      → ReadsBack s (from_trailers (into_trailers s))
  unfolding from_trailers into_trailers
  from_trailers-into_trailers s good bytes text =
      rw
        (
          trailer_code-write_into s api.new good,
          trailer_message-write_into s api.new good bytes text (api.get_str-new _),
        )
        (elim (is_ok_code-cases s.code) [
          | inl yes_ok ↦ rw yes_ok.0 yes_ok.1
          | inr no_ok ↦ rw no_ok.0 (no_ok.1, refl, refl, λ k. trailer_metadata-write_into s k good)
        ])
