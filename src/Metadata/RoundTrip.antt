-- ===== src/Metadata/RoundTrip.antt =====
-- Metadata written into headers and read back: `write_into` and `from_headers` of src/metadata.rs.
use trillium_grpc.Prelude.{
  Bool-cases, inl, inr, if◌then◌else◌, ◌≡◌, ◌<◌, refl, ap, sym, ◌∙◌, ◌||◌, not, Bool, true, false,
  List, [], ◌∷◌, ◌++◌, none, some, Bytes, codes, arith, beq, beq→eq, ends_with, if◌then◌else◌, All,
  Bool-cases, inl, inr, append_assoc, append-nil, unwrap_or, all, in_range,
}
use trillium_grpc.Text.Ascii.{to_ascii_lowercase, eq_ignore_ascii_case}
use trillium_grpc.Text.Utf8.{ascii-is_utf8}
use trillium_grpc.Deps.{HeadersApi, Base64, collect_values}
use trillium_grpc.Metadata.{
  MetadataValue, ascii, binary, Entry, Metadata, read_value, read_values, read_headers,
  from_headers, wire_value, write_entries, write_into,
}
use trillium_grpc.Metadata.Invariant.{is_binary, IsSendable, IsGood, IsWellFormed}
use trillium_grpc.Metadata.Key.{
  is_valid_key, is_valid_ascii_value, is_reserved, lower-valid_key, eq_ignore-valid_key,
}

-- The abstract view: the values under each key, in order. The order across keys is forgotten.
abbrev pub values_of : Bytes → List Entry → List MetadataValue
values_of k [] = []
values_of k ((j, v) ∷ es) = if beq j k then v ∷ values_of k es else values_of k es

values_of-append :
    (k : Bytes) (xs ys : List Entry) → values_of k (xs ++ ys) ≡ values_of k xs ++ values_of k ys
values_of-append k [] ys = refl
values_of-append k ((j, v) ∷ xs) ys = ground (arith, values_of-append k xs ys)

printable-ascii : (s : Bytes) → all (in_range 0x20 0x7E) s ≡ true → All (λ c. c < 0x80) s
printable-ascii [] h = tt
printable-ascii (c ∷ s) h = (ground arith, printable-ascii s (ground arith))

eq_ignore-lower :
    (name k : Bytes)
    → is_valid_key k ≡ true
    → eq_ignore_ascii_case name k ≡ beq (to_ascii_lowercase name) k
unfolding eq_ignore_ascii_case
eq_ignore-lower name k valid = rw (lower-valid_key k valid)

module _ ⦃api : HeadersApi⦄ ⦃b64 : Base64⦄ where
  -- What the values of one name become: those that decode, in order.
  unfoldable pub decode_values : Bool → List Bytes → List MetadataValue
  unfolding read_value
  decode_values bin [] = []
  decode_values bin (v ∷ vs) =
      let rest = decode_values bin vs in
      elim (read_value bin v) [ none ↦ rest | some value ↦ value ∷ rest ]

  decode_values-append :
      (bin : Bool) (xs ys : List Bytes)
      → decode_values bin (xs ++ ys) ≡ decode_values bin xs ++ decode_values bin ys
  unfolding decode_values
  decode_values-append bin [] ys = refl
  decode_values-append bin (x ∷ xs) ys = ground (arith, decode_values-append bin xs ys)

  values_of-read_values :
      (j k : Bytes) (vs : List Bytes)
      → values_of k (read_values j vs)
        ≡ (if beq j k then decode_values (ends_with j (codes "-bin")) vs else [])
  unfolding read_values decode_values
  values_of-read_values j k [] = ground arith
  values_of-read_values j k (v ∷ vs) = ground (arith, values_of-read_values j k vs)

  -- `from_headers` reads, under a key of the user's, what the headers hold under that name.
  values_of-read_headers :
      (k : Bytes) (hs : List (Bytes × List Bytes))
      → is_valid_key k ≡ true
      → is_reserved k ≡ false
      → values_of k (read_headers hs)
        ≡ decode_values (ends_with k (codes "-bin")) (collect_values k hs)
  unfolding read_headers
  values_of-read_headers k [] valid free = unfold decode_values in refl
  values_of-read_headers k ((name, vs) ∷ hs) valid free =
      let key = to_ascii_lowercase name in
      ground (
        arith,
        eq_ignore-lower name k valid,
        beq→eq key k,
        values_of-append k (read_values key vs) (read_headers hs),
        values_of-read_values key k vs,
        decode_values-append (ends_with k (codes "-bin")) vs (collect_values k hs),
        values_of-read_headers k hs valid free,
      )

  -- Nothing is read under a key that is reserved or not valid.
  values_of-read_headers_nil :
      (k : Bytes) (hs : List (Bytes × List Bytes))
      → (is_reserved k || not (is_valid_key k)) ≡ true
      → values_of k (read_headers hs) ≡ []
  unfolding read_headers
  values_of-read_headers_nil k [] bad = refl
  values_of-read_headers_nil k ((name, vs) ∷ hs) bad =
      let key = to_ascii_lowercase name in
      ground (
        arith,
        beq→eq key k,
        values_of-append k (read_values key vs) (read_headers hs),
        values_of-read_values key k vs,
        values_of-read_headers_nil k hs bad,
      )

  wire_values : Bytes → List Entry → List Bytes
  wire_values k [] = []
  wire_values k ((j, v) ∷ es) =
      if beq j k then wire_value v ∷ wire_values k es else wire_values k es

  abbrev pub header_values : api.Headers → Bytes → List Bytes
  header_values h k = unwrap_or (api.get_values h k) []

  header_values-write_entries :
      (k : Bytes) (es : List Entry) (h : api.Headers)
      → is_valid_key k ≡ true
      → All IsGood es
      → header_values (write_entries es h) k ≡ header_values h k ++ wire_values k es
  unfolding write_entries wire_values
  header_values-write_entries k [] h valid good = sym (append-nil _)
  header_values-write_entries k ((j, v) ∷ es) h valid good = ground (
    arith,
    header_values-write_entries k es (api.append h j (wire_value v)) valid good.1,
    api.get_values-append h j k (wire_value v),
    eq_ignore-valid_key j k good.0.0.is_valid valid,
    append_assoc (header_values h k) (wire_value v ∷ []) (wire_values k es),
  )

  read-wire_value :
      (v : MetadataValue) → IsSendable v → read_value (is_binary v) (wire_value v) ≡ some v
  unfolding read_value wire_value is_valid_ascii_value
  read-wire_value (ascii s) h = rw (api.as_str_text s (ascii-is_utf8 s (printable-ascii s h)))
  read-wire_value (binary b) h = rw (b64.decode-encode b h)

  decode-wire_values :
      (k : Bytes) (es : List Entry)
      → All IsGood es
      → decode_values (ends_with k (codes "-bin")) (wire_values k es) ≡ values_of k es
  unfolding decode_values wire_values
  decode-wire_values k [] good = refl
  decode-wire_values k ((j, v) ∷ es) good = ground (
    arith,
    beq→eq j k,
    good.0.0.suffix,
    read-wire_value v good.0.1,
    decode-wire_values k es good.1,
  )

  values_of-bad_key :
      (k : Bytes) (es : List Entry)
      → (is_reserved k || not (is_valid_key k)) ≡ true
      → All IsGood es
      → values_of k es ≡ []
  values_of-bad_key k [] bad good = refl
  values_of-bad_key k ((j, v) ∷ es) bad good =
      ground
        (arith, beq→eq j k, good.0.0.is_valid, good.0.0.is_free, values_of-bad_key k es bad good.1)

  -- From headers that hold no value under a user's key, well-formed metadata is read back from what
  -- was written: under every key the same values in the same order.
  pub values_of-from_headers :
      (m : Metadata) (h : api.Headers) (k : Bytes)
      → IsWellFormed m
      → ((is_reserved k || not (is_valid_key k)) ≡ false → header_values h k ≡ [])
      → values_of k (from_headers (write_into m h)).entries ≡ values_of k m.entries
  unfolding from_headers write_into
  values_of-from_headers m h k good empty =
      elim (Bool-cases (is_reserved k || not (is_valid_key k))) [
        | inl bad ↦
            values_of-read_headers_nil k _ bad ∙ sym (values_of-bad_key k m.entries bad good)
        | inr fine ↦
            values_of-read_headers k _ (ground arith) (ground arith)
            ∙ ap (decode_values (ends_with k (codes "-bin"))) (
                api.get_values-iter _ k
                ∙ header_values-write_entries k m.entries h (ground arith) good
                ∙ ap (λ l. l ++ wire_values k m.entries) (empty fine))
            ∙ decode-wire_values k m.entries good
      ]

  -- Whatever headers a peer sends, `from_headers` yields no reserved and no invalid key, and under
  -- any other key exactly the values of that header name that decode, in their order.
  pub from_headers_exact :
      (h : api.Headers) (k : Bytes)
      → values_of k (from_headers h).entries ≡ (
          if is_reserved k || not (is_valid_key k)
          then []
          else decode_values (ends_with k (codes "-bin")) (header_values h k))
  unfolding from_headers
  from_headers_exact h k = elim (Bool-cases (is_reserved k || not (is_valid_key k))) [
    | inl refused ↦ rw refused (values_of-read_headers_nil k _ refused)
    | inr fine ↦ rw fine (
        values_of-read_headers k _ (ground arith) (ground arith)
        ∙ ap (decode_values (ends_with k (codes "-bin"))) (api.get_values-iter h k))
  ]
