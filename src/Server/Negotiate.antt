-- ===== src/Server/Negotiate.antt =====
-- The request and the response encoding of src/server/dispatch.rs.
use trillium_grpc.Prelude.{
  Bool, Bool-cases, subst, sym, ◌∙◌, ◌≡◌, refl, true, false, not, ◌&&◌, [], ◌∷◌, ◌++◌, List, map,
  Option, none, some, Bytes, codes, if◌then◌else◌, Result, ok, ok_or, contains, unwrap_or, arith,
  ap, ◌↔◌, ◌⊎◌, inl, inr, Option-cases,
}
use trillium_grpc.Text.Ascii.{trim, split}
use trillium_grpc.Deps.{HeadersApi, Features, Debug}
use trillium_grpc.Status
use trillium_grpc.Status.{Status}
use trillium_grpc.Encoding.{
  Encoding, identity, gzip, deflate, zstd, is_identity, all_encodings, from_grpc_encoding,
  as_grpc_encoding, accepted_encodings,
}
use trillium_grpc.Encoding.Tokens.{is_built, from_grpc_encoding_iff}

abbrev pub unsupported : ⦃build : Features⦄ ⦃show : Debug⦄ → Bytes → Status
unsupported ⦃show⦄ s = Status.unimplemented (
    codes "unsupported grpc-encoding "
    ++ show.debug_str s
    ++ codes "; accepted: "
    ++ accepted_encodings)

-- `.find(|e| accepted.contains(&e.as_grpc_encoding()))` on what `.filter` leaves of the codecs.
unfoldable pub find_accepted : List Bytes → List Encoding → Option Encoding
find_accepted accepted [] = none
find_accepted accepted (e ∷ es) =
    let rest = find_accepted accepted es in
    if not (is_identity e) && contains accepted (as_grpc_encoding e) then some e else rest

module _ ⦃build : Features⦄ where
  unfoldable pub request_encoding_of : ⦃show : Debug⦄ → Option Bytes → Result Status Encoding
  request_encoding_of none = ok identity
  request_encoding_of (some s) = ok_or (from_grpc_encoding s) (unsupported s)

  response_encoding_of : Option Bytes → Encoding
  unfolding find_accepted
  response_encoding_of none = identity
  response_encoding_of (some s) =
      unwrap_or (find_accepted (map trim (split b',' s)) all_encodings) identity

  module _ ⦃api : HeadersApi⦄ where
    unfoldable pub extract_request_encoding : ⦃show : Debug⦄ → api.Headers → Result Status Encoding
    unfolding request_encoding_of
    extract_request_encoding h = request_encoding_of (api.get_str h (codes "grpc-encoding"))

    unfoldable pub negotiate_response_encoding : api.Headers → Encoding
    unfolding response_encoding_of
    negotiate_response_encoding h =
        response_encoding_of (api.get_str h (codes "grpc-accept-encoding"))

  -- That a client's header offers a codec, and that the build has it.
  abbrev pub Offers : Option Bytes → Encoding → Type 0
  Offers o e =
      (s : Bytes) × (o ≡ some s)
      × (contains (map trim (split b',' s)) (as_grpc_encoding e) ≡ true)
      × (is_built e ≡ true)
      × (is_identity e ≡ false)

  -- The codec for a client's header: the first one, in the order gzip, deflate, zstd, of those that the
  -- header offers, and the identity if it offers none of them.
  abbrev pub Chosen : Option Bytes → Encoding → Type 0
  Chosen o gzip = Offers o gzip
  Chosen o deflate = Offers o deflate × (¬ Offers o gzip)
  Chosen o zstd = Offers o zstd × (¬ Offers o deflate) × (¬ Offers o gzip)
  Chosen o identity = (¬ Offers o zstd) × (¬ Offers o deflate) × (¬ Offers o gzip)

  -- Whether a client's header offers a codec.
  abbrev offered : Option Bytes → Encoding → Bool
  offered none e = false
  offered (some s) e = contains (map trim (split b',' s)) (as_grpc_encoding e) && is_built e

  abbrev pick : Bool → Bool → Bool → Encoding
  pick a b c = if a then gzip else if b then deflate else if c then zstd else identity

  found-pick :
      (l : List Bytes)
      → unwrap_or (find_accepted l all_encodings) identity
        ≡ pick
            (contains l (as_grpc_encoding gzip) && is_built gzip)
            (contains l (as_grpc_encoding deflate) && is_built deflate)
            (contains l (as_grpc_encoding zstd) && is_built zstd)
  unfolding find_accepted all_encodings
  found-pick l = ground arith

  response-pick :
      (o : Option Bytes)
      → response_encoding_of o ≡ pick (offered o gzip) (offered o deflate) (offered o zstd)
  unfolding response_encoding_of
  response-pick none = refl
  response-pick (some s) = found-pick (map trim (split b',' s))

  offered-Offers :
      (o : Option Bytes) (e : Encoding) → is_identity e ≡ false → offered o e ≡ true → Offers o e
  offered-Offers none e real h = absurd (ground (arith, h))
  offered-Offers (some s) e real h = (s, refl, ground (arith, h), ground (arith, h), real)

  Offers-offered : (o : Option Bytes) (e : Encoding) → Offers o e → offered o e ≡ true
  Offers-offered o e (s, found, named, built, real) =
      ap (λ p. offered p e) found ∙ ground (arith, named, built)

  unoffered : (o : Option Bytes) (e : Encoding) → offered o e ≡ false → ¬ Offers o e
  unoffered o e h offers = ground (arith, h, Offers-offered o e offers)

  not_offered :
      (o : Option Bytes) (e : Encoding) → is_identity e ≡ false → ¬ Offers o e → offered o e ≡ false
  not_offered o e real denied = elim (Bool-cases (offered o e)) [
    | inl h ↦ absurd (denied (offered-Offers o e real h))
    | inr h ↦ h
  ]

  Chosen-pick :
      (o : Option Bytes) → Chosen o (pick (offered o gzip) (offered o deflate) (offered o zstd))
  Chosen-pick o = elim (Bool-cases (offered o gzip)) [
    | inl g ↦ rw g (offered-Offers o gzip refl g)
    | inr g ↦ elim (Bool-cases (offered o deflate)) [
      | inl d ↦ rw (g, d) (offered-Offers o deflate refl d, unoffered o gzip g)
      | inr d ↦ elim (Bool-cases (offered o zstd)) [
        | inl z ↦
            rw (g, d, z) (offered-Offers o zstd refl z, unoffered o deflate d, unoffered o gzip g)
        | inr z ↦ rw (g, d, z) (unoffered o zstd z, unoffered o deflate d, unoffered o gzip g)
      ]
    ]
  ]

  pick-Chosen :
      (o : Option Bytes) (e : Encoding)
      → Chosen o e
      → pick (offered o gzip) (offered o deflate) (offered o zstd) ≡ e
  pick-Chosen o gzip g = rw (Offers-offered o gzip g) refl
  pick-Chosen o deflate (d, g) = rw (not_offered o gzip refl g, Offers-offered o deflate d) refl
  pick-Chosen o zstd (z, d, g) =
      rw (not_offered o gzip refl g, not_offered o deflate refl d, Offers-offered o zstd z) refl
  pick-Chosen o identity (z, d, g) =
      rw (not_offered o gzip refl g, not_offered o deflate refl d, not_offered o zstd refl z) refl

  best_of : (o : Option Bytes) (e : Encoding) → (response_encoding_of o ≡ e) ↔ Chosen o e
  best_of o e = (
    λ same. subst (Chosen o) (sym (response-pick o) ∙ same) (Chosen-pick o),
    λ best. response-pick o ∙ pick-Chosen o e best,
  )

  -- What `grpc-encoding` may say for a codec.
  abbrev pub Declares : Option Bytes → Encoding → Type 0
  Declares o e =
      ((o ≡ none) × (e ≡ identity)) ⊎ ((o ≡ some (as_grpc_encoding e)) × (is_built e ≡ true))

  request_of :
      ⦃show : Debug⦄ (o : Option Bytes) (e : Encoding) → request_encoding_of o ≡ ok e → Declares o e
  unfolding request_encoding_of
  request_of none e h = inl (refl, ground (arith, h))
  request_of (some s) e h = elim (Option-cases (from_grpc_encoding s)) [
    | inl unknown ↦ absurd (ground (arith, unknown, h))
    | inr (f, known) ↦
        let same : from_grpc_encoding s ≡ some e = ground (arith, known, h) in
        let (token, built) = (from_grpc_encoding_iff s e).0 same in inr (ap some token, built)
  ]

  request_from :
      ⦃show : Debug⦄ (o : Option Bytes) (e : Encoding) → Declares o e → request_encoding_of o ≡ ok e
  unfolding request_encoding_of
  request_from o e (inl (missing, same)) = rw (missing, same) refl
  request_from o e (inr (found, built)) =
      rw (found, (from_grpc_encoding_iff (as_grpc_encoding e) e).1 (refl, built)) refl

  module _ ⦃api : HeadersApi⦄ where
    -- The negotiated encoding of a response is the first, in the order gzip, deflate, zstd, of the
    -- codecs that the client's `grpc-accept-encoding` names and that the build has, whatever the
    -- client's order, and the identity if there is none; nothing else is.
    pub negotiate_best :
        (h : api.Headers) (e : Encoding)
        → (negotiate_response_encoding h ≡ e)
          ↔ Chosen (api.get_str h (codes "grpc-accept-encoding")) e
    unfolding negotiate_response_encoding
    negotiate_best h e = best_of _ e

    -- A request's messages are read with the codec that `grpc-encoding` names, if the build has it,
    -- and uncompressed where the header is missing; nothing else is accepted.
    pub extract_request_encoding_iff :
        ⦃show : Debug⦄ (h : api.Headers) (e : Encoding)
        → (extract_request_encoding h ≡ ok e) ↔ Declares (api.get_str h (codes "grpc-encoding")) e
    unfolding extract_request_encoding
    extract_request_encoding_iff h e = (request_of _ e, request_from _ e)
