-- ===== src/Client/Request.antt =====
-- The request of src/client/conn.rs as src/server/dispatch.rs reads it.
use trillium_grpc.Prelude.{
  ℕ, ◌-◌, ◌≡◌, refl, ◌∙◌, sym, true, false, [], ◌∷◌, List, Option, none, some, Bytes, codes,
  unwrap_or, subst, inl, inr, arith, beq→eq, All,
}
use trillium_grpc.Text.Ascii.{eq_ignore_ascii_case}
use trillium_grpc.Text.Utf8.{is_utf8}
use trillium_grpc.Deps.{HeadersApi, Base64, Features}
use trillium_grpc.Metadata.{Metadata, Entry, write_entries, wire_value, write_into}
use trillium_grpc.Metadata.Key.{is_valid_key, is_reserved, eq_ignore-valid_key}
use trillium_grpc.Metadata.Invariant.{IsWellFormed, IsGood}
use trillium_grpc.Status.Trailers.{get_str-write_entries}
use trillium_grpc.Timeout.Accepts.{format-is_utf8}
use trillium_grpc.Timeout.RoundTrip.{of_nanos}
use trillium_grpc.Server.Negotiate.{Declares}
use trillium_grpc.Timeout.{format_grpc_timeout}
use trillium_grpc.Encoding.{Encoding, identity, as_grpc_encoding, accepted_encodings}
use trillium_grpc.Encoding.Tokens.{token-is_utf8, accepted-is_utf8}
use trillium_grpc.Client.Network.{Network}
use trillium_grpc.Client.State.{Pending, GrpcClientConn}
use trillium_grpc.Client.Opening.{base_headers, encoding_header, timeout_header, request_headers_of}

module _ ⦃api : HeadersApi⦄ ⦃build : Features⦄ where
  base-type :
      (ct : Bytes) (h : api.Headers)
      → is_utf8 ct ≡ true
      → api.get_str (base_headers ct h) (codes "content-type") ≡ some ct
  unfolding base_headers eq_ignore_ascii_case
  base-type ct h text =
      api.get_str-insert_ne _ (codes "grpc-accept-encoding") (codes "content-type")
        accepted_encodings refl
      ∙ api.get_str-insert_ne _ (codes "te") (codes "content-type") (codes "trailers") refl
      ∙ api.get_str-insert_self h (codes "content-type") ct text

  base-accept :
      (ct : Bytes) (h : api.Headers)
      → api.get_str (base_headers ct h) (codes "grpc-accept-encoding") ≡ some accepted_encodings
  unfolding base_headers
  base-accept ct h =
      api.get_str-insert_self _ (codes "grpc-accept-encoding") accepted_encodings accepted-is_utf8

  base-encoding :
      (ct : Bytes) (h : api.Headers)
      → api.get_str (base_headers ct h) (codes "grpc-encoding")
        ≡ api.get_str h (codes "grpc-encoding")
  unfolding base_headers eq_ignore_ascii_case
  base-encoding ct h =
      api.get_str-insert_ne _ (codes "grpc-accept-encoding") (codes "grpc-encoding")
        accepted_encodings refl
      ∙ api.get_str-insert_ne _ (codes "te") (codes "grpc-encoding") (codes "trailers") refl
      ∙ api.get_str-insert_ne h (codes "content-type") (codes "grpc-encoding") ct refl

module _ ⦃api : HeadersApi⦄ where
  encoding-get :
      (e : Encoding) (h : api.Headers) (k : Bytes)
      → eq_ignore_ascii_case (codes "grpc-encoding") k ≡ false
      → api.get_str (encoding_header e h) k ≡ api.get_str h k
  unfolding encoding_header
  encoding-get identity h k ne = refl
  encoding-get e h k ne = api.get_str-insert_ne h (codes "grpc-encoding") k (as_grpc_encoding e) ne

  encoding-encoding :
      ⦃build : Features⦄ (e : Encoding) (h : api.Headers)
      → Declares (api.get_str h (codes "grpc-encoding")) e
      → Declares (api.get_str (encoding_header e h) (codes "grpc-encoding")) e
  unfolding encoding_header
  encoding-encoding identity h d = d
  encoding-encoding e h (inl (missing, same)) = absurd (ground (arith, same))
  encoding-encoding e h (inr (found, built)) = inr (
    api.get_str-insert_self h (codes "grpc-encoding") (as_grpc_encoding e) (token-is_utf8 e),
    built,
  )

  timeout-get :
      (now : ℕ) (deadline : Option ℕ) (h : api.Headers) (k : Bytes)
      → eq_ignore_ascii_case (codes "grpc-timeout") k ≡ false
      → api.get_str (timeout_header now deadline h) k ≡ api.get_str h k
  unfolding timeout_header
  timeout-get now none h k ne = refl
  timeout-get now (some d) h k ne = api.get_str-insert_ne h (codes "grpc-timeout") k _ ne

  timeout-timeout :
      (now d : ℕ) (h : api.Headers)
      → api.get_str (timeout_header now (some d) h) (codes "grpc-timeout")
        ≡ some (format_grpc_timeout (of_nanos (d - now)))
  unfolding timeout_header
  timeout-timeout now d h = api.get_str-insert_self h (codes "grpc-timeout") _ (format-is_utf8 _)

  written-get :
      ⦃b64 : Base64⦄ (m : Metadata) (h : api.Headers) (k : Bytes)
      → IsWellFormed m
      → is_valid_key k ≡ true
      → is_reserved k ≡ true
      → api.get_str (write_into m h) k ≡ api.get_str h k
  unfolding write_into
  written-get m h k good valid reserved = get_str-write_entries m.entries h k good valid reserved

module _ ⦃api : HeadersApi⦄ where
  base-te :
      ⦃build : Features⦄ (ct : Bytes) (h : api.Headers)
      → unwrap_or (api.get_values (base_headers ct h) (codes "te")) [] ≡ codes "trailers" ∷ []
  unfolding base_headers eq_ignore_ascii_case
  base-te ct h =
      api.get_values-insert _ (codes "grpc-accept-encoding") (codes "te") accepted_encodings
      ∙ api.get_values-insert _ (codes "te") (codes "te") (codes "trailers")

  encoding-te :
      (e : Encoding) (h : api.Headers)
      → unwrap_or (api.get_values (encoding_header e h) (codes "te")) []
        ≡ unwrap_or (api.get_values h (codes "te")) []
  unfolding encoding_header eq_ignore_ascii_case
  encoding-te identity h = refl
  encoding-te e h =
      api.get_values-insert h (codes "grpc-encoding") (codes "te") (as_grpc_encoding e)

  timeout-te :
      (now : ℕ) (deadline : Option ℕ) (h : api.Headers)
      → unwrap_or (api.get_values (timeout_header now deadline h) (codes "te")) []
        ≡ unwrap_or (api.get_values h (codes "te")) []
  unfolding timeout_header eq_ignore_ascii_case
  timeout-te now none h = refl
  timeout-te now (some d) h = api.get_values-insert h (codes "grpc-timeout") (codes "te") _

  values-write_entries :
      ⦃b64 : Base64⦄ (es : List Entry) (h : api.Headers) (k : Bytes)
      → All IsGood es
      → is_valid_key k ≡ true
      → is_reserved k ≡ true
      → unwrap_or (api.get_values (write_entries es h) k) [] ≡ unwrap_or (api.get_values h k) []
  unfolding write_entries
  values-write_entries [] h k good valid free = refl
  values-write_entries ((j, v) ∷ es) h k good valid free = ground (
    arith,
    values-write_entries es (api.append h j (wire_value v)) k good.1 valid free,
    api.get_values-append h j k (wire_value v),
    eq_ignore-valid_key j k good.0.0.is_valid valid,
    beq→eq j k,
    good.0.0.is_free,
  )

module _ ⦃api : HeadersApi⦄ ⦃net : Network api.Headers⦄ ⦃b64 : Base64⦄ ⦃build : Features⦄
    {Req Resp : Type 0} (now : ℕ) (c : GrpcClientConn Req Resp) (p : Pending) (h : api.Headers)
    (good : IsWellFormed p.request_metadata) where
  pub request-type :
      is_utf8 p.content_type ≡ true
      → api.get_str (request_headers_of now c p h) (codes "content-type") ≡ some p.content_type
  unfolding request_headers_of is_valid_key is_reserved eq_ignore_ascii_case
  request-type text =
      written-get p.request_metadata _ _ good refl refl
      ∙ timeout-get now c.deadline _ _ refl
      ∙ encoding-get c.outbound_encoding _ _ refl
      ∙ base-type p.content_type h text

  request-accept :
      api.get_str (request_headers_of now c p h) (codes "grpc-accept-encoding")
      ≡ some accepted_encodings
  unfolding request_headers_of is_valid_key is_reserved eq_ignore_ascii_case
  request-accept =
      written-get p.request_metadata _ _ good refl refl
      ∙ timeout-get now c.deadline _ _ refl
      ∙ encoding-get c.outbound_encoding _ _ refl
      ∙ base-accept p.content_type h

  pub request-encoding :
      Declares (api.get_str h (codes "grpc-encoding")) c.outbound_encoding
      → Declares
          (api.get_str (request_headers_of now c p h) (codes "grpc-encoding"))
          c.outbound_encoding
  unfolding request_headers_of is_valid_key is_reserved eq_ignore_ascii_case
  request-encoding d =
      subst (λ o. Declares o c.outbound_encoding)
        (sym
          (written-get p.request_metadata _ _ good refl refl ∙ timeout-get now c.deadline _ _ refl))
        (encoding-encoding c.outbound_encoding _
          (subst (λ o. Declares o c.outbound_encoding) (sym (base-encoding p.content_type h)) d))

  pub request-timeout :
      (d : ℕ)
      → c.deadline ≡ some d
      → api.get_str (request_headers_of now c p h) (codes "grpc-timeout")
        ≡ some (format_grpc_timeout (of_nanos (d - now)))
  unfolding request_headers_of is_valid_key is_reserved eq_ignore_ascii_case
  request-timeout d e =
      rw e (written-get p.request_metadata _ _ good refl refl ∙ timeout-timeout now d _)

  pub request-te :
      unwrap_or (api.get_values (request_headers_of now c p h) (codes "te")) []
      ≡ codes "trailers" ∷ []
  unfolding request_headers_of write_into is_valid_key is_reserved
  request-te =
      values-write_entries p.request_metadata.entries _ (codes "te") good refl refl
      ∙ timeout-te now c.deadline _
      ∙ encoding-te c.outbound_encoding _
      ∙ base-te p.content_type h
