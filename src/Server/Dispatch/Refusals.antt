-- ===== src/Server/Dispatch/Refusals.antt =====
-- Which requests the dispatch of src/server/dispatch.rs refuses before it starts a method.
use trillium_grpc.Prelude.{
  refl, sym, ap, ◌∙◌, [], ◌∷◌, ◌++◌, All, false, ◌≢◌, ℕ, ◌≡◌, Option, some, Bytes, codes, err, ◌⊎◌,
  inl, inr, arith, Option-cases,
}
use trillium_grpc.Deps.{HeadersApi, Base64, Debug, Features}
use trillium_grpc.Status
use trillium_grpc.Status.{Status, write_into}
use trillium_grpc.Status.Codes.{Code, as_u8}
use trillium_grpc.Text.Decimal.{to_decimal}
use trillium_grpc.Metadata.Invariant.{IsWellFormed}
use trillium_grpc.Status.Trailers.{get_str-write_into}
use trillium_grpc.Server.Respond.{Carries, error_response, error_response-Carries}
use trillium_grpc.Encoding.{
  Encoding, identity, gzip, deflate, zstd, from_grpc_encoding, as_grpc_encoding,
}
use trillium_grpc.Encoding.Tokens.{is_built, from_grpc_encoding_iff}
use trillium_grpc.Timeout.{Duration, parse_grpc_timeout}
use trillium_grpc.Timeout.Accepts.{Spells, parse_sound}
use trillium_grpc.Server.Conn.{ConnApi}
use trillium_grpc.Server.Negotiate.{
  Declares, extract_request_encoding_iff, unsupported, extract_request_encoding,
  request_encoding_of,
}
use trillium_grpc.Server.Cancellation.{from_conn, deadline_of}
use trillium_grpc.Server.Dispatch.{admit}

module _ ⦃api : HeadersApi⦄ ⦃conns : ConnApi api.Headers⦄ where
  module _ ⦃build : Features⦄ ⦃show : Debug⦄ where
    -- A header names no codec of the build.
    abbrev pub UnknownEncoding : Option Bytes → Type 0
    UnknownEncoding o =
        (t : Bytes) × (o ≡ some t)
        × All (λ e. (is_built e ≡ false) ⊎ (t ≢ as_grpc_encoding e))
            (identity ∷ gzip ∷ deflate ∷ zstd ∷ [])

    -- A header spells no duration.
    abbrev pub MalformedTimeout : Option Bytes → Type 0
    MalformedTimeout o = (t : Bytes) × (o ≡ some t) × (¬ ((d : Duration) × Spells t d))

    -- What is wrong with a request, and the code that is owed to it.
    abbrev pub Refused : api.Headers → Code → Type 0
    Refused h code =
        (UnknownEncoding (api.get_str h (codes "grpc-encoding")) × (code ≡ Code.unimplemented))
        ⊎ (((e : Encoding) × Declares (api.get_str h (codes "grpc-encoding")) e)
            × MalformedTimeout (api.get_str h (codes "grpc-timeout"))
            × (code ≡ Code.invalid_argument))

    unbuilt :
        (t : Bytes) (e : Encoding)
        → All
            (λ f. (is_built f ≡ false) ⊎ (t ≢ as_grpc_encoding f))
            (identity ∷ gzip ∷ deflate ∷ zstd ∷ [])
        → (is_built e ≡ false) ⊎ (t ≢ as_grpc_encoding e)
    unbuilt t identity h = h.0
    unbuilt t gzip h = h.1.0
    unbuilt t deflate h = h.1.1.0
    unbuilt t zstd h = h.1.1.1.0

    refuse_encoding :
        (o : Option Bytes)
        → UnknownEncoding o
        → (s : Status) × (request_encoding_of o ≡ err s)
          × (s.code ≡ Code.unimplemented)
          × IsWellFormed s.metadata
    unfolding request_encoding_of
    refuse_encoding o (t, found, unknown) = elim (Option-cases (from_grpc_encoding t)) [
      | inl none_such ↦ (unsupported t, rw (found, none_such) refl, refl, tt)
      | inr (e, known) ↦
          let (named, built) = (from_grpc_encoding_iff t e).0 known in
          elim (unbuilt t e unknown) [
            | inl lacking ↦ absurd (ground (arith, lacking, built))
            | inr other ↦ absurd (other named)
          ]
    ]

    refuse_timeout :
        (now : ℕ) (o : Option Bytes)
        → MalformedTimeout o
        → (s : Status) × (deadline_of now o ≡ err s)
          × (s.code ≡ Code.invalid_argument)
          × IsWellFormed s.metadata
    unfolding deadline_of
    refuse_timeout now o (t, found, malformed) = elim (Option-cases (parse_grpc_timeout t)) [
      | inl bad ↦ (
        Status.invalid_argument (codes "malformed grpc-timeout " ++ show.debug_str t),
        rw (found, bad) refl,
        refl,
        tt,
      )
      | inr (d, good) ↦ absurd (malformed (d, parse_sound t d good))
    ]

    pub admit_refuses :
        (now : ℕ) (conn : conns.Conn) (code : Code)
        → Refused (conns.request_headers conn) code
        → (s : Status) × (admit now conn ≡ err s) × (s.code ≡ code) × IsWellFormed s.metadata
    unfolding admit extract_request_encoding from_conn
    admit_refuses now conn code (inl (unknown, owed)) =
        let (s, bad, is_unimplemented, good) = refuse_encoding _ unknown in
        (s, rw bad refl, is_unimplemented ∙ sym owed, good)
    admit_refuses now conn code (inr ((e, known), malformed, owed)) =
        let (s, bad, is_invalid, good) = refuse_timeout now _ malformed in
        (
          s,
          rw ((extract_request_encoding_iff (conns.request_headers conn) e).1 known, bad) refl,
          is_invalid ∙ sym owed,
          good,
        )

  -- A response with no bytes, halted, whose trailers carry the number of a code.
  abbrev pub AnswersWith : ⦃b64 : Base64⦄ → Code → conns.Conn → Type 1
  AnswersWith code answer =
      (trailers : api.Headers) × Carries answer [] trailers
      × (api.get_str trailers (codes "grpc-status") ≡ some (to_decimal (as_u8 code)))

  pub error_response-AnswersWith :
      ⦃b64 : Base64⦄ (conn : conns.Conn) (status : Status) (code : Code)
      → IsWellFormed status.metadata
      → status.code ≡ code
      → AnswersWith code (error_response conn status)
  error_response-AnswersWith conn status code good owed = (
    write_into status api.new,
    error_response-Carries conn status,
    get_str-write_into status api.new good ∙ ap (λ c. some (to_decimal (as_u8 c))) owed,
  )
