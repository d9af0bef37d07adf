-- ===== src/Client/Head/Verdict.antt =====
-- How a call ends, in src/client/conn.rs.
use trillium_grpc.Prelude.{
  Bytes, ℕ, ◌≡◌, refl, ap, ◌∙◌, ◌⊎◌, inl, inr, true, Option, none, some, IsBytes, codes, and_then,
  unwrap_or, Result, ok, is_some, Bool-cases, Option-cases, arith, Result-cases, ◌==◌,
}
use trillium_grpc.Text.Utf8.{is_utf8}
use trillium_grpc.Deps.{HeadersApi, Base64, Features, Debug}
use trillium_grpc.ContentType.{parse_grpc_content_type}
use trillium_grpc.Metadata.Invariant.{IsWellFormed}
use trillium_grpc.Status.{Status, from_trailers, into_trailers, trailer_code}
use trillium_grpc.Status.Codes.{Code, from_u8}
use trillium_grpc.Text.Decimal.{parse_uint}
use trillium_grpc.Status.Trailers.{
  ReadsBack, from_trailers-into_trailers, get_str-into_trailers, is_ok_code-cases,
}
use trillium_grpc.Client.Head.{
  Head, finish_from_trailers, process_head, check_http, check_content_type, encoding_of,
  head_status_of,
}

from_u8-ok : (n : ℕ) → from_u8 n ≡ some Code.ok → n ≡ 0
unfolding from_u8
from_u8-ok n e = ground (arith, e)

module _ ⦃api : HeadersApi⦄ ⦃b64 : Base64⦄ where
  -- Headers that say success: their `grpc-status` is text that reads as the number 0 of a byte.
  abbrev pub SaysOk : api.Headers → Type 0
  SaysOk h =
      (v : Bytes) × (api.get_str h (codes "grpc-status") ≡ some v) × (parse_uint 255 v ≡ some 0)

  trailer_code-SaysOk : (h : api.Headers) → trailer_code h ≡ Code.ok → SaysOk h
  unfolding trailer_code
  trailer_code-SaysOk h e = elim (Option-cases (api.get_str h (codes "grpc-status"))) [
    | inl missing ↦ absurd (ground (arith, missing, e))
    | inr (v, found) ↦ elim (Option-cases (parse_uint 255 v)) [
      | inl foreign ↦ absurd (ground (arith, found, foreign, e))
      | inr (n, number) ↦ elim (Option-cases (from_u8 n)) [
        | inl unlisted ↦ absurd (ground (arith, found, number, unlisted, e))
        | inr (c, listed) ↦
            let zero_code : n ≡ 0 =
              from_u8-ok n (listed ∙ ap some (ground (arith, found, number, listed, e))) in
            (v, found, number ∙ ap some zero_code)
      ]
    ]
  ]

  from_trailers-SaysOk : (h : api.Headers) → from_trailers h ≡ ok tt → SaysOk h
  unfolding from_trailers
  from_trailers-SaysOk h e = elim (is_ok_code-cases (trailer_code h)) [
    | inl success ↦ trailer_code-SaysOk h success.1
    | inr failure ↦ absurd (ground (arith, e, failure.0))
  ]

  -- The status that the head carries says success only if its headers do.
  head_status_of-SaysOk : (h : api.Headers) → head_status_of h ≡ some (ok tt) → SaysOk h
  unfolding head_status_of
  head_status_of-SaysOk h e = elim (Option-cases (api.get_str h (codes "grpc-status"))) [
    | inl missing ↦ absurd (ground (arith, missing, e))
    | inr (v, found) ↦ from_trailers-SaysOk h (ground (arith, found, e))
  ]

  -- A call is reported as a success only if the `grpc-status` of the trailers behind its body reads as
  -- the number 0, or if they have no `grpc-status` and that of the head, whose status is kept with it,
  -- reads as 0. So a response without any status, or with one that is no number, is never a success.
  pub finish_ok :
      (headers : api.Headers) (received : Option api.Headers)
      → (finish_from_trailers headers (head_status_of headers) received).0 ≡ ok tt
      → SaysOk (unwrap_or received api.new)
        ⊎ ((api.get_str (unwrap_or received api.new) (codes "grpc-status") ≡ none) × SaysOk headers)
  unfolding finish_from_trailers
  finish_ok headers received e =
      elim (Option-cases (api.get_str (unwrap_or received api.new) (codes "grpc-status"))) [
        | inr (v, found) ↦ inl (from_trailers-SaysOk _ (ground (arith, e, found)))
        | inl missing ↦ elim (Option-cases (head_status_of headers)) [
          | inr (s, head) ↦ inr (
            missing,
            head_status_of-SaysOk headers (head ∙ ap some (ground (arith, e, missing, head))),
          )
          | inl bare ↦ inl (from_trailers-SaysOk _ (ground (arith, e, missing, bare)))
        ]
      ]

  -- The status that a server writes into the trailers is the one that the call ends with, whatever
  -- status the head carried, for a status with a UTF-8 message and well-formed metadata.
  pub finish-into_trailers :
      (s : Status) (headers : api.Headers) (head_status : Option (Result Status (Unit {0})))
      → IsWellFormed s.metadata
      → IsBytes s.message
      → is_utf8 s.message ≡ true
      → ReadsBack s (finish_from_trailers headers head_status (some (into_trailers s))).0
        × ((finish_from_trailers headers head_status (some (into_trailers s))).1 ≡ into_trailers s)
  unfolding finish_from_trailers
  finish-into_trailers s headers head_status good bytes text =
      rw (get_str-into_trailers s good) (from_trailers-into_trailers s good bytes text, refl)

  -- A head is taken only from a response with HTTP status 200 and a gRPC content-type; then it keeps
  -- the response's headers and their `grpc-status`, if there is one.
  pub process_head-ok :
      ⦃build : Features⦄ ⦃show : Debug⦄ (http : Option ℕ) (headers : api.Headers) (head : Head)
      → process_head http headers ≡ ok head
      → (http ≡ some 200)
        × (is_some (and_then (api.get_str headers (codes "content-type")) parse_grpc_content_type)
            ≡ true)
        × (head.response_headers ≡ headers)
        × (head.head_status ≡ head_status_of headers)
  unfolding process_head check_http check_content_type
  process_head-ok none headers head e = absurd (ground (arith, e))
  process_head-ok (some n) headers head e = elim (Bool-cases (n == 200)) [
    | inr other ↦ absurd (ground (arith, e, other))
    | inl fine ↦
        elim (Bool-cases (
          is_some
            (and_then (api.get_str headers (codes "content-type")) parse_grpc_content_type))) [
              | inr foreign ↦ absurd (ground (arith, e, fine, foreign))
              | inl typed ↦
                  elim (Result-cases (encoding_of (api.get_str headers (codes "grpc-encoding")))) [
                    | inr (s, unknown) ↦ absurd (ground (arith, e, fine, typed, unknown))
                    | inl (enc, known) ↦ (
                      ground (arith, fine),
                      typed,
                      ground (arith, e, fine, typed, known),
                      ground (arith, e, fine, typed, known),
                    )
                  ]
            ]
  ]
