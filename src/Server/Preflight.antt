-- ===== src/Server/Preflight.antt =====
-- `prepare_grpc_conn` of src/server/dispatch.rs: what a request must have before a method sees it.
pub mod Accepts
use trillium_grpc.Prelude.{
  Option-cases, arith, beq→eq, beq_refl, ◌≡◌, refl, ap, ◌∙◌, Bool, true, false, ◌++◌, Option, none,
  some, Bytes, codes, beq, if◌then◌else◌, Result, ok, err, and_then, inl, inr, Bool-cases,
}
use trillium_grpc.Text.Ascii.{eq_ignore_ascii_case}
use trillium_grpc.Text.Utf8.{is_utf8}
use trillium_grpc.Deps.{HeadersApi, Features}
use trillium_grpc.ContentType.{parse_grpc_content_type, has_te_trailers}
use trillium_grpc.ContentType.Exact.{Names, parse_grpc_content_type_iff}
use trillium_grpc.ContentType.Trailers.{AsksTrailers, has_te_trailers_iff}
use trillium_grpc.Encoding.{Encoding, identity, is_identity, as_grpc_encoding, accepted_encodings}
use trillium_grpc.Encoding.Tokens.{token-is_utf8}
use trillium_grpc.Server.Conn.{ConnApi}
use trillium_grpc.Server.Negotiate.{negotiate_response_encoding}

-- The content-type names a gRPC codec, and it is the one that is served.
unfoldable pub is_served : Option Bytes → Bytes → Bool
is_served none codec_suffix = false
is_served (some suffix) codec_suffix = beq suffix codec_suffix

module _ ⦃api : HeadersApi⦄ ⦃conns : ConnApi api.Headers⦄ where
  abbrev pub with_response_header : conns.Conn → Bytes → Bytes → conns.Conn
  with_response_header conn name value =
      conns.set_response_headers conn (api.insert (conns.response_headers conn) name value)

  unfoldable pub codec_matches : conns.Conn → Bytes → Bool
  unfolding is_served
  codec_matches conn codec_suffix =
      is_served
        (and_then (api.get_str (conns.request_headers conn) (codes "content-type"))
          parse_grpc_content_type)
        codec_suffix

  -- The request's content-type is text that names the codec with this suffix.
  abbrev pub Serves : api.Headers → Bytes → Type 0
  Serves h suffix = (v : Bytes) × (api.get_str h (codes "content-type") ≡ some v) × Names v suffix

  codec_matches-Serves :
      (conn : conns.Conn) (suffix : Bytes)
      → codec_matches conn suffix ≡ true
      → Serves (conns.request_headers conn) suffix
  unfolding codec_matches is_served
  codec_matches-Serves conn suffix h =
      elim (Option-cases (api.get_str (conns.request_headers conn) (codes "content-type"))) [
        | inl missing ↦ absurd (ground (arith, missing, h))
        | inr (v, found) ↦ elim (Option-cases (parse_grpc_content_type v)) [
          | inl foreign ↦ absurd (ground (arith, found, foreign, h))
          | inr (s, parsed) ↦
              let same : s ≡ suffix = beq→eq s suffix (ground (arith, found, parsed, h)) in
              (v, found, (parse_grpc_content_type_iff v suffix).0 (parsed ∙ ap some same))
        ]
      ]

  Serves-codec_matches :
      (conn : conns.Conn) (suffix : Bytes)
      → Serves (conns.request_headers conn) suffix
      → codec_matches conn suffix ≡ true
  unfolding codec_matches is_served
  Serves-codec_matches conn suffix (v, found, names) =
      rw (found, (parse_grpc_content_type_iff v suffix).1 names) (beq_refl suffix)

  unserved :
      (conn : conns.Conn) (suffix : Bytes)
      → codec_matches conn suffix ≡ false
      → ¬ Serves (conns.request_headers conn) suffix
  unserved conn suffix h serves = ground (arith, h, Serves-codec_matches conn suffix serves)

  unasked : (h : api.Headers) → has_te_trailers h ≡ false → ¬ AsksTrailers h
  unasked h e asks = ground (arith, e, (has_te_trailers_iff h).1 asks)

  module _ ⦃build : Features⦄ where
    -- The headers and the status of an accepted request's response.
    unfoldable pub accept_conn : conns.Conn → Bytes → conns.Conn
    accept_conn conn codec_suffix =
        let typed =
          with_response_header conn (codes "content-type")
            (codes "application/grpc+" ++ codec_suffix) in
        let listed = with_response_header typed (codes "grpc-accept-encoding") accepted_encodings in
        conns.with_status listed 200

    unfoldable pub with_encoding : conns.Conn → Encoding → conns.Conn
    with_encoding conn response_encoding =
        if is_identity response_encoding
        then conn
        else with_response_header conn (codes "grpc-encoding") (as_grpc_encoding response_encoding)

    unfoldable pub prepare_grpc_conn : conns.Conn → Bytes → Result conns.Conn conns.Conn
    unfolding codec_matches accept_conn with_encoding
    prepare_grpc_conn conn codec_suffix =
        if codec_matches conn codec_suffix
        then if has_te_trailers (conns.request_headers conn)
          then ok (
              with_encoding (accept_conn conn codec_suffix)
                (negotiate_response_encoding (conns.request_headers conn)))
          else err (conns.halt (conns.with_status conn 400))
        else err (conns.halt (conns.with_status conn 415))

    -- How the preflight of a request ends.
    pub data Outcome (conn : conns.Conn) (suffix : Bytes)
        : Result conns.Conn conns.Conn → Type 1 where
      wrong_type :
          (c : conns.Conn)
          → ¬ Serves (conns.request_headers conn) suffix
          → conns.status c ≡ some 415
          → conns.is_halted c ≡ true
          → Outcome conn suffix (err c)
      no_trailers :
          (c : conns.Conn)
          → Serves (conns.request_headers conn) suffix
          → ¬ AsksTrailers (conns.request_headers conn)
          → conns.status c ≡ some 400
          → conns.is_halted c ≡ true
          → Outcome conn suffix (err c)
      accepted :
          (c : conns.Conn)
          → Serves (conns.request_headers conn) suffix
          → AsksTrailers (conns.request_headers conn)
          → conns.status c ≡ some 200
          → api.get_str (conns.response_headers c) (codes "content-type")
            ≡ some (codes "application/grpc+" ++ suffix)
          → api.get_str (conns.response_headers c) (codes "grpc-encoding") ≡ (
              if is_identity (negotiate_response_encoding (conns.request_headers conn))
              then api.get_str (conns.response_headers conn) (codes "grpc-encoding")
              else some
                  (as_grpc_encoding (negotiate_response_encoding (conns.request_headers conn))))
          → Outcome conn suffix (ok c)

    accept-type :
        (conn : conns.Conn) (suffix : Bytes)
        → is_utf8 (codes "application/grpc+" ++ suffix) ≡ true
        → api.get_str (conns.response_headers (accept_conn conn suffix)) (codes "content-type")
          ≡ some (codes "application/grpc+" ++ suffix)
    unfolding accept_conn eq_ignore_ascii_case
    accept-type conn suffix text =
        rw
          (
            conns.response-status _ 200,
            conns.response-set _ _,
            api.get_str-insert_ne _ (codes "grpc-accept-encoding") (codes "content-type")
                accepted_encodings refl,
            conns.response-set _ _,
            api.get_str-insert_self (conns.response_headers conn) (codes "content-type")
                (codes "application/grpc+" ++ suffix) text,
          )
          refl

    accept-encoding :
        (conn : conns.Conn) (suffix : Bytes)
        → api.get_str (conns.response_headers (accept_conn conn suffix)) (codes "grpc-encoding")
          ≡ api.get_str (conns.response_headers conn) (codes "grpc-encoding")
    unfolding accept_conn eq_ignore_ascii_case
    accept-encoding conn suffix =
        rw
          (
            conns.response-status _ 200,
            conns.response-set _ _,
            api.get_str-insert_ne _ (codes "grpc-accept-encoding") (codes "grpc-encoding")
                accepted_encodings refl,
            conns.response-set _ _,
            api.get_str-insert_ne (conns.response_headers conn) (codes "content-type")
                (codes "grpc-encoding") (codes "application/grpc+" ++ suffix) refl,
          )
          refl

    accept-status :
        (conn : conns.Conn) (suffix : Bytes) → conns.status (accept_conn conn suffix) ≡ some 200
    unfolding accept_conn
    accept-status conn suffix = conns.status-status _ 200

    encoding-status :
        (c : conns.Conn) (e : Encoding) → conns.status (with_encoding c e) ≡ conns.status c
    unfolding with_encoding
    encoding-status c identity = refl
    encoding-status c _ = conns.status-set _ _

    encoding-type :
        (c : conns.Conn) (e : Encoding)
        → api.get_str (conns.response_headers (with_encoding c e)) (codes "content-type")
          ≡ api.get_str (conns.response_headers c) (codes "content-type")
    unfolding with_encoding eq_ignore_ascii_case
    encoding-type c identity = refl
    encoding-type c e =
        rw (conns.response-set _ _) (api.get_str-insert_ne _ _ _ (as_grpc_encoding e) refl)

    encoding-encoding :
        (c : conns.Conn) (e : Encoding)
        → api.get_str (conns.response_headers (with_encoding c e)) (codes "grpc-encoding") ≡ (
            if is_identity e
            then api.get_str (conns.response_headers c) (codes "grpc-encoding")
            else some (as_grpc_encoding e))
    unfolding with_encoding
    encoding-encoding c identity = refl
    encoding-encoding c e =
        rw (conns.response-set _ _)
          (api.get_str-insert_self _ _ (as_grpc_encoding e) (token-is_utf8 e))

    -- The preflight turns a request away with 415 if it has no content-type whose part before the
    -- first `;` is `application/grpc` in any case with the suffix that is served, alone for the suffix
    -- `proto`, and with 400 if it has one and no `te` value lists `trailers`, halted both times. Any
    -- other request is accepted with 200, the content-type of the suffix, and the negotiated encoding
    -- as `grpc-encoding`; with the identity that header is left alone. The suffix is text.
    pub prepare-Outcome :
        (conn : conns.Conn) (suffix : Bytes)
        → is_utf8 (codes "application/grpc+" ++ suffix) ≡ true
        → Outcome conn suffix (prepare_grpc_conn conn suffix)
    unfolding prepare_grpc_conn
    prepare-Outcome conn suffix text = elim (Bool-cases (codec_matches conn suffix)) [
      | inr other ↦ rw other (
          wrong_type _ (unserved conn suffix other)
            (conns.status-halt _ ∙ conns.status-status _ 415) (conns.halted-halt _))
      | inl served ↦ elim (Bool-cases (has_te_trailers (conns.request_headers conn))) [
        | inr bare ↦
            rw (served, bare)
              (no_trailers _ (codec_matches-Serves conn suffix served) (unasked _ bare)
                (conns.status-halt _ ∙ conns.status-status _ 400) (conns.halted-halt _))
        | inl te ↦
            rw (served, te)
              (accepted _ (codec_matches-Serves conn suffix served) ((has_te_trailers_iff _).0 te)
                (encoding-status _ _ ∙ accept-status conn suffix)
                (encoding-type _ _ ∙ accept-type conn suffix text)
                (encoding-encoding _ _
                  ∙ ap
                      (λ o.
                        if is_identity (negotiate_response_encoding (conns.request_headers conn))
                        then o
                        else some (
                            as_grpc_encoding
                              (negotiate_response_encoding (conns.request_headers conn))))
                      (accept-encoding conn suffix)))
      ]
    ]
