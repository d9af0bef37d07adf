-- ===== src/Examples/Setup.antt =====
-- Headers as an association list, crates that store bytes as they are, and a plain connection: what
-- the interfaces of the model ask for can be had.
use trillium_grpc.Prelude.{
  ◌≡◌, refl, sym, ap, ◌∙◌, beq, ◌++◌, Bool, true, false, List, [], ◌∷◌, Option, none, some, Bytes,
  unwrap_or, ℕ, if◌then◌else◌, ok, map, beq→eq, beq_refl, arith,
}
use trillium_grpc.Text.Ascii.{eq_ignore_ascii_case, to_ascii_lowercase}
use trillium_grpc.Text.Utf8.{is_utf8}
use trillium_grpc.Deps.{
  HeadersApi, collect_values, Base64, Debug, Features, Compressor, Compressors, IsLossless,
}
use trillium_grpc.Encoding.Caps.{AllLossless}
use trillium_grpc.Codec.{Codec, prost}
use trillium_grpc.Server.Conn.{ConnApi}
use trillium_grpc.Frame.Source.{Script, script_reader}

abbrev pub Assoc : Type 0
Assoc = List (Bytes × Bytes)

abbrev pub values : Assoc → Bytes → List Bytes
values [] k = []
values ((n, v) ∷ h) k = let rest = values h k in if eq_ignore_ascii_case n k then v ∷ rest else rest

abbrev pub without : Assoc → Bytes → Assoc
without [] k = []
without ((n, v) ∷ h) k =
    let rest = without h k in if eq_ignore_ascii_case n k then rest else (n, v) ∷ rest

abbrev pub text : Bytes → Option Bytes
text v = if is_utf8 v then some v else none

abbrev pub first : List Bytes → Option Bytes
first [] = none
first (v ∷ vs) = text v

same-name :
    (n k j : Bytes)
    → eq_ignore_ascii_case n k ≡ true
    → eq_ignore_ascii_case n j ≡ eq_ignore_ascii_case k j
unfolding eq_ignore_ascii_case
same-name n k j h = ap (λ t. beq t (to_ascii_lowercase j)) (beq→eq _ _ h)

other-name :
    (n k j : Bytes)
    → eq_ignore_ascii_case n k ≡ false
    → eq_ignore_ascii_case k j ≡ true
    → eq_ignore_ascii_case n j ≡ false
unfolding eq_ignore_ascii_case
other-name n k j h e =
    ap (beq (to_ascii_lowercase n)) (sym (beq→eq (to_ascii_lowercase k) (to_ascii_lowercase j) e))
    ∙ h

pub name_refl : (k : Bytes) → eq_ignore_ascii_case k k ≡ true
unfolding eq_ignore_ascii_case
name_refl k = beq_refl (to_ascii_lowercase k)

pub values-without :
    (h : Assoc) (k j : Bytes)
    → values (without h k) j ≡ (if eq_ignore_ascii_case k j then [] else values h j)
values-without [] k j = ground arith
values-without ((n, v) ∷ h) k j =
    ground (arith, values-without h k j, same-name n k j, other-name n k j)

pub values-append :
    (h : Assoc) (k j v : Bytes)
    → values (h ++ (k, v) ∷ []) j
      ≡ (if eq_ignore_ascii_case k j then values h j ++ v ∷ [] else values h j)
values-append [] k j v = ground arith
values-append ((n, w) ∷ h) k j v = ground (arith, values-append h k j v)

pub values-insert :
    (h : Assoc) (k j v : Bytes)
    → values (without h k ++ (k, v) ∷ []) j
      ≡ (if eq_ignore_ascii_case k j then v ∷ [] else values h j)
values-insert h k j v = ground (arith, values-append (without h k) k j v, values-without h k j)

pub values-iter :
    (h : Assoc) (k : Bytes) → collect_values k (map (λ e. (e.0, e.1 ∷ [])) h) ≡ values h k
values-iter [] k = refl
values-iter ((n, v) ∷ h) k = ground (arith, values-iter h k)

instance abbrev pub assoc_headers : HeadersApi
assoc_headers = record {
  Headers = Assoc;
  new = [];
  get_str = λ h k. first (values h k);
  get_values = λ h k. some (values h k);
  insert = λ h k v. without h k ++ (k, v) ∷ [];
  append = λ h k v. h ++ (k, v) ∷ [];
  remove = without;
  iter = map (λ e. (e.0, e.1 ∷ []));
  as_str = text;
  get_str-new = λ k. refl;
  get_str-insert_self = λ h k v good. rw (values-insert h k k v, name_refl k, good) refl;
  get_str-insert_ne = λ h k j v ne. rw (values-insert h k j v, ne) refl;
  get_str-append_ne = λ h k j v ne. rw (values-append h k j v, ne) refl;
  get_str-remove_self = λ h k. rw (values-without h k k, name_refl k) refl;
  get_values-new = λ k. refl;
  get_values-insert = λ h k j v. values-insert h k j v;
  get_values-append = λ h k j v. values-append h k j v;
  get_values-iter = values-iter;
  as_str_text = λ v good. rw good refl;
}

instance abbrev pub plain_base64 : Base64
plain_base64 = record { encode = λ b. b; decode = λ b. some b; decode-encode = λ b h. refl }

instance abbrev pub plain_debug : Debug
plain_debug = record { debug_str = λ s. s; debug_option = λ o. unwrap_or o [] }

instance abbrev pub all_features : Features
all_features = record { gzip = true; deflate = true; zstd = true }

-- A codec that stores a message behind one byte.
abbrev pub unpack : Bytes → Bytes
unpack [] = []
unpack (c ∷ s) = s

abbrev pub stored : ℕ → Compressor
stored tag = record {
  compress = λ d. ok (tag ∷ d);
  open_error = λ z. none;
  stream = λ z. (unpack z, none);
}

instance abbrev pub stored_codecs : Compressors
stored_codecs = record { gzip = stored 1; deflate = stored 2; zstd = stored 3 }

stored-IsLossless : (tag : ℕ) → IsLossless (stored tag)
stored-IsLossless tag = record { opens = λ d z h. refl; inverts = λ d z h. ground (arith, h) }

pub stored_codecs-AllLossless : AllLossless stored_codecs
stored_codecs-AllLossless = record {
  gzip_lossless = stored-IsLossless 1;
  deflate_lossless = stored-IsLossless 2;
  zstd_lossless = stored-IsLossless 3;
}

-- A message that is its own encoding.
abbrev pub raw : Codec Bytes
raw = prost (record { encode = λ m. ok m; decode = λ b. ok b })

-- A connection as plain data.
pub record PlainConn : Type 1 where
  pub request : Assoc
  pub response : Assoc
  pub status : Option ℕ
  pub body : Option ((X : Type 0) × X)
  pub halted : Bool
  pub incoming : Script
  pub upgrading : Bool

abbrev pub plain_conn : Assoc → PlainConn
plain_conn request = record {
  request = request;
  response = [];
  status = none;
  body = none;
  halted = false;
  incoming = [];
  upgrading = false;
}

instance abbrev pub plain_conns : ConnApi Assoc
plain_conns = record {
  Conn = PlainConn;
  Body = (X : Type 0) × X;
  Incoming = Script;
  request_body = λ c. c.incoming;
  read_body = script_reader;
  set_request_body = λ c r. record c { incoming = r };
  with_state = λ c x. c;
  upgrade = λ c. record c { upgrading = true };
  is_upgrading = λ c. c.upgrading;
  request-read = λ c r. refl;
  body-read = λ c r. refl;
  upgrading-upgrade = λ c. refl;
  upgrading-halt = λ c. refl;
  new_with_trailers = λ {X} x. (X, x);
  request_headers = λ c. c.request;
  response_headers = λ c. c.response;
  status = λ c. c.status;
  body = λ c. c.body;
  is_halted = λ c. c.halted;
  set_response_headers = λ c h. record c { response = h };
  with_status = λ c n. record c { status = some n };
  with_body = λ c b. record c { body = some b };
  halt = λ c. record c { halted = true };
  request-set = λ c h. refl;
  response-set = λ c h. refl;
  response-status = λ c n. refl;
  status-status = λ c n. refl;
  status-set = λ c h. refl;
  status-halt = λ c. refl;
  body-body = λ c b. refl;
  body-halt = λ c. refl;
  halted-halt = λ c. refl;
}
