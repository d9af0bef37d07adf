-- ===== src/ContentType.antt =====
-- content_type.rs: the `content-type` and `te` headers of a request. server/content_type.rs is a
-- copy of that file that no module includes.
pub mod Exact
pub mod Trailers
use trillium_grpc.Prelude.{
  ◌≡◌, refl, Bool, false, [], ◌∷◌, Option, none, some, Bytes, codes, if◌then◌else◌, any, and_then,
  drop, length, ◌==◌,
}
use trillium_grpc.Text.Ascii.{trim, split, first_part, get_prefix, eq_ignore_ascii_case}
use trillium_grpc.Deps.{HeadersApi}

abbrev pub prefix : Bytes
prefix = codes "application/grpc"

-- What follows the prefix.
unfoldable pub suffix_of : Bytes → Option Bytes
suffix_of [] = some (codes "proto")
suffix_of (c ∷ s) = if c == b'+' then some s else none

unfoldable pub media_type : Bytes → Bytes
media_type value = trim (first_part b';' (trim value))

unfoldable pub parse_grpc_content_type : Bytes → Option Bytes
unfolding suffix_of media_type
parse_grpc_content_type value = and_then (get_prefix (length prefix) (media_type value)) λ head.
    if eq_ignore_ascii_case head prefix
    then suffix_of (drop (length prefix) (media_type value))
    else none

is_trailers : Bytes → Bool
is_trailers tok = eq_ignore_ascii_case (trim tok) (codes "trailers")

module _ ⦃api : HeadersApi⦄ where
  -- One value of the header, if it is text.
  has_trailers : Bytes → Bool
  unfolding is_trailers
  has_trailers value = elim (api.as_str value) [
    | none ↦ false
    | some s ↦ any is_trailers (split b',' s)
  ]

  unfoldable pub has_te_trailers : api.Headers → Bool
  unfolding has_trailers
  has_te_trailers headers = elim (api.get_values headers (codes "te")) [
    | none ↦ false
    | some values ↦ any has_trailers values
  ]

json_suffix :
    parse_grpc_content_type (codes " Application/GRPC+json; charset=utf-8 ") ≡ some (codes "json")
unfolding parse_grpc_content_type trim first_part get_prefix eq_ignore_ascii_case
json_suffix = refl

grpc_web : parse_grpc_content_type (codes "application/grpc-web") ≡ none
unfolding parse_grpc_content_type trim first_part get_prefix eq_ignore_ascii_case
grpc_web = refl
