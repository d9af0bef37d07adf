-- ===== src/Text/Decimal.antt =====
-- Decimal printing (`format!("{n}")`) and parsing (`str::parse` of an unsigned integer).
pub mod RoundTrip
use trillium_grpc.Prelude.{
  ℕ, zero, suc, ◌+◌, ◌-◌, ◌*◌, ◌/◌, ◌%◌, ◌≡◌, refl, [], ◌∷◌, Option, none, some, Bytes, codes, leb,
  ◌==◌, if◌then◌else◌,
}
use trillium_grpc.Text.Ascii.{is_ascii_digit}

-- The digits of `n` in front of `out`; the fuel is one more than `n`, which has fewer digits.
digits_from : ℕ → ℕ → Bytes → Bytes
digits_from zero n out = out
digits_from (suc fuel) n out =
    let last = (b'0' + n % 10) ∷ out in
    let rest = digits_from fuel (n / 10) last in if n / 10 == 0 then last else rest

unfoldable pub to_decimal : ℕ → Bytes
unfolding digits_from
to_decimal n = digits_from (suc n) n []

scan_digits : ℕ → ℕ → Bytes → Option ℕ
scan_digits max n [] = some n
scan_digits max n (c ∷ s) =
    let m = n * 10 + (c - b'0') in
    let rest = scan_digits max m s in
    if is_ascii_digit c then (if leb m max then rest else none) else none

-- A sign `+` is taken, and a sign alone is not; `max` is the largest value of the type.
unfoldable pub parse_uint : ℕ → Bytes → Option ℕ
unfolding scan_digits is_ascii_digit
parse_uint max [] = none
parse_uint max (c ∷ []) = scan_digits max 0 (c ∷ [])
parse_uint max (c ∷ d ∷ s) =
    if c == b'+' then scan_digits max 0 (d ∷ s) else scan_digits max 0 (c ∷ d ∷ s)

prints : to_decimal 99_999_999 ≡ codes "99999999"
unfolding to_decimal
prints = refl

prints_zero : to_decimal 0 ≡ codes "0"
unfolding to_decimal
prints_zero = refl

parses : parse_uint 255 (codes "+016") ≡ some 16
unfolding parse_uint
parses = refl

overflows : parse_uint 255 (codes "256") ≡ none
unfolding parse_uint
overflows = refl
