-- ===== src/Timeout.antt =====
-- timeout.rs: the codec of the `grpc-timeout` header. `u64` and `u128` bounds are written out.
pub mod RoundTrip
pub mod Accepts
use trillium_grpc.Prelude.{
  ℕ, ◌+◌, ◌-◌, ◌*◌, ◌/◌, ◌%◌, ◌^◌, ◌≤◌, ◌<◌, ◌≡◌, refl, Bool, true, false, not, ◌||◌, List, [], ◌∷◌,
  ◌++◌, Option, none, some, Bytes, codes, leb, ltb, ◌==◌, if◌then◌else◌, all, and_then, map_option,
}
use trillium_grpc.Text.Ascii.{is_ascii_digit}
use trillium_grpc.Text.Decimal.{to_decimal, parse_uint}

-- `std::time::Duration`.
pub record Duration : Type 0 where
  pub secs : ℕ
  pub nanos : ℕ

abbrev pub nanos_per_sec : ℕ
nanos_per_sec = 1_000_000_000

abbrev pub max_u64 : ℕ
max_u64 = 2 ^ 64 - 1

abbrev pub max_u128 : ℕ
max_u128 = 2 ^ 128 - 1

pub record IsDuration (d : Duration) : Type 0 where
  pub secs_fit : d.secs ≤ max_u64
  pub nanos_fit : d.nanos < nanos_per_sec

unfoldable pub as_nanos : Duration → ℕ
as_nanos d = d.secs * nanos_per_sec + d.nanos

abbrev pub max_value : ℕ
max_value = 99_999_999

abbrev pub units : List (ℕ × ℕ)
units =
    (1, b'n')
    ∷ (1_000, b'u')
    ∷ (1_000_000, b'm')
    ∷ (1_000_000_000, b'S')
    ∷ (60 * 1_000_000_000, b'M')
    ∷ (3600 * 1_000_000_000, b'H')
    ∷ []

-- `n.div_ceil(d)`.
unfoldable pub div_ceil : ℕ → ℕ → ℕ
div_ceil n d = if n % d == 0 then n / d else n / d + 1

format_in : ℕ → List (ℕ × ℕ) → Bytes
format_in nanos [] = to_decimal max_value ++ b'H' ∷ []
format_in nanos ((unit_nanos, suffix) ∷ rest) =
    let value = div_ceil nanos unit_nanos in
    if leb value max_value then to_decimal value ++ suffix ∷ [] else format_in nanos rest

unfoldable pub format_grpc_timeout : Duration → Bytes
unfolding format_in div_ceil as_nanos
format_grpc_timeout d = format_in (as_nanos d) units

-- `bytes.split_last()`.
unfoldable pub split_last : Bytes → Option (ℕ × Bytes)
split_last [] = none
split_last (c ∷ []) = some (c, [])
split_last (c ∷ d ∷ s) = map_option (λ (p : ℕ × Bytes). (p.0, c ∷ p.1)) (split_last (d ∷ s))

unfoldable pub suffix_nanos : ℕ → Option ℕ
suffix_nanos c =
    if c == b'n'
    then some 1
    else if c == b'u'
    then some 1_000
    else if c == b'm'
    then some 1_000_000
    else if c == b'S'
    then some 1_000_000_000
    else if c == b'M'
    then some (60 * 1_000_000_000)
    else if c == b'H'
    then some (3600 * 1_000_000_000)
    else none

-- `u128::checked_mul`, and the split into seconds that must fit a `u64`.
checked_duration : ℕ → ℕ → Option Duration
checked_duration value unit_nanos =
    let total = value * unit_nanos in
    if ltb max_u128 total
    then none
    else if ltb max_u64 (total / nanos_per_sec)
    then none
    else some (record { secs = total / nanos_per_sec; nanos = total % nanos_per_sec })

is_nil : Bytes → Bool
is_nil s = elim s [ [] ↦ true | _ ↦ false ]

parse_parts : ℕ → Bytes → Option Duration
unfolding is_nil checked_duration
parse_parts suffix digits =
    if is_nil digits || not (all is_ascii_digit digits)
    then none
    else and_then (parse_uint max_u64 digits)
        λ value. and_then (suffix_nanos suffix) λ unit_nanos. checked_duration value unit_nanos

unfoldable pub parse_grpc_timeout : Bytes → Option Duration
unfolding parse_parts
parse_grpc_timeout s = and_then (split_last s) λ (p : ℕ × Bytes). parse_parts p.0 p.1

formats : format_grpc_timeout (record { secs = 300; nanos = 0 }) ≡ codes "300000m"
unfolding format_grpc_timeout to_decimal
formats = refl

parses : parse_grpc_timeout (codes "2M") ≡ some (record { secs = 120; nanos = 0 })
unfolding parse_grpc_timeout split_last suffix_nanos parse_uint is_ascii_digit
parses = refl
