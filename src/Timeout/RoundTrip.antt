-- ===== src/Timeout/RoundTrip.antt =====
-- The `grpc-timeout` value that is written, and what is read (src/timeout.rs).
use trillium_grpc.Prelude.{
  drop, ℕ, ◌+◌, ◌-◌, ◌*◌, ◌/◌, ◌%◌, ◌≤◌, ◌<◌, ◌≡◌, ◌≢◌, refl, true, false, List, [], ◌∷◌, ◌++◌,
  Option, some, Bytes, leb, ◌==◌, all, arith, Bool-cases, inl, inr, All, ◌⊎◌, ==_iff, leb→le,
}
use native.Mathlib.Nat.{mul-le-mul, mul-le-mul_right, lt_of_mul-lt-mul_right, div-add-mod', mod-lt}
use trillium_grpc.Text.Ascii.{is_ascii_digit}
use trillium_grpc.Text.Decimal.{to_decimal}
use trillium_grpc.Text.Decimal.RoundTrip.{
  IsDigit, value, to_decimal-IsDigit, to_decimal-ne-nil, parse_uint-to_decimal, parse_uint-digits,
}
use trillium_grpc.Timeout.{
  Duration, IsDuration, as_nanos, nanos_per_sec, max_u64, max_value, units, div_ceil, format_in,
  format_grpc_timeout, split_last, suffix_nanos, is_nil, parse_grpc_timeout,
}

split_last-append : (s : Bytes) (c : ℕ) → split_last (s ++ c ∷ []) ≡ some (c, s)
unfolding split_last
split_last-append [] c = refl
split_last-append (a ∷ []) c = refl
split_last-append (a ∷ b ∷ s) c = rw (split_last-append (b ∷ s) c)

all-digits : (s : Bytes) → All IsDigit s → all is_ascii_digit s ≡ true
unfolding is_ascii_digit
all-digits [] h = refl
all-digits (c ∷ s) h = ground (arith, all-digits s h.1)

pub digits-all : (s : Bytes) → all is_ascii_digit s ≡ true → All IsDigit s
unfolding is_ascii_digit
digits-all [] h = tt
digits-all (c ∷ s) h = ((ground arith, ground arith), digits-all s (ground arith))

-- The duration of a number of nanoseconds.
abbrev pub of_nanos : ℕ → Duration
of_nanos t = record { secs = t / nanos_per_sec; nanos = t % nanos_per_sec }

pub as_nanos-of_nanos : (t : ℕ) → as_nanos (of_nanos t) ≡ t
unfolding as_nanos
as_nanos-of_nanos t = omega arith

of_nanos-as_nanos : (d : Duration) → IsDuration d → of_nanos (as_nanos d) ≡ d
unfolding as_nanos
of_nanos-as_nanos d h = ground arith

is_nil-ne : (s : Bytes) → s ≢ [] → is_nil s ≡ false
unfolding is_nil
is_nil-ne [] h = absurd (h refl)
is_nil-ne (c ∷ s) h = refl

-- Digits of any number, with a unit, are read as their product, if the seconds fit a `u64`.
pub parse_complete :
    (s : Bytes) (c u : ℕ)
    → s ≢ []
    → All IsDigit s
    → value 0 s ≤ max_u64
    → suffix_nanos c ≡ some u
    → value 0 s * u / nanos_per_sec ≤ max_u64
    → parse_grpc_timeout (s ++ c ∷ []) ≡ some (of_nanos (value 0 s * u))
unfolding parse_grpc_timeout
parse_complete s c u ne digits fits unit secs =
    rw
      (
        split_last-append s c,
        is_nil-ne s ne,
        all-digits s digits,
        (parse_uint-digits max_u64 s (value 0 s) ne digits).1 (refl, fits),
        unit,
      )
      (ground arith)

-- The value written in one unit is read back.
parse_unit :
    (n c u : ℕ)
    → n ≤ max_value
    → suffix_nanos c ≡ some u
    → u ≤ 3600 * 1_000_000_000
    → parse_grpc_timeout (to_decimal n ++ c ∷ []) ≡ some (of_nanos (n * u))
unfolding parse_grpc_timeout
parse_unit n c u fits unit le =
    let total : n * u ≤ max_value * (3600 * 1_000_000_000) = mul-le-mul fits le in
    rw
      (
        split_last-append (to_decimal n) c,
        is_nil-ne (to_decimal n) (to_decimal-ne-nil n),
        all-digits (to_decimal n) (to_decimal-IsDigit n),
        parse_uint-to_decimal max_u64 n (omega arith),
        unit,
      )
      (ground arith)

-- Rounding up overshoots by less than the unit.
div_ceil_bounds : (n u : ℕ) → 0 < u → (n ≤ div_ceil n u * u) × (div_ceil n u * u < n + u)
unfolding div_ceil
div_ceil_bounds n u pos =
    let whole = div-add-mod' n u in
    let below = mod-lt n pos in
    elim (Bool-cases (n % u == 0)) [
      | inl even ↦ rw even (let none_left = (==_iff (n % u) 0).0 even in (omega arith, omega arith))
      | inr odd ↦ rw odd (let some_left : 0 < n % u = ground arith in (omega arith, omega arith))
    ]

abbrev RoundsUp : ℕ → ℕ → Option Duration → Type 0
RoundsUp n u o = (e : Duration) × (o ≡ some e) × (n ≤ as_nanos e) × (as_nanos e < n + u)

unit-RoundsUp :
    (n c u : ℕ)
    → 0 < u
    → div_ceil n u ≤ max_value
    → suffix_nanos c ≡ some u
    → u ≤ 3600 * 1_000_000_000
    → RoundsUp n u (parse_grpc_timeout (to_decimal (div_ceil n u) ++ c ∷ []))
unit-RoundsUp n c u pos fits unit le =
    let (lo, hi) = div_ceil_bounds n u pos in
    (
      of_nanos (div_ceil n u * u),
      parse_unit (div_ceil n u) c u fits unit le,
      omega (arith, as_nanos-of_nanos (div_ceil n u * u), lo),
      omega (arith, as_nanos-of_nanos (div_ceil n u * u), hi),
    )

-- What a value read back from a written timeout of `n` nanoseconds keeps to.
abbrev pub Covers : ℕ → Option Duration → Type 0
Covers n o =
    (e : Duration) × (o ≡ some e)
    × (n ≤ as_nanos e)
    × ((as_nanos e - n) * 99_999 ≤ n)
    × ((as_nanos e ≡ n) ⊎ (max_value < n))

RoundsUp-Covers :
    (n u : ℕ) {o : Option Duration}
    → ((u ≡ 1) ⊎ ((max_value < n) × (u * 99_999 ≤ n + 99_999)))
    → RoundsUp n u o
    → Covers n o
RoundsUp-Covers n u (inl one) (e, eq, lo, hi) = (e, eq, lo, omega arith, inl (omega arith))
RoundsUp-Covers n u (inr (big, fine)) (e, eq, lo, hi) = (e, eq, lo, omega arith, inr big)

-- A unit is passed over only where its value would need more than eight digits.
passed_over : (n u : ℕ) → 0 < u → leb (div_ceil n u) max_value ≡ false → max_value * u < n
passed_over n u pos h =
    let (_, hi) = div_ceil_bounds n u pos in
    let big : max_value + 1 ≤ div_ceil n u = ground arith in omega (arith, mul-le-mul_right u big)

format_step :
    (n u c : ℕ) (rest : List (ℕ × ℕ))
    → 0 < u
    → suffix_nanos c ≡ some u
    → u ≤ 3600 * 1_000_000_000
    → ((u ≡ 1) ⊎ ((max_value < n) × (u * 99_999 ≤ n + 99_999)))
    → (max_value * u < n → Covers n (parse_grpc_timeout (format_in n rest)))
    → Covers n (parse_grpc_timeout (format_in n ((u, c) ∷ rest)))
unfolding format_in
format_step n u c rest pos unit le fine next = elim (Bool-cases (leb (div_ceil n u) max_value)) [
  | inl fits ↦
      rw fits (RoundsUp-Covers n u fine (unit-RoundsUp n c u pos (leb→le _ _ fits) unit le))
  | inr big ↦ rw big (next (passed_over n u pos big))
]

-- Up to 99,999,999 hours the header that `format_grpc_timeout` writes is read back by
-- `parse_grpc_timeout` as a duration that is never shorter than the one asked for, longer by at most
-- one part in 99,999, and the same if it is below 100 milliseconds.
pub parse-format :
    (d : Duration)
    → as_nanos d ≤ max_value * (3600 * 1_000_000_000)
    → Covers (as_nanos d) (parse_grpc_timeout (format_grpc_timeout d))
unfolding format_grpc_timeout suffix_nanos
parse-format d le =
    let n = as_nanos d in
    format_step n 1 b'n' (drop 1 units) (omega arith) refl (omega arith) (inl refl) λ h.
      format_step n 1_000 b'u' (drop 2 units) (omega arith) refl (omega arith)
        (inr (omega arith, omega arith))
        λ h.
          format_step n 1_000_000 b'm' (drop 3 units) (omega arith) refl (omega arith)
            (inr (omega arith, omega arith))
            λ h.
              format_step n 1_000_000_000 b'S' (drop 4 units) (omega arith) refl (omega arith)
                (inr (omega arith, omega arith))
                λ h.
                  format_step n (60 * 1_000_000_000) b'M' (drop 5 units) (omega arith) refl
                    (omega arith) (inr (omega arith, omega arith))
                    λ h.
                      format_step n (3600 * 1_000_000_000) b'H' [] (omega arith) refl (omega arith)
                        (inr (omega arith, omega arith)) λ h. absurd (omega arith)

pass_over :
    (n u c : ℕ) (rest : List (ℕ × ℕ))
    → 0 < u
    → max_value * u < n
    → format_in n ((u, c) ∷ rest) ≡ format_in n rest
unfolding format_in
pass_over n u c rest pos big =
    let (lo, _) = div_ceil_bounds n u pos in
    let more : max_value < div_ceil n u = lt_of_mul-lt-mul_right u (omega (arith, lo)) in
    ground arith

-- Beyond that the value saturates: every longer duration is written as 99,999,999 hours, so that the
-- deadline that the peer reads is shorter than the one asked for.
pub format_saturates :
    (d : Duration)
    → max_value * (3600 * 1_000_000_000) < as_nanos d
    → (parse_grpc_timeout (format_grpc_timeout d)
        ≡ some (of_nanos (max_value * (3600 * 1_000_000_000))))
      × (as_nanos (of_nanos (max_value * (3600 * 1_000_000_000))) < as_nanos d)
unfolding format_grpc_timeout suffix_nanos
format_saturates d big =
    let n = as_nanos d in
    (
      rw
          (
            pass_over n 1 b'n' (drop 1 units) (omega arith) (omega arith),
            pass_over n 1_000 b'u' (drop 2 units) (omega arith) (omega arith),
            pass_over n 1_000_000 b'm' (drop 3 units) (omega arith) (omega arith),
            pass_over n 1_000_000_000 b'S' (drop 4 units) (omega arith) (omega arith),
            pass_over n (60 * 1_000_000_000) b'M' (drop 5 units) (omega arith) (omega arith),
            pass_over n (3600 * 1_000_000_000) b'H' [] (omega arith) (omega arith),
          )
          (unfold format_in in
            parse_unit max_value b'H' (3600 * 1_000_000_000) (omega arith) refl (omega arith)),
      omega (arith, as_nanos-of_nanos (max_value * (3600 * 1_000_000_000))),
    )
