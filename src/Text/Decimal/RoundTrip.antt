-- ===== src/Text/Decimal/RoundTrip.antt =====
-- What decimal printing writes and what parsing accepts.
use trillium_grpc.Prelude.{
  ℕ, zero, suc, ◌+◌, ◌-◌, ◌*◌, ◌/◌, ◌%◌, ◌^◌, ◌≤◌, ◌<◌, ◌≡◌, ◌≢◌, refl, ap, sym, ◌∙◌, [], ◌∷◌, some,
  arith, Bytes, ◌==◌, All, length, ◌↔◌, Bool-cases, inl, inr, ==_iff,
}
use trillium_grpc.Text.Ascii.{is_ascii_digit}
use trillium_grpc.Text.Decimal.{digits_from, to_decimal, scan_digits, parse_uint}
use native.Mathlib.Nat.{pow-suc}

abbrev pub IsDigit : ℕ → Type 0
IsDigit c = (b'0' ≤ c) × (c ≤ b'9')

-- The number that digits spell behind `n`, with no bound.
abbrev pub value : ℕ → Bytes → ℕ
value n [] = n
value n (c ∷ s) = value (n * 10 + (c - b'0')) s

digits_from-IsDigit :
    (fuel n : ℕ) (out : Bytes) → All IsDigit out → All IsDigit (digits_from fuel n out)
unfolding digits_from
digits_from-IsDigit zero n out h = h
digits_from-IsDigit (suc fuel) n out h = elim (Bool-cases (n / 10 == 0)) [
  | inl done ↦ rw done ((omega arith, omega arith), h)
  | inr more ↦
      rw more
        (digits_from-IsDigit fuel (n / 10) ((b'0' + n % 10) ∷ out) ((omega arith, omega arith), h))
]

pub to_decimal-IsDigit : (n : ℕ) → All IsDigit (to_decimal n)
unfolding to_decimal
to_decimal-IsDigit n = digits_from-IsDigit (suc n) n [] tt

value-digits_from :
    (fuel n : ℕ) (out : Bytes) → n < fuel → value 0 (digits_from fuel n out) ≡ value n out
unfolding digits_from
value-digits_from zero n out h = absurd (omega arith)
value-digits_from (suc fuel) n out h =
    let last : n / 10 * 10 + (b'0' + n % 10 - b'0') ≡ n = omega arith in
    elim (Bool-cases (n / 10 == 0)) [
      | inl done ↦ rw done (ap (λ m. value m out) (omega (arith, (==_iff (n / 10) 0).0 done)))
      | inr more ↦ rw more (
          value-digits_from fuel (n / 10) ((b'0' + n % 10) ∷ out) (grind arith)
          ∙ ap (λ m. value m out) last)
    ]

pub value-to_decimal : (n : ℕ) → value 0 (to_decimal n) ≡ n
unfolding to_decimal
value-to_decimal n = value-digits_from (suc n) n [] (omega arith)

digits_from-ne-nil : (fuel n : ℕ) (out : Bytes) → digits_from (suc fuel) n out ≢ []
unfolding digits_from
digits_from-ne-nil zero n out h = ground arith
digits_from-ne-nil (suc fuel) n out h =
    ground (arith, digits_from-ne-nil fuel (n / 10) ((b'0' + n % 10) ∷ out))

pub to_decimal-ne-nil : (n : ℕ) → to_decimal n ≢ []
unfolding to_decimal
to_decimal-ne-nil n = digits_from-ne-nil n n []

length-digits_from :
    (k fuel n : ℕ) (out : Bytes)
    → n < 10 ^ suc k
    → length (digits_from fuel n out) ≤ suc k + length out
unfolding digits_from
length-digits_from k zero n out h = omega arith
length-digits_from zero (suc fuel) n out h = ground arith
length-digits_from (suc k) (suc fuel) n out h =
    let small : n / 10 < 10 ^ suc k = omega (arith, pow-suc 10 (suc k)) in
    ground (arith, length-digits_from k fuel (n / 10) ((b'0' + n % 10) ∷ out) small)

-- A number below a power of ten has no more digits than the exponent says.
pub length-to_decimal : (k n : ℕ) → n < 10 ^ suc k → length (to_decimal n) ≤ suc k
unfolding to_decimal
length-to_decimal k n h = omega (arith, length-digits_from k (suc n) n [] h)

scan_sound :
    (max n : ℕ) (s : Bytes) (r : ℕ)
    → n ≤ max
    → scan_digits max n s ≡ some r
    → All IsDigit s × (r ≡ value n s) × (r ≤ max)
unfolding scan_digits is_ascii_digit
scan_sound max n [] r fits h = ground arith
scan_sound max n (c ∷ s) r fits h = ground (arith, scan_sound max (n * 10 + (c - b'0')) s r)

-- What was read before only grows.
value-grows : (start : ℕ) (text : Bytes) → start ≤ value start text
value-grows start [] = omega arith
value-grows start (d ∷ text) =
    let next = start * 10 + (d - b'0') in omega (arith, value-grows next text)

scan_complete :
    (max n : ℕ) (s : Bytes)
    → All IsDigit s
    → value n s ≤ max
    → scan_digits max n s ≡ some (value n s)
unfolding scan_digits is_ascii_digit
scan_complete max n [] h fits = refl
scan_complete max n (c ∷ s) h fits =
    let m = n * 10 + (c - b'0') in ground (arith, scan_complete max m s h.1 fits, value-grows m s)

parse-digits :
    (max : ℕ) (s : Bytes) → s ≢ [] → All IsDigit s → parse_uint max s ≡ scan_digits max 0 s
unfolding parse_uint
parse-digits max [] ne h = absurd (ne refl)
parse-digits max (c ∷ []) ne h = refl
parse-digits max (c ∷ d ∷ s) ne h = ground arith

-- Digits are parsed to the number that they spell, exactly if it fits.
pub parse_uint-digits :
    (max : ℕ) (s : Bytes) (r : ℕ)
    → s ≢ []
    → All IsDigit s
    → (parse_uint max s ≡ some r) ↔ ((r ≡ value 0 s) × (r ≤ max))
parse_uint-digits max s r ne h = (
  λ e.
      let (_, exact, fits) =
        scan_sound max 0 s r (omega arith) (sym (parse-digits max s ne h) ∙ e) in
      (exact, fits),
  λ p.
      parse-digits max s ne h
      ∙ scan_complete max 0 s h (omega (arith, p.0, p.1))
      ∙ ap some (sym p.0),
)

pub parse_uint-to_decimal : (max n : ℕ) → n ≤ max → parse_uint max (to_decimal n) ≡ some n
parse_uint-to_decimal max n fits =
    (parse_uint-digits max (to_decimal n) n (to_decimal-ne-nil n) (to_decimal-IsDigit n)).1
      (sym (value-to_decimal n), fits)
