-- ===== src/Timeout/Accepts.antt =====
-- What `parse_grpc_timeout` of src/timeout.rs accepts, and the shape of what is written.
use mathlib.Core.List.{cons-ne-nil}
use trillium_grpc.Prelude.{
  ℕ, ◌*◌, ◌≤◌, ◌≡◌, ◌≢◌, refl, ap, sym, ◌∙◌, List, [], ◌∷◌, ◌++◌, some, Bytes, leb, all, arith,
  length, length-append, Bool-cases, inl, inr, All, Option-cases, leb→le, subst, ◌<◌, All-append,
  true,
}
use trillium_grpc.Text.Ascii.{is_ascii_digit}
use trillium_grpc.Text.Utf8.{is_utf8, ascii-is_utf8}
use trillium_grpc.Text.Decimal.{to_decimal, parse_uint}
use trillium_grpc.Text.Decimal.RoundTrip.{
  IsDigit, value, parse_uint-digits, length-to_decimal, to_decimal-IsDigit,
}
use trillium_grpc.Timeout.{
  Duration, IsDuration, as_nanos, max_u64, max_value, units, div_ceil, format_in,
  format_grpc_timeout, split_last, suffix_nanos, checked_duration, is_nil, parse_parts,
  parse_grpc_timeout,
}
use trillium_grpc.Timeout.RoundTrip.{digits-all}

split_last-eq : (s t : Bytes) (c : ℕ) → split_last s ≡ some (c, t) → s ≡ t ++ c ∷ []
unfolding split_last
split_last-eq [] t c h = cc
split_last-eq (a ∷ []) t c h = ground arith
split_last-eq (a ∷ b ∷ s) t c h = elim (Option-cases (split_last (b ∷ s))) [
  | inl e ↦ absurd (ground arith)
  | inr ((d, r), e) ↦ ground (arith, split_last-eq (b ∷ s) r d e)
]

-- The text of an accepted timeout: digits and a unit that stand for the duration.
pub record Spells (s : Bytes) (d : Duration) : Type 0 where
  pub digits : Bytes
  pub unit : ℕ
  pub unit_nanos : ℕ
  pub split_text : s ≡ digits ++ unit ∷ []
  pub some_digit : digits ≢ []
  pub all_digits : All IsDigit digits
  pub known_unit : suffix_nanos unit ≡ some unit_nanos
  pub exact : as_nanos d ≡ value 0 digits * unit_nanos
  pub bounded : value 0 digits ≤ max_u64
  pub is_duration : IsDuration d

checked_duration_sound :
    (v u : ℕ) (d : Duration) → checked_duration v u ≡ some d → (as_nanos d ≡ v * u) × IsDuration d
unfolding checked_duration as_nanos
checked_duration_sound v u d h =
    (ground arith, record { secs_fit = ground arith; nanos_fit = ground arith })

parse_parts_sound :
    (c : ℕ) (s : Bytes) (d : Duration) → parse_parts c s ≡ some d → Spells (s ++ c ∷ []) d
unfolding parse_parts is_nil
parse_parts_sound c [] d h = cc
parse_parts_sound c (a ∷ s) d h = elim (Bool-cases (all is_ascii_digit (a ∷ s))) [
  | inl ds ↦ elim (Option-cases (parse_uint max_u64 (a ∷ s))) [
    | inl e ↦ absurd (ground arith)
    | inr (v, e) ↦ elim (Option-cases (suffix_nanos c)) [
      | inl e2 ↦ absurd (ground arith)
      | inr (u, e2) ↦
          let made : checked_duration v u ≡ some d = ground arith in
          let digits = digits-all (a ∷ s) ds in
          let (spelled, fits) =
            (parse_uint-digits max_u64 (a ∷ s) v (cons-ne-nil a s) digits).0 e in
          let (exact, valid) = checked_duration_sound v u d made in
          record {
            digits = a ∷ s;
            unit = c;
            unit_nanos = u;
            split_text = refl;
            some_digit = cons-ne-nil a s;
            all_digits = digits;
            known_unit = e2;
            exact = exact ∙ ap (λ (n : ℕ). n * u) spelled;
            bounded = omega (arith, spelled, fits);
            is_duration = valid;
          }
    ]
  ]
  | inr bad ↦ absurd (ground arith)
]

Spells-split_last :
    (s t : Bytes) (c : ℕ) (d : Duration)
    → split_last s ≡ some (c, t)
    → Spells (t ++ c ∷ []) d
    → Spells s d
Spells-split_last s t c d e h = subst (λ r. Spells r d) (sym (split_last-eq s t c e)) h

-- An accepted timeout is one or more decimal digits, of a number that fits a `u64`, and one of the
-- six unit letters, and the duration is exactly the number of those units: nothing wraps around.
pub parse_sound : (s : Bytes) (d : Duration) → parse_grpc_timeout s ≡ some d → Spells s d
unfolding parse_grpc_timeout
parse_sound s d h = elim (Option-cases (split_last s)) [
  | inl e ↦ absurd (ground arith)
  | inr ((c, t), e) ↦ Spells-split_last s t c d e (parse_parts_sound c t d (ground arith))
]

format_in-length : (n : ℕ) (us : List (ℕ × ℕ)) → length (format_in n us) ≤ 9
unfolding format_in
format_in-length n [] = omega (
  arith,
  length-append {0} (to_decimal max_value) (b'H' ∷ []),
  length-to_decimal 7 max_value (omega arith),
)
format_in-length n ((u, c) ∷ us) = elim (Bool-cases (leb (div_ceil n u) max_value)) [
  | inl fits ↦ rw fits (
      omega (
        arith,
        length-append {0} (to_decimal (div_ceil n u)) (c ∷ []),
        length-to_decimal 7 (div_ceil n u) (omega (arith, leb→le _ _ fits)),
      ))
  | inr big ↦ rw big (format_in-length n us)
]

-- Every timeout that is written has at most eight digits and its unit letter.
pub format-length : (d : Duration) → length (format_grpc_timeout d) ≤ 9
unfolding format_grpc_timeout
format-length d = format_in-length (as_nanos d) units

digits-ascii : (s : Bytes) → All IsDigit s → All (λ c. c < 0x80) s
digits-ascii [] h = tt
digits-ascii (c ∷ s) h = (omega arith, digits-ascii s h.1)

format_in-ascii :
    (n : ℕ) (us : List (ℕ × ℕ)) → All (λ u. u.1 < 0x80) us → All (λ c. c < 0x80) (format_in n us)
unfolding format_in
format_in-ascii n [] h =
    All-append _ (to_decimal max_value) _ (digits-ascii _ (to_decimal-IsDigit max_value))
      (omega arith, tt)
format_in-ascii n ((u, c) ∷ us) h = elim (Bool-cases (leb (div_ceil n u) max_value)) [
  | inl fits ↦ rw fits (
      All-append (λ b. b < 0x80) (to_decimal (div_ceil n u)) (c ∷ [])
        (digits-ascii _ (to_decimal-IsDigit _)) (h.0, tt))
  | inr big ↦ rw big (format_in-ascii n us h.1)
]

pub format-is_utf8 : (d : Duration) → is_utf8 (format_grpc_timeout d) ≡ true
unfolding format_grpc_timeout
format-is_utf8 d = ascii-is_utf8 _ (
    format_in-ascii (as_nanos d) units
      (omega arith, (omega arith, (omega arith, (omega arith, (omega arith, (omega arith, tt)))))))
