-- ===== src/ContentType/Exact.antt =====
-- The values that `parse_grpc_content_type` of src/content_type.rs accepts.
use trillium_grpc.Prelude.{
  get_or, append-nil, take-length, ℕ, suc, ◌≤◌, ◌≡◌, ◌↔◌, ◌⊎◌, refl, ap, sym, ◌∙◌, true, [], ◌∷◌,
  ◌++◌, some, Bytes, codes, arith, beq→eq, eq→beq, take, drop, length, length-append, Bool-cases,
  inl, inr, take-append-drop, take-append_left, drop-append_left, Option-cases, subst, All, ◌==◌,
  false,
}
use trillium_grpc.Text.Ascii.{
  trim, first_part, get_prefix, eq_ignore_ascii_case, to_ascii_lowercase,
}
use trillium_grpc.ContentType.{prefix, suffix_of, media_type, parse_grpc_content_type}

-- A part of a text is what stands before its first separator.
abbrev pub Cut : ℕ → Bytes → Bytes → Type 0
Cut sep text part =
    All (λ c. (c == sep) ≡ false) part
    × ((text ≡ part) ⊎ ((rest : Bytes) × (text ≡ part ++ sep ∷ rest)))

-- A header value is a text in white space whose part before the first `;` is, in white space again,
-- the prefix in any case, alone or with `+` and the suffix.
pub record Names (value suffix : Bytes) : Type 0 where
  pub part : Bytes
  pub before : Cut b';' (trim value) part
  pub head : Bytes
  pub rest : Bytes
  pub whole : trim part ≡ head ++ rest
  pub is_grpc : to_ascii_lowercase head ≡ prefix
  pub tail : ((rest ≡ []) × (suffix ≡ codes "proto")) ⊎ (rest ≡ b'+' ∷ suffix)

Cut-cons :
    (sep c : ℕ) (s part : Bytes) → (c == sep) ≡ false → Cut sep s part → Cut sep (c ∷ s) (c ∷ part)
Cut-cons sep c s part other (others, inl e) = ((other, others), inl (ap (λ p. c ∷ p) e))
Cut-cons sep c s part other (others, inr (rest, e)) =
    ((other, others), inr (rest, ap (λ p. c ∷ p) e))

first_part-Cut : (sep : ℕ) (s : Bytes) → Cut sep s (first_part sep s)
unfolding first_part
first_part-Cut sep [] = (tt, inl refl)
first_part-Cut sep (c ∷ s) = elim (Bool-cases (c == sep)) [
  | inl here ↦ rw here (tt, inr (s, ap (λ d. d ∷ s) (ground (arith, here))))
  | inr other ↦ rw other (Cut-cons sep c s (first_part sep s) other (first_part-Cut sep s))
]

Cut-first_part : (sep : ℕ) (s part : Bytes) → Cut sep s part → first_part sep s ≡ part
unfolding first_part
Cut-first_part sep s [] (_, inl e) = rw e refl
Cut-first_part sep s [] (_, inr (rest, e)) = rw e (ground arith)
Cut-first_part sep s (c ∷ part) ((other, others), inl e) =
    rw e (rw other (ap (λ p. c ∷ p) (Cut-first_part sep part part (others, inl refl))))
Cut-first_part sep s (c ∷ part) ((other, others), inr (rest, e)) = rw e (
    rw other
      (ap (λ p. c ∷ p) (Cut-first_part sep (part ++ sep ∷ rest) part (others, inr (rest, refl)))))

get_prefix-eq : (n : ℕ) (s p : Bytes) → get_prefix n s ≡ some p → (p ≡ take n s) × (n ≤ length s)
unfolding get_prefix
get_prefix-eq n s p h = (ground arith, ground arith)

suffix_of-eq :
    (rest s : Bytes)
    → suffix_of rest ≡ some s
    → ((rest ≡ []) × (s ≡ codes "proto")) ⊎ (rest ≡ b'+' ∷ s)
unfolding suffix_of
suffix_of-eq [] s h = ground arith
suffix_of-eq (c ∷ r) s h = ground arith

lower-prefix : to_ascii_lowercase prefix ≡ prefix
unfolding to_ascii_lowercase
lower-prefix = refl

eq_ignore-prefix :
    (p : Bytes) → (eq_ignore_ascii_case p prefix ≡ true) ↔ (to_ascii_lowercase p ≡ prefix)
unfolding eq_ignore_ascii_case
eq_ignore-prefix p = (λ h. beq→eq _ _ h ∙ lower-prefix, λ e. eq→beq _ _ (e ∙ sym lower-prefix))

parse_sound : (v s : Bytes) → parse_grpc_content_type v ≡ some s → Names v s
unfolding parse_grpc_content_type media_type
parse_sound v s h = elim (Option-cases (get_prefix 16 (media_type v))) [
  | inl e ↦ absurd (ground arith)
  | inr (p, e) ↦ elim (Bool-cases (eq_ignore_ascii_case p prefix)) [
    | inl same ↦ record {
      part = first_part b';' (trim v);
      before = first_part-Cut b';' (trim v);
      head = take 16 (media_type v);
      rest = drop 16 (media_type v);
      whole = sym (take-append-drop 16 (media_type v));
      is_grpc =
          subst (λ q. to_ascii_lowercase q ≡ prefix) (get_prefix-eq 16 _ p e).0
            ((eq_ignore-prefix p).0 same);
      tail = suffix_of-eq _ s (ground arith);
    }
    | inr differ ↦ absurd (ground arith)
  ]
]

length-lower : (s : Bytes) → length (to_ascii_lowercase s) ≡ length s
unfolding to_ascii_lowercase
length-lower [] = refl
length-lower (c ∷ s) = ap suc (length-lower s)

get_or-append : (p s : Bytes) (c : ℕ) → get_or (p ++ c ∷ s) (length p) 0 ≡ c
get_or-append [] s c = refl
get_or-append (a ∷ p) s c = get_or-append p s c

-- The cut behind the prefix is a character boundary, since an ASCII byte or nothing follows.
get_prefix-append :
    (p rest : Bytes)
    → ((rest ≡ []) ⊎ ((s : Bytes) × (rest ≡ b'+' ∷ s)))
    → get_prefix (length p) (p ++ rest) ≡ some p
unfolding get_prefix
get_prefix-append p rest (inl e) = rw (e, append-nil p) (ground (arith, take-length p))
get_prefix-append p rest (inr (s, e)) = rw e (
    ground
      (arith, take-append_left p (b'+' ∷ s), get_or-append p s b'+', length-append p (b'+' ∷ s)))

abbrev Tail : Bytes → Bytes → Type 0
Tail rest s = ((rest ≡ []) × (s ≡ codes "proto")) ⊎ (rest ≡ b'+' ∷ s)

starts_plus : (rest s : Bytes) → Tail rest s → (rest ≡ []) ⊎ ((t : Bytes) × (rest ≡ b'+' ∷ t))
starts_plus rest s (inl (e, _)) = inl e
starts_plus rest s (inr e) = inr (s, e)

suffix_of-Tail : (rest s : Bytes) → Tail rest s → suffix_of rest ≡ some s
unfolding suffix_of
suffix_of-Tail rest s (inl (e, p)) = rw (e, p)
suffix_of-Tail rest s (inr e) = rw e

media_type-part : (v part : Bytes) → Cut b';' (trim v) part → media_type v ≡ trim part
unfolding media_type
media_type-part v part h = ap trim (Cut-first_part b';' (trim v) part h)

parse_complete : (v s : Bytes) → Names v s → parse_grpc_content_type v ≡ some s
unfolding parse_grpc_content_type
parse_complete v s n =
    let media : media_type v ≡ trim n.part = media_type-part v n.part n.before in
    let sixteen : length n.head ≡ 16 = cc (length-lower n.head, n.is_grpc) in
    let cut : get_prefix 16 (media_type v) ≡ some n.head =
      ap (get_prefix 16) (media ∙ n.whole)
      ∙ subst (λ k. get_prefix k (n.head ++ n.rest) ≡ some n.head) sixteen
          (get_prefix-append n.head n.rest (starts_plus n.rest s n.tail)) in
    let tail : drop 16 (media_type v) ≡ n.rest =
      ap (drop 16) (media ∙ n.whole)
      ∙ subst (λ k. drop k (n.head ++ n.rest) ≡ n.rest) sixteen (drop-append_left n.head n.rest) in
    rw (cut, (eq_ignore-prefix n.head).1 n.is_grpc, tail) (suffix_of-Tail n.rest s n.tail)

-- A content type is accepted with a suffix exactly if the part of the trimmed value before its first
-- `;`, or the whole of it where there is none, trimmed again, is `application/grpc` in any case with
-- `+` and that suffix, or alone with the suffix `proto`.
pub parse_grpc_content_type_iff : (v s : Bytes) → (parse_grpc_content_type v ≡ some s) ↔ Names v s
parse_grpc_content_type_iff v s = (parse_sound v s, parse_complete v s)
