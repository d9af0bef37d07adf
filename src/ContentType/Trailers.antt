-- ===== src/ContentType/Trailers.antt =====
-- When the `te` header of src/content_type.rs asks for trailers.
use trillium_grpc.Prelude.{
  Bool, List, Bytes, any, contains, beq, beq_refl, beq→eq, Bool-cases, ◌↔◌, some, ◌≡◌, refl, ◌∙◌,
  ap, sym, true, [], ◌∷◌, codes, unwrap_or, arith, Option-cases, inl, inr,
}
use trillium_grpc.Text.Ascii.{split, trim, eq_ignore_ascii_case}
use trillium_grpc.Text.Utf8.{is_utf8}
use trillium_grpc.Deps.{HeadersApi}
use trillium_grpc.ContentType.{has_te_trailers, has_trailers, is_trailers}

module _ ⦃api : HeadersApi⦄ where
  has_trailers_lem : has_trailers (codes "trailers") ≡ true
  unfolding has_trailers is_trailers split trim eq_ignore_ascii_case is_utf8
  has_trailers_lem = rw (has_trailers, api.as_str_text (codes "trailers") refl) refl

  -- A request whose only `te` value is `trailers` asks for them.
  pub has_te_trailers_lem :
      (h : api.Headers)
      → unwrap_or (api.get_values h (codes "te")) [] ≡ codes "trailers" ∷ []
      → has_te_trailers h ≡ true
  unfolding has_te_trailers
  has_te_trailers_lem h e = elim (Option-cases (api.get_values h (codes "te"))) [
    | inl missing ↦ absurd (ground (arith, missing, e))
    | inr (values, found) ↦
        let only : values ≡ codes "trailers" ∷ [] = ap (λ o. unwrap_or o []) (sym found) ∙ e in
        rw (has_te_trailers, found, only, has_trailers_lem) refl
  ]

any-found :
    (p : Bytes → Bool) (xs : List Bytes)
    → any p xs ≡ true
    → (x : Bytes) × (contains xs x ≡ true) × (p x ≡ true)
any-found p [] h = absurd (ground (arith, h))
any-found p (x ∷ xs) h = elim (Bool-cases (p x)) [
  | inl here ↦ (x, ground (arith, beq_refl x), here)
  | inr other ↦
      let (y, at, good) = any-found p xs (ground (arith, h, other)) in (y, ground (arith, at), good)
]

any-from :
    (p : Bytes → Bool) (xs : List Bytes) (x : Bytes)
    → contains xs x ≡ true
    → p x ≡ true
    → any p xs ≡ true
any-from p [] x at good = absurd (ground (arith, at))
any-from p (y ∷ xs) x at good = elim (Bool-cases (beq y x)) [
  | inl same ↦ let here : p y ≡ true = ap p (beq→eq y x same) ∙ good in ground (arith, here)
  | inr other ↦ ground (arith, any-from p xs x (ground (arith, at, other)) good)
]

module _ ⦃api : HeadersApi⦄ where
  -- One value of `te` is text, and one of its parts between commas is, in any case and in white space,
  -- `trailers`.
  abbrev pub AsksTrailers : api.Headers → Type 0
  AsksTrailers h =
      (values : List Bytes) × (api.get_values h (codes "te") ≡ some values)
      × (value : Bytes) × (contains values value ≡ true)
      × (text : Bytes) × (api.as_str value ≡ some text)
      × (tok : Bytes) × (contains (split b',' text) tok ≡ true)
      × (eq_ignore_ascii_case (trim tok) (codes "trailers") ≡ true)

  text_asks :
      (value text : Bytes)
      → api.as_str value ≡ some text
      → has_trailers value ≡ any is_trailers (split b',' text)
  unfolding has_trailers
  text_asks value text e = rw (has_trailers, e) refl

  asks : (h : api.Headers) → has_te_trailers h ≡ true → AsksTrailers h
  unfolding has_te_trailers has_trailers is_trailers
  asks h e = elim (Option-cases (api.get_values h (codes "te"))) [
    | inl missing ↦ absurd (ground (arith, missing, e))
    | inr (values, found) ↦
        let (value, at, good) = any-found has_trailers values (ground (arith, found, e)) in
        elim (Option-cases (api.as_str value)) [
          | inl binary ↦ absurd (ground (arith, binary, good))
          | inr (text, read) ↦
              let (tok, part, named) =
                any-found is_trailers (split b',' text) (sym (text_asks value text read) ∙ good) in
              (values, found, value, at, text, read, tok, part, named)
        ]
  ]

  asked : (h : api.Headers) → AsksTrailers h → has_te_trailers h ≡ true
  unfolding has_te_trailers is_trailers
  asked h (values, found, value, at, text, read, tok, part, named) =
      rw (has_te_trailers, found)
        (any-from has_trailers values value at
          (text_asks value text read ∙ any-from is_trailers (split b',' text) tok part named))

  pub has_te_trailers_iff : (h : api.Headers) → (has_te_trailers h ≡ true) ↔ AsksTrailers h
  has_te_trailers_iff h = (asks h, asked h)
