-- ===== src/Macros/Tree.antt =====
-- What the module tree of src/macros/src/lib.rs holds.
pub mod Files
pub mod Distinct
use trillium_grpc.Prelude.{
  ◌≡◌, refl, ap, ◌∙◌, sym, subst, Bool, true, false, [], ◌∷◌, List, Option, none, some, Bytes, beq,
  if◌then◌else◌, Result, ok, err, ◌>>=◌, arith, beq_refl, beq→eq, Bool-cases, inl, inr, and_then,
  unwrap_or, ◌&&◌,
}
use trillium_grpc.Macros.{
  ModTree, node, Children, empty, child, default_tree, lt_bytes, entry, set_contents, insert_at,
}

lt_bytes_trans : (a b c : Bytes) → lt_bytes a b ≡ true → lt_bytes b c ≡ true → lt_bytes a c ≡ true
lt_bytes_trans [] [] c h k = absurd (ground (arith, h))
lt_bytes_trans [] (y ∷ ys) [] h k = absurd (ground (arith, k))
lt_bytes_trans [] (y ∷ ys) (z ∷ zs) h k = refl
lt_bytes_trans (x ∷ xs) [] c h k = absurd (ground (arith, h))
lt_bytes_trans (x ∷ xs) (y ∷ ys) [] h k = absurd (ground (arith, k))
lt_bytes_trans (x ∷ xs) (y ∷ ys) (z ∷ zs) h k = ground (arith, lt_bytes_trans xs ys zs)

lt_bytes_irrefl : (a : Bytes) → lt_bytes a a ≡ false
lt_bytes_irrefl [] = refl
lt_bytes_irrefl (x ∷ xs) = ground (arith, lt_bytes_irrefl xs)

-- `BTreeMap::get`.
abbrev pub get : Bytes → Children → Option ModTree
get seg empty = none
get seg (child k t rest) =
    let later = get seg rest in if beq k seg then some t else if lt_bytes seg k then none else later

-- The contents of the module at the end of a path.
abbrev pub lookup : List Bytes → ModTree → Option Bytes
lookup [] (node children contents) = contents
lookup (seg ∷ segs) (node children contents) = and_then (get seg children) (lookup segs)

-- The entry that is changed: what is there, or the default.
abbrev get_or_default : Bytes → Children → ModTree
get_or_default seg empty = default_tree
get_or_default seg (child k t rest) =
    let later = get_or_default seg rest in
    if beq k seg then t else if lt_bytes seg k then default_tree else later

-- `BTreeMap::insert`.
abbrev put : Bytes → ModTree → Children → Children
put seg t empty = child seg t empty
put seg t (child k u rest) =
    let later = put seg t rest in
    if beq k seg
    then child k t rest
    else if lt_bytes seg k
    then child seg t (child k u rest)
    else child k u later

bind_ok :
    (r : Result Bytes ModTree) (f : ModTree → Children) (g : Children → Children)
    → ((r >>= λ t. ok (f t)) >>= λ cs. ok (g cs)) ≡ (r >>= λ t. ok (g (f t)))
bind_ok (ok t) f g = refl
bind_ok (err x) f g = refl

module _ (seg : Bytes) (change : ModTree → Result Bytes ModTree) where
  -- Changing an entry is to change what is there, or the default, and to put it back.
  entry-put :
      (cs : Children)
      → entry seg change cs ≡ (change (get_or_default seg cs) >>= λ t. ok (put seg t cs))
  unfolding entry
  entry-put empty = refl
  entry-put (child k u rest) = elim (Bool-cases (beq k seg)) [
    | inl here ↦ rw here refl
    | inr other ↦ elim (Bool-cases (lt_bytes seg k)) [
      | inl before ↦ rw (other, before) refl
      | inr after ↦
          rw (other, after)
            (ap (λ r. r >>= λ rest'. ok (child k u rest')) (entry-put rest)
              ∙ bind_ok (change (get_or_default seg rest)) (λ t. put seg t rest) (child k u))
    ]
  ]

get-put_same : (seg : Bytes) (t : ModTree) (cs : Children) → get seg (put seg t cs) ≡ some t
get-put_same seg t empty = ground (arith, beq_refl seg)
get-put_same seg t (child k u rest) = ground (arith, beq_refl seg, get-put_same seg t rest)

get-put_other :
    (seg j : Bytes) (t : ModTree) (cs : Children)
    → beq seg j ≡ false
    → get j (put seg t cs) ≡ get j cs
get-put_other seg j t empty ne = ground (arith, ne)
get-put_other seg j t (child k u rest) ne = ground (
  arith,
  ne,
  beq→eq k seg,
  beq→eq k j,
  lt_bytes_trans j seg k,
  lt_bytes_trans seg k seg,
  lt_bytes_irrefl seg,
  get-put_other seg j t rest ne,
)

get_or_default-get :
    (seg : Bytes) (cs : Children) → get_or_default seg cs ≡ unwrap_or (get seg cs) default_tree
get_or_default-get seg empty = refl
get_or_default-get seg (child k t rest) = ground (arith, get_or_default-get seg rest)

pub lookup-default : (segs : List Bytes) → lookup segs default_tree ≡ none
lookup-default [] = refl
lookup-default (seg ∷ segs) = refl

lookup-get :
    (seg : Bytes) (segs : List Bytes) (cs : Children) (c : Option Bytes)
    → lookup segs (get_or_default seg cs) ≡ lookup (seg ∷ segs) (node cs c)
lookup-get seg segs cs c = ap (lookup segs) (get_or_default-get seg cs) ∙ go (get seg cs)
  where
    go : (o : Option ModTree) → lookup segs (unwrap_or o default_tree) ≡ and_then o (lookup segs)
    go none = lookup-default segs
    go (some t) = refl

-- Whether two paths are the same.
abbrev pub same : List Bytes → List Bytes → Bool
same [] [] = true
same [] (y ∷ ys) = false
same (x ∷ xs) [] = false
same (x ∷ xs) (y ∷ ys) = beq x y && same xs ys

-- What an insertion at a path does to the tree: it fails exactly if there are contents already, and
-- otherwise the contents are found there and every other path is as it was.
abbrev pub Inserts : List Bytes → Bytes → ModTree → Option Bytes → Result Bytes ModTree → Type 0
Inserts segs content t (some old) r = (x : Bytes) × (r ≡ err x)
Inserts segs content t none r =
    (t' : ModTree) × (r ≡ ok t')
    × ((path : List Bytes)
        → lookup path t' ≡ (if same segs path then some content else lookup path t))

at_root :
    (content : Bytes) (cs : Children) (path : List Bytes)
    → lookup path (node cs (some content))
      ≡ (if same [] path then some content else lookup path (node cs none))
at_root content cs [] = refl
at_root content cs (j ∷ js) = refl

module _ (seg : Bytes) (segs : List Bytes) (content : Bytes) (cs : Children)
    (c : Option Bytes) where
  below :
      (t : ModTree)
      → ((path : List Bytes)
          → lookup path t
            ≡ (if same segs path then some content else lookup path (get_or_default seg cs)))
      → (path : List Bytes)
      → lookup path (node (put seg t cs) c)
        ≡ (if same (seg ∷ segs) path then some content else lookup path (node cs c))
  below t h [] = refl
  below t h (j ∷ js) = elim (Bool-cases (beq seg j)) [
    | inl here ↦
        let e : get j (put seg t cs) ≡ some t =
          ap (λ k. get k (put seg t cs)) (sym (beq→eq seg j here)) ∙ get-put_same seg t cs in
        ap (λ o. and_then o (lookup js)) e
        ∙ h js
        ∙ ap (λ o. if same segs js then some content else o)
            (lookup-get seg js cs c ∙ ap (λ k. lookup (k ∷ js) (node cs c)) (beq→eq seg j here))
        ∙ ap (λ b. if b && same segs js then some content else lookup (j ∷ js) (node cs c))
            (sym here)
    | inr there ↦
        ap (λ o. and_then o (lookup js)) (get-put_other seg j t cs there)
        ∙ ap (λ b. if b && same segs js then some content else lookup (j ∷ js) (node cs c))
            (sym there)
  ]

  put_back : Result Bytes ModTree → Result Bytes ModTree
  put_back r = (r >>= λ t. ok (put seg t cs)) >>= λ cs'. ok (node cs' c)

  descend :
      (o : Option Bytes) (r : Result Bytes ModTree)
      → Inserts segs content (get_or_default seg cs) o r
      → Inserts (seg ∷ segs) content (node cs c) o (put_back r)
  unfolding put_back
  descend (some old) r (x, e) = (x, ap put_back e)
  descend none r (t, e, h) = (node (put seg t cs) c, ap put_back e, below t h)

pub insert_at-Inserts :
    (d : Bytes) (segs : List Bytes) (content : Bytes) (t : ModTree)
    → Inserts segs content t (lookup segs t) (insert_at d segs content t)
unfolding insert_at set_contents put_back
insert_at-Inserts d [] content (node cs none) = (node cs (some content), refl, at_root content cs)
insert_at-Inserts d [] content (node cs (some old)) = (d, refl)
insert_at-Inserts d (seg ∷ segs) content (node cs c) =
    subst
      (λ r.
        Inserts (seg ∷ segs) content (node cs c) (lookup (seg ∷ segs) (node cs c))
          (r >>= λ cs'. ok (node cs' c)))
      (sym (entry-put seg (insert_at d segs content) cs))
      (subst
        (λ o.
          Inserts (seg ∷ segs) content (node cs c) o
            (put_back seg segs content cs c (insert_at d segs content (get_or_default seg cs))))
        (lookup-get seg segs cs c)
        (descend seg segs content cs c _ _
          (insert_at-Inserts d segs content (get_or_default seg cs))))
