-- ===== src/Metadata/Invariant.antt =====
-- What `insert_ascii` and `insert_binary` of src/metadata.rs accept and keep.
use trillium_grpc.Prelude.{
  unwrap_or, Option, ◌≡◌, refl, Bool, true, false, List, [], ◌∷◌, ◌++◌, some, Bytes, codes, arith,
  beq_refl, ends_with, Result, ok, err, All, All-append, IsBytes, ◌↔◌,
}
use trillium_grpc.Metadata.{
  MetadataValue, ascii, binary, Entry, Metadata, insert_ascii, insert_binary, get_ascii, get_binary,
  find_ascii, find_binary, check_ascii, check_binary, push_if,
}
use trillium_grpc.Metadata.Key.{
  MetadataError, validate_key, is_valid_key, is_valid_ascii_value, is_reserved,
}

abbrev pub is_binary : MetadataValue → Bool
is_binary (ascii s) = false
is_binary (binary b) = true

-- A key that belongs to the user, whose suffix says which kind of value it holds.
pub record IsKeyed (e : Entry) : Type 0 where
  pub is_valid : is_valid_key e.0 ≡ true
  pub is_free : is_reserved e.0 ≡ false
  pub suffix : ends_with e.0 (codes "-bin") ≡ is_binary e.1

abbrev pub IsSendable : MetadataValue → Type 0
IsSendable (ascii s) = is_valid_ascii_value s ≡ true
IsSendable (binary b) = IsBytes b

abbrev pub IsGood : Entry → Type 0
IsGood e = IsKeyed e × IsSendable e.1

abbrev pub IsWellFormed : Metadata → Type 0
IsWellFormed m = All IsGood m.entries

check_ascii-IsGood : (k v : Bytes) → check_ascii k v ≡ ok tt → IsGood (k, ascii v)
unfolding check_ascii validate_key
check_ascii-IsGood k v h = ground arith

check_binary-IsGood : (k v : Bytes) → IsBytes v → check_binary k ≡ ok tt → IsGood (k, binary v)
unfolding check_binary validate_key
check_binary-IsGood k v b h = ground arith

push_if-IsWellFormed :
    (r : Result MetadataError (Unit {0})) (m : Metadata) (e : Entry)
    → IsWellFormed m
    → (r ≡ ok tt → IsGood e)
    → IsWellFormed (push_if r m e).0
unfolding push_if
push_if-IsWellFormed (ok tt) m e h g = All-append IsGood m.entries (e ∷ []) h (g refl, tt)
push_if-IsWellFormed (err x) m e h g = h

-- Both inserts, accepted or rejected, keep metadata well-formed: every key is valid, is not
-- reserved and ends in `-bin` exactly if its value is binary, and every text value is printable.
pub insert-IsWellFormed :
    (m : Metadata) (k v : Bytes)
    → IsWellFormed m
    → IsBytes v
    → IsWellFormed (insert_ascii m k v).0 × IsWellFormed (insert_binary m k v).0
unfolding insert_ascii insert_binary
insert-IsWellFormed m k v h b = (
  push_if-IsWellFormed (check_ascii k v) m (k, ascii v) h (check_ascii-IsGood k v),
  push_if-IsWellFormed (check_binary k) m (k, binary v) h (check_binary-IsGood k v b),
)

push_if-entries :
    (r : Result MetadataError (Unit {0})) (m : Metadata) (e : Entry)
    → (push_if r m e).0.entries
      ≡ elim (push_if r m e).1 [ ok _ ↦ m.entries ++ e ∷ [] | err x ↦ m.entries ]
unfolding push_if
push_if-entries (ok tt) m e = refl
push_if-entries (err x) m e = refl

-- `insert_ascii` succeeds exactly on a valid, unreserved key with no `-bin` suffix and a printable
-- value, `insert_binary` exactly on a valid, unreserved key with that suffix; success appends the
-- entry, and an error leaves the metadata as it was.
pub insert_accepts :
    (m : Metadata) (k v : Bytes)
    → (((insert_ascii m k v).1 ≡ ok tt) ↔ (
        (is_valid_key k ≡ true)
        × (is_reserved k ≡ false)
        × (ends_with k (codes "-bin") ≡ false)
        × (is_valid_ascii_value v ≡ true)))
      × (((insert_binary m k v).1 ≡ ok tt) ↔ (
          (is_valid_key k ≡ true) × (is_reserved k ≡ false) × (ends_with k (codes "-bin") ≡ true)))
      × ((insert_ascii m k v).0.entries ≡ elim (insert_ascii m k v).1 [
        | ok _ ↦ m.entries ++ (k, ascii v) ∷ []
        | err e ↦ m.entries
      ])
      × ((insert_binary m k v).0.entries ≡ elim (insert_binary m k v).1 [
        | ok _ ↦ m.entries ++ (k, binary v) ∷ []
        | err e ↦ m.entries
      ])
unfolding insert_ascii insert_binary validate_key
insert_accepts m k v = (
  (λ h. ground arith, λ h. ground arith),
  (λ h. ground arith, λ h. ground arith),
  push_if-entries _ m (k, ascii v),
  push_if-entries _ m (k, binary v),
)

find_ascii-append :
    (k v : Bytes) (es : List Entry)
    → find_ascii k (es ++ (k, ascii v) ∷ []) ≡ some (unwrap_or (find_ascii k es) v)
unfolding find_ascii
find_ascii-append k v [] = rw beq_refl
find_ascii-append k v ((j, ascii s) ∷ es) = ground (arith, find_ascii-append k v es)
find_ascii-append k v ((j, binary b) ∷ es) = find_ascii-append k v es

find_binary-append :
    (k v : Bytes) (es : List Entry)
    → find_binary k (es ++ (k, binary v) ∷ []) ≡ some (unwrap_or (find_binary k es) v)
unfolding find_binary
find_binary-append k v [] = rw beq_refl
find_binary-append k v ((j, ascii s) ∷ es) = find_binary-append k v es
find_binary-append k v ((j, binary b) ∷ es) = ground (arith, find_binary-append k v es)

-- What a lookup finds once a value was added behind the others, or was refused.
abbrev pub found_after : Option Bytes → Bytes → Result MetadataError (Unit {0}) → Option Bytes
found_after before v (ok _) = some (unwrap_or before v)
found_after before v (err e) = before

get_ascii-push_if :
    (r : Result MetadataError (Unit {0})) (m : Metadata) (k v : Bytes)
    → get_ascii (push_if r m (k, ascii v)).0 k
      ≡ found_after (get_ascii m k) v (push_if r m (k, ascii v)).1
unfolding push_if get_ascii
get_ascii-push_if (ok tt) m k v = find_ascii-append k v m.entries
get_ascii-push_if (err x) m k v = refl

get_binary-push_if :
    (r : Result MetadataError (Unit {0})) (m : Metadata) (k v : Bytes)
    → get_binary (push_if r m (k, binary v)).0 k
      ≡ found_after (get_binary m k) v (push_if r m (k, binary v)).1
unfolding push_if get_binary
get_binary-push_if (ok tt) m k v = find_binary-append k v m.entries
get_binary-push_if (err x) m k v = refl

-- After an insert the lookup under that key finds the value that was there first: the one found
-- before, if there was one, and otherwise the one inserted, if the insert succeeded.
pub get-insert :
    (m : Metadata) (k v : Bytes)
    → (get_ascii (insert_ascii m k v).0 k ≡ found_after (get_ascii m k) v (insert_ascii m k v).1)
      × (get_binary (insert_binary m k v).0 k
          ≡ found_after (get_binary m k) v (insert_binary m k v).1)
unfolding insert_ascii insert_binary
get-insert m k v = (get_ascii-push_if _ m k v, get_binary-push_if _ m k v)
