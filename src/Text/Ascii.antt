-- ===== src/Text/Ascii.antt =====
-- ASCII case, trimming and splitting of `str`.
use mathlib.Core.List.{reverse}
use trillium_grpc.Prelude.{
  ℕ, ◌+◌, ◌≡◌, refl, Bool, true, ◌&&◌, ◌||◌, List, [], ◌∷◌, ◌++◌, map, Option, none, some, Bytes,
  codes, beq, leb, in_range, ◌==◌, if◌then◌else◌, get_or, length, take, ltb,
}

unfoldable pub to_lower : ℕ → ℕ
to_lower c = if in_range b'A' b'Z' c then c + 32 else c

unfoldable pub to_ascii_lowercase : Bytes → Bytes
unfolding to_lower
to_ascii_lowercase = map to_lower

unfoldable pub eq_ignore_ascii_case : Bytes → Bytes → Bool
unfolding to_ascii_lowercase
eq_ignore_ascii_case s t = beq (to_ascii_lowercase s) (to_ascii_lowercase t)

unfoldable pub is_ascii_digit : ℕ → Bool
is_ascii_digit = in_range b'0' b'9'

-- U+0009 to U+000D and the space.
unfoldable pub is_space : ℕ → Bool
is_space c = in_range 9 13 c || c == 32

-- The white space that UTF-8 writes in two bytes (U+0085, U+00A0) and in three (U+1680, U+2000 to
-- U+200A, U+2028, U+2029, U+202F, U+205F, U+3000).
is_wide2 : ℕ → ℕ → Bool
is_wide2 a b = a == 0xC2 && (b == 0x85 || b == 0xA0)

is_wide3 : ℕ → ℕ → ℕ → Bool
is_wide3 a b c =
    (a == 0xE1 && b == 0x9A && c == 0x80)
    || (a == 0xE2 && b == 0x80 && (in_range 0x80 0x8A c || c == 0xA8 || c == 0xA9 || c == 0xAF))
    || (a == 0xE2 && b == 0x81 && c == 0x9F)
    || (a == 0xE3 && b == 0x80 && c == 0x80)

unfoldable pub trim_start : Bytes → Bytes
unfolding is_space is_wide2 is_wide3
trim_start [] = []
trim_start (a ∷ []) = if is_space a then [] else a ∷ []
trim_start (a ∷ b ∷ []) =
    let one = trim_start (b ∷ []) in
    if is_space a then one else if is_wide2 a b then [] else a ∷ b ∷ []
trim_start (a ∷ b ∷ c ∷ s) =
    let one = trim_start (b ∷ c ∷ s) in
    let two = trim_start (c ∷ s) in
    let three = trim_start s in
    if is_space a
    then one
    else if is_wide2 a b
    then two
    else if is_wide3 a b c
    then three
    else a ∷ b ∷ c ∷ s

-- The same from the end, on the reversed text.
trim_rev : Bytes → Bytes
unfolding is_space is_wide2 is_wide3
trim_rev [] = []
trim_rev (a ∷ []) = if is_space a then [] else a ∷ []
trim_rev (b ∷ a ∷ []) =
    let one = trim_rev (a ∷ []) in
    if is_space b then one else if is_wide2 a b then [] else b ∷ a ∷ []
trim_rev (c ∷ b ∷ a ∷ s) =
    let one = trim_rev (b ∷ a ∷ s) in
    let two = trim_rev (a ∷ s) in
    let three = trim_rev s in
    if is_space c
    then one
    else if is_wide2 b c
    then two
    else if is_wide3 a b c
    then three
    else c ∷ b ∷ a ∷ s

unfoldable pub trim_end : Bytes → Bytes
unfolding trim_rev
trim_end s = reverse (trim_rev (reverse s))

unfoldable pub trim : Bytes → Bytes
unfolding trim_start trim_end
trim s = trim_end (trim_start s)

-- `s.split(sep)`: the parts in order, one at least.
split_from : ℕ → Bytes → Bytes → List Bytes
split_from sep part [] = part ∷ []
split_from sep part (c ∷ s) =
    let cut = split_from sep [] s in
    let go = split_from sep (part ++ c ∷ []) s in if c == sep then part ∷ cut else go

unfoldable pub split : ℕ → Bytes → List Bytes
unfolding split_from
split sep s = split_from sep [] s

-- `s.split(sep).next()`.
unfoldable pub first_part : ℕ → Bytes → Bytes
first_part sep [] = []
first_part sep (c ∷ s) = if c == sep then [] else c ∷ first_part sep s

-- `parts.join(sep)`.
unfoldable pub join : Bytes → List Bytes → Bytes
join sep [] = []
join sep (p ∷ []) = p
join sep (p ∷ q ∷ ps) = p ++ sep ++ join sep (q ∷ ps)

-- `s.is_char_boundary(n)` and `s.get(..n)`.
unfoldable pub is_char_boundary : ℕ → Bytes → Bool
is_char_boundary n s =
    if n == length s
    then true
    else ltb n (length s) && (ltb (get_or s n 0) 0x80 || leb 0xC0 (get_or s n 0))

unfoldable pub get_prefix : ℕ → Bytes → Option Bytes
unfolding is_char_boundary
get_prefix n s = if is_char_boundary n s then some (take n s) else none

trims : trim (codes "  a b ") ≡ codes "a b"
unfolding trim
trims = refl

splits : split b',' (codes "a,,b") ≡ codes "a" ∷ [] ∷ codes "b" ∷ []
unfolding split
splits = refl
