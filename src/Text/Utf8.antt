-- ===== src/Text/Utf8.antt =====
-- UTF-8: `String::from_utf8` and `String::from_utf8_lossy`, as automata over the bytes.
use trillium_grpc.Prelude.{
  ℕ, zero, suc, ◌≡◌, refl, Bool, true, false, [], ◌∷◌, ◌++◌, Option, none, some, arith, Bytes, ltb,
  in_range, ◌==◌, if◌then◌else◌, All, ◌<◌,
}

-- What the next byte may be: the start of a character, or a byte between two bounds with so many
-- continuation bytes behind it.
pub data Expect : Type 0 where
  start : Expect
  more : ℕ → ℕ → ℕ → Expect

after : ℕ → Expect
after zero = start
after (suc n) = more 0x80 0xBF n

lead : ℕ → Option Expect
lead c =
    if ltb c 0x80
    then some start
    else if in_range 0xC2 0xDF c
    then some (more 0x80 0xBF 0)
    else if c == 0xE0
    then some (more 0xA0 0xBF 1)
    else if c == 0xED
    then some (more 0x80 0x9F 1)
    else if in_range 0xE1 0xEF c
    then some (more 0x80 0xBF 1)
    else if c == 0xF0
    then some (more 0x90 0xBF 2)
    else if in_range 0xF1 0xF3 c
    then some (more 0x80 0xBF 2)
    else if c == 0xF4
    then some (more 0x80 0x8F 2)
    else none

advance : Expect → ℕ → Option Expect
unfolding lead after
advance start c = lead c
advance (more lo hi left) c = if in_range lo hi c then some (after left) else none

valid_from : Expect → Bytes → Bool
valid_from start [] = true
valid_from (more lo hi left) [] = false
valid_from e (c ∷ s) = elim (advance e c) [ none ↦ false | some e' ↦ valid_from e' s ]

unfoldable pub is_utf8 : Bytes → Bool
unfolding valid_from advance
is_utf8 s = valid_from start s

-- `String::from_utf8`.
unfoldable pub from_utf8 : Bytes → Option Bytes
unfolding is_utf8
from_utf8 s = if is_utf8 s then some s else none

-- U+FFFD.
abbrev replacement : Bytes
replacement = 0xEF ∷ 0xBF ∷ 0xBD ∷ []

-- The output of one byte, the automaton's next state and the bytes of the character in progress.
settle : Expect → Bytes → Bytes × Expect × Bytes
settle start held = (held, start, [])
settle (more lo hi left) held = ([], more lo hi left, held)

restart : Bytes → ℕ → Bytes × Expect × Bytes
unfolding lead settle
restart out c = elim (lead c) [
  | none ↦ (out ++ replacement, start, [])
  | some e ↦ let (o, e', held) = settle e (c ∷ []) in (out ++ o, e', held)
]

lossy_step : Expect → Bytes → ℕ → Bytes × Expect × Bytes
unfolding restart after settle
lossy_step start held c = restart [] c
lossy_step (more lo hi left) held c =
    if in_range lo hi c then settle (after left) (held ++ c ∷ []) else restart replacement c

lossy_from : Expect → Bytes → Bytes → Bytes
unfolding lossy_step
lossy_from start held [] = []
lossy_from (more lo hi left) held [] = replacement
lossy_from e held (c ∷ s) =
    let (out, e', held') = lossy_step e held c in out ++ lossy_from e' held' s

-- `String::from_utf8_lossy`: each maximal ill-formed part becomes one U+FFFD.
unfoldable pub from_utf8_lossy : Bytes → Bytes
unfolding lossy_from
from_utf8_lossy s = lossy_from start [] s

accepts : is_utf8 (b'c' ∷ 0xC3 ∷ 0xA9 ∷ 0xF0 ∷ 0x9F ∷ 0x8E ∷ 0x89 ∷ []) ≡ true
unfolding is_utf8
accepts = refl

replaces :
    from_utf8_lossy (b'a' ∷ 0xE2 ∷ 0x82 ∷ b'b' ∷ 0xFF ∷ [])
    ≡ b'a' ∷ replacement ++ b'b' ∷ replacement
unfolding from_utf8_lossy
replaces = refl

-- ASCII text is UTF-8.
pub ascii-is_utf8 : (s : Bytes) → All (λ c. c < 0x80) s → is_utf8 s ≡ true
unfolding is_utf8
ascii-is_utf8 [] h = refl
ascii-is_utf8 (c ∷ s) h = ground (arith, ascii-is_utf8 s h.1)
