-- ===== src/Prelude/Strings.antt =====
-- Text and byte strings. A Rust `str`, `String`, `[u8]` or `Bytes` is the list of its bytes.
use Prim.Native.Nat.{ℕ, ◌<◌}
use Prim.Native.Char.{code}
use Prim.Native.String.{String}
use mathlib.Core.Path.{◌≡◌, refl}
use mathlib.Core.Logic.{◌↔◌}
use mathlib.Core.Bool.{Bool, true, false, ◌&&◌, ◌||◌}
use mathlib.Core.List.{List, [], ◌∷◌}
use native.Mathlib.Omega.{arith}
use trillium_grpc.Prelude.Tests.{◌==◌}
use trillium_grpc.Prelude.Lists.{All}

abbrev pub Bytes : Type 0
Bytes = List ℕ

-- A `u8` is a number below 256.
abbrev pub IsBytes : Bytes → Type 0
IsBytes = All (λ b. b < 256)

-- The bytes of an ASCII literal.
abbrev pub codes : String → Bytes
codes String.[] = []
codes (String.◌∷◌ c s) = code c ∷ codes s

abbrev pub beq : Bytes → Bytes → Bool
beq [] [] = true
beq [] (y ∷ ys) = false
beq (x ∷ xs) [] = false
beq (x ∷ xs) (y ∷ ys) = x == y && beq xs ys

-- `s.starts_with(p)` and `s.ends_with(p)`.
abbrev pub starts_with : Bytes → Bytes → Bool
starts_with s [] = true
starts_with [] (p ∷ ps) = false
starts_with (c ∷ s) (p ∷ ps) = c == p && starts_with s ps

abbrev pub ends_with : Bytes → Bytes → Bool
ends_with [] p = beq [] p
ends_with (c ∷ s) p = beq (c ∷ s) p || ends_with s p

-- `v.contains(&x)` on a list of texts.
abbrev pub contains : List Bytes → Bytes → Bool
contains [] x = false
contains (y ∷ ys) x = beq y x || contains ys x

pub beq_refl : (s : Bytes) → beq s s ≡ true
beq_refl [] = refl
beq_refl (x ∷ xs) = ground (arith, beq_refl xs)

pub beq→eq : (s t : Bytes) → beq s t ≡ true → s ≡ t
beq→eq [] [] h = refl
beq→eq [] (y ∷ ys) h = cc
beq→eq (x ∷ xs) [] h = cc
beq→eq (x ∷ xs) (y ∷ ys) h = ground (arith, beq→eq xs ys)

pub eq→beq : (s t : Bytes) → s ≡ t → beq s t ≡ true
eq→beq s t e = cc (beq_refl t, e)

pub beq_iff : (s t : Bytes) → (beq s t ≡ true) ↔ (s ≡ t)
beq_iff s t = (beq→eq s t, eq→beq s t)
