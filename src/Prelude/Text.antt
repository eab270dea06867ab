-- ===== src/Prelude/Text.antt =====
-- Go strings and byte slices: lists of byte values, with Go's comparison and `TrimSpace`.
use Prim.Native.Nat.{ℕ, compare, Ordering}
use Prim.Native.Char.{code}
use Prim.Native.String.{String}
use mathlib.Core.Path.{◌≡◌, refl}
use mathlib.Core.Logic.{◌↔◌}
use mathlib.Core.Bool.{Bool, true, false, ◌&&◌, ◌||◌}
use mathlib.Core.List.{List, [], ◌∷◌, reverse}
use native.Mathlib.Omega.{arith}
use uni_chat_sdk.Prelude.Tests.{leb, eqb, if◌then◌else◌}

abbrev pub Bytes : Type 0
Bytes = List ℕ

-- The bytes of an ASCII literal.
abbrev pub text : String → Bytes
text String.[] = []
text (String.◌∷◌ c s) = code c ∷ text s

infix 50 ◌==◌
unfoldable pub ◌==◌ : Bytes → Bytes → Bool
[] == [] = true
[] == (y ∷ ys) = false
(x ∷ xs) == [] = false
(x ∷ xs) == (y ∷ ys) = eqb x y && (xs == ys)

pub ==_iff : (a b : Bytes) → ((a == b) ≡ true) ↔ (a ≡ b)
unfolding ◌==◌
==_iff [] [] = ground arith
==_iff [] (y ∷ ys) = ground arith
==_iff (x ∷ xs) [] = ground arith
==_iff (x ∷ xs) (y ∷ ys) = ground (arith, ==_iff xs ys)

pub ==_refl : (a : Bytes) → (a == a) ≡ true
==_refl a = (==_iff a a).1 refl

-- strings.Compare: -1, 0 and 1 are `lt`, `eq` and `gt`.
unfoldable pub compare_bytes : Bytes → Bytes → Ordering
compare_bytes [] [] = Ordering.eq
compare_bytes [] (y ∷ ys) = Ordering.lt
compare_bytes (x ∷ xs) [] = Ordering.gt
compare_bytes (x ∷ xs) (y ∷ ys) = elim (compare x y) [
  | Ordering.lt ↦ Ordering.lt
  | Ordering.gt ↦ Ordering.gt
  | Ordering.eq ↦ compare_bytes xs ys
]

-- The white space of Go's `unicode.IsSpace` in UTF-8: one, two and three bytes.
pub space1 : ℕ → Bool
space1 a = (leb 9 a && leb a 13) || eqb a 32

pub space2 : ℕ → ℕ → Bool
space2 a b = eqb a 0xC2 && (eqb b 0x85 || eqb b 0xA0)

pub space3 : ℕ → ℕ → ℕ → Bool
space3 a b c =
    (eqb a 0xE1 && eqb b 0x9A && eqb c 0x80)
    || (eqb a 0xE2
        && eqb b 0x80
        && ((leb 0x80 c && leb c 0x8A) || eqb c 0xA8 || eqb c 0xA9 || eqb c 0xAF))
    || (eqb a 0xE2 && eqb b 0x81 && eqb c 0x9F)
    || (eqb a 0xE3 && eqb b 0x80 && eqb c 0x80)

-- Drops leading spaces, each found by the tests `t1`, `t2` and `t3` on its first bytes.
pub drop_spaces : (ℕ → Bool) → (ℕ → ℕ → Bool) → (ℕ → ℕ → ℕ → Bool) → Bytes → Bytes
drop_spaces t1 t2 t3 [] = []
drop_spaces t1 t2 t3 (a ∷ []) = if t1 a then [] else a ∷ []
drop_spaces t1 t2 t3 (a ∷ b ∷ []) =
    if t1 a then drop_spaces t1 t2 t3 (b ∷ []) else if t2 a b then [] else a ∷ b ∷ []
drop_spaces t1 t2 t3 (a ∷ b ∷ c ∷ s) = elim (t1 a) [
  | true ↦ drop_spaces t1 t2 t3 (b ∷ c ∷ s)
  | false ↦ elim (t2 a b) [
    | true ↦ drop_spaces t1 t2 t3 (c ∷ s)
    | false ↦ elim (t3 a b c) [ true ↦ drop_spaces t1 t2 t3 s | false ↦ a ∷ b ∷ c ∷ s ]
  ]
]

-- strings.TrimSpace and bytes.TrimSpace. The right end is trimmed on the reversed bytes.
unfoldable pub trim_space : Bytes → Bytes
unfolding drop_spaces space1 space2 space3
trim_space s = reverse (
    drop_spaces space1 (λ b a. space2 a b) (λ c b a. space3 a b c)
      (reverse (drop_spaces space1 space2 space3 s)))

trim_space_ascii : trim_space (text "  a b\n") ≡ text "a b"
unfolding trim_space
trim_space_ascii = refl

trim_space_blank : trim_space (0xE2 ∷ 0x80 ∷ 0x83 ∷ 9 ∷ 0xC2 ∷ 0xA0 ∷ []) ≡ []
unfolding trim_space
trim_space_blank = refl
