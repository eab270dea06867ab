-- ===== src/Prelude/Compare.antt =====
-- `strings.Compare` is a linear order on byte strings.
use Prim.Native.Nat.{Ordering}
use mathlib.Core.Path.{◌≡◌, refl}
use mathlib.Core.List.{[], ◌∷◌}
use native.Mathlib.Omega.{arith}
use uni_chat_sdk.Prelude.Text.{Bytes, compare_bytes}

abbrev pub swap : Ordering → Ordering
swap Ordering.lt = Ordering.gt
swap Ordering.eq = Ordering.eq
swap Ordering.gt = Ordering.lt

-- The first comparison that is not equal decides.
abbrev pub and_then : Ordering → Ordering → Ordering
and_then Ordering.eq b = b
and_then a b = a

-- What two comparisons in a row say of the outer two: nothing where they disagree.
abbrev pub Chain : Ordering → Ordering → Ordering → Type 0
Chain Ordering.eq q r = r ≡ q
Chain Ordering.lt Ordering.gt r = Unit {0}
Chain Ordering.gt Ordering.lt r = Unit {0}
Chain p q r = r ≡ p

pub compare_bytes_refl : (a : Bytes) → compare_bytes a a ≡ Ordering.eq
unfolding compare_bytes
compare_bytes_refl [] = refl
compare_bytes_refl (x ∷ xs) = ground (arith, compare_bytes_refl xs)

pub compare_bytes-swap : (a b : Bytes) → compare_bytes b a ≡ swap (compare_bytes a b)
unfolding compare_bytes
compare_bytes-swap [] [] = refl
compare_bytes-swap [] (y ∷ ys) = refl
compare_bytes-swap (x ∷ xs) [] = refl
compare_bytes-swap (x ∷ xs) (y ∷ ys) = ground (arith, compare_bytes-swap xs ys)

pub eq_of_compare : (a b : Bytes) → compare_bytes a b ≡ Ordering.eq → a ≡ b
unfolding compare_bytes
eq_of_compare [] [] h = refl
eq_of_compare [] (y ∷ ys) h = ground arith
eq_of_compare (x ∷ xs) [] h = ground arith
eq_of_compare (x ∷ xs) (y ∷ ys) h = ground (arith, eq_of_compare xs ys)

pub compare_bytes-Chain :
    (a b c : Bytes) → Chain (compare_bytes a b) (compare_bytes b c) (compare_bytes a c)
unfolding compare_bytes
compare_bytes-Chain [] [] [] = refl
compare_bytes-Chain [] [] (z ∷ zs) = refl
compare_bytes-Chain [] (y ∷ ys) [] = tt
compare_bytes-Chain [] (y ∷ ys) (z ∷ zs) = ground arith
compare_bytes-Chain (x ∷ xs) [] [] = refl
compare_bytes-Chain (x ∷ xs) [] (z ∷ zs) = tt
compare_bytes-Chain (x ∷ xs) (y ∷ ys) [] = ground arith
compare_bytes-Chain (x ∷ xs) (y ∷ ys) (z ∷ zs) = ground (arith, compare_bytes-Chain xs ys zs)
