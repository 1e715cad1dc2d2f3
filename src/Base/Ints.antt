-- ===== src/Base/Ints.antt =====
-- Signed integers over the native numbers, and Go's 64-bit `int` with its wrap-around.
use Prim.Native.Nat.{ℕ, suc, ◌+◌, ◌-◌, ◌*◌, ◌/◌, ◌%◌, ◌^◌, ◌≤◌, ◌<◌}
use mathlib.Core.Path.{◌≡◌, refl}
use mathlib.Core.Bool.{Bool, false, ◌&&◌}
use native.Mathlib.Omega.{arith}
use bff_api_go_collection_ac.Base.Tests.{ltb, leb, if◌then◌else◌}

-- `negsuc n` is -(n + 1).
pub data ℤ : Type 0 where
  pos : ℕ → ℤ
  negsuc : ℕ → ℤ

abbrev pub pos_part : ℤ → ℕ
pos_part (pos n) = n
pos_part (negsuc n) = 0

abbrev pub neg_part : ℤ → ℕ
neg_part (pos n) = 0
neg_part (negsuc n) = suc n

abbrev pub sub_ℕ : ℕ → ℕ → ℤ
sub_ℕ a b = if leb b a then pos (a - b) else negsuc (b - a - 1)

infixl 65 ◌+ℤ◌ ◌-ℤ◌
infixl 70 ◌*ℤ◌
unfoldable pub ◌+ℤ◌ : ℤ → ℤ → ℤ
a +ℤ b = sub_ℕ (pos_part a + pos_part b) (neg_part a + neg_part b)

unfoldable pub ◌-ℤ◌ : ℤ → ℤ → ℤ
a -ℤ b = sub_ℕ (pos_part a + neg_part b) (neg_part a + pos_part b)

unfoldable pub ◌*ℤ◌ : ℤ → ℤ → ℤ
a *ℤ b =
    sub_ℕ (pos_part a * pos_part b + neg_part a * neg_part b)
      (pos_part a * neg_part b + neg_part a * pos_part b)

-- Go's `/`, which rounds towards zero, for a positive divisor: the program has no other.
unfoldable pub quot : ℤ → ℤ → ℤ
quot a b = sub_ℕ (pos_part a / (pos_part b + neg_part b)) (neg_part a / (pos_part b + neg_part b))

infix 50 ◌≤ℤ◌
abbrev pub ◌≤ℤ◌ : ℤ → ℤ → Type 0
a ≤ℤ b = pos_part a + neg_part b ≤ pos_part b + neg_part a

abbrev pub ltb_ℤ : ℤ → ℤ → Bool
ltb_ℤ a b = ltb (pos_part a + neg_part b) (pos_part b + neg_part a)

abbrev pub eqb_ℤ : ℤ → ℤ → Bool
eqb_ℤ (pos a) (pos b) = leb a b && leb b a
eqb_ℤ (negsuc a) (negsuc b) = leb a b && leb b a
eqb_ℤ _ _ = false

-- The int64 that has the same low 64 bits.
unfoldable pub wrap : ℤ → ℤ
wrap (pos n) = let m = n % 2 ^ 64 in if ltb m (2 ^ 63) then pos m else negsuc (2 ^ 64 - m - 1)
wrap (negsuc n) = let m = n % 2 ^ 64 in if ltb m (2 ^ 63) then negsuc m else pos (2 ^ 64 - m - 1)

abbrev pub IsInt : ℤ → Type 0
IsInt z = (pos_part z < 2 ^ 63) × (neg_part z ≤ 2 ^ 63)

-- Every result of an operation on `int` is an int64, and one that fits is not changed.
pub wrap-IsInt : (z : ℤ) → IsInt (wrap z)
unfolding wrap
wrap-IsInt (pos n) = ground arith
wrap-IsInt (negsuc n) = ground arith

pub wrap_of_IsInt : (z : ℤ) → IsInt z → wrap z ≡ z
unfolding wrap
wrap_of_IsInt (pos n) h = ground arith
wrap_of_IsInt (negsuc n) h = ground arith

wrap_test : wrap (pos (2 ^ 63)) ≡ negsuc (2 ^ 63 - 1)
unfolding wrap
wrap_test = refl

pub wrap-pos : (n : ℕ) → n < 2 ^ 63 → wrap (pos n) ≡ pos n
wrap-pos n h = wrap_of_IsInt (pos n) (h, omega arith)

pub pos-add : (a b : ℕ) → pos a +ℤ pos b ≡ pos (a + b)
unfolding ◌+ℤ◌
pos-add a b = ground arith

pub pos-sub : (a b : ℕ) → b ≤ a → pos a -ℤ pos b ≡ pos (a - b)
unfolding ◌-ℤ◌
pos-sub a b h = ground arith

pub pos-mul : (a b : ℕ) → pos a *ℤ pos b ≡ pos (a * b)
unfolding ◌*ℤ◌
pos-mul a b = ground arith

pub pos-quot : (a b : ℕ) → quot (pos a) (pos b) ≡ pos (a / b)
unfolding quot
pos-quot a b = ground arith
