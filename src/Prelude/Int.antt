-- ===== src/Prelude/Int.antt =====
-- Signed integers over the native numbers. The `int` fields of the program stay far from the
-- limits of 32 bits, so they are kept as integers.
use Prim.Native.Nat.{ℕ, suc, ◌+◌, ◌-◌}
use mathlib.Core.Path.{◌≡◌}
use mathlib.Core.Bool.{Bool, true, false}
use native.Mathlib.Omega.{arith}
use crocks.Prelude.Tests.{ltb, leb, ◌==◌, if◌then◌else◌}

-- `negsuc n` is -(n + 1).
pub data ℤ : Type 0 where
  pos : ℕ → ℤ
  negsuc : ℕ → ℤ

abbrev pub pos_part : ℤ → ℕ
pos_part (pos n) = n
pos_part (negsuc n) = 0

abbrev pub neg_part : ℤ → ℕ
neg_part (pos n) = 0
neg_part (negsuc n) = suc n

abbrev pub sub_ℕ : ℕ → ℕ → ℤ
sub_ℕ a b = if leb b a then pos (a - b) else negsuc (b - a - 1)

infixl 65 ◌+ℤ◌ ◌-ℤ◌
unfoldable pub ◌+ℤ◌ : ℤ → ℤ → ℤ
a +ℤ b = sub_ℕ (pos_part a + pos_part b) (neg_part a + neg_part b)

unfoldable pub ◌-ℤ◌ : ℤ → ℤ → ℤ
a -ℤ b = sub_ℕ (pos_part a + neg_part b) (neg_part a + pos_part b)

-- a < 0 and 0 < a
abbrev pub is_neg : ℤ → Bool
is_neg a = ltb 0 (neg_part a)

abbrev pub is_zero : ℤ → Bool
is_zero (pos k) = k == 0
is_zero (negsuc k) = false

abbrev pub is_pos : ℤ → Bool
is_pos a = ltb 0 (pos_part a)

pub +ℤ_parts :
    (a b : ℤ)
    → pos_part (a +ℤ b) + neg_part a + neg_part b ≡ neg_part (a +ℤ b) + pos_part a + pos_part b
unfolding ◌+ℤ◌
+ℤ_parts a b = ground arith

pub -ℤ_parts :
    (a b : ℤ)
    → pos_part (a -ℤ b) + neg_part a + pos_part b ≡ neg_part (a -ℤ b) + pos_part a + neg_part b
unfolding ◌-ℤ◌
-ℤ_parts a b = ground arith

-- Adding or taking one, by the sign.
pub add_one_neg :
    (a : ℤ)
    → is_neg a ≡ true
    → (pos_part (a +ℤ pos 1) ≡ 0) × (neg_part (a +ℤ pos 1) + 1 ≡ neg_part a)
unfolding ◌+ℤ◌
add_one_neg a h = ground arith

pub sub_one_pos :
    (a : ℤ)
    → is_pos a ≡ true
    → (neg_part (a -ℤ pos 1) ≡ 0) × (pos_part (a -ℤ pos 1) + 1 ≡ pos_part a)
unfolding ◌-ℤ◌
sub_one_pos a h = ground arith

pub pos-add_one : (n : ℕ) → pos n +ℤ pos 1 ≡ pos (n + 1)
unfolding ◌+ℤ◌
pos-add_one n = ground arith

pub pos-sub_one : (n : ℕ) → pos (n + 1) -ℤ pos 1 ≡ pos n
unfolding ◌-ℤ◌
pos-sub_one n = ground arith

pub eq_of_parts : (a b : ℤ) → pos_part a + neg_part b ≡ pos_part b + neg_part a → a ≡ b
eq_of_parts a b h = ground arith
