-- ===== src/Common/Int.antt =====
-- Python's integers, where a value of the source can be negative.
use mathlib.Core.Bool.{Bool, true, false}
use Prim.Native.Nat.{ℕ, zero, suc, ◌+◌, ◌-◌, ◌*◌, ◌%◌, bit_and}
use zamlet.Common.Tests.{ltb, leb, ◌==◌, if◌then◌else◌}

-- `negsuc n` is -(n + 1).
pub data ℤ : Type 0 where
  pos : ℕ → ℤ
  negsuc : ℕ → ℤ

-- a - b, as an integer.
abbrev pub sub_ℕ : ℕ → ℕ → ℤ
sub_ℕ a b = if leb b a then pos (a - b) else negsuc (b - a - 1)

-- a - b, for an integer b.
abbrev pub sub_ℤ : ℕ → ℤ → ℤ
sub_ℤ a (pos b) = sub_ℕ a b
sub_ℤ a (negsuc b) = pos (a + suc b)

-- a + b, for an integer b.
abbrev pub add_ℤ : ℕ → ℤ → ℤ
add_ℤ a (pos b) = pos (a + b)
add_ℤ a (negsuc b) = sub_ℕ a (suc b)

-- `x & mask` for a mask that is not negative: -(n + 1) has the bits that n has not.
abbrev pub int_and : ℤ → ℕ → ℕ
int_and (pos n) mask = bit_and n mask
int_and (negsuc n) mask = mask - bit_and n mask

abbrev pub magnitude : ℤ → ℕ
magnitude (pos n) = n
magnitude (negsuc n) = suc n

-- -n
abbrev pub neg_ℕ : ℕ → ℤ
neg_ℕ zero = pos 0
neg_ℕ (suc n) = negsuc n

infixl 70 ◌*ℤ◌
abbrev pub ◌*ℤ◌ : ℤ → ℤ → ℤ
pos a *ℤ pos b = pos (a * b)
pos a *ℤ negsuc b = neg_ℕ (a * suc b)
negsuc a *ℤ pos b = neg_ℕ (suc a * b)
negsuc a *ℤ negsuc b = pos (suc a * suc b)

abbrev pub lt_ℤ : ℤ → ℤ → Bool
lt_ℤ (pos a) (pos b) = ltb a b
lt_ℤ (pos a) (negsuc b) = false
lt_ℤ (negsuc a) (pos b) = true
lt_ℤ (negsuc a) (negsuc b) = ltb b a

abbrev pub le_ℤ : ℤ → ℤ → Bool
le_ℤ (pos a) (pos b) = leb a b
le_ℤ (pos a) (negsuc b) = false
le_ℤ (negsuc a) (pos b) = true
le_ℤ (negsuc a) (negsuc b) = leb b a

-- `a % b == 0`, where `b` is not zero.
abbrev pub divides_ℤ : ℤ → ℤ → Bool
divides_ℤ a b = magnitude a % magnitude b == 0
