-- ===== src/Base/Int.antt =====
-- Go's int64 as an integer of any size that each operation wraps into range.
use Prim.Native.Nat.{ℕ, suc, ◌+◌, ◌-◌, ◌%◌, ◌^◌, ◌≤◌, ◌<◌}
use mathlib.Core.Path.{◌≡◌}
use mathlib.Core.Bool.{Bool, ◌&&◌}
use native.Mathlib.Omega.{arith}
use laundry_platform.Base.Tests.{ltb, leb, ◌==◌, if◌then◌else◌}

-- `negsuc n` is -(n + 1).
pub data ℤ : Type 0 where
  pos : ℕ → ℤ
  negsuc : ℕ → ℤ

abbrev pub pos_part : ℤ → ℕ
pos_part (pos n) = n
pos_part (negsuc n) = 0

abbrev pub neg_part : ℤ → ℕ
neg_part (pos n) = 0
neg_part (negsuc n) = suc n

-- a - b, as an integer.
abbrev pub sub_ℕ : ℕ → ℕ → ℤ
sub_ℕ a b = if leb b a then pos (a - b) else negsuc (b - a - 1)

infixl 65 ◌+ℤ◌ ◌-ℤ◌
infix 50 ◌≤ℤ◌
unfoldable pub ◌+ℤ◌ : ℤ → ℤ → ℤ
a +ℤ b = sub_ℕ (pos_part a + pos_part b) (neg_part a + neg_part b)

unfoldable pub ◌-ℤ◌ : ℤ → ℤ → ℤ
a -ℤ b = sub_ℕ (pos_part a + neg_part b) (neg_part a + pos_part b)

abbrev pub ◌≤ℤ◌ : ℤ → ℤ → Type 0
a ≤ℤ b = pos_part a + neg_part b ≤ pos_part b + neg_part a

abbrev pub leb_ℤ : ℤ → ℤ → Bool
leb_ℤ a b = leb (pos_part a + neg_part b) (pos_part b + neg_part a)

abbrev pub eqb_ℤ : ℤ → ℤ → Bool
eqb_ℤ a b = pos_part a + neg_part b == pos_part b + neg_part a

-- The 64-bit pattern of an integer, and the integer that a pattern stands for.
residue64 : ℤ → ℕ
residue64 (pos n) = n % 2 ^ 64
residue64 (negsuc n) = 2 ^ 64 - 1 - n % 2 ^ 64

signed64 : ℕ → ℤ
signed64 r = if ltb r (2 ^ 63) then pos r else negsuc (2 ^ 64 - 1 - r)

unfoldable pub wrap64 : ℤ → ℤ
unfolding residue64 signed64
wrap64 z = signed64 (residue64 z)

-- int64 addition and subtraction.
infixl 65 ◌+₆₄◌ ◌-₆₄◌
unfoldable pub ◌+₆₄◌ : ℤ → ℤ → ℤ
unfolding ◌+ℤ◌ wrap64
a +₆₄ b = wrap64 (a +ℤ b)

unfoldable pub ◌-₆₄◌ : ℤ → ℤ → ℤ
unfolding ◌-ℤ◌ wrap64
a -₆₄ b = wrap64 (a -ℤ b)

abbrev pub IsInt64 : ℤ → Type 0
IsInt64 a = (pos_part a < 2 ^ 63) × (neg_part a ≤ 2 ^ 63)

pub wrap64-IsInt64 : (z : ℤ) → IsInt64 (wrap64 z)
unfolding wrap64
wrap64-IsInt64 z = ground arith

pub wrap64-eq : (z : ℤ) → IsInt64 z → wrap64 z ≡ z
unfolding wrap64
wrap64-eq z h = ground arith

-- The Boolean test of `IsInt64`.
unfoldable pub fits64 : ℤ → Bool
fits64 a = ltb (pos_part a) (2 ^ 63) && leb (neg_part a) (2 ^ 63)

pub +₆₄-eq : (a b : ℤ) → IsInt64 (a +ℤ b) → a +₆₄ b ≡ a +ℤ b
unfolding ◌+₆₄◌
+₆₄-eq a b h = wrap64-eq (a +ℤ b) h

pub -₆₄-eq : (a b : ℤ) → IsInt64 (a -ℤ b) → a -₆₄ b ≡ a -ℤ b
unfolding ◌-₆₄◌
-₆₄-eq a b h = wrap64-eq (a -ℤ b) h
