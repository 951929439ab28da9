-- ===== src/Prelude/Int.antt =====
-- Go's signed integers: the unbounded integers over the native numbers, their orders, and the
-- range and the wrap-around of `int` and `int64` (64 bits).
use Prim.Native.Nat.{ℕ, suc, ◌+◌, ◌-◌, ◌*◌, ◌%◌, ◌≤◌}
use mathlib.Core.Bool.{Bool, true}
use mathlib.Core.Path.{◌≡◌}
use native.Mathlib.Omega.{arith}
use usage_viewer.Prelude.Tests.{ltb, leb, ◌==◌, if◌then◌else◌}

-- `negsuc n` is -(n + 1).
pub data ℤ : Type 0 where
  pos : ℕ → ℤ
  negsuc : ℕ → ℤ

abbrev pub pos_part : ℤ → ℕ
pos_part (pos n) = n
pos_part (negsuc n) = 0

abbrev pub neg_part : ℤ → ℕ
neg_part (pos n) = 0
neg_part (negsuc n) = suc n

abbrev pub sub_ℕ : ℕ → ℕ → ℤ
sub_ℕ a b = if leb b a then pos (a - b) else negsuc (b - a - 1)

infix 50 ◌≤ℤ◌
abbrev pub ◌≤ℤ◌ : ℤ → ℤ → Type 0
a ≤ℤ b = pos_part a + neg_part b ≤ pos_part b + neg_part a

abbrev pub ltb_ℤ : ℤ → ℤ → Bool
ltb_ℤ a b = ltb (pos_part a + neg_part b) (pos_part b + neg_part a)

abbrev pub leb_ℤ : ℤ → ℤ → Bool
leb_ℤ a b = leb (pos_part a + neg_part b) (pos_part b + neg_part a)

abbrev pub eqb_ℤ : ℤ → ℤ → Bool
eqb_ℤ a b = (pos_part a + neg_part b) == (pos_part b + neg_part a)

infixl 65 ◌-ℤ◌ ◌+ℤ◌
infixl 70 ◌*ℤ◌
abbrev pub ◌-ℤ◌ : ℤ → ℤ → ℤ
a -ℤ b = sub_ℕ (pos_part a + neg_part b) (neg_part a + pos_part b)

abbrev pub ◌+ℤ◌ : ℤ → ℤ → ℤ
a +ℤ b = sub_ℕ (pos_part a + pos_part b) (neg_part a + neg_part b)

abbrev pub ◌*ℤ◌ : ℤ → ℤ → ℤ
a *ℤ b =
    sub_ℕ (pos_part a * pos_part b + neg_part a * neg_part b)
      (pos_part a * neg_part b + neg_part a * pos_part b)

abbrev pub max_int64 : ℕ
max_int64 = 9223372036854775807

-- The 64-bit pattern of an integer, and the integer that a pattern stands for.
abbrev pub pattern64 : ℤ → ℕ
pattern64 (pos n) = n % 18446744073709551616
pattern64 (negsuc n) = 18446744073709551615 - n % 18446744073709551616

abbrev pub signed64 : ℕ → ℤ
signed64 n = if ltb n 9223372036854775808 then pos n else negsuc (18446744073709551615 - n)

-- What an `int64` operation with the exact result `a` stores.
abbrev pub wrap64 : ℤ → ℤ
wrap64 a = signed64 (pattern64 a)

pub eqb_ℤ→eq : (a b : ℤ) → eqb_ℤ a b ≡ true → a ≡ b
eqb_ℤ→eq a b h = ground arith

pub wrap64-pos : (n : ℕ) → n ≤ max_int64 → wrap64 (pos n) ≡ pos n
wrap64-pos n h = ground arith
