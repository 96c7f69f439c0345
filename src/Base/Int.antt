-- ===== src/Base/Int.antt =====
-- Go's signed and unsigned 64-bit integers, over the native numbers.
use Prim.Native.Nat.{ℕ, suc, ◌+◌, ◌-◌, ◌*◌, ◌/◌, ◌%◌, ◌^◌, ◌≤◌, ◌<◌}
use mathlib.Core.Path.{◌≡◌}
use mathlib.Core.Bool.{Bool, true, ◌&&◌}
use native.Mathlib.Omega.{arith}
use omnicore_proxy.Base.Tests.{ltb, leb, ◌==◌, if◌then◌else◌}

-- `negsuc n` is -(n + 1).
pub data ℤ : Type 0 where
  pos : ℕ → ℤ
  negsuc : ℕ → ℤ

abbrev pub pos_part : ℤ → ℕ
pos_part (pos n) = n
pos_part (negsuc n) = 0

abbrev pub neg_part : ℤ → ℕ
neg_part (pos n) = 0
neg_part (negsuc n) = suc n

-- a - b, as an integer.
abbrev pub sub_ℕ : ℕ → ℕ → ℤ
sub_ℕ a b = if leb b a then pos (a - b) else negsuc (b - a - 1)

infixl 65 ◌+ℤ◌ ◌-ℤ◌
infixl 70 ◌*ℤ◌
infix 50 ◌≤ℤ◌ ◌<ℤ◌
abbrev pub ◌+ℤ◌ : ℤ → ℤ → ℤ
a +ℤ b = sub_ℕ (pos_part a + pos_part b) (neg_part a + neg_part b)

abbrev pub ◌-ℤ◌ : ℤ → ℤ → ℤ
a -ℤ b = sub_ℕ (pos_part a + neg_part b) (neg_part a + pos_part b)

abbrev pub ◌*ℤ◌ : ℤ → ℕ → ℤ
pos n *ℤ k = pos (n * k)
negsuc n *ℤ k = sub_ℕ 0 (suc n * k)

abbrev pub ◌≤ℤ◌ : ℤ → ℤ → Type 0
a ≤ℤ b = pos_part a + neg_part b ≤ pos_part b + neg_part a

abbrev pub ◌<ℤ◌ : ℤ → ℤ → Type 0
a <ℤ b = pos_part a + neg_part b < pos_part b + neg_part a

abbrev pub ltb_ℤ : ℤ → ℤ → Bool
ltb_ℤ a b = ltb (pos_part a + neg_part b) (pos_part b + neg_part a)

abbrev pub leb_ℤ : ℤ → ℤ → Bool
leb_ℤ a b = leb (pos_part a + neg_part b) (pos_part b + neg_part a)

abbrev pub eqb_ℤ : ℤ → ℤ → Bool
eqb_ℤ a b = pos_part a == pos_part b && neg_part a == neg_part b

-- Go's integer division by a positive number rounds towards zero.
abbrev pub quot_ℤ : ℤ → ℕ → ℤ
quot_ℤ (pos n) k = pos (n / k)
quot_ℤ (negsuc n) k = sub_ℕ 0 (suc n / k)

-- `int64(x)` of a 64-bit pattern.
abbrev pub signed : ℕ → ℤ
signed m = if ltb m (2 ^ 63) then pos m else negsuc (2 ^ 64 - m - 1)

-- `uint64(x)` of a signed number.
abbrev pub unsigned : ℤ → ℕ
unsigned (pos n) = n % 2 ^ 64
unsigned (negsuc n) = 2 ^ 64 - 1 - n % 2 ^ 64

-- The result of a signed 64-bit operation: the exact one, wrapped around.
abbrev pub wrap : ℤ → ℤ
wrap a = signed (unsigned a)

-- The values of an int64.
abbrev pub IsInt64 : ℤ → Type 0
IsInt64 a = (pos_part a < 2 ^ 63) × (neg_part a ≤ 2 ^ 63)

pub wrap_exact : (a : ℤ) → IsInt64 a → wrap a ≡ a
wrap_exact (pos n) h = ground arith
wrap_exact (negsuc n) h = ground arith

pub wrap-IsInt64 : (a : ℤ) → IsInt64 (wrap a)
wrap-IsInt64 (pos n) = ground arith
wrap-IsInt64 (negsuc n) = ground arith

pub eqb_ℤ_eq : (a b : ℤ) → eqb_ℤ a b ≡ true → a ≡ b
eqb_ℤ_eq a b h = ground arith

pub eqb_ℤ_refl : (a : ℤ) → eqb_ℤ a a ≡ true
eqb_ℤ_refl a = ground arith
