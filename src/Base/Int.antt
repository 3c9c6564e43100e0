-- ===== src/Base/Int.antt =====
-- Signed integers over the native numbers, and 64-bit two's complement.
use Prim.Native.Nat.{ℕ, suc, ◌+◌, ◌-◌, ◌%◌, ◌^◌, ◌≤◌, ◌<◌}
use mathlib.Core.Path.{◌≡◌, ap}
use mathlib.Core.Bool.{Bool, true, false}
use native.Mathlib.Omega.{arith}
use pg_redis.Base.Tests.{ltb, leb, ◌==◌, if◌then◌else◌}

-- `negsuc n` is -(n + 1).
pub data ℤ : Type 0 where
  pos : ℕ → ℤ
  negsuc : ℕ → ℤ

abbrev pub pos_part : ℤ → ℕ
pos_part (pos n) = n
pos_part (negsuc n) = 0

abbrev pub neg_part : ℤ → ℕ
neg_part (pos n) = 0
neg_part (negsuc n) = suc n

-- a - b, as an integer.
abbrev pub sub_ℕ : ℕ → ℕ → ℤ
sub_ℕ a b = if leb b a then pos (a - b) else negsuc (b - a - 1)

infixl 65 ◌+ℤ◌ ◌-ℤ◌
infix 50 ◌≤ℤ◌ ◌<ℤ◌
unfoldable pub ◌+ℤ◌ : ℤ → ℤ → ℤ
a +ℤ b = sub_ℕ (pos_part a + pos_part b) (neg_part a + neg_part b)

unfoldable pub ◌-ℤ◌ : ℤ → ℤ → ℤ
a -ℤ b = sub_ℕ (pos_part a + neg_part b) (neg_part a + pos_part b)

abbrev pub ◌≤ℤ◌ : ℤ → ℤ → Type 0
a ≤ℤ b = pos_part a + neg_part b ≤ pos_part b + neg_part a

abbrev pub ◌<ℤ◌ : ℤ → ℤ → Type 0
a <ℤ b = pos_part a + neg_part b < pos_part b + neg_part a

abbrev pub ltb_ℤ : ℤ → ℤ → Bool
ltb_ℤ a b = ltb (pos_part a + neg_part b) (pos_part b + neg_part a)

abbrev pub eq_ℤ : ℤ → ℤ → Bool
eq_ℤ (pos m) (pos n) = m == n
eq_ℤ (negsuc m) (negsuc n) = m == n
eq_ℤ (pos _) (negsuc _) = false
eq_ℤ (negsuc _) (pos _) = false

pub eq_ℤ_refl : (a : ℤ) → eq_ℤ a a ≡ true
eq_ℤ_refl (pos n) = ground arith
eq_ℤ_refl (negsuc n) = ground arith

pub eq_ℤ→≡ : (a b : ℤ) → eq_ℤ a b ≡ true → a ≡ b
eq_ℤ→≡ (pos m) (pos n) h = let z : m ≡ n = ground arith in ap pos z
eq_ℤ→≡ (negsuc m) (negsuc n) h = let z : m ≡ n = ground arith in ap negsuc z
eq_ℤ→≡ (pos m) (negsuc n) h = absurd cc
eq_ℤ→≡ (negsuc m) (pos n) h = absurd cc

-- The values of an int64.
abbrev pub IsInt64 : ℤ → Type 0
IsInt64 (pos n) = n < 2 ^ 63
IsInt64 (negsuc n) = n < 2 ^ 63

-- `(uint64) v` and `(int64) u`, and the int64 value that a sum or difference wraps to.
unfoldable pub to_u64 : ℤ → ℕ
to_u64 (pos n) = n % 2 ^ 64
to_u64 (negsuc n) = 2 ^ 64 - 1 - n % 2 ^ 64

unfoldable pub of_u64 : ℕ → ℤ
of_u64 u = if ltb u (2 ^ 63) then pos u else negsuc (2 ^ 64 - 1 - u)

pub to_u64-lt : (v : ℤ) → to_u64 v < 2 ^ 64
unfolding to_u64
to_u64-lt (pos n) = omega arith
to_u64-lt (negsuc n) = omega arith

pub of_u64-to_u64 : (v : ℤ) → IsInt64 v → of_u64 (to_u64 v) ≡ v
unfolding to_u64 of_u64
of_u64-to_u64 (pos n) h = ground arith
of_u64-to_u64 (negsuc n) h = ground arith

pub to_u64-of_u64 : (u : ℕ) → u < 2 ^ 64 → to_u64 (of_u64 u) ≡ u
unfolding to_u64 of_u64
to_u64-of_u64 u h = ground arith

pub of_u64-IsInt64 : (u : ℕ) → u < 2 ^ 64 → IsInt64 (of_u64 u)
unfolding of_u64
of_u64-IsInt64 u h = ground arith
