-- ===== src/Base/Int.antt =====
-- Signed integers over the native numbers, and the wrap-around of a Go int64.
use Prim.Native.Nat.{ℕ, suc, ◌+◌, ◌-◌, ◌%◌, ◌≤◌, ◌<◌}
use mathlib.Core.Path.{◌≡◌}
use mathlib.Core.Bool.{Bool}
use native.Mathlib.Omega.{arith}
use native.Mathlib.Decide.{ℕ_discrete}
use nakamato_blockchain.Base.Tests.{ltb, leb, holds, if◌then◌else◌}

-- `negsuc n` is -(n + 1).
pub data ℤ : Type 0 where
  pos : ℕ → ℤ
  negsuc : ℕ → ℤ

unfoldable pub ℤ-discrete : Discrete ℤ
unfolding ℕ_discrete
ℤ-discrete = hlevel ℕ_discrete

abbrev pub pos_part : ℤ → ℕ
pos_part (pos n) = n
pos_part (negsuc n) = 0

abbrev pub neg_part : ℤ → ℕ
neg_part (pos n) = 0
neg_part (negsuc n) = suc n

-- a - b, as an integer.
abbrev pub sub_ℕ : ℕ → ℕ → ℤ
sub_ℕ a b = if leb b a then pos (a - b) else negsuc (b - a - 1)

infixl 65 ◌+ℤ◌ ◌-ℤ◌
infix 50 ◌≤ℤ◌
unfoldable pub ◌+ℤ◌ : ℤ → ℤ → ℤ
a +ℤ b = sub_ℕ (pos_part a + pos_part b) (neg_part a + neg_part b)

unfoldable pub ◌-ℤ◌ : ℤ → ℤ → ℤ
a -ℤ b = sub_ℕ (pos_part a + neg_part b) (neg_part a + pos_part b)

abbrev pub ◌≤ℤ◌ : ℤ → ℤ → Type 0
a ≤ℤ b = pos_part a + neg_part b ≤ pos_part b + neg_part a

abbrev pub ltb_ℤ : ℤ → ℤ → Bool
ltb_ℤ a b = ltb (pos_part a + neg_part b) (pos_part b + neg_part a)

abbrev pub leb_ℤ : ℤ → ℤ → Bool
leb_ℤ a b = leb (pos_part a + neg_part b) (pos_part b + neg_part a)

abbrev pub eq_ℤ : ℤ → ℤ → Bool
eq_ℤ a b = holds (ℤ-discrete a b)

-- With these the operations can stay shut.
pub +ℤ_parts :
    (a b : ℤ)
    → pos_part (a +ℤ b) + neg_part a + neg_part b ≡ neg_part (a +ℤ b) + pos_part a + pos_part b
unfolding ◌+ℤ◌
+ℤ_parts a b = ground arith

pub -ℤ_parts :
    (a b : ℤ)
    → pos_part (a -ℤ b) + neg_part a + pos_part b ≡ neg_part (a -ℤ b) + pos_part a + neg_part b
unfolding ◌-ℤ◌
-ℤ_parts a b = ground arith

pub eq_of_parts : (a b : ℤ) → pos_part a + neg_part b ≡ pos_part b + neg_part a → a ≡ b
eq_of_parts a b h = ground arith

pub ruleset int_laws = (arith, +ℤ_parts, -ℤ_parts, eq_of_parts)

-- 2 ^ 63 and 2 ^ 64.
abbrev pub int64_half : ℕ
int64_half = 9223372036854775808

abbrev pub int64_modulus : ℕ
int64_modulus = 18446744073709551616

-- The int64 that stands for an integer: two's complement, modulo 2 ^ 64.
unfoldable pub wrap64 : ℤ → ℤ
wrap64 (pos n) = sub_ℕ ((n + int64_half) % int64_modulus) int64_half
wrap64 (negsuc n) = sub_ℕ (int64_modulus - 1 - (n + int64_half) % int64_modulus) int64_half

-- The values of an int64.
abbrev pub IsInt64 : ℤ → Type 0
IsInt64 z = (pos_part z < int64_half) × (neg_part z ≤ int64_half)

pub wrap64_id : (z : ℤ) → IsInt64 z → wrap64 z ≡ z
unfolding wrap64
wrap64_id (pos n) h = ground arith
wrap64_id (negsuc n) h = ground arith

pub wrap64-IsInt64 : (z : ℤ) → IsInt64 (wrap64 z)
unfolding wrap64
wrap64-IsInt64 (pos n) = ground arith
wrap64-IsInt64 (negsuc n) = ground arith

-- Wrapping early or late makes no difference.
pub wrap64-add_pos : (m n : ℕ) → wrap64 (wrap64 (pos m) +ℤ pos n) ≡ wrap64 (pos (m + n))
unfolding wrap64 ◌+ℤ◌
wrap64-add_pos m n = ground arith

pub wrap64-pos_injective :
    (m n : ℕ) → wrap64 (pos m) ≡ wrap64 (pos n) → m % int64_modulus ≡ n % int64_modulus
unfolding wrap64
wrap64-pos_injective m n h = ground arith

-- 2 ^ 31 and 2 ^ 32.
abbrev pub int32_half : ℕ
int32_half = 2147483648

abbrev pub int32_modulus : ℕ
int32_modulus = 4294967296

-- `int32(z)`
unfoldable pub wrap32 : ℤ → ℤ
wrap32 (pos n) = sub_ℕ ((n + int32_half) % int32_modulus) int32_half
wrap32 (negsuc n) = sub_ℕ (int32_modulus - 1 - (n + int32_half) % int32_modulus) int32_half

abbrev pub IsInt32 : ℤ → Type 0
IsInt32 z = (pos_part z < int32_half) × (neg_part z ≤ int32_half)

pub wrap32_id : (z : ℤ) → IsInt32 z → wrap32 z ≡ z
unfolding wrap32
wrap32_id (pos n) h = ground arith
wrap32_id (negsuc n) h = ground arith
