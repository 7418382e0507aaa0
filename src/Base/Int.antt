-- ===== src/Base/Int.antt =====
-- The `int` results of the C functions: a count, or a negative code.
use Prim.Native.Nat.{ℕ, zero, suc, ◌+◌, ◌-◌, ◌*◌}
use mathlib.Core.Path.{◌≡◌, refl}
use mathlib.Core.Bool.{Bool, true, false}
use native.Mathlib.Omega.{arith}
use modbusmq.Base.Tests.{leb, ◌==◌, if◌then◌else◌}

-- `negsuc n` is -(n + 1).
pub data ℤ : Type 0 where
  pos : ℕ → ℤ
  negsuc : ℕ → ℤ

-- a - b, as an integer.
abbrev pub sub_ℕ : ℕ → ℕ → ℤ
sub_ℕ a b = if leb b a then pos (a - b) else negsuc (b - a - 1)

-- `rc < 0`.
abbrev pub is_negative : ℤ → Bool
is_negative (pos n) = false
is_negative (negsuc n) = true

-- a + b.
unfoldable pub add_ℤ : ℕ → ℤ → ℤ
add_ℤ a (pos b) = pos (a + b)
add_ℤ a (negsuc b) = sub_ℕ a (b + 1)

-- a == b.
unfoldable pub is_ℕ : ℤ → ℕ → Bool
is_ℕ (pos a) b = a == b
is_ℕ (negsuc a) b = false

unfoldable pub neg_ℤ : ℤ → ℤ
neg_ℤ (pos zero) = pos zero
neg_ℤ (pos (suc n)) = negsuc n
neg_ℤ (negsuc n) = pos (suc n)

unfoldable pub plus_ℤ : ℤ → ℤ → ℤ
plus_ℤ (pos a) b = add_ℤ a b
plus_ℤ (negsuc a) (pos b) = sub_ℕ b (a + 1)
plus_ℤ (negsuc a) (negsuc b) = negsuc (a + b + 1)

-- a - b.
unfoldable pub sub_ℤ : ℤ → ℤ → ℤ
sub_ℤ a b = plus_ℤ a (neg_ℤ b)

-- a * b.
unfoldable pub scale_ℤ : ℕ → ℤ → ℤ
scale_ℤ a (pos b) = pos (a * b)
scale_ℤ zero (negsuc b) = pos zero
scale_ℤ (suc a) (negsuc b) = negsuc (suc a * suc b - 1)

pub is_ℕ-pos : (a b : ℕ) → is_ℕ (pos a) b ≡ (a == b)
unfolding is_ℕ
is_ℕ-pos a b = refl

pub is_ℕ-negsuc : (a b : ℕ) → is_ℕ (negsuc a) b ≡ false
unfolding is_ℕ
is_ℕ-negsuc a b = refl

-- What is left of `z` without `start` is `k` where `z` is `start + k`.
pub sub-is_ℕ : (z : ℤ) (start k : ℕ) → is_ℕ (sub_ℤ z (pos start)) k ≡ is_ℕ z (start + k)
unfolding is_ℕ sub_ℤ neg_ℤ plus_ℤ add_ℤ
sub-is_ℕ (pos a) zero k = ground arith
sub-is_ℕ (pos a) (suc s) k = ground arith
sub-is_ℕ (negsuc a) zero k = ground arith
sub-is_ℕ (negsuc a) (suc s) k = ground arith
