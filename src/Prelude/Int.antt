-- ===== src/Prelude/Int.antt =====
-- Signed integers over the native numbers, with Rust's division, which rounds towards zero.
use Prim.Native.Nat.{ℕ, zero, suc, ◌/◌, ◌%◌}

-- `negsuc n` is -(n + 1).
pub data ℤ : Type 0 where
  pos : ℕ → ℤ
  negsuc : ℕ → ℤ

-- The integer -n.
abbrev pub neg : ℕ → ℤ
neg zero = pos 0
neg (suc n) = negsuc n

-- `a / b` and `a % b` for a divisor that is not zero; the remainder has the sign of `a`.
infixl 70 ◌/ℤ◌ ◌%ℤ◌
unfoldable pub ◌/ℤ◌ : ℤ → ℤ → ℤ
pos a /ℤ pos b = pos (a / b)
pos a /ℤ negsuc b = neg (a / suc b)
negsuc a /ℤ pos b = neg (suc a / b)
negsuc a /ℤ negsuc b = pos (suc a / suc b)

unfoldable pub ◌%ℤ◌ : ℤ → ℤ → ℤ
pos a %ℤ pos b = pos (a % b)
pos a %ℤ negsuc b = pos (a % suc b)
negsuc a %ℤ pos b = neg (suc a % b)
negsuc a %ℤ negsuc b = neg (suc a % suc b)
