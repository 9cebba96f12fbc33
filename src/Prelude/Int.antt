-- ===== src/Prelude/Int.antt =====
-- Integers on the native numbers, for a C++ `int` that may become negative.
use Prim.Native.Nat.{ℕ, zero, suc}
use mathlib.Core.Bool.{Bool, true, false}

pub data ℤ : Type 0 where
  pos negsuc : ℕ → ℤ

-- `x--`
unfoldable pub pred : ℤ → ℤ
pred (pos zero) = negsuc 0
pred (pos (suc n)) = pos n
pred (negsuc n) = negsuc (suc n)

-- `x > 0`
unfoldable pub is_positive : ℤ → Bool
is_positive (pos zero) = false
is_positive (pos (suc n)) = true
is_positive (negsuc n) = false

-- `pos m` decremented `k` times.
unfoldable pub minus : ℕ → ℤ → ℤ
unfolding pred
minus zero x = x
minus (suc k) x = minus k (pred x)
