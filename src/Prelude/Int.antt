-- ===== src/Prelude/Int.antt =====
-- Python's `int` where a program receives one that may be negative.
use Prim.Native.Nat.{ℕ, ◌≤◌, min}
use native.Mathlib.Omega.{arith}

-- `negsuc n` is -(n + 1).
pub data ℤ : Type 0 where
  pos : ℕ → ℤ
  negsuc : ℕ → ℤ

-- `min(max(n, 0), top)`
unfoldable pub clamp : ℕ → ℤ → ℕ
clamp top (pos n) = min n top
clamp top (negsuc n) = 0

pub clamp-le : (top : ℕ) (n : ℤ) → clamp top n ≤ top
unfolding clamp
clamp-le top (pos n) = omega arith
clamp-le top (negsuc n) = omega arith
