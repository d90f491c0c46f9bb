-- ===== src/Shared/Int.antt =====
-- Signed integers over the native numbers, under the library's names.
use Prim.Native.Nat.{ℕ, min, max}
use mathlib.Core.Bool.{Bool, false}
use b.Shared.Tests.{◌==◌}

-- `negsuc n` is -(n + 1).
pub data ℤ : Type 0 where
  pos : ℕ → ℤ
  negsuc : ℕ → ℤ

-- `i.clamp(lo, hi)` for `0 <= lo <= hi`
abbrev pub clamp : ℤ → ℕ → ℕ → ℕ
clamp (pos n) lo hi = min (max n lo) hi
clamp (negsuc n) lo hi = lo

-- `n == i` of a number that is not negative
abbrev pub same_int : ℕ → ℤ → Bool
same_int n (pos m) = n == m
same_int n (negsuc m) = false
