-- ===== src/Base/Int.antt =====
-- Signed integers over the native numbers.
use Prim.Native.Nat.{ℕ, min, max}

-- `negsuc n` is -(n + 1).
pub data ℤ : Type 0 where
  pos : ℕ → ℤ
  negsuc : ℕ → ℤ

abbrev pub pos_part : ℤ → ℕ
pos_part (pos n) = n
pos_part (negsuc n) = 0

abbrev pub min_ℤ : ℤ → ℤ → ℤ
min_ℤ (pos m) (pos n) = pos (min m n)
min_ℤ (pos m) (negsuc n) = negsuc n
min_ℤ (negsuc m) (pos n) = negsuc m
min_ℤ (negsuc m) (negsuc n) = negsuc (max m n)
