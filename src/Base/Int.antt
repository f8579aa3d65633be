-- ===== src/Base/Int.antt =====
-- The `int` results of the C functions: 0, small counts, and the error codes below 0.
use Prim.Native.Nat.{ℕ}

-- `negsuc n` is -(n + 1).
pub data ℤ : Type 0 where
  pos : ℕ → ℤ
  negsuc : ℕ → ℤ

abbrev pub success : ℤ
success = pos 0

abbrev pub failure : ℤ
failure = negsuc 0
