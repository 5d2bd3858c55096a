-- ===== src/Base/Ints.antt =====
-- Go's `int` as an index: a native number or a negative one.
use Prim.Native.Nat.{ℕ}

pub data ℤ : Type 0 where
  pos negsuc : ℕ → ℤ
