-- ===== src/Base/Int.antt =====
-- Signed integers over the native numbers, under the library's name: the values of the `sint32`
-- fields of the requests and of the `int` variables computed from them.
use Prim.Native.Nat.{ℕ}

-- `negsuc n` is -(n + 1).
pub data ℤ : Type 0 where
  pos : ℕ → ℤ
  negsuc : ℕ → ℤ
