-- ===== src/Base/Words.antt =====
-- Integers of the C code: signed counts, and the wrap-around of the unsigned types.
use Prim.Native.Nat.{ℕ, ◌%◌, ◌^◌}

-- `negsuc n` is -(n + 1).
pub data ℤ : Type 0 where
  pos : ℕ → ℤ
  negsuc : ℕ → ℤ

abbrev pub u8 : ℕ → ℕ
u8 n = n % 256

abbrev pub u16 : ℕ → ℕ
u16 n = n % 65536

abbrev pub u64 : ℕ → ℕ
u64 n = n % 2 ^ 64
