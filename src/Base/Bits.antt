-- ===== src/Base/Bits.antt =====
-- Unsigned words as native numbers: the range operators of `ap_uint`, and `int` comparison.
-- `x(hi, lo)` is `get_range hi lo x`, and `x(hi, lo) = v` is `set_range hi lo x v`.
use Prim.Native.Nat.{ℕ, ◌+◌, ◌-◌, ◌*◌, ◌/◌, ◌%◌, ◌^◌}
use mathlib.Core.Bool.{Bool}
use accl.Base.Tests.{ltb}

abbrev pub get_range : ℕ → ℕ → ℕ → ℕ
get_range hi lo x = x / 2 ^ lo % 2 ^ (hi + 1 - lo)

abbrev pub set_range : ℕ → ℕ → ℕ → ℕ → ℕ
set_range hi lo x v = x % 2 ^ lo + v % 2 ^ (hi + 1 - lo) * 2 ^ lo + x / 2 ^ (hi + 1) * 2 ^ (hi + 1)

-- The values that an `ap_uint<8>`, `ap_uint<16>` and so on keeps of a number.
abbrev pub u8 : ℕ → ℕ
u8 x = x % 2 ^ 8

abbrev pub u16 : ℕ → ℕ
u16 x = x % 2 ^ 16

abbrev pub u32 : ℕ → ℕ
u32 x = x % 2 ^ 32

-- `a < b` for two 32-bit patterns read as `int`.
abbrev pub slt32 : ℕ → ℕ → Bool
slt32 a b = ltb ((a + 2 ^ 31) % 2 ^ 32) ((b + 2 ^ 31) % 2 ^ 32)
