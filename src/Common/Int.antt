-- ===== src/Common/Int.antt =====
-- Signed integers over the native numbers, and the two's complement reading of a bit pattern.
use Prim.Native.Nat.{ℕ, ◌-◌}
use chassis_host.Common.Tests.{ltb, if◌then◌else◌}

-- `negsuc n` is -(n + 1).
pub data ℤ : Type 0 where
  pos : ℕ → ℤ
  negsuc : ℕ → ℤ

-- The number that a pattern of 16 or 32 bits stands for as int16_t or int32_t.
abbrev pub signed16 : ℕ → ℤ
signed16 w = if ltb w 0x8000 then pos w else negsuc (0x10000 - w - 1)

abbrev pub signed32 : ℕ → ℤ
signed32 w = if ltb w 0x8000_0000 then pos w else negsuc (0x1_0000_0000 - w - 1)
