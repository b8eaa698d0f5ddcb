-- ===== src/Common/Words.antt =====
-- Casts to the unsigned widths of the source; a result is wrapped where it is stored.
use Prim.Native.Nat.{ℕ, ◌%◌, ◌^◌, ◌<◌}

abbrev pub u8 : ℕ → ℕ
u8 n = n % 2 ^ 8

abbrev pub u16 : ℕ → ℕ
u16 n = n % 2 ^ 16

abbrev pub u32 : ℕ → ℕ
u32 n = n % 2 ^ 32

abbrev pub u64 : ℕ → ℕ
u64 n = n % 2 ^ 64

-- A number that fits a uint8_t.
abbrev pub IsByte : ℕ → Type 0
IsByte b = b < 256
