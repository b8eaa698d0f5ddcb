-- ===== src/Proto/Crc.antt =====
-- `crc16Modbus` of proto/FrameCodec.cc: CRC16-MODBUS, polynomial 0xA001, initial value 0xFFFF.
pub mod Laws
use Prim.Native.Nat.{bit_and, bit_xor}
use chassis_host.Common.{ℕ, zero, suc, ◌/◌, ◌^◌, List, [], ◌∷◌, u16, ◌==◌, if◌then◌else◌}

-- One round of the loop over the bits.
pub crc_bit : ℕ → ℕ
crc_bit crc = if bit_and crc 1 == 0 then u16 (crc / 2 ^ 1) else u16 (bit_xor (crc / 2 ^ 1) 0xA001)

-- The rounds that are left of the loop over the bits.
pub crc_bits : ℕ → ℕ → ℕ
crc_bits zero crc = crc
crc_bits (suc n) crc = crc_bits n (crc_bit crc)

-- The loop over the bytes.
pub crc_bytes : ℕ → List ℕ → ℕ
crc_bytes crc [] = crc
crc_bytes crc (b ∷ bs) = crc_bytes (crc_bits 8 (bit_xor crc b)) bs

unfoldable pub crc16_modbus : List ℕ → ℕ
unfolding crc_bit crc_bits crc_bytes
crc16_modbus bytes = crc_bytes 0xFFFF bytes
