-- ===== src/Proto/Frame.antt =====
-- `Frame` and `packFrame` of proto/FrameCodec: the framing
-- `AA 55 | type | len | seq | payload | crc16_lo crc16_hi`.
use Prim.Native.Nat.{bit_and}
use chassis_host.Common.{ℕ, ◌+◌, ◌/◌, ◌^◌, List, [], ◌∷◌, ◌++◌, length, u8, Option, none, some}
use chassis_host.Proto.Defs.{head0, head1}
use chassis_host.Proto.Crc.{crc16_modbus}

-- `payload` is the whole array of 32 bytes, of which `len` count.
pub record Frame : Type 0 where
  pub type : ℕ
  pub seq : ℕ
  pub payload : List ℕ
  pub len : ℕ

-- `seq != nullptr ? (*seq)++ : 0`: the byte that is sent, and the counter afterwards.
abbrev pub seq_byte : Option ℕ → ℕ
seq_byte none = 0
seq_byte (some s) = s

abbrev pub seq_next : Option ℕ → Option ℕ
seq_next none = none
seq_next (some s) = some (u8 (s + 1))

-- What the checksum covers: `out.data() + 2`, for `3 + len` bytes.
abbrev pub covered : ℕ → List ℕ → ℕ → List ℕ
covered type payload s = type ∷ u8 (length payload) ∷ s ∷ payload

abbrev pub crc_trailer : ℕ → List ℕ
crc_trailer crc = u8 (bit_and crc 0xFF) ∷ u8 (bit_and (crc / 2 ^ 8) 0xFF) ∷ []

-- The bytes of the frame, and the counter that the caller passed in by pointer.
unfoldable pub pack_frame : ℕ → List ℕ → Option ℕ → List ℕ × Option ℕ
pack_frame type payload seq =
    let body = covered type payload (seq_byte seq) in
    (head0 ∷ head1 ∷ (body ++ crc_trailer (crc16_modbus body)), seq_next seq)
