-- ===== src/Proto/Bytes.antt =====
-- The little-endian helpers of proto/FrameCodec.cc. A `std::vector` is a list; a pointer into a
-- payload is the list from there on. A float is handled by its 32-bit pattern, which is what the
-- source copies by `memcpy`.
pub mod Laws
use Prim.Native.Nat.{bit_and, bit_or}
use chassis_host.Common.{ℕ, ◌+◌, ◌-◌, ◌*◌, ◌/◌, ◌^◌, List, [], ◌∷◌, ◌++◌, u8, u16, u32, get_or}
use chassis_host.Common.Int.{ℤ, pos, negsuc, signed16, signed32}

unfoldable pub put_u16 : List ℕ → ℕ → List ℕ
put_u16 v x = v ++ u8 (bit_and x 0xFF) ∷ u8 (bit_and (x / 2 ^ 8) 0xFF) ∷ []

-- `static_cast<uint16_t>` of an int16_t.
abbrev pub unsigned16 : ℤ → ℕ
unsigned16 (pos n) = u16 n
unsigned16 (negsuc n) = 0xFFFF - u16 n

unfoldable pub put_i16 : List ℕ → ℤ → List ℕ
unfolding put_u16
put_i16 v x = put_u16 v (unsigned16 x)

-- `bits` is the pattern of the float.
unfoldable pub put_f32 : List ℕ → ℕ → List ℕ
put_f32 v bits =
    v
    ++ u8 (bit_and bits 0xFF)
      ∷ u8 (bit_and (bits / 2 ^ 8) 0xFF)
      ∷ u8 (bit_and (bits / 2 ^ 16) 0xFF)
      ∷ u8 (bit_and (bits / 2 ^ 24) 0xFF)
      ∷ []

unfoldable pub get_u16 : List ℕ → ℕ
get_u16 p = u16 (bit_or (get_or p 0 0) (get_or p 1 0 * 2 ^ 8))

unfoldable pub get_i16 : List ℕ → ℤ
unfolding get_u16
get_i16 p = signed16 (get_u16 p)

unfoldable pub get_u32 : List ℕ → ℕ
get_u32 p =
    bit_or
      (bit_or (bit_or (get_or p 0 0) (u32 (get_or p 1 0 * 2 ^ 8))) (u32 (get_or p 2 0 * 2 ^ 16)))
      (u32 (get_or p 3 0 * 2 ^ 24))

unfoldable pub get_i32 : List ℕ → ℤ
unfolding get_u32
get_i32 p = signed32 (get_u32 p)

-- The pattern of the float.
unfoldable pub get_f32 : List ℕ → ℕ
unfolding get_u32
get_f32 p = get_u32 p
