-- ===== src/Proto/Crc/Laws.antt =====
-- What the checksum guarantees: 16 bits, and no two messages that differ in one byte share it.
use Prim.Native.Nat.{bit_xor}
use chassis_host.Common.{
  ℕ, zero, suc, ◌/◌, ◌%◌, ◌^◌, ◌<◌, ◌≤◌, ◌≡◌, ◌≢◌, refl, ap, sym, ◌∙◌, ◌⊎◌, arith, List, [], ◌∷◌,
  ◌++◌, All, IsByte,
}
use chassis_host.Common.Bits.{and-one, xor-lt, xor-shift, xor_injective, xor_comm}
use chassis_host.Proto.Crc.{crc_bit, crc_bits, crc_bytes, crc16_modbus}

crc_bit-lt : (crc : ℕ) → crc_bit crc < 2 ^ 16
unfolding crc_bit
crc_bit-lt crc = ground arith

crc_bits-lt : (n crc : ℕ) → crc < 2 ^ 16 → crc_bits n crc < 2 ^ 16
unfolding crc_bits
crc_bits-lt zero crc h = h
crc_bits-lt (suc n) crc h = crc_bits-lt n (crc_bit crc) (crc_bit-lt crc)

crc_bytes-lt : (bs : List ℕ) (crc : ℕ) → crc < 2 ^ 16 → All IsByte bs → crc_bytes crc bs < 2 ^ 16
unfolding crc_bytes
crc_bytes-lt [] crc h all = h
crc_bytes-lt (b ∷ bs) crc h all =
    crc_bytes-lt bs _ (crc_bits-lt 8 _ (xor-lt 16 crc b h (omega arith))) all.1

pub crc16_modbus-lt : (bs : List ℕ) → All IsByte bs → crc16_modbus bs < 2 ^ 16
unfolding crc16_modbus
crc16_modbus-lt bs all = crc_bytes-lt bs 0xFFFF (omega arith) all

-- The polynomial has bit 15, so a round tells by the top bit whether it has used it.
top_bit : (c : ℕ) → c < 2 ^ 15 → 2 ^ 15 ≤ bit_xor c 0xA001
top_bit c h = omega (arith, xor-shift 15 c 0xA001, ap (λ (t : ℕ). bit_xor t 1) shifted)
  where
    shifted : c / 2 ^ 15 ≡ 0
    shifted = omega arith

crc_bit-cases :
    (c : ℕ)
    → c < 2 ^ 16
    → ((c % 2 ≡ 0) × (crc_bit c ≡ c / 2)) ⊎ ((c % 2 ≡ 1) × (crc_bit c ≡ bit_xor (c / 2) 0xA001))
unfolding crc_bit
crc_bit-cases c h = ground (arith, and-one c, xor-lt 16 (c / 2) 0xA001 (omega arith) (omega arith))

crc_bit_injective : (c d : ℕ) → c < 2 ^ 16 → d < 2 ^ 16 → crc_bit c ≡ crc_bit d → c ≡ d
crc_bit_injective c d p q e = ground (
  arith,
  crc_bit-cases c,
  crc_bit-cases d,
  top_bit (c / 2),
  top_bit (d / 2),
  xor_injective (c / 2) (d / 2) 0xA001,
)

crc_bits_injective : (n c d : ℕ) → c < 2 ^ 16 → d < 2 ^ 16 → crc_bits n c ≡ crc_bits n d → c ≡ d
unfolding crc_bits
crc_bits_injective zero c d p q e = e
crc_bits_injective (suc n) c d p q e =
    crc_bit_injective c d p q
      (crc_bits_injective n (crc_bit c) (crc_bit d) (crc_bit-lt c) (crc_bit-lt d) e)

-- The state after a byte, from a state below 2 ^ 16.
after_byte-lt : (c b : ℕ) → c < 2 ^ 16 → IsByte b → crc_bits 8 (bit_xor c b) < 2 ^ 16
after_byte-lt c b h hb = crc_bits-lt 8 _ (xor-lt 16 c b h (omega arith))

crc_bytes_injective :
    (bs : List ℕ) (c d : ℕ)
    → All IsByte bs
    → c < 2 ^ 16
    → d < 2 ^ 16
    → crc_bytes c bs ≡ crc_bytes d bs
    → c ≡ d
unfolding crc_bytes
crc_bytes_injective [] c d all p q e = e
crc_bytes_injective (b ∷ bs) c d all p q e = xor_injective c d b (
    crc_bits_injective 8 _ _ (xor-lt 16 c b p (omega arith)) (xor-lt 16 d b q (omega arith))
      (crc_bytes_injective bs _ _ all.1 (after_byte-lt c b p all.0) (after_byte-lt d b q all.0) e))

crc_bytes-append : (c : ℕ) (xs ys : List ℕ) → crc_bytes c (xs ++ ys) ≡ crc_bytes (crc_bytes c xs) ys
unfolding crc_bytes
crc_bytes-append c [] ys = refl
crc_bytes-append c (x ∷ xs) ys = crc_bytes-append (crc_bits 8 (bit_xor c x)) xs ys

crc_bytes_changed :
    (c a b : ℕ) (bs : List ℕ)
    → c < 2 ^ 16
    → IsByte a
    → IsByte b
    → All IsByte bs
    → crc_bytes c (a ∷ bs) ≡ crc_bytes c (b ∷ bs)
    → a ≡ b
unfolding crc_bytes
crc_bytes_changed c a b bs h ha hb all e = xor_injective a b c (xor_comm a c ∙ same ∙ xor_comm c b)
  where
    same : bit_xor c a ≡ bit_xor c b
    same =
        crc_bits_injective 8 _ _ (xor-lt 16 c a h (omega arith)) (xor-lt 16 c b h (omega arith))
          (crc_bytes_injective bs _ _ all (after_byte-lt c a h ha) (after_byte-lt c b h hb) e)

-- Two messages of bytes that differ in exactly one byte, at any place, have different checksums.
pub crc16_modbus-one_byte :
    (pre : List ℕ) (a b : ℕ) (post : List ℕ)
    → All IsByte pre
    → IsByte a
    → IsByte b
    → All IsByte post
    → a ≢ b
    → crc16_modbus (pre ++ (a ∷ post)) ≢ crc16_modbus (pre ++ (b ∷ post))
unfolding crc16_modbus
crc16_modbus-one_byte pre a b post all_pre ha hb all_post ne e = ne (
    crc_bytes_changed (crc_bytes 0xFFFF pre) a b post
      (crc_bytes-lt pre 0xFFFF (omega arith) all_pre) ha hb all_post
      (sym (crc_bytes-append 0xFFFF pre (a ∷ post)) ∙ e ∙ crc_bytes-append 0xFFFF pre (b ∷ post)))
