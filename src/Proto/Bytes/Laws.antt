-- ===== src/Proto/Bytes/Laws.antt =====
-- The little-endian helpers as arithmetic, and their round trips.
use Prim.Native.Nat.{bit_or}
use chassis_host.Common.{
  ℕ, ◌+◌, ◌*◌, ◌/◌, ◌%◌, ◌^◌, ◌<◌, ◌≡◌, refl, ap, ap₂, ◌∙◌, arith, List, [], ◌∷◌, ◌++◌, get_or,
  IsByte, u32,
}
use chassis_host.Common.Bits.{and_byte, or_fields}
use chassis_host.Common.Int.{ℤ, pos, negsuc, signed16}
use chassis_host.Proto.Bytes.{put_u16, put_i16, put_f32, get_u16, get_i16, get_u32, unsigned16}

pub put_u16_lem : (v : List ℕ) (x : ℕ) → x < 2 ^ 16 → put_u16 v x ≡ v ++ (x % 256) ∷ (x / 256) ∷ []
unfolding put_u16
put_u16_lem v x h =
    ap (λ t. v ++ t)
      (ap₂ (λ (a b : ℕ). a ∷ b ∷ []) (omega (arith, and_byte x))
        (omega (arith, and_byte (x / 2 ^ 8))))

pub get_u16_lem :
    (p : List ℕ)
    → IsByte (get_or p 0 0)
    → IsByte (get_or p 1 0)
    → get_u16 p ≡ get_or p 0 0 + get_or p 1 0 * 256
unfolding get_u16
get_u16_lem p h0 h1 = omega (arith, or_fields 8 (get_or p 0 0) (get_or p 1 0) (omega arith))

-- Four bytes joined by shifts and `|`.
join4 :
    (a b c d : ℕ)
    → IsByte a
    → IsByte b
    → IsByte c
    → IsByte d
    → bit_or (bit_or (bit_or a (u32 (b * 2 ^ 8))) (u32 (c * 2 ^ 16))) (u32 (d * 2 ^ 24))
      ≡ a + b * 2 ^ 8 + c * 2 ^ 16 + d * 2 ^ 24
join4 a b c d ha hb hc hd = ap₂ bit_or (ap₂ bit_or (ap₂ bit_or refl eb ∙ two) ec ∙ three) ed ∙ four
  where
    eb : u32 (b * 2 ^ 8) ≡ b * 2 ^ 8
    eb = omega arith

    ec : u32 (c * 2 ^ 16) ≡ c * 2 ^ 16
    ec = omega arith

    ed : u32 (d * 2 ^ 24) ≡ d * 2 ^ 24
    ed = omega arith

    two : bit_or a (b * 2 ^ 8) ≡ a + b * 2 ^ 8
    two = or_fields 8 a b (omega arith)

    three : bit_or (a + b * 2 ^ 8) (c * 2 ^ 16) ≡ a + b * 2 ^ 8 + c * 2 ^ 16
    three = or_fields 16 (a + b * 2 ^ 8) c (omega arith)

    four :
        bit_or (a + b * 2 ^ 8 + c * 2 ^ 16) (d * 2 ^ 24) ≡ a + b * 2 ^ 8 + c * 2 ^ 16 + d * 2 ^ 24
    four = or_fields 24 (a + b * 2 ^ 8 + c * 2 ^ 16) d (omega arith)

pub get_u32_lem :
    (p : List ℕ)
    → IsByte (get_or p 0 0)
    → IsByte (get_or p 1 0)
    → IsByte (get_or p 2 0)
    → IsByte (get_or p 3 0)
    → get_u32 p
      ≡ get_or p 0 0 + get_or p 1 0 * 2 ^ 8 + get_or p 2 0 * 2 ^ 16 + get_or p 3 0 * 2 ^ 24
unfolding get_u32
get_u32_lem p h0 h1 h2 h3 =
    join4 (get_or p 0 0) (get_or p 1 0) (get_or p 2 0) (get_or p 3 0) h0 h1 h2 h3

pub put_f32_lem :
    (v : List ℕ) (x : ℕ)
    → x < 2 ^ 32
    → put_f32 v x ≡ v ++ (x % 256) ∷ (x / 256 % 256) ∷ (x / 65536 % 256) ∷ (x / 16777216) ∷ []
unfolding put_f32
put_f32_lem v x h =
    ap (λ t. v ++ t)
      (ap₂ (λ (a b : ℕ × ℕ). a.0 ∷ a.1 ∷ b.0 ∷ b.1 ∷ [])
        (ap₂ (λ (a b : ℕ). (a, b)) (omega (arith, and_byte x))
          (omega (arith, and_byte (x / 2 ^ 8))))
        (ap₂ (λ (a b : ℕ). (a, b)) (omega (arith, and_byte (x / 2 ^ 16)))
          (omega (arith, and_byte (x / 2 ^ 24)))))

-- What `putU16` writes, `getU16` reads, whatever follows.
pub get_u16-put_u16 : (x : ℕ) (rest : List ℕ) → x < 2 ^ 16 → get_u16 (put_u16 [] x ++ rest) ≡ x
get_u16-put_u16 x rest h =
    rw (put_u16_lem [] x h)
      (omega (arith, get_u16_lem ((x % 256) ∷ (x / 256) ∷ rest) (omega arith) (omega arith)))

-- The int16_t that a pattern stands for has that pattern.
signed16-unsigned16 : (w : ℕ) → w < 2 ^ 16 → unsigned16 (signed16 w) ≡ w
signed16-unsigned16 w h = ground arith

-- An integer in the range of int16_t.
abbrev pub IsI16 : ℤ → Type 0
IsI16 (pos n) = n < 0x8000
IsI16 (negsuc n) = n < 0x8000

pub unsigned16-signed16 :
    (x : ℤ) → IsI16 x → (unsigned16 x < 2 ^ 16) × (signed16 (unsigned16 x) ≡ x)
unsigned16-signed16 (pos n) h = ground arith
unsigned16-signed16 (negsuc n) h = ground arith

-- What `putI16` writes of an int16_t, `getI16` reads.
pub get_i16-put_i16 : (x : ℤ) (rest : List ℕ) → IsI16 x → get_i16 (put_i16 [] x ++ rest) ≡ x
unfolding get_i16 put_i16
get_i16-put_i16 x rest h =
    let (small, back) = unsigned16-signed16 x h in
    rw (get_u16-put_u16 (unsigned16 x) rest small) back

pub get_u32-put_f32 : (x : ℕ) (rest : List ℕ) → x < 2 ^ 32 → get_u32 (put_f32 [] x ++ rest) ≡ x
get_u32-put_f32 x rest h = rw (put_f32_lem [] x h) (
    omega (
      arith,
      get_u32_lem ((x % 256) ∷ (x / 256 % 256) ∷ (x / 65536 % 256) ∷ (x / 16777216) ∷ rest)
          (omega arith) (omega arith) (omega arith) (omega arith),
    ))
