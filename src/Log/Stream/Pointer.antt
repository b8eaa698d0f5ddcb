-- ===== src/Log/Stream/Pointer.antt =====
-- The hexadecimal text of a pointer, read back.
use native.Mathlib.Nat.{pow-suc, div-div-eq-div-mul}
use chassis_host.Common.{
  ℕ, zero, suc, ◌+◌, ◌-◌, ◌*◌, ◌/◌, ◌%◌, ◌^◌, ◌≤◌, ◌<◌, ◌≡◌, ◌⊎◌, inl, inr, refl, sym, ap, ◌∙◌,
  List, [], ◌∷◌, length, get_or, ltb, ◌==◌, if◌then◌else◌, arith, Bool-cases,
}
use chassis_host.Common.Bits.{and_nibble}
use chassis_host.Log.Stream.{hex_chars, nibble, skip_zeros, hex_text, pointer_text}

-- The value of a lower-case hexadecimal digit, and of a text of them.
abbrev pub hex_value : ℕ → ℕ
hex_value c = if ltb c 97 then c - 48 else c - 87

abbrev pub read_hex : ℕ → List ℕ → ℕ
read_hex acc [] = acc
read_hex acc (c ∷ cs) = read_hex (16 * acc + hex_value c) cs

pow16-suc : (k : ℕ) → 2 ^ (4 * suc k) ≡ 2 ^ (4 * k) * 16
pow16-suc k =
    let n : ℕ = 4 * k in
    ap (λ e. 2 ^ e) {x = 4 * suc k} {y = suc (suc (suc (suc n)))} (omega arith)
    ∙ omega (
      arith,
      pow-suc 2 n,
      pow-suc 2 (suc n),
      pow-suc 2 (suc (suc n)),
      pow-suc 2 (suc (suc (suc n))),
    )

nibble-shift : (v k : ℕ) → nibble v (4 * k) ≡ (v / 2 ^ (4 * k)) % 16
nibble-shift v k = and_nibble (v / 2 ^ (4 * k))

-- What stands above the half-bytes that are left, and one step of the loop.
above-suc : (v k : ℕ) → v / 2 ^ (4 * suc k) ≡ v / 2 ^ (4 * k) / 16
above-suc v k = ap (λ p. v / p) (pow16-suc k) ∙ sym (div-div-eq-div-mul v (2 ^ (4 * k)) 16)

hex_value-chars : (d : ℕ) → d < 16 → hex_value (get_or hex_chars d 0) ≡ d
hex_value-chars zero h = refl
hex_value-chars (suc zero) h = refl
hex_value-chars (suc (suc zero)) h = refl
hex_value-chars (suc (suc (suc zero))) h = refl
hex_value-chars (suc (suc (suc (suc zero)))) h = refl
hex_value-chars (suc (suc (suc (suc (suc zero))))) h = refl
hex_value-chars (suc (suc (suc (suc (suc (suc zero)))))) h = refl
hex_value-chars (suc (suc (suc (suc (suc (suc (suc zero))))))) h = refl
hex_value-chars (suc (suc (suc (suc (suc (suc (suc (suc zero)))))))) h = refl
hex_value-chars (suc (suc (suc (suc (suc (suc (suc (suc (suc zero))))))))) h = refl
hex_value-chars (suc (suc (suc (suc (suc (suc (suc (suc (suc (suc zero)))))))))) h = refl
hex_value-chars (suc (suc (suc (suc (suc (suc (suc (suc (suc (suc (suc zero))))))))))) h = refl
hex_value-chars (suc (suc (suc (suc (suc (suc (suc (suc (suc (suc (suc (suc zero)))))))))))) h =
    refl
hex_value-chars (suc (suc (suc (suc (suc (suc (suc (suc (suc (suc (suc (suc (suc zero)))))))))))))
      h =
    refl
hex_value-chars
      (suc (suc (suc (suc (suc (suc (suc (suc (suc (suc (suc (suc (suc (suc zero)))))))))))))) h =
    refl
hex_value-chars
      (suc (suc (suc (suc (suc (suc (suc (suc (suc (suc (suc (suc (suc (suc (suc zero)))))))))))))))
      h =
    refl
hex_value-chars
      (suc
        (suc (suc (suc (suc (suc (suc (suc (suc (suc (suc (suc (suc (suc (suc (suc k))))))))))))))))
      h =
    absurd (omega arith)

nibble_lt : (v k : ℕ) → nibble v (4 * k) < 16
nibble_lt v k = omega (arith, nibble-shift v k)

read_hex-hex_text : (v k : ℕ) → read_hex (v / 2 ^ (4 * k)) (hex_text v k) ≡ v
read_hex-hex_text v zero = omega arith
read_hex-hex_text v (suc k) =
    ap (λ a. read_hex a (hex_text v k))
      {x = 16 * (v / 2 ^ (4 * suc k)) + hex_value (get_or hex_chars (nibble v (4 * k)) 0)}
      {y = v / 2 ^ (4 * k)}
      (omega (
        arith,
        above-suc v k,
        nibble-shift v k,
        hex_value-chars (nibble v (4 * k)) (nibble_lt v k),
      ))
    ∙ read_hex-hex_text v k

-- Only zeros are skipped, and the text that is left starts with another digit.
above-skip_zeros : (v k : ℕ) → v / 2 ^ (4 * k) ≡ 0 → v / 2 ^ (4 * skip_zeros v k) ≡ 0
above-skip_zeros v zero h = h
above-skip_zeros v (suc k) h =
    ground (arith, above-suc v k, nibble-shift v k, above-skip_zeros v k, h)

abbrev HeadDigit : List ℕ → Type 0
HeadDigit ds = (ds ≡ []) ⊎ (¬ (get_or ds 0 0 ≡ 48))

chars-48 : (d : ℕ) → d < 16 → get_or hex_chars d 0 ≡ 48 → d ≡ 0
chars-48 d h e = sym (hex_value-chars d h) ∙ ap hex_value e

skip_zeros-head : (v k : ℕ) → HeadDigit (hex_text v (skip_zeros v k))
skip_zeros-head v zero = inl refl
skip_zeros-head v (suc k) = elim (Bool-cases (nibble v (4 * k) == 0)) [
  | inl skipped ↦ rw skipped (skip_zeros-head v k)
  | inr digit ↦
      rw digit (inr (λ e. ground (arith, digit, chars-48 (nibble v (4 * k)) (nibble_lt v k) e)))
]

head-or-null :
    (v : ℕ) (ds : List ℕ) → read_hex 0 ds ≡ v → HeadDigit ds → (v ≡ 0) ⊎ (¬ (get_or ds 0 0 ≡ 48))
head-or-null v ds e (inl nothing) = inl (sym e ∙ ap (read_hex 0) nothing)
head-or-null v ds e (inr digit) = inr digit

length-hex_text : (v k : ℕ) → length (hex_text v k) ≡ k
length-hex_text v zero = refl
length-hex_text v (suc k) = ap suc (length-hex_text v k)

skip_zeros_le : (v k : ℕ) → skip_zeros v k ≤ k
skip_zeros_le v zero = omega arith
skip_zeros_le v (suc k) = ground (arith, skip_zeros_le v k)

hex_text-skip_zeros : (v : ℕ) → v < 2 ^ 64 → read_hex 0 (hex_text v (skip_zeros v 16)) ≡ v
hex_text-skip_zeros v h =
    ap (λ a. read_hex a (hex_text v (skip_zeros v 16))) {x = 0} {y = v / 2 ^ (4 * skip_zeros v 16)}
      (sym (above-skip_zeros v 16 (omega (arith, h))))
    ∙ read_hex-hex_text v (skip_zeros v 16)

-- The text of a 64-bit address is "0x" and at most 16 lower-case hexadecimal digits that read as the
-- address, the first of them not "0" unless the address is 0. It fits into `tmp`.
pub pointer_text-read_hex :
    (v : ℕ)
    → v < 2 ^ 64
    → (ds : List ℕ) × ((pointer_text v ≡ 48 ∷ (120 ∷ ds))
        × ((read_hex 0 ds ≡ v) × ((length ds ≤ 16) × ((v ≡ 0) ⊎ (¬ (get_or ds 0 0 ≡ 48))))))
pointer_text-read_hex v h = elim (Bool-cases (v == 0)) [
  | inl null ↦
      rw null (48 ∷ [], (refl, (ground (arith, null), (omega arith, inl (ground (arith, null))))))
  | inr address ↦ rw address (
    hex_text v (skip_zeros v 16),
    (
      refl,
      (
        hex_text-skip_zeros v h,
        (
          omega (arith, length-hex_text v (skip_zeros v 16), skip_zeros_le v 16),
          head-or-null v (hex_text v (skip_zeros v 16)) (hex_text-skip_zeros v h)
              (skip_zeros-head v 16),
        ),
      ),
    ),
  )
]
