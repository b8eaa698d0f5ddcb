-- ===== src/Common/Bits.antt =====
-- `&`, `|` and `^` on machine words: one equation for the lowest digit, and what follows from it at
-- every width.
use Prim.Native.Nat.{ℕ, zero, suc, ◌+◌, ◌*◌, ◌/◌, ◌%◌, ◌^◌, ◌≤◌, ◌<◌, min, max}
use Prim.Native.Nat.{bit_and, bit_or, bit_xor, digits, differ, bitwise}
use Prim.Native.Nat.{bit_and-bitwise, bit_or-bitwise, bit_xor-bitwise}
use mathlib.Core.Path.{◌≡◌, refl, ap, ◌∙◌, sym}
use native.Mathlib.Nat.{pow-suc, div-one, two-pow-succ, div-div-eq-div-mul}
use native.Mathlib.Omega.{arith}

-- The native operations recur on digits with fuel; any fuel that is large enough gives the same.
module _ (z : ℕ → ℕ) (f : ℕ → ℕ → ℕ) where
  enough_fuel : (j k a b : ℕ) → a ≤ j → a ≤ k → digits z f j a b ≡ digits z f k a b
  enough_fuel zero zero a b p q = refl
  enough_fuel zero (suc k) zero b p q = refl
  enough_fuel zero (suc k) (suc a) b p q = absurd (omega arith)
  enough_fuel (suc j) zero zero b p q = refl
  enough_fuel (suc j) zero (suc a) b p q = absurd (omega arith)
  enough_fuel (suc j) (suc k) zero b p q = refl
  enough_fuel (suc j) (suc k) (suc a) b p q =
      ap (λ (t : ℕ). t * 2 + f (suc a % 2) (b % 2))
        (enough_fuel j k (suc a / 2) (b / 2) (omega arith) (omega arith))

  lowest :
      (a b : ℕ)
      → bitwise z f (suc a) b ≡ bitwise z f (suc a / 2) (b / 2) * 2 + f (suc a % 2) (b % 2)
  lowest a b =
      ap (λ (t : ℕ). t * 2 + f (suc a % 2) (b % 2))
        (enough_fuel a (suc a / 2) (suc a / 2) (b / 2) (omega arith) (omega arith))

pub and_step : (a b : ℕ) → bit_and a b ≡ bit_and (a / 2) (b / 2) * 2 + min (a % 2) (b % 2)
and_step zero b = simp bit_and-bitwise (omega arith)
and_step (suc a) b = simp bit_and-bitwise (lowest (λ y. 0) min a b)

pub or_step : (a b : ℕ) → bit_or a b ≡ bit_or (a / 2) (b / 2) * 2 + max (a % 2) (b % 2)
or_step zero b = simp bit_or-bitwise (omega arith)
or_step (suc a) b = simp bit_or-bitwise (lowest (λ y. y) max a b)

differ_zero : (b : ℕ) → differ 0 (b % 2) ≡ b % 2
differ_zero b = refl

pub xor_step : (a b : ℕ) → bit_xor a b ≡ bit_xor (a / 2) (b / 2) * 2 + differ (a % 2) (b % 2)
xor_step zero b = simp bit_xor-bitwise (omega (arith, differ_zero b))
xor_step (suc a) b = simp bit_xor-bitwise (lowest (λ y. y) differ a b)

-- A digit is 0 or 1.
differ-lt : (a b : ℕ) → a < 2 → b < 2 → differ a b < 2
differ-lt zero b p q = q
differ-lt (suc zero) zero p q = omega arith
differ-lt (suc zero) (suc zero) p q = omega arith
differ-lt (suc zero) (suc (suc b)) p q = absurd (omega arith)
differ-lt (suc (suc a)) b p q = absurd (omega arith)

differ_cancel : (a b : ℕ) → a < 2 → b < 2 → differ (differ a b) b ≡ a
differ_cancel zero zero p q = refl
differ_cancel zero (suc zero) p q = refl
differ_cancel (suc zero) zero p q = refl
differ_cancel (suc zero) (suc zero) p q = refl
differ_cancel zero (suc (suc b)) p q = absurd (omega arith)
differ_cancel (suc zero) (suc (suc b)) p q = absurd (omega arith)
differ_cancel (suc (suc a)) b p q = absurd (omega arith)

pub xor-div_two : (a b : ℕ) → bit_xor a b / 2 ≡ bit_xor (a / 2) (b / 2)
xor-div_two a b = omega (arith, xor_step a b, differ-lt (a % 2) (b % 2) (omega arith) (omega arith))

pub xor-mod_two : (a b : ℕ) → bit_xor a b % 2 ≡ differ (a % 2) (b % 2)
xor-mod_two a b = omega (arith, xor_step a b, differ-lt (a % 2) (b % 2) (omega arith) (omega arith))

differ-zero : (a : ℕ) → differ a 0 ≡ a
differ-zero zero = refl
differ-zero (suc a) = refl

-- Two numbers with the same half and the same parity are equal.
halves_ext : (a b : ℕ) → a / 2 ≡ b / 2 → a % 2 ≡ b % 2 → a ≡ b
halves_ext a b p q = omega arith

-- The recursion on digits goes from `a / 2` to `a`; `n` bounds its depth.
xor-zero_fuel : (n a : ℕ) → a ≤ n → bit_xor a 0 ≡ a
xor-zero_fuel n zero h = refl
xor-zero_fuel zero (suc a) h = absurd (omega arith)
xor-zero_fuel (suc n) (suc a) h =
    halves_ext _ (suc a) (xor-div_two (suc a) 0 ∙ xor-zero_fuel n (suc a / 2) (omega arith))
      (xor-mod_two (suc a) 0 ∙ differ-zero (suc a % 2))

pub xor-zero : (a : ℕ) → bit_xor a 0 ≡ a
xor-zero a = xor-zero_fuel a a (omega arith)

xor_cancel_fuel : (n a b : ℕ) → a ≤ n → b ≤ n → bit_xor (bit_xor a b) b ≡ a
xor_cancel_fuel zero zero zero p q = refl
xor_cancel_fuel zero zero (suc b) p q = absurd (omega arith)
xor_cancel_fuel zero (suc a) b p q = absurd (omega arith)
xor_cancel_fuel (suc n) a b p q =
    halves_ext _ a
      (xor-div_two (bit_xor a b) b
        ∙ rw (xor-div_two a b) (xor_cancel_fuel n (a / 2) (b / 2) (omega arith) (omega arith)))
      (xor-mod_two (bit_xor a b) b
        ∙ rw (xor-mod_two a b) (differ_cancel (a % 2) (b % 2) (omega arith) (omega arith)))

-- `^` by the same word twice gives the first word back.
pub xor_cancel : (a b : ℕ) → bit_xor (bit_xor a b) b ≡ a
xor_cancel a b = xor_cancel_fuel (a + b) a b (omega arith) (omega arith)

pub xor_injective : (a b k : ℕ) → bit_xor a k ≡ bit_xor b k → a ≡ b
xor_injective a b k e = sym (xor_cancel a k) ∙ ap (λ (t : ℕ). bit_xor t k) e ∙ xor_cancel b k

pub xor-shift : (k a b : ℕ) → bit_xor a b / 2 ^ k ≡ bit_xor (a / 2 ^ k) (b / 2 ^ k)
xor-shift zero a b = simp div-one
xor-shift (suc k) a b =
    simp (pow-suc, ← div-div-eq-div-mul)
      (rw (xor-shift k a b) (xor-div_two (a / 2 ^ k) (b / 2 ^ k)))

-- Two words below 2 ^ k have an exclusive or below 2 ^ k.
pub xor-lt : (k a b : ℕ) → a < 2 ^ k → b < 2 ^ k → bit_xor a b < 2 ^ k
xor-lt zero zero zero p q = omega arith
xor-lt zero zero (suc b) p q = absurd (omega arith)
xor-lt zero (suc a) b p q = absurd (omega arith)
xor-lt (suc k) a b p q = omega (
  arith,
  xor-div_two a b,
  two-pow-succ k,
  xor-lt k (a / 2) (b / 2) (omega (arith, two-pow-succ k)) (omega (arith, two-pow-succ k)),
)

-- `lo | (hi << k)` is a sum when `lo` fits k bits.
pub or_fields : (k lo hi : ℕ) → lo < 2 ^ k → bit_or lo (hi * 2 ^ k) ≡ lo + hi * 2 ^ k
or_fields zero zero hi h = rw bit_or-bitwise (omega arith)
or_fields zero (suc lo) hi h = absurd (omega arith)
or_fields (suc k) lo hi h = omega (
  arith,
  or_step lo (hi * 2 ^ suc k),
  shifted,
  ap (λ (t : ℕ). bit_or (lo / 2) t) halved,
  or_fields k (lo / 2) hi (omega (arith, two-pow-succ k)),
)
  where
    shifted : hi * 2 ^ suc k ≡ 2 * (hi * 2 ^ k)
    shifted = omega (arith, ap (λ (t : ℕ). hi * t) (pow-suc 2 k))

    halved : hi * 2 ^ suc k / 2 ≡ hi * 2 ^ k
    halved = omega (arith, shifted)

mod_double : (m a : ℕ) → a / 2 % suc m * 2 + a % 2 ≡ a % (2 * suc m)
mod_double m a = grind (arith, div-div-eq-div-mul a 2 (suc m))

-- A mask of ones grows by one digit at a time.
and_mask_step :
    (m : ℕ)
    → ((a : ℕ) → bit_and a m ≡ a % suc m)
    → (a : ℕ) → bit_and a (2 * m + 1) ≡ a % (2 * suc m)
and_mask_step m ih a = omega (
  arith,
  and_step a (2 * m + 1),
  ap (λ (t : ℕ). bit_and (a / 2) t) halved,
  ih (a / 2),
  mod_double m a,
)
  where
    halved : (2 * m + 1) / 2 ≡ m
    halved = omega arith

and-zero_fuel : (n a : ℕ) → a ≤ n → bit_and a 0 ≡ 0
and-zero_fuel n zero h = refl
and-zero_fuel zero (suc a) h = absurd (omega arith)
and-zero_fuel (suc n) (suc a) h =
    omega (arith, and_step (suc a) 0, and-zero_fuel n (suc a / 2) (omega arith))

pub and-one : (a : ℕ) → bit_and a 1 ≡ a % 2
and-one a = omega (arith, and_step a 1, and-zero_fuel (a / 2) (a / 2) (omega arith))

pub and_nibble : (a : ℕ) → bit_and a 15 ≡ a % 16
and_nibble = and_mask_step 7 (and_mask_step 3 (and_mask_step 1 and-one))

-- `x & 0xFF` is the low byte.
pub and_byte : (a : ℕ) → bit_and a 0xff ≡ a % 256
and_byte = and_mask_step 127 (and_mask_step 63 (and_mask_step 31 (and_mask_step 15 and_nibble)))

differ_comm : (a b : ℕ) → a < 2 → b < 2 → differ a b ≡ differ b a
differ_comm zero zero p q = refl
differ_comm zero (suc zero) p q = refl
differ_comm (suc zero) zero p q = refl
differ_comm (suc zero) (suc zero) p q = refl
differ_comm zero (suc (suc b)) p q = absurd (omega arith)
differ_comm (suc zero) (suc (suc b)) p q = absurd (omega arith)
differ_comm (suc (suc a)) b p q = absurd (omega arith)

xor_comm_fuel : (n a b : ℕ) → a ≤ n → b ≤ n → bit_xor a b ≡ bit_xor b a
xor_comm_fuel zero zero zero p q = refl
xor_comm_fuel zero zero (suc b) p q = absurd (omega arith)
xor_comm_fuel zero (suc a) b p q = absurd (omega arith)
xor_comm_fuel (suc n) a b p q =
    halves_ext _ _
      (xor-div_two a b
        ∙ xor_comm_fuel n (a / 2) (b / 2) (omega arith) (omega arith)
        ∙ sym (xor-div_two b a))
      (xor-mod_two a b
        ∙ differ_comm (a % 2) (b % 2) (omega arith) (omega arith)
        ∙ sym (xor-mod_two b a))

pub xor_comm : (a b : ℕ) → bit_xor a b ≡ bit_xor b a
xor_comm a b = xor_comm_fuel (a + b) a b (omega arith) (omega arith)
