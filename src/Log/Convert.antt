-- ===== src/Log/Convert.antt =====
-- `convert` of log/LogStream.h: an integer in decimal, digits from the last to the first, then turned
-- round in place. `T` is any of the integer types of at most 64 bits.
pub mod Reverse
pub mod Value
use chassis_host.Common.{
  ℕ, zero, suc, ◌+◌, ◌-◌, ◌/◌, ◌%◌, Bool, true, false, List, [], ◌∷◌, length, get_or, set, ltb,
  ◌==◌, if◌then◌else◌,
}
use chassis_host.Common.Int.{ℤ, pos, negsuc}

-- "9876543210123456789"; `zero` points to its middle.
abbrev pub digits : List ℕ
digits =
    57 ∷ 56 ∷ 55 ∷ 54 ∷ 53 ∷ 52 ∷ 51 ∷ 50 ∷ 49 ∷ 48 ∷ 49 ∷ 50 ∷ 51 ∷ 52 ∷ 53 ∷ 54 ∷ 55 ∷ 56 ∷ 57
    ∷ []

-- `zero[lsd]`.
abbrev pub digit_at : ℤ → ℕ
digit_at (pos n) = get_or digits (9 + n) 0
digit_at (negsuc n) = get_or digits (9 - (n + 1)) 0

-- `-n`.
abbrev pub minus : ℕ → ℤ
minus zero = pos 0
minus (suc n) = negsuc n

-- `i % 10` and `i / 10`, which round towards 0.
abbrev pub rem10 : ℤ → ℤ
rem10 (pos n) = pos (n % 10)
rem10 (negsuc n) = minus ((n + 1) % 10)

abbrev pub div10 : ℤ → ℤ
div10 (pos n) = pos (n / 10)
div10 (negsuc n) = minus ((n + 1) / 10)

abbrev pub is_zero : ℤ → Bool
is_zero (pos n) = n == 0
is_zero (negsuc n) = false

-- The `do … while (i != 0)`; a 64-bit value has at most 20 digits.
unfoldable pub write_digits : ℕ → ℤ → List ℕ
write_digits zero i = []
write_digits (suc fuel) i =
    let rest = write_digits fuel (div10 i) in
    digit_at (rem10 i) ∷ (if is_zero (div10 i) then [] else rest)

-- One exchange of `*lo` and `*hi`.
abbrev pub swap : ℕ → ℕ → List ℕ → List ℕ
swap lo hi buf = set (set buf lo (get_or buf hi 0)) hi (get_or buf lo 0)

-- `while (lo < hi)`.
unfoldable pub turn_round : ℕ → ℕ → ℕ → List ℕ → List ℕ
turn_round zero lo hi buf = buf
turn_round (suc fuel) lo hi buf =
    let rest = turn_round fuel (lo + 1) (hi - 1) (swap lo hi buf) in if ltb lo hi then rest else buf

unfoldable pub convert : ℤ → List ℕ
unfolding write_digits turn_round
convert value =
    let buf = write_digits 20 value in
    if ltb 1 (length buf) then turn_round (length buf) 0 (length buf - 1) buf else buf
