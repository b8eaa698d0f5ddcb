-- ===== src/Log/Convert/Value.antt =====
-- What `convert` writes, read back: the decimal value of the text.
use mathlib.Core.List.{reverse, reverse-cons}
use mathlib.Core.Path.{subst}
use chassis_host.Common.{
  ℕ, zero, suc, ◌+◌, ◌-◌, ◌*◌, ◌/◌, ◌%◌, ◌≤◌, ◌<◌, ◌≡◌, refl, sym, ap, ◌∙◌, List, [], ◌∷◌, ◌++◌,
  length, ltb, ltb→le, ◌==◌, arith, Bool-cases, inl, inr, length-append, All, All-append, ◌^◌,
}
use chassis_host.Common.Int.{ℤ, pos, negsuc}
use chassis_host.Log.Convert.{digit_at, minus, div10, is_zero, write_digits, convert}
use chassis_host.Log.Convert.Reverse.{turn_round-reverse}

abbrev pub pow10 : ℕ → ℕ
pow10 zero = 1
pow10 (suc n) = 10 * pow10 n

-- A text of digits as the number that it stands for, from its first character on.
abbrev pub read_digits : ℕ → List ℕ → ℕ
read_digits acc [] = acc
read_digits acc (c ∷ cs) = read_digits (10 * acc + (c - 48)) cs

-- The same for the digits from the last to the first.
abbrev low_first : List ℕ → ℕ
low_first [] = 0
low_first (c ∷ cs) = (c - 48) + 10 * low_first cs

digit_at-pos : (k : ℕ) → k < 10 → digit_at (pos k) ≡ 48 + k
digit_at-pos zero h = refl
digit_at-pos (suc zero) h = refl
digit_at-pos (suc (suc zero)) h = refl
digit_at-pos (suc (suc (suc zero))) h = refl
digit_at-pos (suc (suc (suc (suc zero)))) h = refl
digit_at-pos (suc (suc (suc (suc (suc zero))))) h = refl
digit_at-pos (suc (suc (suc (suc (suc (suc zero)))))) h = refl
digit_at-pos (suc (suc (suc (suc (suc (suc (suc zero))))))) h = refl
digit_at-pos (suc (suc (suc (suc (suc (suc (suc (suc zero)))))))) h = refl
digit_at-pos (suc (suc (suc (suc (suc (suc (suc (suc (suc zero))))))))) h = refl
digit_at-pos (suc (suc (suc (suc (suc (suc (suc (suc (suc (suc n)))))))))) h = absurd (omega arith)

digit_at-minus : (k : ℕ) → k < 10 → digit_at (minus k) ≡ digit_at (pos k)
digit_at-minus zero h = refl
digit_at-minus (suc zero) h = refl
digit_at-minus (suc (suc zero)) h = refl
digit_at-minus (suc (suc (suc zero))) h = refl
digit_at-minus (suc (suc (suc (suc zero)))) h = refl
digit_at-minus (suc (suc (suc (suc (suc zero))))) h = refl
digit_at-minus (suc (suc (suc (suc (suc (suc zero)))))) h = refl
digit_at-minus (suc (suc (suc (suc (suc (suc (suc zero))))))) h = refl
digit_at-minus (suc (suc (suc (suc (suc (suc (suc (suc zero)))))))) h = refl
digit_at-minus (suc (suc (suc (suc (suc (suc (suc (suc (suc zero))))))))) h = refl
digit_at-minus (suc (suc (suc (suc (suc (suc (suc (suc (suc (suc n)))))))))) h =
    absurd (omega arith)

-- The first pass

write_digits-low_first :
    (fuel n : ℕ) → n < pow10 (suc fuel) → low_first (write_digits (suc fuel) (pos n)) ≡ n
unfolding write_digits
write_digits-low_first zero n h = ground (arith, digit_at-pos (n % 10) (omega arith))
write_digits-low_first (suc fuel) n h = ground (
  arith,
  digit_at-pos (n % 10) (omega arith),
  write_digits-low_first fuel (n / 10) (omega (arith, h)),
)

length-write_digits : (fuel : ℕ) (i : ℤ) → length (write_digits fuel i) ≤ fuel
unfolding write_digits
length-write_digits zero i = omega arith
length-write_digits (suc fuel) i = ground (arith, length-write_digits fuel (div10 i))

is_zero-minus : (k : ℕ) → is_zero (minus k) ≡ (k == 0)
is_zero-minus zero = refl
is_zero-minus (suc k) = ground arith

write_digits-minus : (fuel n : ℕ) → write_digits fuel (minus n) ≡ write_digits fuel (pos n)
unfolding write_digits
write_digits-minus zero n = refl
write_digits-minus (suc fuel) zero = refl
write_digits-minus (suc fuel) (suc n) = ground (
  arith,
  digit_at-minus ((n + 1) % 10) (omega arith),
  is_zero-minus ((n + 1) / 10),
  write_digits-minus fuel ((n + 1) / 10),
)

abbrev pub IsDigit : ℕ → Type 0
IsDigit c = (48 ≤ c) × (c ≤ 57)

write_digits-IsDigit : (fuel n : ℕ) → All IsDigit (write_digits fuel (pos n))
unfolding write_digits
write_digits-IsDigit zero n = tt
write_digits-IsDigit (suc fuel) n =
    ground (arith, digit_at-pos (n % 10) (omega arith), write_digits-IsDigit fuel (n / 10))

-- Both passes

read_digits-append :
    (acc : ℕ) (xs ys : List ℕ) → read_digits acc (xs ++ ys) ≡ read_digits (read_digits acc xs) ys
read_digits-append acc [] ys = refl
read_digits-append acc (x ∷ xs) ys = read_digits-append (10 * acc + (x - 48)) xs ys

read_digits-reverse : (xs : List ℕ) → read_digits 0 (reverse xs) ≡ low_first xs
read_digits-reverse [] = refl
read_digits-reverse (x ∷ xs) =
    ap (read_digits 0) (reverse-cons x xs)
    ∙ read_digits-append 0 (reverse xs) (x ∷ [])
    ∙ omega (arith, read_digits-reverse xs)

length-reverse : (xs : List ℕ) → length (reverse xs) ≡ length xs
length-reverse [] = refl
length-reverse (x ∷ xs) =
    ap length (reverse-cons x xs)
    ∙ omega (arith, length-append (reverse xs) (x ∷ []), length-reverse xs)

All-reverse : (xs : List ℕ) → All IsDigit xs → All IsDigit (reverse xs)
All-reverse [] h = tt
All-reverse (x ∷ xs) h =
    subst (All IsDigit) (sym (reverse-cons x xs))
      (All-append IsDigit (reverse xs) (x ∷ []) (All-reverse xs h.1) (h.0, tt))

reverse-short : (xs : List ℕ) → length xs ≤ 1 → xs ≡ reverse xs
reverse-short [] h = refl
reverse-short (x ∷ []) h = refl
reverse-short (x ∷ (y ∷ xs)) h = absurd (omega arith)

convert-reverse : (i : ℤ) → convert i ≡ reverse (write_digits 20 i)
unfolding convert
convert-reverse i = elim (Bool-cases (ltb 1 (length (write_digits 20 i)))) [
  | inl more ↦ rw more (turn_round-reverse (write_digits 20 i))
  | inr one ↦ rw one (reverse-short (write_digits 20 i) (ltb→le 1 (length (write_digits 20 i)) one))
]

convert-pos :
    (n : ℕ)
    → n < 2 ^ 64
    → (read_digits 0 (convert (pos n)) ≡ n)
      × (All IsDigit (convert (pos n)) × (length (convert (pos n)) ≤ 20))
convert-pos n h = rw (convert-reverse (pos n)) (
  read_digits-reverse (write_digits 20 (pos n)) ∙ write_digits-low_first 19 n (omega (arith, h)),
  (
    All-reverse (write_digits 20 (pos n)) (write_digits-IsDigit 20 n),
    omega (arith, length-reverse (write_digits 20 (pos n)), length-write_digits 20 (pos n)),
  ),
)

convert-negsuc : (n : ℕ) → convert (negsuc n) ≡ convert (pos (n + 1))
convert-negsuc n =
    convert-reverse (negsuc n)
    ∙ ap reverse (write_digits-minus 20 (suc n))
    ∙ ap (λ k. reverse (write_digits 20 (pos k))) {x = suc n} {y = n + 1} (omega arith)
    ∙ sym (convert-reverse (pos (n + 1)))

abbrev pub magnitude : ℤ → ℕ
magnitude (pos n) = n
magnitude (negsuc n) = n + 1

-- An integer of absolute value below 2 ^ 64 is written as a text of decimal digits that reads as its
-- absolute value, of at most 20 characters: fewer than the 32 of the array that `formatInteger` hands
-- to `convert`. A negative number gets no sign.
pub convert-magnitude :
    (i : ℤ)
    → magnitude i < 2 ^ 64
    → (read_digits 0 (convert i) ≡ magnitude i)
      × (All IsDigit (convert i) × (length (convert i) ≤ 20))
convert-magnitude (pos n) h = convert-pos n h
convert-magnitude (negsuc n) h = rw (convert-negsuc n) (convert-pos (n + 1) h)
