-- ===== src/Proto/Parser/Search.antt =====
-- The search for a frame header, in a buffer and in a longer one.
use mathlib.Core.Option
use chassis_host.Common.{
  ℕ, zero, suc, ◌+◌, ◌-◌, ◌≤◌, ◌<◌, ◌≡◌, refl, ap, ◌∙◌, arith, false, List, [], ◌∷◌, ◌++◌, length,
  drop, Option, none, some, Bool-cases, inl, inr, if◌then◌else◌, ◌==◌, ◌&&◌,
}
use chassis_host.Proto.Defs.{head0, head1}
use chassis_host.Proto.Parser.{find_header, ends_in_head0}

-- The header that is found in a buffer is found, at the same place, in every longer one.
pub find_header-append :
    (xs ys : List ℕ) (i : ℕ) → find_header xs ≡ some i → find_header (xs ++ ys) ≡ some i
unfolding find_header
find_header-append [] ys i e = absurd (cc)
find_header-append (a ∷ []) ys i e = absurd (cc)
find_header-append (a ∷ b ∷ rest) ys i e = ground (arith, find_header-append (b ∷ rest) ys (i - 1))

pub find_header-lt : (xs : List ℕ) (i : ℕ) → find_header xs ≡ some i → i + 1 < length xs
unfolding find_header
find_header-lt [] i e = absurd (cc)
find_header-lt (a ∷ []) i e = absurd (cc)
find_header-lt (a ∷ b ∷ rest) i e = ground (arith, find_header-lt (b ∷ rest) (i - 1))

pub find_header-drop :
    (xs : List ℕ) (i : ℕ) → find_header xs ≡ some i → find_header (drop i xs) ≡ some 0
unfolding find_header
find_header-drop [] i e = absurd (cc)
find_header-drop (a ∷ []) i e = absurd (cc)
find_header-drop (a ∷ b ∷ rest) zero e = e
find_header-drop (a ∷ b ∷ rest) (suc i) e = ground (arith, find_header-drop (b ∷ rest) i)

-- How many bytes `no_header` drops.
abbrev pub tail_skip : List ℕ → ℕ
tail_skip [] = 0
tail_skip (a ∷ []) = if a == head0 then 0 else 1
tail_skip (a ∷ b ∷ rest) = suc (tail_skip (b ∷ rest))

pub tail_skip_lem : (xs : List ℕ) → length xs - (if ends_in_head0 xs then 1 else 0) ≡ tail_skip xs
unfolding ends_in_head0
tail_skip_lem [] = omega arith
tail_skip_lem (a ∷ []) = ground arith
tail_skip_lem (a ∷ b ∷ rest) = ground (arith, tail_skip_lem (b ∷ rest))

pub tail_skip-le : (xs : List ℕ) → tail_skip xs ≤ length xs
tail_skip-le [] = omega arith
tail_skip-le (a ∷ []) = ground arith
tail_skip-le (a ∷ b ∷ rest) = omega (arith, tail_skip-le (b ∷ rest))

not_header :
    (a : ℕ) (ys : List ℕ)
    → (a == head0) ≡ false
    → find_header (a ∷ ys) ≡ Option.map suc (find_header ys)
unfolding find_header
not_header a [] e = refl
not_header a (b ∷ ys) e = rw e

pub tail_skip-append :
    (xs ys : List ℕ)
    → tail_skip (xs ++ ys) ≡ tail_skip xs + tail_skip (drop (tail_skip xs) xs ++ ys)
tail_skip-append [] ys = omega arith
tail_skip-append (a ∷ []) [] = ground arith
tail_skip-append (a ∷ []) (b ∷ ys) = ground arith
tail_skip-append (a ∷ b ∷ rest) ys = omega (arith, tail_skip-append (b ∷ rest) ys)

map_zero : (o : Option ℕ) → o ≡ Option.map (λ j. 0 + j) o
map_zero none = refl
map_zero (some j) = ap some {x = j} {y = 0 + j} (omega arith)

map-suc :
    (n : ℕ) (o : Option ℕ)
    → Option.map suc (Option.map (λ j. n + j) o) ≡ Option.map (λ j. suc n + j) o
map-suc n none = refl
map-suc n (some j) = ap some {x = suc (n + j)} {y = suc n + j} (omega arith)

headerless :
    (a b : ℕ) (rest : List ℕ)
    → find_header (a ∷ b ∷ rest) ≡ none
    → ((a == head0 && b == head1) ≡ false) × (find_header (b ∷ rest) ≡ none)
unfolding find_header
headerless a b rest e = ground arith

find_header_step :
    (a b : ℕ) (rest : List ℕ)
    → (a == head0 && b == head1) ≡ false
    → find_header (a ∷ b ∷ rest) ≡ Option.map suc (find_header (b ∷ rest))
unfolding find_header
find_header_step a b rest e = rw e

-- Where a buffer has no header, the search in a longer one may start behind what is dropped.
pub find_header-none-append :
    (xs ys : List ℕ)
    → find_header xs ≡ none
    → find_header (xs ++ ys)
      ≡ Option.map (λ j. tail_skip xs + j) (find_header (drop (tail_skip xs) xs ++ ys))
find_header-none-append [] ys e = map_zero (find_header ys)
find_header-none-append (a ∷ []) ys e = elim (Bool-cases (a == head0)) [
  | inl is_head ↦ rw is_head (map_zero (find_header (a ∷ ys)))
  | inr other ↦ rw other (
      not_header a ys other
      ∙ ap (Option.map suc) (map_zero (find_header ys))
      ∙ map-suc 0 (find_header ys))
]
find_header-none-append (a ∷ b ∷ rest) ys e =
    let (test, tail) = headerless a b rest e in
    rw (find_header_step a b (rest ++ ys) test) (
      rw (find_header-none-append (b ∷ rest) ys tail) (
        map-suc (tail_skip (b ∷ rest))
          (find_header (drop (tail_skip (b ∷ rest)) (b ∷ rest) ++ ys))))
