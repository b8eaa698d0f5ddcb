-- ===== src/Log/Convert/Reverse.antt =====
-- The loop of `convert` that exchanges two bytes at a time turns the text round.
use mathlib.Core.List.{reverse, append-nil, append_assoc, reverse-append, reverse-cons}
use chassis_host.Common.{
  ℕ, zero, suc, ◌+◌, ◌-◌, ◌<◌, ◌≤◌, ◌≡◌, refl, sym, ap, ◌∙◌, List, [], ◌∷◌, ◌++◌, length, get_or,
  set, lt→ltb, le→ltb, arith, length-append, get_or-length_add, set-append_right,
}
use chassis_host.Log.Convert.{swap, turn_round}

get_or-at : (a : List ℕ) (x : ℕ) (b : List ℕ) (i : ℕ) → i ≡ length a → get_or (a ++ (x ∷ b)) i 0 ≡ x
get_or-at a x b i e =
    ap (λ k. get_or (a ++ (x ∷ b)) k 0) {x = i} {y = length a + 0} (omega (arith, e))
    ∙ get_or-length_add a (x ∷ b) 0 0

set-at :
    (a : List ℕ) (x : ℕ) (b : List ℕ) (i v : ℕ)
    → i ≡ length a
    → set (a ++ (x ∷ b)) i v ≡ a ++ (v ∷ b)
set-at a x b i v e =
    ap (λ k. set (a ++ (x ∷ b)) k v) {x = i} {y = length a + 0} (omega (arith, e))
    ∙ set-append_right a (x ∷ b) 0 v

-- The same list, with the part in front of `y` in one piece.
front : (a : List ℕ) (x : ℕ) (m c : List ℕ) → a ++ (x ∷ (m ++ c)) ≡ (a ++ (x ∷ m)) ++ c
front a x m c = sym (append_assoc a (x ∷ m) c)

swap-ends :
    (a : List ℕ) (x : ℕ) (m : List ℕ) (y : ℕ) (b : List ℕ) (lo hi : ℕ)
    → lo ≡ length a
    → hi ≡ length a + suc (length m)
    → swap lo hi (a ++ (x ∷ (m ++ (y ∷ b)))) ≡ a ++ (y ∷ (m ++ (x ∷ b)))
swap-ends a x m y b lo hi el eh =
    let at : (z : ℕ) → hi ≡ length (a ++ (z ∷ m)) =
      λ z. omega (arith, eh, length-append a (z ∷ m)) in
    let buf : List ℕ = a ++ (x ∷ (m ++ (y ∷ b))) in
    let get_hi : get_or buf hi 0 ≡ y =
      ap (λ l. get_or l hi 0) (front a x m (y ∷ b)) ∙ get_or-at (a ++ (x ∷ m)) y b hi (at x) in
    ap (λ v. set (set buf lo v) hi (get_or buf lo 0)) get_hi
    ∙ ap (λ v. set (set buf lo y) hi v) (get_or-at a x (m ++ (y ∷ b)) lo el)
    ∙ ap (λ l. set l hi x) (set-at a x (m ++ (y ∷ b)) lo y el ∙ front a y m (y ∷ b))
    ∙ set-at (a ++ (y ∷ m)) y b hi x (at y)
    ∙ sym (front a y m (x ∷ b))

-- A list that is not empty has a last element.
last_of : (x : ℕ) (xs : List ℕ) → (m : List ℕ) × (y : ℕ) × (x ∷ xs ≡ m ++ (y ∷ []))
last_of x [] = ([], x, refl)
last_of x (z ∷ xs) = let (m, y, e) = last_of z xs in (x ∷ m, y, ap (λ l. x ∷ l) e)

reverse-ends :
    (x : ℕ) (zs m : List ℕ) (y : ℕ) (b : List ℕ)
    → zs ≡ m ++ (y ∷ [])
    → y ∷ (reverse m ++ (x ∷ b)) ≡ reverse (x ∷ zs) ++ b
reverse-ends x zs m y b e =
    ap (λ l. l ++ (x ∷ b)) (sym (reverse-append m (y ∷ [])) ∙ ap reverse (sym e))
    ∙ sym (append_assoc (reverse zs) (x ∷ []) b)
    ∙ ap (λ l. l ++ b) (sym (reverse-cons x zs))

turn_round-done : (fuel lo hi : ℕ) (buf : List ℕ) → hi ≤ lo → turn_round fuel lo hi buf ≡ buf
unfolding turn_round
turn_round-done zero lo hi buf h = refl
turn_round-done (suc fuel) lo hi buf h = rw (le→ltb lo hi h) refl

turn_round-more :
    (fuel lo hi : ℕ) (buf : List ℕ)
    → lo < hi
    → turn_round (suc fuel) lo hi buf ≡ turn_round fuel (lo + 1) (hi - 1) (swap lo hi buf)
unfolding turn_round
turn_round-more fuel lo hi buf h = rw (lt→ltb lo hi h) refl

turn_round-between :
    (fuel : ℕ) (a mid b : List ℕ) (lo hi : ℕ)
    → lo ≡ length a
    → hi + 1 ≡ length a + length mid
    → length mid ≤ fuel
    → turn_round fuel lo hi (a ++ (mid ++ b)) ≡ a ++ (reverse mid ++ b)
turn_round-between fuel a [] b lo hi el eh h = turn_round-done fuel lo hi (a ++ b) (omega arith)
turn_round-between fuel a (x ∷ []) b lo hi el eh h =
    turn_round-done fuel lo hi (a ++ (x ∷ b)) (omega arith)
turn_round-between zero a (x ∷ (z ∷ zs)) b lo hi el eh h = absurd (omega arith)
turn_round-between (suc fuel) a (x ∷ (z ∷ zs)) b lo hi el eh h =
    let (m, y, e) = last_of z zs in
    let len : length (z ∷ zs) ≡ suc (length m) =
      ap length e ∙ omega (arith, length-append m (y ∷ [])) in
    let as_mid : a ++ ((x ∷ (z ∷ zs)) ++ b) ≡ a ++ (x ∷ (m ++ (y ∷ b))) =
      ap (λ l. a ++ (x ∷ (l ++ b))) e ∙ ap (λ l. a ++ (x ∷ l)) (append_assoc m (y ∷ []) b) in
    let swapped : swap lo hi (a ++ ((x ∷ (z ∷ zs)) ++ b)) ≡ (a ++ (y ∷ [])) ++ (m ++ (x ∷ b)) =
      ap (swap lo hi) as_mid
      ∙ swap-ends a x m y b lo hi el (omega (arith, el, eh, len))
      ∙ sym (append_assoc a (y ∷ []) (m ++ (x ∷ b))) in
    let turned : (a ++ (y ∷ [])) ++ (reverse m ++ (x ∷ b)) ≡ a ++ (reverse (x ∷ (z ∷ zs)) ++ b) =
      append_assoc a (y ∷ []) (reverse m ++ (x ∷ b))
      ∙ ap (λ l. a ++ l) (reverse-ends x (z ∷ zs) m y b e) in
    turn_round-more fuel lo hi (a ++ ((x ∷ (z ∷ zs)) ++ b)) (omega (arith, el, eh, len))
    ∙ ap (turn_round fuel (lo + 1) (hi - 1)) swapped
    ∙ turn_round-between fuel (a ++ (y ∷ [])) m (x ∷ b) (lo + 1) (hi - 1)
        (omega (arith, el, length-append a (y ∷ [])))
        (omega (arith, el, eh, len, length-append a (y ∷ []))) (omega (arith, h, len))
    ∙ turned

-- On a whole buffer.
pub turn_round-reverse : (xs : List ℕ) → turn_round (length xs) 0 (length xs - 1) xs ≡ reverse xs
turn_round-reverse [] = turn_round-done 0 0 (0 - 1) [] (omega arith)
turn_round-reverse (x ∷ xs) =
    ap (turn_round (length (x ∷ xs)) 0 (length (x ∷ xs) - 1)) (sym (append-nil (x ∷ xs)))
    ∙ turn_round-between (length (x ∷ xs)) [] (x ∷ xs) [] 0 (length (x ∷ xs) - 1) refl (omega arith)
        (omega arith)
    ∙ append-nil (reverse (x ∷ xs))
