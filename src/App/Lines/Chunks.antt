-- ===== src/App/Lines/Chunks.antt =====
-- The lines of a stream of bytes, and how `onMessage` finds them when the bytes come in pieces.
use mathlib.Core.List.{append-nil, append_assoc}
use mathlib.Core.Path.{subst}
use chassis_host.Common.{
  ℕ, zero, suc, ◌-◌, ◌≤◌, ◌<◌, ◌≡◌, refl, sym, ap, ◌∙◌, true, false, Option, none, some, List, [],
  ◌∷◌, ◌++◌, length, take, drop, leb, ◌==◌, if◌then◌else◌, arith, Bool-cases, inl, inr, length-drop,
  length-take, Option-cases, le→ltb,
}
use chassis_host.App.Lines.{
  max_line_len, one_later, find_eol, message_turn, message_loop, read_lines,
}

-- The lines of a text, each without its '\n', and what stands behind the last '\n'.
abbrev pub Split : Type 0
Split = List (List ℕ) × List ℕ

abbrev pub first_gets : ℕ → Split → Split
first_gets c ([], rest) = ([], c ∷ rest)
first_gets c (l ∷ ls, rest) = ((c ∷ l) ∷ ls, rest)

abbrev pub split : List ℕ → Split
split [] = ([], [])
split (c ∷ cs) = if c == 10 then ([] ∷ (split cs).0, (split cs).1) else first_gets c (split cs)

-- The first part has at most k bytes, every other line and the rest at most 512.
abbrev pub ShortFrom : ℕ → Split → Type 0
ShortFrom k ([], rest) = length rest ≤ k
ShortFrom k (l ∷ ls, rest) = (length l ≤ k) × ShortFrom max_line_len (ls, rest)

-- One line in front.
abbrev pub behind : List (List ℕ) → Split → Split
behind ls (ls', rest) = (ls ++ ls', rest)

first_gets-behind :
    (c : ℕ) (q : Split) (tail : List ℕ → Split)
    → ((r : List ℕ) → tail (c ∷ r) ≡ first_gets c (tail r))
    → first_gets c (behind q.0 (tail q.1)) ≡ behind (first_gets c q).0 (tail (first_gets c q).1)
first_gets-behind c ([], rest) tail h = sym (h rest)
first_gets-behind c (l ∷ ls, rest) tail h = refl

split-skip : (c : ℕ) (cs : List ℕ) → (c == 10) ≡ false → split (c ∷ cs) ≡ first_gets c (split cs)
split-skip c cs h = rw h refl

split-eol :
    (c : ℕ) (cs : List ℕ) → (c == 10) ≡ true → split (c ∷ cs) ≡ ([] ∷ (split cs).0, (split cs).1)
split-eol c cs h = rw h refl

split-append :
    (xs ys : List ℕ) → split (xs ++ ys) ≡ behind (split xs).0 (split ((split xs).1 ++ ys))
split-append [] ys = refl
split-append (c ∷ cs) ys = elim (Bool-cases (c == 10)) [
  | inl eol ↦ rw eol (ap (λ q. ([] ∷ q.0, q.1)) (split-append cs ys))
  | inr other ↦ rw other (
      ap (first_gets c) (split-append cs ys)
      ∙ first_gets-behind c (split cs) (λ r. split (r ++ ys)) (λ r. split-skip c (r ++ ys) other))
]

-- What stands behind the last '\n' has none.
split-rest : (xs : List ℕ) → split (split xs).1 ≡ ([], (split xs).1)
split-rest [] = refl
split-rest (c ∷ cs) = elim (Bool-cases (c == 10)) [
  | inl eol ↦ rw eol (split-rest cs)
  | inr other ↦ rw other (first_rest c (split cs) other (split-rest cs))
]
  where
    first_rest :
        (c : ℕ) (q : Split)
        → (c == 10) ≡ false
        → split q.1 ≡ ([], q.1)
        → split (first_gets c q).1 ≡ ([], (first_gets c q).1)
    first_rest c ([], rest) h e = split-skip c rest h ∙ ap (first_gets c) e
    first_rest c (l ∷ ls, rest) h e = e

first_gets-Short :
    (k c : ℕ) (q : Split) → ShortFrom k (first_gets c q) → (0 < k) × ShortFrom (k - 1) q
first_gets-Short k c ([], rest) h = (omega (arith, h), omega (arith, h))
first_gets-Short k c (l ∷ ls, rest) h = (omega (arith, h.0), (omega (arith, h.0), h.1))

Short-first_gets :
    (k c : ℕ) (q : Split) → 0 < k → ShortFrom (k - 1) q → ShortFrom k (first_gets c q)
Short-first_gets k c ([], rest) pos h = omega (arith, pos, h)
Short-first_gets k c (l ∷ ls, rest) pos h = (omega (arith, pos, h.0), h.1)

-- A piece of a text of short lines has short lines.
split-Short : (k : ℕ) (xs ys : List ℕ) → ShortFrom k (split (xs ++ ys)) → ShortFrom k (split xs)
split-Short k [] ys h = omega arith
split-Short k (c ∷ cs) ys h = elim (Bool-cases (c == 10)) [
  | inl eol ↦
      let h' = subst (ShortFrom k) (split-eol c (cs ++ ys) eol) h in
      subst (ShortFrom k) (sym (split-eol c cs eol))
        (omega arith, split-Short max_line_len cs ys h'.1)
  | inr other ↦
      let h' = subst (ShortFrom k) (split-skip c (cs ++ ys) other) h in
      let (pos, less) = first_gets-Short k c (split (cs ++ ys)) h' in
      subst (ShortFrom k) (sym (split-skip c cs other))
        (Short-first_gets k c (split cs) pos (split-Short (k - 1) cs ys less))
]

behind-Short :
    (ls : List (List ℕ)) (q : Split)
    → ShortFrom max_line_len (behind ls q)
    → ShortFrom max_line_len q
behind-Short [] q h = h
behind-Short (l ∷ ls) q h = behind-Short ls q h.1

-- One loop of `onMessage`

find_eol-none : (xs : List ℕ) → find_eol xs ≡ none → split xs ≡ ([], xs)
find_eol-none [] h = refl
find_eol-none (c ∷ cs) h = elim (Bool-cases (c == 10)) [
  | inl eol ↦ absurd (ground (arith, eol, h))
  | inr other ↦
      split-skip c cs other
      ∙ ap (first_gets c) (find_eol-none cs (later_none (find_eol cs) (ground (arith, other, h))))
]
  where
    later_none : (o : Option ℕ) → one_later o ≡ none → o ≡ none
    later_none none h = refl
    later_none (some n) h = absurd (ground (arith, h))

abbrev LineAt : List ℕ → ℕ → Type 0
LineAt xs n =
    (n < length xs)
    × (split xs ≡ (take n xs ∷ (split (drop (suc n) xs)).0, (split (drop (suc n) xs)).1))

later-zero : (o : Option ℕ) → ¬ (one_later o ≡ some 0)
later-zero none h = absurd (ground (arith, h))
later-zero (some n) h = absurd (ground (arith, h))

later-suc : (o : Option ℕ) (n : ℕ) → one_later o ≡ some (suc n) → o ≡ some n
later-suc none n h = absurd (ground (arith, h))
later-suc (some m) n h = ground (arith, h)

find_eol-some : (xs : List ℕ) (n : ℕ) → find_eol xs ≡ some n → LineAt xs n
find_eol-some [] n h = absurd (ground (arith, h))
find_eol-some (c ∷ cs) zero h = elim (Bool-cases (c == 10)) as (λ _. LineAt (c ∷ cs) zero) [
  | inl eol ↦ (omega arith, split-eol c cs eol)
  | inr other ↦ absurd (later-zero (find_eol cs) (ground (arith, other, h)))
]
find_eol-some (c ∷ cs) (suc n) h = elim (Bool-cases (c == 10)) as (λ _. LineAt (c ∷ cs) (suc n)) [
  | inl eol ↦ absurd (ground (arith, eol, h))
  | inr other ↦
      let (fits, e) = find_eol-some cs n (later-suc (find_eol cs) n (ground (arith, other, h))) in
      (omega (arith, fits), split-skip c cs other ∙ ap (first_gets c) e)
]

message_loop-split :
    (fuel : ℕ) (buf : List ℕ)
    → length buf < fuel
    → ShortFrom max_line_len (split buf)
    → message_loop fuel buf ≡ split buf
unfolding message_loop
message_loop-split zero buf h short = absurd (omega (arith, h))
message_loop-split (suc fuel) buf h short =
    let go_on : ℕ → Split = λ len. message_loop fuel (drop (suc len) buf) in
    elim (Option-cases (find_eol buf)) [
      | inl nothing ↦
          let e = find_eol-none buf nothing in
          let fits : ShortFrom max_line_len ([], buf) = subst (ShortFrom max_line_len) e short in
          ap (λ o. message_turn o buf go_on) nothing
          ∙ ap (λ b. ([], if b then [] else buf)) (le→ltb max_line_len (length buf) fits)
          ∙ sym e
      | inr (n, found) ↦
          let (inside, e) = find_eol-some buf n found in
          let tail : List ℕ = drop (suc n) buf in
          let (fits, short') = subst (ShortFrom max_line_len) e short in
          let loop : message_loop fuel tail ≡ split tail =
            message_loop-split fuel tail (omega (arith, h, inside, length-drop (suc n) buf))
              short' in
          let line_fits : leb n max_line_len ≡ true =
            ground (arith, fits, length-take n buf (omega (arith, inside))) in
          ap (λ o. message_turn o buf go_on) found
          ∙ ap (λ b. (if b then take n buf ∷ (go_on n).0 else (go_on n).0, (go_on n).1)) line_fits
          ∙ ap (λ q. (take n buf ∷ q.0, q.1)) loop
          ∙ sym e
    ]

-- The wake-ups of a connection: each hands on what has come since.
abbrev pub read_pieces : List (List ℕ) → List ℕ → Split
read_pieces [] buf = ([], buf)
read_pieces (piece ∷ more) buf =
    let (lines, rest) = read_lines (buf ++ piece) in behind lines (read_pieces more rest)

abbrev pub joined : List (List ℕ) → List ℕ
joined [] = []
joined (piece ∷ more) = piece ++ joined more

read_pieces-from :
    (pieces : List (List ℕ)) (buf : List ℕ)
    → split buf ≡ ([], buf)
    → ShortFrom max_line_len (split (buf ++ joined pieces))
    → read_pieces pieces buf ≡ split (buf ++ joined pieces)
unfolding read_lines
read_pieces-from [] buf no_eol short = sym (ap split (append-nil buf) ∙ no_eol)
read_pieces-from (piece ∷ more) buf no_eol short =
    let all : List ℕ = buf ++ piece in
    let assoc : all ++ joined more ≡ buf ++ (piece ++ joined more) =
      append_assoc buf piece (joined more) in
    let short' : ShortFrom max_line_len (split (all ++ joined more)) =
      subst (λ t. ShortFrom max_line_len (split t)) (sym assoc) short in
    let parts = split-append all (joined more) in
    let rest : List ℕ = (split all).1 in
    let here : read_lines all ≡ split all =
      message_loop-split (suc (length all)) all (omega arith)
        (split-Short max_line_len all (joined more) short') in
    let later : read_pieces more rest ≡ split (rest ++ joined more) =
      read_pieces-from more rest (split-rest all) (
        behind-Short (split all).0 (split (rest ++ joined more))
          (subst (ShortFrom max_line_len) parts short')) in
    ap (λ q. behind q.0 (read_pieces more q.1)) here
    ∙ ap (behind (split all).0) later
    ∙ sym parts
    ∙ ap split assoc

-- However the bytes of a client are cut into pieces: when no line is longer than 512 bytes, and
-- neither is what stands behind the last '\n', `handleLine` gets the lines of the whole text, in
-- order, and what stands behind the last '\n' waits in the buffer.
pub read_pieces-split :
    (pieces : List (List ℕ))
    → ShortFrom max_line_len (split (joined pieces))
    → read_pieces pieces [] ≡ split (joined pieces)
read_pieces-split pieces short = read_pieces-from pieces [] refl short
