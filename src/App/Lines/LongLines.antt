-- ===== src/App/Lines/LongLines.antt =====
-- Lines of more than 512 bytes.
use mathlib.Core.List.{append_assoc}
use chassis_host.Common.{
  ℕ, suc, ◌+◌, ◌≤◌, ◌<◌, ◌≡◌, refl, sym, ap, ap₂, ◌∙◌, true, false, Option, none, some, List, [],
  ◌∷◌, ◌++◌, length, drop, leb, lt→ltb, ◌==◌, if◌then◌else◌, arith, Bool-cases, inl, inr,
  length-append, take-length, drop-length_add,
}
use chassis_host.App.Lines.{
  max_line_len, one_later, find_eol, message_turn, message_loop, read_lines,
}
use chassis_host.App.Lines.Chunks.{Split, behind, read_pieces}

abbrev EolFree : List ℕ → Type 0
EolFree xs = find_eol xs ≡ none

EolFree-tail : (c : ℕ) (cs : List ℕ) → EolFree (c ∷ cs) → ((c == 10) ≡ false) × EolFree cs
EolFree-tail c cs h = elim (Bool-cases (c == 10)) [
  | inl eol ↦ absurd (ground (arith, eol, h))
  | inr other ↦ (other, later_none (find_eol cs) (ground (arith, other, h)))
]
  where
    later_none : (o : Option ℕ) → one_later o ≡ none → o ≡ none
    later_none none h = refl
    later_none (some n) h = absurd (ground (arith, h))

find_eol-line : (xs cs : List ℕ) → EolFree xs → find_eol (xs ++ (10 ∷ cs)) ≡ some (length xs)
find_eol-line [] cs h = refl
find_eol-line (x ∷ xs) cs h =
    let (other, h') = EolFree-tail x xs h in rw other (ap one_later (find_eol-line xs cs h'))

EolFree-append : (xs ys : List ℕ) → EolFree xs → EolFree ys → EolFree (xs ++ ys)
EolFree-append [] ys h h' = h'
EolFree-append (x ∷ xs) ys h h' =
    let (other, rest) = EolFree-tail x xs h in
    rw other (ap one_later (EolFree-append xs ys rest h'))

-- The last line of a buffer that ends in '\n'.
read_lines-line :
    (xs : List ℕ)
    → EolFree xs
    → read_lines (xs ++ (10 ∷ [])) ≡ ((if leb (length xs) max_line_len then xs ∷ [] else []), [])
unfolding read_lines message_loop
read_lines-line xs h =
    let buf : List ℕ = xs ++ (10 ∷ []) in
    let go_on : ℕ → Split = λ len. message_loop (length buf) (drop (suc len) buf) in
    let fuel : length buf ≡ suc (length xs) = omega (arith, length-append xs (10 ∷ [])) in
    let tail : drop (suc (length xs)) buf ≡ [] =
      ap (λ n. drop n buf) {x = suc (length xs)} {y = length xs + 1} (omega arith)
      ∙ drop-length_add xs (10 ∷ []) 1 in
    let rest : go_on (length xs) ≡ ([], []) = ap₂ message_loop fuel tail in
    ap (λ o. message_turn o buf go_on) (find_eol-line xs [] h)
    ∙ ap₂ (λ line q. (if leb (length xs) max_line_len then line ∷ q.0 else q.0, q.1))
        (take-length xs (10 ∷ [])) rest

read_lines-half : (xs : List ℕ) → EolFree xs → max_line_len < length xs → read_lines xs ≡ ([], [])
unfolding read_lines message_loop
read_lines-half xs h long =
    ap (λ o. message_turn o xs (λ len. message_loop (length xs) (drop (suc len) xs))) h
    ∙ ap (λ b. ([], if b then [] else xs)) (lt→ltb max_line_len (length xs) long)

-- A line that is longer than 512 bytes is dropped when it comes in one piece. When a first part of it
-- of more than 512 bytes comes alone, only that part is dropped: a second part of at most 512 bytes is
-- then handled as a line of its own.
pub read_pieces-late_part :
    (part late : List ℕ)
    → find_eol part ≡ none
    → find_eol late ≡ none
    → max_line_len < length part
    → length late ≤ max_line_len
    → (read_pieces ((part ++ (late ++ (10 ∷ []))) ∷ []) [] ≡ ([], []))
      × (read_pieces (part ∷ ((late ++ (10 ∷ [])) ∷ [])) [] ≡ (late ∷ [], []))
read_pieces-late_part part late h h' long short =
    let whole : List ℕ = part ++ late in
    let whole_long : leb (length whole) max_line_len ≡ false =
      ground (arith, long, length-append part late) in
    let late_fits : leb (length late) max_line_len ≡ true = ground (arith, short) in
    let one : read_lines (part ++ (late ++ (10 ∷ []))) ≡ ([], []) =
      ap read_lines (sym (append_assoc part late (10 ∷ [])))
      ∙ read_lines-line whole (EolFree-append part late h h')
      ∙ ap (λ b. (if b then whole ∷ [] else [], [])) whole_long in
    let two : read_lines (late ++ (10 ∷ [])) ≡ (late ∷ [], []) =
      read_lines-line late h' ∙ ap (λ b. (if b then late ∷ [] else [], [])) late_fits in
    let last : Split → Split = λ q. behind q.0 ([], q.1) in
    (
      ap last one,
      ap (λ q. behind q.0 (read_pieces ((late ++ (10 ∷ [])) ∷ []) q.1))
            (read_lines-half part h long)
          ∙ ap last two,
    )
