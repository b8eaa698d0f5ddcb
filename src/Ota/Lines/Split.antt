-- ===== src/Ota/Lines/Split.antt =====
-- The lines that come out, by what the bytes are: independent of how the bytes are cut into reads.
use mathlib.Core.List.{append-nil, append_assoc}
use chassis_host.Common.{
  ℕ, ◌+◌, ◌*◌, ◌/◌, ◌≤◌, ◌≡◌, refl, sym, ap, ◌∙◌, true, false, List, [], ◌∷◌, ◌++◌, length, drop,
  ltb, arith, Bool-cases, inl, inr, All, length-append, drop-length_add,
}
use chassis_host.Ota.Lines.{line_limit, is_eol, emit, add_char, take_chars, take_reads}

-- Bytes without an end of line.
abbrev pub EolFree : List ℕ → Type 0
EolFree cs = All (λ c. is_eol c ≡ false) cs

emit-append : (b : List ℕ) (xs ys : List (List ℕ)) → emit b (xs ++ ys) ≡ emit b xs ++ ys
emit-append [] xs ys = refl
emit-append (x ∷ b) xs ys = refl

-- Two reads, one after the other, give what one read of all the bytes gives.
pub take_chars-append :
    (cs ds buf : List ℕ)
    → let (rest, lines) = take_chars cs buf in
      let (rest', lines') = take_chars ds rest in
      take_chars (cs ++ ds) buf ≡ (rest', lines ++ lines')
unfolding take_chars
take_chars-append [] ds buf = refl
take_chars-append (c ∷ cs) ds buf = ground (
  arith,
  take_chars-append cs ds [],
  take_chars-append cs ds (add_char c buf),
  emit-append buf (take_chars cs []).1 (take_chars ds (take_chars cs []).0).1,
)

-- One line, and what stands in front of it in the buffer: whole blocks of 8193 bytes are thrown away.
abbrev pub kept : List ℕ → List ℕ
kept line = drop (8193 * (length line / 8193)) line

kept-short : (xs : List ℕ) → length xs ≤ line_limit → kept xs ≡ xs
kept-short xs h = ap (λ n. drop n xs) {x = 8193 * (length xs / 8193)} {y = 0} (omega arith)

kept-block : (b xs : List ℕ) → length b ≡ 8193 → kept (b ++ xs) ≡ kept xs
kept-block b xs e =
    ap (λ n. drop n (b ++ xs)) {x = 8193 * (length (b ++ xs) / 8193)}
      {y = length b + 8193 * (length xs / 8193)} (omega (arith, length-append b xs))
    ∙ drop-length_add b xs (8193 * (length xs / 8193))

add_char-short :
    (c : ℕ) (buf : List ℕ) → length buf ≤ line_limit → length (add_char c buf) ≤ line_limit
unfolding add_char
add_char-short c buf h = ground (arith, length-append buf (c ∷ []))

add_char-kept :
    (c : ℕ) (buf cs : List ℕ)
    → length buf ≤ line_limit
    → kept (add_char c buf ++ cs) ≡ kept (buf ++ (c ∷ cs))
unfolding add_char
add_char-kept c buf cs h = elim (Bool-cases (ltb line_limit (length (buf ++ (c ∷ []))))) [
  | inl full ↦ rw full (
      sym (kept-block (buf ++ (c ∷ [])) cs (ground (arith, length-append buf (c ∷ []), full)))
      ∙ ap kept (append_assoc buf (c ∷ []) cs))
  | inr fits ↦ rw fits (ap kept (append_assoc buf (c ∷ []) cs))
]

take_chars-line :
    (line buf : List ℕ)
    → EolFree line
    → length buf ≤ line_limit
    → take_chars line buf ≡ (kept (buf ++ line), [])
unfolding take_chars
take_chars-line [] buf h fits =
    ap (λ xs. (xs, [])) (sym (kept-short buf fits) ∙ ap kept (sym (append-nil buf)))
take_chars-line (c ∷ cs) buf h fits = ground (
  arith,
  h.0,
  take_chars-line cs (add_char c buf) h.1 (add_char-short c buf fits),
  add_char-kept c buf cs fits,
)

-- A byte of output and the bytes in front of it up to the one before: a line and its end.
abbrev pub stream : List (List ℕ × ℕ) → List ℕ
stream [] = []
stream ((line, eol) ∷ more) = line ++ (eol ∷ stream more)

abbrev pub IsStream : List (List ℕ × ℕ) → Type 0
IsStream ls = All (λ l. EolFree l.0 × (is_eol l.1 ≡ true)) ls

abbrev pub kept_lines : List (List ℕ × ℕ) → List (List ℕ)
kept_lines [] = []
kept_lines ((line, eol) ∷ more) = emit (kept line) (kept_lines more)

take_chars-eol :
    (eol : ℕ) (cs buf : List ℕ)
    → is_eol eol ≡ true
    → take_chars (eol ∷ cs) buf ≡ ((take_chars cs []).0, emit buf (take_chars cs []).1)
unfolding take_chars
take_chars-eol eol cs buf h = ground arith

take_chars-stream :
    (ls : List (List ℕ × ℕ)) (rest : List ℕ)
    → IsStream ls
    → EolFree rest
    → take_chars (stream ls ++ rest) [] ≡ (kept rest, kept_lines ls)
take_chars-stream [] rest h r = take_chars-line rest [] r (omega arith)
take_chars-stream ((line, eol) ∷ more) rest h r =
    let tail = stream more ++ rest in
    ap (λ xs. take_chars xs []) (append_assoc line (eol ∷ stream more) rest)
    ∙ take_chars-append line (eol ∷ tail) []
    ∙ ap (λ q. ((take_chars (eol ∷ tail) q.0).0, q.1 ++ (take_chars (eol ∷ tail) q.0).1))
        (take_chars-line line [] h.0.0 (omega arith))
    ∙ take_chars-eol eol tail (kept line) h.0.1
    ∙ ap (λ q. (q.0, emit (kept line) q.1)) (take_chars-stream more rest h.1 r)

abbrev pub concat : List (List ℕ) → List ℕ
concat [] = []
concat (xs ∷ xss) = xs ++ concat xss

take_reads-concat :
    (reads : List (List ℕ)) (buf : List ℕ) → take_reads reads buf ≡ take_chars (concat reads) buf
unfolding take_reads take_chars
take_reads-concat [] buf = refl
take_reads-concat (bytes ∷ more) buf =
    ap (λ q. (q.0, (take_chars bytes buf).1 ++ q.1))
      (take_reads-concat more (take_chars bytes buf).0)
    ∙ sym (take_chars-append bytes (concat more) buf)

-- However the output of the child is cut into reads: of lines without CR and LF, each ended by a CR
-- or an LF, and a rest without either, `lineCb_` gets each line that is not empty, in order, and the
-- rest waits in the buffer. Of a line or a rest of more than 8192 bytes only what is left when whole
-- blocks of 8193 bytes are thrown away counts.
pub take_reads-stream :
    (reads : List (List ℕ)) (ls : List (List ℕ × ℕ)) (rest : List ℕ)
    → IsStream ls
    → EolFree rest
    → concat reads ≡ stream ls ++ rest
    → take_reads reads [] ≡ (kept rest, kept_lines ls)
take_reads-stream reads ls rest h r e =
    take_reads-concat reads [] ∙ ap (λ xs. take_chars xs []) e ∙ take_chars-stream ls rest h r
