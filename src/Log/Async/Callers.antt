-- ===== src/Log/Async/Callers.antt =====
-- The callers' side: what the members behind the mutex look like, and that `append` puts the line at
-- the end of what waits there.
use mathlib.Core.List.{append_assoc, append-nil}
use chassis_host.Common.{
  ℕ, ◌<◌, ◌≡◌, refl, sym, ap, ◌∙◌, true, false, Option, none, some, List, [], ◌∷◌, ◌++◌, length,
  ltb, lt→ltb, Bool-cases, inl, inr,
}
use chassis_host.Log.Buffer.{FixedBuffer, large_buffer, avail, append}
use chassis_host.Log.Async.{FrontEnd, new_buffer, spare, append_line}

abbrev pub bytes_of : Option FixedBuffer → List ℕ
bytes_of (some b) = b.bytes
bytes_of none = []

abbrev pub texts : List (Option FixedBuffer) → List ℕ
texts [] = []
texts (b ∷ bs) = bytes_of b ++ texts bs

texts-append : (xs ys : List (Option FixedBuffer)) → texts (xs ++ ys) ≡ texts xs ++ texts ys
texts-append [] ys = refl
texts-append (x ∷ xs) ys =
    ap (λ l. bytes_of x ++ l) (texts-append xs ys)
    ∙ sym (append_assoc (bytes_of x) (texts xs) (texts ys))

abbrev pub IsLarge : FixedBuffer → Type 0
IsLarge b = b.size ≡ large_buffer

-- Either the spare buffer is there and nothing waits, or it is in use and a full buffer waits.
pub data FrontShape : FrontEnd → Type 0 where
  quiet :
      {b : FixedBuffer}
      → IsLarge b
      → FrontShape (record { current = some b; next = some new_buffer; buffers = [] })
  lent :
      {b q : FixedBuffer} {bs : List (Option FixedBuffer)}
      → IsLarge b
      → IsLarge q
      → FrontShape (record { current = some b; next = none; buffers = some q ∷ bs })

abbrev pub front_text : FrontEnd → List ℕ
front_text f = texts f.buffers ++ bytes_of f.current

abbrev pub grown : List ℕ → FixedBuffer → FixedBuffer
grown line b = record b { bytes = b.bytes ++ line }

append_line-fits :
    (line : List ℕ) (b : FixedBuffer) (nxt : Option FixedBuffer) (bs : List (Option FixedBuffer))
    → ltb (length line) (avail b) ≡ true
    → append_line line (record { current = some b; next = nxt; buffers = bs })
      ≡ some (record { current = some (grown line b); next = nxt; buffers = bs })
unfolding append_line append
append_line-fits line b nxt bs h = rw h refl

append-new :
    (line : List ℕ) → length line < large_buffer → append line new_buffer ≡ grown line new_buffer
unfolding append
append-new line h = rw (lt→ltb (length line) (avail new_buffer) h) refl

append_line-full :
    (line : List ℕ) (b : FixedBuffer) (nxt : Option FixedBuffer) (bs : List (Option FixedBuffer))
    → length line < large_buffer
    → spare nxt ≡ new_buffer
    → ltb (length line) (avail b) ≡ false
    → append_line line (record { current = some b; next = nxt; buffers = bs })
      ≡ some (record {
        current = some (grown line new_buffer);
        next = none;
        buffers = bs ++ (some b ∷ []);
      })
unfolding append_line
append_line-full line b nxt bs short fresh h =
    let with_current : FixedBuffer → FrontEnd =
      λ c. record { current = some c; next = none; buffers = bs ++ (some b ∷ []) } in
    rw h (ap (λ c. some (with_current c)) (ap (append line) fresh ∙ append-new line short))

abbrev pub Appended : List ℕ → FrontEnd → Type 0
Appended line f =
    (f' : FrontEnd) × ((append_line line f ≡ some f')
      × (FrontShape f' × (front_text f' ≡ front_text f ++ line)))

pub append_line-Appended :
    (line : List ℕ) (f : FrontEnd) → length line < large_buffer → FrontShape f → Appended line f
append_line-Appended line f short (quiet {b = b} large) =
    elim (Bool-cases (ltb (length line) (avail b))) [
      | inl fits ↦ (
        record { current = some (grown line b); next = some new_buffer; buffers = [] },
        (append_line-fits line b (some new_buffer) [] fits, (quiet large, refl)),
      )
      | inr full ↦ (
        record { current = some (grown line new_buffer); next = none; buffers = some b ∷ [] },
        (
          append_line-full line b (some new_buffer) [] short refl full,
          (lent refl large, ap (λ l. l ++ line) (append-nil b.bytes)),
        ),
      )
    ]
append_line-Appended line f short (lent {b = b} {q = q} {bs = bs} large large_q) =
    elim (Bool-cases (ltb (length line) (avail b))) [
      | inl fits ↦ (
        record { current = some (grown line b); next = none; buffers = some q ∷ bs },
        (
          append_line-fits line b none (some q ∷ bs) fits,
          (lent large large_q, sym (append_assoc (texts (some q ∷ bs)) b.bytes line)),
        ),
      )
      | inr full ↦ (
        record {
          current = some (grown line new_buffer);
          next = none;
          buffers = some q ∷ (bs ++ (some b ∷ []));
        },
        (
          append_line-full line b none (some q ∷ bs) short refl full,
          (
            lent refl large_q,
            ap (λ l. l ++ line)
                (texts-append (some q ∷ bs) (some b ∷ [])
                  ∙ ap (λ l. texts (some q ∷ bs) ++ l) (append-nil b.bytes)),
          ),
        ),
      )
    ]
