-- ===== src/Log/Stream/Whole.antt =====
-- What a sequence of `operator<<` leaves in the buffer.
use mathlib.Core.List.{Sublistᴰ, append_assoc, append-nil}
use mathlib.Core.Logic.{⊎_map}
use chassis_host.Common.{
  ℕ, ◌+◌, ◌<◌, ◌≤◌, ◌≡◌, ◌⊎◌, inl, inr, refl, sym, ap, ◌∙◌, none, some, List, [], ◌∷◌, ◌++◌, length,
  leb, if◌then◌else◌, arith, length-append, Bool-cases,
}
use chassis_host.Log.Buffer.{FixedBuffer, avail, append, append-InBounds, InBounds}
use chassis_host.Log.Convert.{convert}
use chassis_host.Log.Stream.{
  Item, bool, char, string, integer, pointer, double, put, put_numeric, put_all, pointer_text,
}

-- The text of an item, and of a list of them.
abbrev pub text_of : Item → List ℕ
text_of (bool v) = if v then 49 ∷ [] else 48 ∷ []
text_of (char c) = c ∷ []
text_of (string (some str)) = str
text_of (string none) = 40 ∷ 110 ∷ 117 ∷ 108 ∷ 108 ∷ 41 ∷ []
text_of (integer v) = convert v
text_of (pointer v) = pointer_text v
text_of (double text) = text

abbrev pub line_of : List Item → List ℕ
line_of [] = []
line_of (x ∷ xs) = text_of x ++ line_of xs

-- What becomes of one item.
abbrev Dropped : FixedBuffer → List ℕ → Type 0
Dropped b text = (b.size ≤ length b.bytes + length text) ⊎ (b.size < length b.bytes + 32)

abbrev Written : FixedBuffer → List ℕ → FixedBuffer → Type 0
Written b text b' = (b' ≡ record b { bytes = b.bytes ++ text }) ⊎ ((b' ≡ b) × Dropped b text)

append-Written : (text : List ℕ) (b : FixedBuffer) → Written b text (append text b)
unfolding append
append-Written text b = ground (arith, length-append b.bytes text)

put_numeric-Written : (text : List ℕ) (b : FixedBuffer) → Written b text (put_numeric text b)
put_numeric-Written text b = ground (arith, append-Written text b)

put_numeric-InBounds :
    (text : List ℕ) (b : FixedBuffer) → InBounds b → InBounds (put_numeric text b)
put_numeric-InBounds text b h = elim (Bool-cases (leb 32 (avail b))) [
  | inl room ↦ rw room (append-InBounds text b h)
  | inr full ↦ rw full h
]

put-Written : (b : FixedBuffer) (x : Item) → Written b (text_of x) (put b x)
unfolding put
put-Written b (bool v) = append-Written (if v then 49 ∷ [] else 48 ∷ []) b
put-Written b (char c) = append-Written (c ∷ []) b
put-Written b (string (some str)) = append-Written str b
put-Written b (string none) = append-Written (40 ∷ 110 ∷ 117 ∷ 108 ∷ 108 ∷ 41 ∷ []) b
put-Written b (integer v) = put_numeric-Written (convert v) b
put-Written b (pointer v) = put_numeric-Written (pointer_text v) b
put-Written b (double text) = put_numeric-Written text b

-- What becomes of a line.
abbrev pub Kept : FixedBuffer → List Item → FixedBuffer → List Item → Type 0
Kept b xs b' kept =
    Sublistᴰ kept xs
    × ((b'.bytes ≡ b.bytes ++ line_of kept)
        × (InBounds b' × ((b.size < length b.bytes + length (line_of xs) + 32) ⊎ (kept ≡ xs))))

written-Kept :
    (b b₁ b' : FixedBuffer) (x : Item) (xs kept : List Item)
    → b₁ ≡ record b { bytes = b.bytes ++ text_of x }
    → Kept b₁ xs b' kept
    → Kept b (x ∷ xs) b' (x ∷ kept)
written-Kept b b₁ b' x xs kept e (sub, (text, (bounds, all))) =
    let bytes : b₁.bytes ≡ b.bytes ++ text_of x = ap (λ r. r.bytes) e in
    let size : b₁.size ≡ b.size = ap (λ r. r.size) e in
    (
      Sublistᴰ.cons-cons refl sub,
      (
        text ∙ ap (λ l. l ++ line_of kept) bytes ∙ append_assoc b.bytes (text_of x) (line_of kept),
        (
          bounds,
          ⊎_map
              (λ few. omega (
                arith,
                few,
                size,
                ap length bytes,
                length-append b.bytes (text_of x),
                length-append (text_of x) (line_of xs),
              ))
              (ap (λ l. x ∷ l)) all,
        ),
      ),
    )

Dropped-room :
    (b : FixedBuffer) (x : Item) (xs : List Item)
    → Dropped b (text_of x)
    → b.size < length b.bytes + length (text_of x ++ line_of xs) + 32
Dropped-room b x xs (inl h) = omega (arith, h, length-append (text_of x) (line_of xs))
Dropped-room b x xs (inr h) = omega (arith, h)

dropped-Kept :
    (b b₁ b' : FixedBuffer) (x : Item) (xs kept : List Item)
    → b₁ ≡ b
    → Dropped b (text_of x)
    → Kept b₁ xs b' kept
    → Kept b (x ∷ xs) b' kept
dropped-Kept b b₁ b' x xs kept e drop (sub, (text, (bounds, all))) = (
  Sublistᴰ.cons sub,
  (text ∙ ap (λ r. r.bytes ++ line_of kept) e, (bounds, inl (Dropped-room b x xs drop))),
)

either_Kept :
    (b b₁ b' : FixedBuffer) (x : Item) (xs kept : List Item)
    → Written b (text_of x) b₁
    → Kept b₁ xs b' kept
    → (kept' : List Item) × Kept b (x ∷ xs) b' kept'
either_Kept b b₁ b' x xs kept (inl e) k = (x ∷ kept, written-Kept b b₁ b' x xs kept e k)
either_Kept b b₁ b' x xs kept (inr (e, drop)) k = (kept, dropped-Kept b b₁ b' x xs kept e drop k)

put-InBounds : (b : FixedBuffer) (x : Item) → InBounds b → InBounds (put b x)
unfolding put
put-InBounds b (bool v) h = append-InBounds (if v then 49 ∷ [] else 48 ∷ []) b h
put-InBounds b (char c) h = append-InBounds (c ∷ []) b h
put-InBounds b (string (some str)) h = append-InBounds str b h
put-InBounds b (string none) h = append-InBounds (40 ∷ 110 ∷ 117 ∷ 108 ∷ 108 ∷ 41 ∷ []) b h
put-InBounds b (integer v) h = put_numeric-InBounds (convert v) b h
put-InBounds b (pointer v) h = put_numeric-InBounds (pointer_text v) b h
put-InBounds b (double text) h = put_numeric-InBounds text b h

-- A line of any values in a buffer that is not full: it never runs over its end, each value's text
-- goes in whole or not at all, in order, and all of them do unless the whole line would leave fewer
-- than 32 bytes free.
pub put_all-Kept :
    (b : FixedBuffer) (xs : List Item)
    → InBounds b
    → (kept : List Item) × Kept b xs (put_all b xs) kept
unfolding put_all
put_all-Kept b [] h = ([], (Sublistᴰ.slnil, (sym (append-nil b.bytes), (h, inr refl))))
put_all-Kept b (x ∷ xs) h =
    let (kept, k) = put_all-Kept (put b x) xs (put-InBounds b x h) in
    either_Kept b (put b x) (put_all (put b x) xs) x xs kept (put-Written b x) k
