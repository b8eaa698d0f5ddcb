-- ===== src/Proto/Parser/Runs.antt =====
-- What `feed` promises, as a relation: the turns from one parser to the one that waits for more
-- bytes, and the frames on the way. `feed` implements it, and always returns.
use chassis_host.Common.{
  ℕ, zero, suc, ◌+◌, ◌≤◌, ◌<◌, ◌≡◌, refl, sym, ◌∙◌, arith, List, [], ◌∷◌, ◌++◌, length, get_or,
  Option, none, some, length-drop, Option-cases, inl, inr, ◌⊎◌,
}
use mathlib.Core.Path.{subst}
use mathlib.Core.Option.{some-injective}
use native.Mathlib.Nat.{le_refl}
use mathlib.Core.List.{append_assoc, append-nil}
use chassis_host.Proto.Defs.{frame_overhead}
use chassis_host.Proto.Frame.{Frame}
use chassis_host.Proto.Parser.{
  FrameParser, Turn, returns, continues, turn, push, feed_loop, feed, extend, find_header, discard,
  at_header, check_crc,
}

pub data Runs : FrameParser → FrameParser → List Frame → Type 0 where
  stop : {p q : FrameParser} → turn p ≡ returns q → Runs p q []
  go :
      {p q r : FrameParser} {f : Option Frame} {fs : List Frame}
      → turn p ≡ continues q f
      → Runs q r fs
      → Runs p r (push [] f ++ fs)

-- A turn that goes on leaves a shorter buffer.
abbrev Shrinks : ℕ → Turn → Type 0
Shrinks n (returns q) = Unit {0}
Shrinks n (continues q f) = length q.buf < n

check_crc-Shrinks :
    (p : FrameParser)
    → frame_overhead + get_or p.buf 3 0 ≤ length p.buf
    → Shrinks (length p.buf) (check_crc p)
unfolding check_crc
check_crc-Shrinks p h = ground (arith, length-drop (frame_overhead + get_or p.buf 3 0) p.buf)

at_header-Shrinks : (p : FrameParser) → Shrinks (length p.buf) (at_header p)
unfolding at_header
at_header-Shrinks p = ground (arith, length-drop 2 p.buf, check_crc-Shrinks p)

pub length-discard : (n : ℕ) (p : FrameParser) → length (discard n p).buf ≤ length p.buf
unfolding discard
length-discard n p = ground (arith, length-drop n p.buf)

Shrinks-le : (m n : ℕ) (t : Turn) → m ≤ n → Shrinks m t → Shrinks n t
Shrinks-le m n (returns q) h s = s
Shrinks-le m n (continues q f) h s = omega arith

turn-Shrinks : (p : FrameParser) → Shrinks (length p.buf) (turn p)
unfolding turn
turn-Shrinks p = elim (Option-cases (find_header p.buf)) [
  | inl e ↦ rw (e, turn) tt
  | inr (idx, e) ↦
      rw (e, turn)
        (Shrinks-le _ _ (at_header (discard idx p)) (length-discard idx p)
          (at_header-Shrinks (discard idx p)))
]

continues-Shrinks :
    (p q : FrameParser) (f : Option Frame) → turn p ≡ continues q f → length q.buf < length p.buf
continues-Shrinks p q f e = rw e at (turn-Shrinks p)

-- With more fuel than bytes the loop computes what `Runs` says.
loop_of_Runs :
    (fuel : ℕ) {p q : FrameParser} {fs : List Frame} (out : List Frame)
    → Runs p q fs
    → length p.buf < fuel
    → feed_loop fuel p out ≡ some (q, out ++ fs)
unfolding feed_loop
loop_of_Runs zero out r h = absurd (omega arith)
loop_of_Runs (suc fuel) out (stop e) h = rw (e, append-nil)
loop_of_Runs (suc fuel) out (go {p = p} {q = q} {f = none} e r) h =
    rw e (loop_of_Runs fuel out r (omega (arith, continues-Shrinks p q none e)))
loop_of_Runs (suc fuel) out (go {p = p} {q = q} {f = some f} {fs = fs} e r) h = rw e (
    rw (← append_assoc out (f ∷ []) fs)
      (loop_of_Runs fuel (out ++ f ∷ []) r (omega (arith, continues-Shrinks p q (some f) e))))

pub Turn-cases :
    (t : Turn)
    → ((q : FrameParser) × (t ≡ returns q))
      ⊎ ((q : FrameParser) × (f : Option Frame) × (t ≡ continues q f))
Turn-cases (returns q) = inl (q, refl)
Turn-cases (continues q f) = inr (q, f, refl)

-- Some run always exists.
run :
    (fuel : ℕ) (p : FrameParser)
    → length p.buf < fuel
    → (q : FrameParser) × (fs : List Frame) × Runs p q fs
run zero p h = absurd (omega arith)
run (suc fuel) p h = elim (Turn-cases (turn p)) [
  | inl (q, e) ↦ (q, [], stop e)
  | inr (q, f, e) ↦
      let (r, fs, rest) = run fuel q (omega (arith, continues-Shrinks p q f e)) in
      (r, push [] f ++ fs, go e rest)
]

pub feed_of_Runs :
    (p : FrameParser) {q : FrameParser} {fs : List Frame} (bytes : List ℕ)
    → Runs (extend p bytes) q fs
    → feed p bytes ≡ some (q, fs)
unfolding feed
feed_of_Runs p bytes r = loop_of_Runs (suc (length (p.buf ++ bytes))) [] r (le_refl _)

-- `feed` returns on every input: its loop ends, and what it did is a run of turns.
pub feed_total :
    (p : FrameParser) (bytes : List ℕ)
    → (q : FrameParser) × (fs : List Frame) × (feed p bytes ≡ some (q, fs))
      × Runs (extend p bytes) q fs
feed_total p bytes =
    let (q, fs, r) = run (suc (length (p.buf ++ bytes))) (extend p bytes) (le_refl _) in
    (q, fs, feed_of_Runs p bytes r, r)

-- A result of `feed` is the end of a run.
pub Runs-of_feed :
    (p q : FrameParser) (fs : List Frame) (bytes : List ℕ)
    → feed p bytes ≡ some (q, fs)
    → Runs (extend p bytes) q fs
Runs-of_feed p q fs bytes e =
    let (q', fs', e', r) = feed_total p bytes in
    subst (λ (x : FrameParser × List Frame). Runs (extend p bytes) x.0 x.1)
      (some-injective (q', fs') (q, fs) (sym e' ∙ e)) r
