-- ===== src/Proto/Parser/Chunks.antt =====
-- A stream may be cut anywhere: `feed` of two chunks is `feed` of both at once.
use mathlib.Core.Option
use mathlib.Core.List.{append_assoc, append-nil}
use chassis_host.Common.{
  ◌>>=◌, ℕ, zero, suc, ◌+◌, ◌≤◌, ◌≡◌, ◌≢◌, refl, sym, ap, ◌∙◌, arith, List, [], ◌∷◌, ◌++◌, length,
  drop, get_or, Option, none, some, Option-cases, inl, inr, drop-append, get_or-append, take-append,
  length-drop, drop-drop, length-append,
}
use chassis_host.Proto.Defs.{frame_overhead}
use chassis_host.Proto.Frame.{Frame}
use chassis_host.Proto.Parser.{
  FrameParser, Turn, returns, continues, turn, feed, extend, push, find_header, discard, at_header,
  check_crc, no_header, frame_at,
}
use chassis_host.Proto.Parser.Runs.{Runs, stop, go, Runs-of_feed, feed_of_Runs, feed_total}
use chassis_host.Proto.Parser.Search.{
  find_header-append, find_header-lt, find_header-drop, tail_skip, tail_skip_lem, tail_skip-le,
  tail_skip-append, find_header-none-append,
}

parser_ext :
    (p q : FrameParser)
    → p.buf ≡ q.buf
    → p.stats.dropped ≡ q.stats.dropped
    → p.stats.frames ≡ q.stats.frames
    → p.stats.crc_err ≡ q.stats.crc_err
    → p ≡ q
parser_ext p q a b c d = ground arith

discard-extend :
    (n : ℕ) (p : FrameParser) (ys : List ℕ)
    → n ≤ length p.buf
    → discard n (extend p ys) ≡ extend (discard n p) ys
unfolding discard
discard-extend n p ys h = ground (arith, drop-append n p.buf ys)

discard-discard : (j n : ℕ) (p : FrameParser) → discard j (discard n p) ≡ discard (n + j) p
unfolding discard
discard-discard j n p = ground (arith, drop-drop j n p.buf)

no_header_lem : (p : FrameParser) → no_header p ≡ discard (tail_skip p.buf) p
unfolding no_header
no_header_lem p = ap (λ k. discard k p) (tail_skip_lem p.buf)

check_crc-continues : (p : FrameParser) (q : FrameParser) → check_crc p ≢ returns q
unfolding check_crc
check_crc-continues p q e = ground arith

returns_injective : {p q : FrameParser} → returns p ≡ returns q → p ≡ q
returns_injective e = cc

-- The same turn, with more bytes at the end of the buffer.
abbrev extend_turn : List ℕ → Turn → Turn
extend_turn ys (returns q) = returns (extend q ys)
extend_turn ys (continues q f) = continues (extend q ys) f

frame_at-append :
    (buf ys : List ℕ)
    → frame_overhead + get_or buf 3 0 ≤ length buf
    → frame_at (buf ++ ys) ≡ frame_at buf
unfolding frame_at
frame_at-append buf ys h = rw (
  get_or-append buf ys 2 0 (omega arith),
  get_or-append buf ys 3 0 (omega arith),
  get_or-append buf ys 4 0 (omega arith),
  drop-append 5 buf ys (omega arith),
  take-append (get_or buf 3 0) (drop 5 buf) ys (omega (arith, length-drop 5 buf)),
)

-- The received and the computed checksum, and the rest, all lie in the frame.
check_crc-extend :
    (p : FrameParser) (ys : List ℕ)
    → frame_overhead + get_or p.buf 3 0 ≤ length p.buf
    → check_crc (extend p ys) ≡ extend_turn ys (check_crc p)
unfolding check_crc
check_crc-extend p ys h =
    rw
      (
        get_or-append p.buf ys 3 0 (omega arith),
        get_or-append p.buf ys (5 + get_or p.buf 3 0) 0 (omega arith),
        get_or-append p.buf ys (6 + get_or p.buf 3 0) 0 (omega arith),
        drop-append 2 p.buf ys (omega arith),
        take-append (3 + get_or p.buf 3 0) (drop 2 p.buf) ys (omega (arith, length-drop 2 p.buf)),
        drop-append (frame_overhead + get_or p.buf 3 0) p.buf ys h,
        frame_at-append p.buf ys h,
      )
      (ground arith)

-- At a header, a buffer with more bytes goes on in the same way, or waited for those bytes.
at_header-extend :
    (p q : FrameParser) (f : Option Frame) (ys : List ℕ)
    → at_header p ≡ continues q f
    → at_header (extend p ys) ≡ continues (extend q ys) f
unfolding at_header
at_header-extend p q f ys e = ground (
  arith,
  length-append p.buf ys,
  get_or-append p.buf ys 3 0,
  drop-append 2 p.buf ys,
  check_crc-extend p ys,
)

at_header-returns : (p q : FrameParser) → at_header p ≡ returns q → q ≡ p
unfolding at_header
at_header-returns p q e = ground (arith, check_crc-continues p q)

pub no_header_found :
    (p : FrameParser) → find_header p.buf ≡ none → turn p ≡ returns (discard (tail_skip p.buf) p)
unfolding turn
no_header_found p e = rw (e, turn) (ap returns (no_header_lem p))

pub header_found :
    (p : FrameParser) (idx : ℕ) → find_header p.buf ≡ some idx → turn p ≡ at_header (discard idx p)
unfolding turn
header_found p idx e = rw (e, turn)

discard-zero : (p : FrameParser) → discard 0 p ≡ p
unfolding discard
discard-zero p = refl

buf-discard : (n : ℕ) (p : FrameParser) → (discard n p).buf ≡ drop n p.buf
unfolding discard
buf-discard zero p = refl
buf-discard (suc n) p = ground arith

-- A turn that goes on does the same when more bytes stand behind.
turn-extend :
    (p q : FrameParser) (f : Option Frame) (ys : List ℕ)
    → turn p ≡ continues q f
    → turn (extend p ys) ≡ continues (extend q ys) f
turn-extend p q f ys e = elim (Option-cases (find_header p.buf)) [
  | inl absent ↦ absurd (cc (no_header_found p absent))
  | inr (idx, found) ↦
      header_found (extend p ys) idx (find_header-append p.buf ys idx found)
      ∙ ap at_header (discard-extend idx p ys (omega (arith, find_header-lt p.buf idx found)))
      ∙ at_header-extend (discard idx p) q f ys (sym (header_found p idx found) ∙ e)
]

-- Dropping bytes first does not change a turn that would drop them.
turn-discard :
    (p : FrameParser) (n : ℕ)
    → find_header p.buf ≡ Option.map (λ j. n + j) (find_header (drop n p.buf))
    → tail_skip p.buf ≡ n + tail_skip (drop n p.buf)
    → turn p ≡ turn (discard n p)
turn-discard p n finds skip = elim (Option-cases (find_header (drop n p.buf))) [
  | inl absent ↦
      no_header_found p (finds ∙ ap (Option.map (λ j. n + j)) absent)
      ∙ ap returns
          (ap (λ k. discard k p) skip ∙ sym (discard-discard (tail_skip (drop n p.buf)) n p))
      ∙ sym (
          no_header_found (discard n p) (rw (buf-discard n p) absent)
          ∙ ap (λ l. returns (discard (tail_skip l) (discard n p))) (buf-discard n p))
  | inr (j, found) ↦
      header_found p (n + j) (finds ∙ ap (Option.map (λ k. n + k)) found)
      ∙ ap at_header (sym (discard-discard j n p))
      ∙ sym (header_found (discard n p) j (rw (buf-discard n p) found))
]

-- With no header in the buffer, what was dropped early is what would be dropped late.
absent-extend :
    (p : FrameParser) (ys : List ℕ)
    → find_header p.buf ≡ none
    → turn (extend p ys) ≡ turn (extend (discard (tail_skip p.buf) p) ys)
absent-extend p ys absent =
    turn-discard (extend p ys) (tail_skip p.buf) (rw cut (find_header-none-append p.buf ys absent))
      (rw cut (tail_skip-append p.buf ys))
    ∙ ap turn (discard-extend (tail_skip p.buf) p ys (tail_skip-le p.buf))
  where
    cut : drop (tail_skip p.buf) (p.buf ++ ys) ≡ drop (tail_skip p.buf) p.buf ++ ys
    cut = drop-append (tail_skip p.buf) p.buf ys (tail_skip-le p.buf)

-- A header that waits at the front for the rest of its frame.
waiting-extend :
    (p : FrameParser) (ys : List ℕ) (idx : ℕ)
    → find_header p.buf ≡ some idx
    → turn (extend p ys) ≡ turn (extend (discard idx p) ys)
waiting-extend p ys idx found =
    header_found (extend p ys) idx (find_header-append p.buf ys idx found)
    ∙ ap at_header (discard-extend idx p ys (omega (arith, find_header-lt p.buf idx found)))
    ∙ sym (
        header_found (extend (discard idx p) ys) 0 (find_header-append _ ys 0 at_front)
        ∙ ap at_header (discard-zero _))
  where
    at_front : find_header (discard idx p).buf ≡ some 0
    at_front = rw (buf-discard idx p) (find_header-drop p.buf idx found)

-- A parser that has returned does the same on more bytes as if it had not stopped.
returned-extend :
    (p q : FrameParser) (ys : List ℕ) → turn p ≡ returns q → turn (extend p ys) ≡ turn (extend q ys)
returned-extend p q ys e = elim (Option-cases (find_header p.buf)) [
  | inl absent ↦
      absent-extend p ys absent
      ∙ ap (λ r. turn (extend r ys)) (returns_injective (sym (no_header_found p absent) ∙ e))
  | inr (idx, found) ↦
      waiting-extend p ys idx found
      ∙ ap (λ r. turn (extend r ys))
          (sym (at_header-returns (discard idx p) q (sym (header_found p idx found) ∙ e)))
]

Runs-of_turn :
    {p p' q : FrameParser} {fs : List Frame} → turn p ≡ turn p' → Runs p' q fs → Runs p q fs
Runs-of_turn e (stop s) = stop (e ∙ s)
Runs-of_turn e (go s r) = go (e ∙ s) r

-- Runs over two chunks are one run over both.
Runs-join :
    {p q r : FrameParser} {fs gs : List Frame} (ys : List ℕ)
    → Runs p q fs
    → Runs (extend q ys) r gs
    → Runs (extend p ys) r (fs ++ gs)
Runs-join ys (stop {p = p} {q = q} e) s = Runs-of_turn (returned-extend p q ys e) s
Runs-join {gs = gs} ys (go {p = p} {q = q} {f = f} {fs = fs} e r) s =
    rw (append_assoc (push [] f) fs gs) (go (turn-extend p q f ys e) (Runs-join ys r s))

-- Feeding the chunks of a stream one after the other: the frames in order.
pub feed_all : FrameParser → List (List ℕ) → Option (FrameParser × List Frame)
feed_all p [] = some (p, [])
feed_all p (bytes ∷ more) = do (q, fs) ← feed p bytes; (r, gs) ← feed_all q more; some (r, fs ++ gs)

-- Two chunks fed one after the other leave the parser as their concatenation fed at once does,
-- buffer and counters included, and give the same frames in the same order.
pub feed-append :
    (p q r : FrameParser) (fs gs : List Frame) (xs ys : List ℕ)
    → feed p xs ≡ some (q, fs)
    → feed q ys ≡ some (r, gs)
    → feed p (xs ++ ys) ≡ some (r, fs ++ gs)
feed-append p q r fs gs xs ys first second = feed_of_Runs p (xs ++ ys) (
    rw (← append_assoc p.buf xs ys)
      (Runs-join ys (Runs-of_feed p q fs xs first) (Runs-of_feed q r gs ys second)))

-- A parser that waits for bytes: a turn leaves it as it is.
abbrev pub IsSettled : FrameParser → Type 0
IsSettled p = turn p ≡ returns p

IsSettled-after : (p q : FrameParser) → turn p ≡ returns q → IsSettled q
IsSettled-after p q e =
    sym (rw (append-nil p.buf, append-nil q.buf) at (returned-extend p q [] e)) ∙ e

Runs-IsSettled : {p q : FrameParser} {fs : List Frame} → Runs p q fs → IsSettled q
Runs-IsSettled (stop {p = p} {q = q} e) = IsSettled-after p q e
Runs-IsSettled (go e r) = Runs-IsSettled r

-- After every `feed` the parser waits for more bytes.
pub feed-IsSettled :
    (p q : FrameParser) (fs : List Frame) (bytes : List ℕ)
    → feed p bytes ≡ some (q, fs)
    → IsSettled q
feed-IsSettled p q fs bytes e = Runs-IsSettled (Runs-of_feed p q fs bytes e)

abbrev pub concat : List (List ℕ) → List ℕ
concat [] = []
concat (bytes ∷ more) = bytes ++ concat more

feed-nil : (p : FrameParser) → IsSettled p → feed p [] ≡ some (p, [])
feed-nil p settled = feed_of_Runs p [] (stop (rw (append-nil p.buf) settled))

-- However a stream is cut into chunks, empty ones included, feeding them one after the other gives
-- the frames, the counters and the buffer that feeding the whole stream at once gives.
pub feed_all-concat :
    (p : FrameParser) (chunks : List (List ℕ))
    → IsSettled p
    → feed_all p chunks ≡ feed p (concat chunks)
unfolding feed_all
feed_all-concat p [] settled = sym (feed-nil p settled)
feed_all-concat p (bytes ∷ more) settled =
    let (q, fs, first, run) = feed_total p bytes in
    let (r, gs, second, _) = feed_total q (concat more) in
    rw first (
      rw (feed_all-concat q more (Runs-IsSettled run) ∙ second)
        (sym (feed-append p q r fs gs bytes (concat more) first second)))
