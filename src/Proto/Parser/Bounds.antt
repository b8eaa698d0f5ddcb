-- ===== src/Proto/Parser/Bounds.antt =====
-- Bounds: the bytes that wait between two calls of `feed`, and the shape of every frame returned.
use chassis_host.Common.{
  ℕ, ◌+◌, ◌-◌, ◌≤◌, ◌<◌, ◌≡◌, arith, List, length, get_or, take, drop, replicate, none, some,
  Option-cases, inl, inr, All, length-append, length-take, length-drop, length-replicate,
}
use chassis_host.Proto.Defs.{max_payload, frame_overhead}
use chassis_host.Proto.Frame.{Frame}
use chassis_host.Proto.Parser.{
  FrameParser, Turn, returns, continues, turn, feed, find_header, discard, at_header, check_crc,
  frame_at,
}
use chassis_host.Proto.Parser.Runs.{Runs, stop, go, Runs-of_feed}
use chassis_host.Proto.Parser.Search.{tail_skip, tail_skip_lem}
use chassis_host.Proto.Parser.Chunks.{no_header_found, header_found}

-- The payload is the whole array of 32 bytes, and the length that counts lies in it.
pub record IsFrame (f : Frame) : Type 0 where
  pub array : length f.payload ≡ 32
  pub len_fits : f.len ≤ 32

-- What a turn may leave behind.
abbrev Fits : Turn → Type 0
Fits (returns q) = length q.buf < 39
Fits (continues q none) = Unit {0}
Fits (continues q (some f)) = IsFrame f

frame_at-IsFrame :
    (buf : List ℕ)
    → get_or buf 3 0 ≤ max_payload
    → frame_overhead + get_or buf 3 0 ≤ length buf
    → IsFrame (frame_at buf)
unfolding frame_at
frame_at-IsFrame buf fits whole = record {
  array = omega (
    arith,
    length-append (take (get_or buf 3 0) (drop 5 buf)) (replicate (max_payload - get_or buf 3 0) 0),
    length-take (get_or buf 3 0) (drop 5 buf),
    length-drop 5 buf,
    length-replicate {A = ℕ} (max_payload - get_or buf 3 0) 0,
  );
  len_fits = fits;
}

check_crc-Fits :
    (p : FrameParser)
    → get_or p.buf 3 0 ≤ max_payload
    → frame_overhead + get_or p.buf 3 0 ≤ length p.buf
    → Fits (check_crc p)
unfolding check_crc
check_crc-Fits p fits whole = ground (arith, frame_at-IsFrame p.buf)

at_header-Fits : (p : FrameParser) → Fits (at_header p)
unfolding at_header
at_header-Fits p = ground (arith, check_crc-Fits p)

kept-lt : (p : FrameParser) → length (discard (tail_skip p.buf) p).buf < 2
unfolding discard
kept-lt p = ground (arith, tail_skip_lem p.buf, length-drop (tail_skip p.buf) p.buf)

turn-Fits : (p : FrameParser) → Fits (turn p)
turn-Fits p = elim (Option-cases (find_header p.buf)) [
  | inl absent ↦ rw (no_header_found p absent) (omega (arith, kept-lt p))
  | inr (idx, found) ↦ rw (header_found p idx found) (at_header-Fits (discard idx p))
]

Runs-Fits :
    {p q : FrameParser} {fs : List Frame} → Runs p q fs → (length q.buf < 39) × All IsFrame fs
Runs-Fits (stop {p = p} e) = (rw e at (turn-Fits p), tt)
Runs-Fits (go {f = none} e r) = Runs-Fits r
Runs-Fits (go {p = p} {f = some f} e r) =
    let rest = Runs-Fits r in (rest.0, (rw e at (turn-Fits p), rest.1))

-- Whatever bytes come in, fewer than 39 of them (the longest frame) wait after `feed`, and every
-- frame it returns has an array of 32 payload bytes and a length of at most 32.
pub feed_bounds :
    (p q : FrameParser) (fs : List Frame) (bytes : List ℕ)
    → feed p bytes ≡ some (q, fs)
    → (length q.buf < 39) × All IsFrame fs
feed_bounds p q fs bytes e = Runs-Fits (Runs-of_feed p q fs bytes e)
