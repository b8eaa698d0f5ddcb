-- ===== src/Proto/Parser.antt =====
-- `FrameParser` of proto/FrameCodec: the streaming parser. One turn of the `for (;;)` of `feed`
-- is `turn`; the loop takes fuel, and runs out only as `none`.
pub mod Runs
pub mod Search
pub mod Layout
pub mod RoundTrip
pub mod Corruption
pub mod Bounds
pub mod Chunks
use Prim.Native.Nat.{bit_or}
use mathlib.Core.Option
use chassis_host.Common.{
  ℕ, zero, suc, ◌+◌, ◌-◌, ◌*◌, ◌^◌, Bool, true, false, ◌&&◌, List, [], ◌∷◌, ◌++◌, length, get_or,
  take, drop, replicate, u16, u64, Option, none, some, ltb, ◌==◌, if◌then◌else◌,
}
use chassis_host.Proto.Defs.{head0, head1, frame_overhead, max_payload}
use chassis_host.Proto.Crc.{crc16_modbus}
use chassis_host.Proto.Frame.{Frame}

-- The three counters are uint64_t.
pub record Stats : Type 0 where
  pub frames : ℕ
  pub crc_err : ℕ
  pub dropped : ℕ

pub record FrameParser : Type 0 where
  pub buf : List ℕ
  pub stats : Stats

-- The search of step 1: the least i with `buf_[i] == kHead0 && buf_[i + 1] == kHead1`.
unfoldable pub find_header : List ℕ → Option ℕ
find_header [] = none
find_header (a ∷ []) = none
find_header (a ∷ b ∷ rest) =
    if a == head0 && b == head1 then some 0 else Option.map suc (find_header (b ∷ rest))

-- `buf_.back() == kHead0` of a buffer that is not empty.
unfoldable pub ends_in_head0 : List ℕ → Bool
ends_in_head0 [] = false
ends_in_head0 (a ∷ []) = a == head0
ends_in_head0 (a ∷ b ∷ rest) = ends_in_head0 (b ∷ rest)

-- Erases the first n bytes and counts them, if there are any to erase.
unfoldable pub discard : ℕ → FrameParser → FrameParser
discard n p =
    if ltb 0 n
    then record {
      buf = drop n p.buf;
      stats = record p.stats { dropped = u64 (p.stats.dropped + n) };
    }
    else p

-- How a turn of the loop ends: `return out`, or on to the next turn, with or without a frame
-- pushed to `out`.
pub data Turn : Type 0 where
  returns : FrameParser → Turn
  continues : FrameParser → Option Frame → Turn

-- The frame at the head of a buffer that holds all of it.
unfoldable pub frame_at : List ℕ → Frame
frame_at buf =
    let plen = get_or buf 3 0 in
    record {
      type = get_or buf 2 0;
      seq = get_or buf 4 0;
      payload = take plen (drop 5 buf) ++ replicate (max_payload - plen) 0;
      len = plen;
    }

-- Step 5: the checksum. The frame is erased whether it is good or bad.
unfoldable pub check_crc : FrameParser → Turn
check_crc p =
    let plen = get_or p.buf 3 0 in
    let crc_rx = u16 (bit_or (get_or p.buf (5 + plen) 0) (get_or p.buf (6 + plen) 0 * 2 ^ 8)) in
    let crc_calc = crc16_modbus (take (3 + plen) (drop 2 p.buf)) in
    let rest = drop (frame_overhead + plen) p.buf in
    if crc_calc == crc_rx
    then continues
        (record { buf = rest; stats = record p.stats { frames = u64 (p.stats.frames + 1) } })
        (some (frame_at p.buf))
    else continues
        (record { buf = rest; stats = record p.stats { crc_err = u64 (p.stats.crc_err + 1) } }) none

-- Steps 2 to 4, on a buffer that begins with a header.
unfoldable pub at_header : FrameParser → Turn
at_header p =
    let plen = get_or p.buf 3 0 in
    if ltb (length p.buf) 5
    then returns p
    else if ltb max_payload plen
    then continues
        (record {
          buf = drop 2 p.buf;
          stats = record p.stats { dropped = u64 (p.stats.dropped + 1) };
        })
        none
    else if ltb (length p.buf) (frame_overhead + plen)
    then returns p
    else check_crc p

-- No header: all is dropped but a last 0xAA.
unfoldable pub no_header : FrameParser → FrameParser
no_header p = let keep : ℕ = if ends_in_head0 p.buf then 1 else 0 in discard (length p.buf - keep) p

unfoldable pub turn : FrameParser → Turn
turn p = elim (find_header p.buf) [
  | none ↦ returns (no_header p)
  | some idx ↦ at_header (discard idx p)
]

abbrev pub push : List Frame → Option Frame → List Frame
push out none = out
push out (some f) = out ++ f ∷ []

-- What a turn does to the loop, which goes on as `more`.
abbrev pub proceed :
    (FrameParser → List Frame → Option (FrameParser × List Frame))
    → Turn
    → List Frame
    → Option (FrameParser × List Frame)
proceed more (returns p) out = some (p, out)
proceed more (continues p f) out = more p (push out f)

unfoldable pub feed_loop : ℕ → FrameParser → List Frame → Option (FrameParser × List Frame)
feed_loop zero p out = none
feed_loop (suc fuel) p out = proceed (feed_loop fuel) (turn p) out

-- `buf_.insert(buf_.end(), data, data + len)`.
abbrev pub extend : FrameParser → List ℕ → FrameParser
extend p bytes = record p { buf = p.buf ++ bytes }

-- A turn that goes on erases two bytes at least, so more turns than bytes are never needed.
unfoldable pub feed : FrameParser → List ℕ → Option (FrameParser × List Frame)
feed p bytes = let q = extend p bytes in feed_loop (suc (length q.buf)) q []

-- A parser as constructed.
abbrev pub new_parser : FrameParser
new_parser = record { buf = []; stats = record { frames = 0; crc_err = 0; dropped = 0 } }
