-- ===== src/Proto/Parser/RoundTrip.antt =====
-- What `packFrame` writes, `feed` reads: frame after frame, however the stream is cut.
use Prim.Native.Nat.{bit_or}
use mathlib.Core.List.{append_assoc, append-nil}
use chassis_host.Common.{
  ℕ, suc, ◌+◌, ◌*◌, ◌/◌, ◌%◌, ◌^◌, ◌≤◌, ◌<◌, ◌≡◌, refl, ap, ap₂, ◌∙◌, arith, List, [], ◌∷◌, ◌++◌,
  map, length, Option, some, u8, u16, u64, All, IsByte, ◌==◌, true,
}
use chassis_host.Common.Bits.{and_byte, or_fields}
use chassis_host.Proto.Crc.{crc16_modbus}
use chassis_host.Proto.Crc.Laws.{crc16_modbus-lt}
use chassis_host.Proto.Defs.{max_payload}
use chassis_host.Proto.Frame.{Frame, seq_byte, pack_frame, crc_trailer}
use chassis_host.Proto.Parser.{
  FrameParser, Stats, continues, turn, feed, find_header, no_header, ends_in_head0, discard,
}
use chassis_host.Proto.Parser.Runs.{Runs, stop, go, feed_of_Runs}
use chassis_host.Proto.Parser.Layout.{layout, frame_of, verdict, turn-layout}
use chassis_host.Proto.Parser.Chunks.{IsSettled, concat, feed_all, feed_all-concat}

-- What the sender hands to `packFrame`: bytes, and no more of them than a frame takes.
pub record Message : Type 0 where
  pub type : ℕ
  pub seq : Option ℕ
  pub payload : List ℕ

pub record IsSendable (m : Message) : Type 0 where
  pub type_byte : IsByte m.type
  pub seq_fits : IsByte (seq_byte m.seq)
  pub payload_bytes : All IsByte m.payload
  pub payload_fits : length m.payload ≤ max_payload

abbrev pub packed : Message → List ℕ
packed m = (pack_frame m.type m.payload m.seq).0

-- The frame that the receiver is meant to see.
abbrev pub frame_sent : Message → Frame
frame_sent m = frame_of m.type (seq_byte m.seq) m.payload

abbrev pub covered_sum : Message → ℕ
covered_sum m = crc16_modbus (m.type ∷ length m.payload ∷ seq_byte m.seq ∷ m.payload)

pub covered_sum-lt : (m : Message) → IsSendable m → covered_sum m < 2 ^ 16
covered_sum-lt m s =
    crc16_modbus-lt _ (s.type_byte, (omega (arith, s.payload_fits), (s.seq_fits, s.payload_bytes)))

crc_trailer_lem : (crc : ℕ) → crc < 2 ^ 16 → crc_trailer crc ≡ (crc % 256) ∷ (crc / 256) ∷ []
crc_trailer_lem crc h =
    ap₂ (λ (a b : ℕ). a ∷ b ∷ []) (omega (arith, and_byte crc))
      (omega (arith, and_byte (crc / 2 ^ 8)))

-- The two bytes of a checksum, read back.
pub crc_rejoined :
    (lo hi : ℕ) → IsByte lo → IsByte hi → u16 (bit_or lo (hi * 2 ^ 8)) ≡ lo + hi * 256
crc_rejoined lo hi hl hh = omega (arith, or_fields 8 lo hi (omega arith))

pub packed-layout :
    (m : Message) (rest : List ℕ)
    → IsSendable m
    → packed m ++ rest
      ≡ layout m.type (seq_byte m.seq) m.payload (covered_sum m % 256) (covered_sum m / 256) rest
unfolding pack_frame
packed-layout m rest s = rw (
  len_fits,
  crc_trailer_lem (covered_sum m) (covered_sum-lt m s),
  append_assoc m.payload (covered_sum m % 256 ∷ covered_sum m / 256 ∷ []) rest,
)
  where
    len_fits : u8 (length m.payload) ≡ length m.payload
    len_fits = omega (arith, s.payload_fits)

abbrev pub counted : Stats → Stats
counted st = record st { frames = u64 (st.frames + 1) }

-- A whole frame at the front is one turn, whatever follows it.
turn-packed :
    (m : Message) (rest : List ℕ) (st : Stats)
    → IsSendable m
    → turn (record { buf = packed m ++ rest; stats = st })
      ≡ continues (record { buf = rest; stats = counted st }) (some (frame_sent m))
turn-packed m rest st s = rw (packed-layout m rest s) (
    turn-layout m.type (seq_byte m.seq) m.payload (covered_sum m % 256) (covered_sum m / 256) rest
      st s.payload_fits
    ∙ ap
        (verdict m.type (seq_byte m.seq) m.payload (covered_sum m % 256) (covered_sum m / 256) rest
          st)
        good)
  where
    small : covered_sum m < 2 ^ 16
    small = covered_sum-lt m s

    good :
        (covered_sum m == u16 (bit_or (covered_sum m % 256) (covered_sum m / 256 * 2 ^ 8))) ≡ true
    good = ground (arith, crc_rejoined (covered_sum m % 256) (covered_sum m / 256), small)

-- The bytes of several messages, one behind the other.
abbrev pub stream : List Message → List ℕ
stream [] = []
stream (m ∷ ms) = packed m ++ stream ms

abbrev pub counted_all : Stats → List Message → Stats
counted_all st [] = st
counted_all st (m ∷ ms) = counted_all (counted st) ms

pub empty-IsSettled : (st : Stats) → IsSettled (record { buf = []; stats = st })
unfolding turn find_header no_header ends_in_head0 discard
empty-IsSettled st = refl

parser_empty : (p : FrameParser) → p.buf ≡ [] → p ≡ record { buf = []; stats = p.stats }
parser_empty p e = ground arith

stream-Runs :
    (ms : List Message) (st : Stats)
    → All IsSendable ms
    → Runs
        (record { buf = stream ms; stats = st })
        (record { buf = []; stats = counted_all st ms })
        (map frame_sent ms)
stream-Runs [] st h = stop (empty-IsSettled st)
stream-Runs (m ∷ ms) st h = go (turn-packed m (stream ms) st h.0) (stream-Runs ms (counted st) h.1)

-- The counters: n more good frames, nothing else.
counted_all_lem :
    (ms : List Message) (st : Stats)
    → st.frames < 2 ^ 64
    → counted_all st ms ≡ record st { frames = u64 (st.frames + length ms) }
counted_all_lem [] st h = ground arith
counted_all_lem (m ∷ ms) st h = counted_all_lem ms (counted st) (omega arith) ∙ wrapped (length ms)
  where
    wrapped :
        (n : ℕ)
        → record (counted st) { frames = u64 (u64 (st.frames + 1) + n) }
          ≡ record st { frames = u64 (st.frames + suc n) }
    wrapped n = ground arith

-- A parser with an empty buffer that is fed the frames of any messages (type, counter and payload
-- bytes, at most 32 of them) in any cut of the stream returns exactly those frames in order, keeps
-- no byte, and has counted one good frame for each and nothing else.
pub feed_all-stream :
    (p : FrameParser) (ms : List Message) (chunks : List (List ℕ))
    → p.buf ≡ []
    → p.stats.frames < 2 ^ 64
    → All IsSendable ms
    → concat chunks ≡ stream ms
    → feed_all p chunks
      ≡ some (
        record { buf = []; stats = record p.stats { frames = u64 (p.stats.frames + length ms) } },
        map frame_sent ms,
      )
feed_all-stream p ms chunks empty small h cut =
    feed_all-concat p chunks settled
    ∙ ap (feed p) cut
    ∙ feed_of_Runs p (stream ms)
        (rw (empty, ← counted_all_lem ms p.stats small) (stream-Runs ms p.stats h))
  where
    settled : IsSettled p
    settled = rw (parser_empty p empty) (empty-IsSettled p.stats)

-- One message, at once.
pub feed-packed :
    (p : FrameParser) (m : Message)
    → p.buf ≡ []
    → IsSendable m
    → feed p (packed m) ≡ some (record { buf = []; stats = counted p.stats }, frame_sent m ∷ [])
feed-packed p m empty ok =
    feed_of_Runs p (packed m)
      (rw (empty, ← append-nil (packed m)) (stream-Runs (m ∷ []) p.stats (ok, tt)))
