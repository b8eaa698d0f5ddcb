-- ===== src/Proto/Parser/Corruption.antt =====
-- One corrupted byte in a frame: the checksum rejects it.
use Prim.Native.Nat.{bit_or}
use chassis_host.Common.{
  ℕ, zero, suc, ◌+◌, ◌-◌, ◌*◌, ◌/◌, ◌%◌, ◌^◌, ◌≤◌, ◌<◌, ◌≡◌, ◌≢◌, refl, sym, ap, ◌∙◌, arith, List,
  [], ◌∷◌, ◌++◌, length, get_or, set, take, drop, none, some, u16, u64, All, IsByte, ==_ne,
  split_at, set-split, set-append, set-append_right, length-set, All-take, All-drop, All-get_or,
  get_or-append, get_or-length_add,
}
use mathlib.Core.Path.{subst}
use mathlib.Core.List.{append-nil}
use native.Mathlib.Decide.{dec_lt}
use chassis_host.Proto.Crc.{crc16_modbus}
use chassis_host.Proto.Crc.Laws.{crc16_modbus-one_byte}
use chassis_host.Proto.Defs.{head0, head1, max_payload}
use chassis_host.Proto.Frame.{seq_byte}
use chassis_host.Proto.Parser.{FrameParser, Stats, continues, turn, feed}
use chassis_host.Proto.Parser.Runs.{stop, go, feed_of_Runs}
use chassis_host.Proto.Parser.Layout.{layout, verdict, turn-layout}
use chassis_host.Proto.Parser.RoundTrip.{
  Message, IsSendable, packed, covered_sum, covered_sum-lt, packed-layout, crc_rejoined,
  empty-IsSettled,
}

-- A message of bytes in which one byte is replaced by another has another checksum.
pub crc16_modbus-set :
    (xs : List ℕ) (i b : ℕ)
    → All IsByte xs
    → i < length xs
    → IsByte b
    → get_or xs i 0 ≢ b
    → crc16_modbus xs ≢ crc16_modbus (set xs i b)
crc16_modbus-set xs i b all h hb ne e =
    crc16_modbus-one_byte (take i xs) (get_or xs i 0) b (drop (suc i) xs) (All-take IsByte i xs all)
      (All-get_or IsByte xs i 0 all (omega arith)) hb (All-drop IsByte (suc i) xs all) ne
      (sym (ap crc16_modbus (split_at xs i 0 h)) ∙ e ∙ ap crc16_modbus (set-split xs i b h))

abbrev rejected : Stats → Stats
rejected st = record st { crc_err = u64 (st.crc_err + 1) }

abbrev Rejected : FrameParser → List ℕ → Type 0
Rejected p bytes = feed p bytes ≡ some (record { buf = []; stats = rejected p.stats }, [])

-- A whole frame whose two checksum bytes say another number than its contents is rejected.
layout-Rejected :
    (type s : ℕ) (payload : List ℕ) (lo hi : ℕ) (p : FrameParser)
    → p.buf ≡ []
    → length payload ≤ max_payload
    → crc16_modbus (type ∷ length payload ∷ s ∷ payload) ≢ u16 (bit_or lo (hi * 2 ^ 8))
    → Rejected p (layout type s payload lo hi [])
layout-Rejected type s payload lo hi p empty fits bad =
    feed_of_Runs p (layout type s payload lo hi [])
      (rw empty (go one_turn (stop (empty-IsSettled (rejected p.stats)))))
  where
    one_turn :
        turn (record { buf = layout type s payload lo hi []; stats = p.stats })
        ≡ continues (record { buf = []; stats = rejected p.stats }) none
    one_turn =
        turn-layout type s payload lo hi [] p.stats fits
        ∙ ap (verdict type s payload lo hi [] p.stats) (==_ne _ _ bad)

module _ (m : Message) (ok : IsSendable m) (p : FrameParser) (empty : p.buf ≡ []) where
  abbrev s : ℕ
  s = seq_byte m.seq

  abbrev n : ℕ
  n = length m.payload

  abbrev sum : ℕ
  sum = covered_sum m

  abbrev body : List ℕ
  body = m.type ∷ n ∷ s ∷ m.payload

  sum-lt : sum < 2 ^ 16
  sum-lt = covered_sum-lt m ok

  body_bytes : All IsByte body
  body_bytes = (ok.type_byte, (omega (arith, ok.payload_fits), (ok.seq_fits, ok.payload_bytes)))

  sum_rejoined : u16 (bit_or (sum % 256) (sum / 256 * 2 ^ 8)) ≡ sum
  sum_rejoined =
      crc_rejoined (sum % 256) (sum / 256) (omega arith) (omega (arith, sum-lt)) ∙ omega arith

  body_changed :
      (i b : ℕ)
      → i < length body
      → IsByte b
      → get_or body i 0 ≢ b
      → crc16_modbus (set body i b) ≢ u16 (bit_or (sum % 256) (sum / 256 * 2 ^ 8))
  body_changed i b h hb ne e = crc16_modbus-set body i b body_bytes h hb ne (sym (e ∙ sum_rejoined))

  trailer_changed :
      (lo hi : ℕ)
      → IsByte lo
      → IsByte hi
      → (lo + hi * 256) ≢ sum
      → sum ≢ u16 (bit_or lo (hi * 2 ^ 8))
  trailer_changed lo hi hl hh ne e = ne (sym (e ∙ crc_rejoined lo hi hl hh))

  abbrev wire : List ℕ
  wire = layout m.type s m.payload (sum % 256) (sum / 256) []

  in_payload :
      (k b : ℕ)
      → k < n
      → IsByte b
      → get_or m.payload k 0 ≢ b
      → Rejected p
          (head0 ∷ head1 ∷ m.type ∷ n ∷ s ∷ (set m.payload k b ++ (sum % 256) ∷ (sum / 256) ∷ []))
  in_payload k b h hb ne =
      subst
        (λ (l : ℕ).
          Rejected p (
            head0 ∷ head1 ∷ m.type ∷ l ∷ s ∷ (set m.payload k b ++ (sum % 256) ∷ (sum / 256) ∷ [])))
        (length-set m.payload k b)
        (layout-Rejected m.type s (set m.payload k b) (sum % 256) (sum / 256) p empty
          (omega (arith, length-set m.payload k b, ok.payload_fits))
          (rw (length-set m.payload k b) (body_changed (suc (suc (suc k))) b (omega arith) hb ne)))

  abbrev trailer : List ℕ
  trailer = (sum % 256) ∷ (sum / 256) ∷ []

  in_trailer :
      (j b : ℕ)
      → j < 2
      → IsByte b
      → get_or trailer j 0 ≢ b
      → Rejected p (head0 ∷ head1 ∷ m.type ∷ n ∷ s ∷ (m.payload ++ set trailer j b))
  in_trailer zero b h hb ne =
      layout-Rejected m.type s m.payload b (sum / 256) p empty ok.payload_fits
        (trailer_changed b (sum / 256) hb (omega (arith, sum-lt)) (λ e. ne (omega arith)))
  in_trailer (suc zero) b h hb ne =
      layout-Rejected m.type s m.payload (sum % 256) b p empty ok.payload_fits
        (trailer_changed (sum % 256) b (omega arith) hb (λ e. ne (omega arith)))
  in_trailer (suc (suc j)) b h hb ne = absurd (omega arith)

  -- The payload, then the checksum.
  behind_header :
      (k b : ℕ)
      → k < n + 2
      → IsByte b
      → get_or (m.payload ++ trailer) k 0 ≢ b
      → Rejected p (head0 ∷ head1 ∷ m.type ∷ n ∷ s ∷ set (m.payload ++ trailer) k b)
  behind_header k b h hb ne = elim (dec_lt k n) [
    | yes inside ↦
        rw (set-append m.payload trailer k b inside)
          (in_payload k b inside hb (rw (get_or-append m.payload trailer k 0 inside) at ne))
    | no outside ↦
        let at_end : n + (k - n) ≡ k = omega arith in
        subst
          (λ (i : ℕ). Rejected p (head0 ∷ head1 ∷ m.type ∷ n ∷ s ∷ set (m.payload ++ trailer) i b))
          at_end
          (rw (set-append_right m.payload trailer (k - n) b) (
            in_trailer (k - n) b (omega arith) hb (λ e. ne (
              ap (λ (i : ℕ). get_or (m.payload ++ trailer) i 0) (sym at_end)
              ∙ get_or-length_add m.payload trailer (k - n) 0
              ∙ e))))
  ]

  wire_changed :
      (i b : ℕ)
      → i < n + 7
      → 2 ≤ i
      → i ≢ 3
      → IsByte b
      → get_or wire i 0 ≢ b
      → Rejected p (set wire i b)
  wire_changed zero b h two three hb ne = absurd (omega arith)
  wire_changed (suc zero) b h two three hb ne = absurd (omega arith)
  wire_changed (suc (suc zero)) b h two three hb ne =
      layout-Rejected b s m.payload (sum % 256) (sum / 256) p empty ok.payload_fits
        (body_changed 0 b (omega arith) hb ne)
  wire_changed (suc (suc (suc zero))) b h two three hb ne = absurd (three refl)
  wire_changed (suc (suc (suc (suc zero)))) b h two three hb ne =
      layout-Rejected m.type b m.payload (sum % 256) (sum / 256) p empty ok.payload_fits
        (body_changed 2 b (omega arith) hb ne)
  wire_changed (suc (suc (suc (suc (suc k))))) b h two three hb ne =
      behind_header k b (omega arith) hb ne

-- A frame of `packFrame` in which one byte behind the header and other than the length byte is
-- replaced by another byte, the two checksum bytes included, gives a parser with an empty buffer no
-- frame: the frame is taken off whole and counted as one checksum error, and nothing else changes.
pub feed-corrupted :
    (m : Message) (p : FrameParser) (i b : ℕ)
    → IsSendable m
    → p.buf ≡ []
    → i < length m.payload + 7
    → 2 ≤ i
    → i ≢ 3
    → IsByte b
    → get_or (packed m) i 0 ≢ b
    → feed p (set (packed m) i b)
      ≡ some
          (record { buf = []; stats = record p.stats { crc_err = u64 (p.stats.crc_err + 1) } }, [])
feed-corrupted m p i b ok empty h two three hb ne =
    rw whole (wire_changed m ok p empty i b h two three hb (rw whole at ne))
  where
    whole : packed m ≡ wire m ok p empty
    whole = sym (append-nil (packed m)) ∙ packed-layout m [] ok
