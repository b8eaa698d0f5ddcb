-- ===== src/Proto/Parser/Layout.antt =====
-- What a turn does with the bytes of one whole frame at the front of the buffer.
use Prim.Native.Nat.{bit_or}
use chassis_host.Common.{
  ℕ, suc, ◌+◌, ◌-◌, ◌*◌, ◌^◌, ◌≤◌, ◌≡◌, refl, ap, ◌∙◌, arith, List, ◌∷◌, ◌++◌, length, get_or, drop,
  take, replicate, take-length, none, some, u16, u64, if◌then◌else◌, ◌==◌, get_or-length_add,
  drop-length_add, length-append, Bool, true, false,
}
use chassis_host.Proto.Crc.{crc16_modbus}
use chassis_host.Proto.Defs.{head0, head1, max_payload, frame_overhead}
use chassis_host.Proto.Frame.{Frame}
use chassis_host.Proto.Parser.{
  FrameParser, Stats, Turn, continues, turn, find_header, discard, at_header, check_crc, frame_at,
}

-- The bytes of a frame, with any two bytes where the checksum stands, and what follows it.
abbrev pub layout : ℕ → ℕ → List ℕ → ℕ → ℕ → List ℕ → List ℕ
layout type s payload lo hi rest =
    head0 ∷ head1 ∷ type ∷ length payload ∷ s ∷ (payload ++ lo ∷ hi ∷ rest)

-- The frame that those bytes say.
abbrev pub frame_of : ℕ → ℕ → List ℕ → Frame
frame_of type s payload = record {
  type = type;
  seq = s;
  payload = payload ++ replicate (max_payload - length payload) 0;
  len = length payload;
}

module _ (type s : ℕ) (payload : List ℕ) (lo hi : ℕ) (rest : List ℕ) where
  frame_at-layout : frame_at (layout type s payload lo hi rest) ≡ frame_of type s payload
  unfolding frame_at
  frame_at-layout = rw (take-length payload (lo ∷ hi ∷ rest))

  crc_lo : get_or (layout type s payload lo hi rest) (5 + length payload) 0 ≡ lo
  crc_lo =
      ap (λ i. get_or (layout type s payload lo hi rest) i 0) {x = 5 + length payload}
        {y = suc (suc (suc (suc (suc (length payload + 0)))))} (omega arith)
      ∙ get_or-length_add payload (lo ∷ hi ∷ rest) 0 0

  crc_hi : get_or (layout type s payload lo hi rest) (6 + length payload) 0 ≡ hi
  crc_hi =
      ap (λ i. get_or (layout type s payload lo hi rest) i 0) {x = 6 + length payload}
        {y = suc (suc (suc (suc (suc (length payload + 1)))))} (omega arith)
      ∙ get_or-length_add payload (lo ∷ hi ∷ rest) 1 0

  covered_bytes :
      take (3 + length payload) (drop 2 (layout type s payload lo hi rest))
      ≡ type ∷ length payload ∷ s ∷ payload
  covered_bytes =
      ap (λ i. take i (drop 2 (layout type s payload lo hi rest))) {x = 3 + length payload}
        {y = suc (suc (suc (length payload)))} (omega arith)
      ∙ ap (λ l. type ∷ length payload ∷ s ∷ l) (take-length payload (lo ∷ hi ∷ rest))

  behind : drop (frame_overhead + length payload) (layout type s payload lo hi rest) ≡ rest
  behind =
      ap (λ i. drop i (layout type s payload lo hi rest)) {x = frame_overhead + length payload}
        {y = suc (suc (suc (suc (suc (length payload + 2)))))} (omega arith)
      ∙ drop-length_add payload (lo ∷ hi ∷ rest) 2

  module _ (st : Stats) where
    abbrev at_front : FrameParser
    at_front = record { buf = layout type s payload lo hi rest; stats = st }

    -- The received checksum decides between a good and a bad frame; both are taken off.
    abbrev pub verdict : Bool → Turn
    verdict true =
        continues (record { buf = rest; stats = record st { frames = u64 (st.frames + 1) } })
          (some (frame_of type s payload))
    verdict false =
        continues (record { buf = rest; stats = record st { crc_err = u64 (st.crc_err + 1) } }) none

    verdict-if :
        (b : Bool)
        → (if b
            then continues
                (record { buf = rest; stats = record st { frames = u64 (st.frames + 1) } })
                (some (frame_of type s payload))
            else continues
                (record { buf = rest; stats = record st { crc_err = u64 (st.crc_err + 1) } })
                none)
          ≡ verdict b
    verdict-if true = refl
    verdict-if false = refl

    check_crc-layout :
        check_crc at_front
        ≡ verdict
            (crc16_modbus (type ∷ length payload ∷ s ∷ payload) == u16 (bit_or lo (hi * 2 ^ 8)))
    unfolding check_crc
    check_crc-layout = rw (crc_lo, crc_hi, covered_bytes, behind, frame_at-layout) (verdict-if _)

    pub turn-layout :
        length payload ≤ max_payload
        → turn at_front
          ≡ verdict
              (crc16_modbus (type ∷ length payload ∷ s ∷ payload) == u16 (bit_or lo (hi * 2 ^ 8)))
    unfolding turn find_header discard at_header
    turn-layout h = ground (arith, check_crc-layout, length-append payload (lo ∷ hi ∷ rest))
