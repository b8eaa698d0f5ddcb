-- ===== src/Proto/Command/Laws.antt =====
-- Commands on the wire: packed, framed, parsed and unpacked again; and what `unpackCon` accepts.
use chassis_host.Common.{
  ℕ, ◌^◌, ◌≤◌, ◌<◌, ◌≡◌, refl, sym, ap, ◌↔◌, ◌⊎◌, arith, true, false, [], ◌∷◌, length, get_or, drop,
  Option, some, IsByte,
}
use mathlib.Core.Path.{subst}
use chassis_host.Common.Bits.{and_byte}
use chassis_host.Common.Int.{ℤ, pos, negsuc}
use chassis_host.Proto.Bytes.{put_u16, put_i16, put_f32, get_i16}
use chassis_host.Proto.Bytes.Laws.{get_i16-put_i16, get_u32-put_f32, IsI16}
use chassis_host.Proto.Defs.{
  ConMsgType, con_code, pt_con, pt_cmd_ping, enable_request, enable_response, disable_request,
  disable_response, ping_request, ping_response,
}
use chassis_host.Proto.Float32.{Float32, Triple}
use chassis_host.Proto.Frame.{Frame, seq_byte}
use chassis_host.Proto.Parser.{FrameParser, feed}
use chassis_host.Proto.Parser.RoundTrip.{
  Message, IsSendable, packed, frame_sent, counted, feed-packed,
}
use chassis_host.Proto.Command.{
  ConPayload, unpack_con, pack_con, pack_ping, parse_ping, pack_cmd_vel, rpm_x10, cast_i16,
}

-- The frame of a PING.
abbrev pub ping_message : ℕ → Option ℕ → Message
ping_message t seq = record { type = pt_cmd_ping; seq = seq; payload = pack_ping t }

ping-IsSendable : (t : ℕ) (seq : Option ℕ) → IsByte (seq_byte seq) → IsSendable (ping_message t seq)
unfolding pack_ping
ping-IsSendable t seq h = record {
  type_byte = omega arith;
  seq_fits = h;
  payload_bytes = (omega arith, (omega arith, (omega arith, (omega arith, tt))));
  payload_fits = omega arith;
}

parse_ping-pack_ping :
    (t old : ℕ) (seq : Option ℕ)
    → t < 2 ^ 32
    → parse_ping (frame_sent (ping_message t seq)) old ≡ (true, t)
unfolding parse_ping pack_ping put_f32
parse_ping-pack_ping t old seq h = ap (λ (x : ℕ). (true, x)) (get_u32-put_f32 t _ h)

-- A PING with a 32-bit time, packed and framed with any sequence byte, comes out of an empty parser
-- as one frame, from which `parsePing` reads that time.
pub ping_on_the_wire :
    (p : FrameParser) (t old : ℕ) (seq : Option ℕ)
    → p.buf ≡ []
    → t < 2 ^ 32
    → IsByte (seq_byte seq)
    → (f : Frame) × (feed p (packed (ping_message t seq))
        ≡ some (record { buf = []; stats = counted p.stats }, f ∷ []))
      × (parse_ping f old ≡ (true, t))
ping_on_the_wire p t old seq empty h hs = (
  frame_sent (ping_message t seq),
  feed-packed p (ping_message t seq) empty (ping-IsSendable t seq hs),
  parse_ping-pack_ping t old seq h,
)

abbrev pub con_message : ConMsgType → ℕ → Option ℕ → Message
con_message msg sender seq = record {
  type = pt_con;
  seq = seq;
  payload = pack_con (con_code msg) sender;
}

con_code-le : (msg : ConMsgType) → con_code msg ≤ 5
con_code-le enable_request = omega arith
con_code-le enable_response = omega arith
con_code-le disable_request = omega arith
con_code-le disable_response = omega arith
con_code-le ping_request = omega arith
con_code-le ping_response = omega arith

con-IsSendable :
    (msg : ConMsgType) (sender : ℕ) (seq : Option ℕ)
    → IsByte sender
    → IsByte (seq_byte seq)
    → IsSendable (con_message msg sender seq)
unfolding pack_con
con-IsSendable msg sender seq hb h = record {
  type_byte = omega arith;
  seq_fits = h;
  payload_bytes = (hb, (omega arith, (omega arith, (omega arith, tt))));
  payload_fits = omega arith;
}

unpack_con-pack_con :
    (msg : ConMsgType) (sender : ℕ) (seq : Option ℕ) (old : ConPayload)
    → unpack_con (frame_sent (con_message msg sender seq)) old
      ≡ (true, record { sender = sender; msg_type = con_code msg })
unfolding unpack_con pack_con
unpack_con-pack_con msg sender seq old = ground (arith, and_byte (con_code msg), con_code-le msg)

-- A CON message of any sender byte, packed and framed, comes out of an empty parser as one frame,
-- which `unpackCon` accepts and from which it reads that sender and that message type.
pub con_on_the_wire :
    (p : FrameParser) (msg : ConMsgType) (sender : ℕ) (seq : Option ℕ) (old : ConPayload)
    → p.buf ≡ []
    → IsByte sender
    → IsByte (seq_byte seq)
    → (f : Frame) × (feed p (packed (con_message msg sender seq))
        ≡ some (record { buf = []; stats = counted p.stats }, f ∷ []))
      × (unpack_con f old ≡ (true, record { sender = sender; msg_type = con_code msg }))
con_on_the_wire p msg sender seq old empty hb hs = (
  frame_sent (con_message msg sender seq),
  feed-packed p (con_message msg sender seq) empty (con-IsSendable msg sender seq hb hs),
  unpack_con-pack_con msg sender seq old,
)

-- `unpackCon` accepts exactly the frames of four bytes of the right protocol and version whose
-- message type is one of the six; it leaves its out parameter alone on all others.
pub unpack_con_iff :
    (f : Frame) (old : ConPayload)
    → (((unpack_con f old).0 ≡ true) ↔ (
        (f.len ≡ 4)
        × (get_or f.payload 1 0 ≡ 3)
        × (get_or f.payload 2 0 ≤ 5)
        × (get_or f.payload 3 0 ≡ 1)))
      × ((unpack_con f old).0 ≡ false → (unpack_con f old).1 ≡ old)
unfolding unpack_con
unpack_con_iff f old = ((λ h. ground arith, λ h. ground arith), λ h. ground arith)

cast_i16-IsI16 : (x : ℤ) → IsI16 (cast_i16 x)
cast_i16-IsI16 (pos n) = ground arith
cast_i16-IsI16 (negsuc n) = ground arith

module _ (fl : Float32) where
  open fl use {Float, times, greater, less, lround, ten, rpm_top, rpm_bottom}

  abbrev tenfold : Float → ℤ
  tenfold r = cast_i16 (lround (times r ten))

  -- What is sent for the speed r: ten times the top for a speed above it, ten times the bottom for a
  -- speed below that, and ten times r for any other.
  abbrev pub SentFor : Float → ℤ → Type 0
  SentFor r z =
      ((greater r rpm_top ≡ true) × (z ≡ tenfold rpm_top))
      ⊎ ((greater r rpm_top ≡ false) × (less r rpm_bottom ≡ true) × (z ≡ tenfold rpm_bottom))
      ⊎ ((greater r rpm_top ≡ false) × (less r rpm_bottom ≡ false) × (z ≡ tenfold r))

  rpm_x10-SentFor : less rpm_top rpm_bottom ≡ false → (r : Float) → SentFor r (rpm_x10 fl r)
  rpm_x10-SentFor order r = ground arith

  -- `packCmdVel` makes six bytes. At each motor's place `getI16` reads the rounded tenfold, as an
  -- int16_t, of the upper limit where the motor's speed is above it, of the lower limit where it is
  -- below that, and of the speed itself otherwise. (The upper limit is not below the lower one.)
  pub pack_cmd_vel-get_i16 :
      less rpm_top rpm_bottom ≡ false
      → (rpm : Triple Float)
      → (length (pack_cmd_vel fl rpm) ≡ 6)
        × SentFor rpm.e0 (get_i16 (pack_cmd_vel fl rpm))
        × SentFor rpm.e1 (get_i16 (drop 2 (pack_cmd_vel fl rpm)))
        × SentFor rpm.e2 (get_i16 (drop 4 (pack_cmd_vel fl rpm)))
  unfolding pack_cmd_vel put_i16 put_u16
  pack_cmd_vel-get_i16 order rpm = (
    refl,
    subst (SentFor rpm.e0) (sym (get_i16-put_i16 (rpm_x10 fl rpm.e0) _ (cast_i16-IsI16 _)))
        (rpm_x10-SentFor order rpm.e0),
    subst (SentFor rpm.e1) (sym (get_i16-put_i16 (rpm_x10 fl rpm.e1) _ (cast_i16-IsI16 _)))
        (rpm_x10-SentFor order rpm.e1),
    subst (SentFor rpm.e2) (sym (get_i16-put_i16 (rpm_x10 fl rpm.e2) _ (cast_i16-IsI16 _)))
        (rpm_x10-SentFor order rpm.e2),
  )
