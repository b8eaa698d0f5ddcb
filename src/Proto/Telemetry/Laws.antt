-- ===== src/Proto/Telemetry/Laws.antt =====
-- What the telemetry parsers read: six floats of an ODOM frame, the samples of a SYSID_DATA frame.
use chassis_host.Common.{
  ℕ, zero, suc, ◌+◌, ◌*◌, ◌%◌, ◌^◌, ◌≤◌, ◌≡◌, sym, ap, ap₂, ◌∙◌, ◌↔◌, drop-drop, arith, true, false,
  List, [], ◌∷◌, ◌++◌, length, length-append, get_or, drop, Option, some, All, All-append, IsByte,
}
use mathlib.Core.List.{append_assoc, append-nil}
use chassis_host.Proto.Bytes.{put_f32, get_u16, get_i16, get_u32, get_f32}
use chassis_host.Proto.Bytes.Laws.{get_u32-put_f32}
use chassis_host.Proto.Command.{pack_cmd_twist}
use chassis_host.Proto.Defs.{pt_odom_data}
use chassis_host.Proto.Float32.{Float32}
use chassis_host.Proto.Frame.{Frame, seq_byte}
use chassis_host.Proto.Parser.{FrameParser, feed}
use chassis_host.Proto.Parser.RoundTrip.{
  Message, IsSendable, packed, frame_sent, counted, feed-packed,
}
use chassis_host.Proto.Telemetry.{
  OdomData, parse_odom, SysidSample, sysid_sample, sysid_samples, parse_sysid_data,
}

module _ (fl : Float32) where
  open fl use {Float, bits, of_bits, bits-lt, of_bits-bits, of_int, divide, ten}

  -- The frame of an ODOM report: velocities and pose, three floats each.
  abbrev pub odom_message : OdomData fl → Option ℕ → Message
  odom_message o seq = record {
    type = pt_odom_data;
    seq = seq;
    payload = pack_cmd_twist fl o.vx o.vy o.wz ++ pack_cmd_twist fl o.x o.y o.yaw;
  }

  twist_bytes :
      (a b c : Float)
      → All IsByte (pack_cmd_twist fl a b c) × (length (pack_cmd_twist fl a b c) ≡ 12)
  unfolding pack_cmd_twist put_f32
  twist_bytes a b c = ground arith

  odom-IsSendable :
      (o : OdomData fl) (seq : Option ℕ) → IsByte (seq_byte seq) → IsSendable (odom_message o seq)
  odom-IsSendable o seq h = record {
    type_byte = omega arith;
    seq_fits = h;
    payload_bytes =
        All-append IsByte _ _ (twist_bytes o.vx o.vy o.wz).0 (twist_bytes o.x o.y o.yaw).0;
    payload_fits = omega (
      arith,
      length-append (pack_cmd_twist fl o.vx o.vy o.wz) (pack_cmd_twist fl o.x o.y o.yaw),
      (twist_bytes o.vx o.vy o.wz).1,
      (twist_bytes o.x o.y o.yaw).1,
    );
  }

  read_float : (a : Float) (rest : List ℕ) → of_bits (get_f32 (put_f32 [] (bits a) ++ rest)) ≡ a
  unfolding get_f32
  read_float a rest = ap of_bits (get_u32-put_f32 (bits a) rest (bits-lt a)) ∙ of_bits-bits a

  parse_odom_sent :
      (o old : OdomData fl) (seq : Option ℕ)
      → parse_odom fl (frame_sent (odom_message o seq)) old ≡ (true, o)
  unfolding parse_odom pack_cmd_twist put_f32
  parse_odom_sent o old seq =
      let sent : List ℕ = (frame_sent (odom_message o seq)).payload in
      λ i. (
        true,
        record {
          vx = read_float o.vx (drop 4 sent) i;
          vy = read_float o.vy (drop 8 sent) i;
          wz = read_float o.wz (drop 12 sent) i;
          x = read_float o.x (drop 16 sent) i;
          y = read_float o.y (drop 20 sent) i;
          yaw = read_float o.yaw (drop 24 sent) i;
        },
      )

  -- An odometry report of any six floats, written as two float triples and framed with any
  -- sequence byte, comes out of an empty parser as one frame, from which `parseOdom` reads the same
  -- six floats in the same order.
  pub odom_on_the_wire :
      (p : FrameParser) (o old : OdomData fl) (seq : Option ℕ)
      → p.buf ≡ []
      → IsByte (seq_byte seq)
      → (f : Frame) × (feed p (packed (odom_message o seq))
          ≡ some (record { buf = []; stats = counted p.stats }, f ∷ []))
        × (parse_odom fl f old ≡ (true, o))
  odom_on_the_wire p o old seq empty h = (
    frame_sent (odom_message o seq),
    feed-packed p (odom_message o seq) empty (odom-IsSendable o seq h),
    parse_odom_sent o old seq,
  )

  -- The samples in the wire's bytes, ten for each: the time in four bytes, and the reference, the speed
  -- and the output in tenths, each in two. They are numbered from `first` on, modulo 2^16.
  abbrev pub samples_in : ℕ → ℕ → List ℕ → List (SysidSample fl)
  samples_in zero first bytes = []
  samples_in (suc n) first bytes =
      record {
        idx = first % 2 ^ 16;
        t_ms = get_u32 bytes;
        ref = divide (of_int (get_i16 (drop 4 bytes))) ten;
        rpm = divide (of_int (get_i16 (drop 6 bytes))) ten;
        out = divide (of_int (get_i16 (drop 8 bytes))) ten;
      }
      ∷ samples_in n (first + 1) (drop 10 bytes)

  samples_in-from :
      (left first i : ℕ) (payload : List ℕ)
      → samples_in left (first + (i + 1)) (drop (4 + 10 * (i + 1)) payload)
        ≡ samples_in left (first + i + 1) (drop 10 (drop (4 + 10 * i) payload))
  samples_in-from left first i payload =
      ap₂ (λ (n : ℕ) (p : List ℕ). samples_in left n p) (omega arith)
        (ap (λ (n : ℕ). drop n payload) (omega arith) ∙ sym (drop-drop 10 (4 + 10 * i) payload))

  sysid_samples-samples_in :
      (left : ℕ) (payload : List ℕ) (first i : ℕ) (out : List (SysidSample fl))
      → sysid_samples fl left payload first i out
        ≡ out ++ samples_in left (first + i) (drop (4 + 10 * i) payload)
  unfolding sysid_samples sysid_sample
  sysid_samples-samples_in zero payload first i out = sym (append-nil out)
  sysid_samples-samples_in (suc left) payload first i out =
      let one = sysid_sample fl payload first i in
      sysid_samples-samples_in left payload first (i + 1) (out ++ one ∷ [])
      ∙ append_assoc out (one ∷ []) _
      ∙ ap (λ t. out ++ one ∷ t) (samples_in-from left first i payload)

  samples_in-start :
      (left first : ℕ) (payload : List ℕ)
      → samples_in left (first + 0) (drop (4 + 10 * 0) payload)
        ≡ samples_in left first (drop 4 payload)
  samples_in-start left first payload =
      ap (λ (n : ℕ). samples_in left n (drop 4 payload)) {x = first + 0} {y = first} (omega arith)

  parse_sysid_data_all :
      (f : Frame) (out : List (SysidSample fl))
      → (parse_sysid_data fl f out).0 ≡ true
      → (parse_sysid_data fl f out).1
        ≡ sysid_samples fl (get_or f.payload 2 0) f.payload (get_u16 f.payload) 0 out
  unfolding parse_sysid_data
  parse_sysid_data_all f out h = ground arith

  -- `parseSysidData` succeeds exactly when the length is that of the number of samples that the
  -- frame says, at least one; then it appends to what was there all of these samples, as they stand in
  -- the bytes behind the first four and numbered from the frame's first index on; otherwise it appends
  -- none.
  pub parse_sysid_data_lem :
      (f : Frame) (out : List (SysidSample fl))
      → let r = parse_sysid_data fl f out in
        let cnt = get_or f.payload 2 0 in
        ((r.0 ≡ true) ↔ ((f.len ≡ 4 + 10 * cnt) × (1 ≤ cnt)))
        × (r.0 ≡ true → r.1 ≡ out ++ samples_in cnt (get_u16 f.payload) (drop 4 f.payload))
        × (r.0 ≡ false → r.1 ≡ out)
  unfolding parse_sysid_data
  parse_sysid_data_lem f out = (
    (λ h. ground arith, λ h. ground arith),
    λ h.
        parse_sysid_data_all f out h
        ∙ sysid_samples-samples_in (get_or f.payload 2 0) f.payload (get_u16 f.payload) 0 out
        ∙ ap (λ t. out ++ t)
            (samples_in-start (get_or f.payload 2 0) (get_u16 f.payload) f.payload),
    λ h. ground arith,
  )
