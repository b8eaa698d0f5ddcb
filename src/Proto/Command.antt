-- ===== src/Proto/Command.antt =====
-- The CON payload and the payloads of commands in proto/FrameCodec.cc, with `parsePing`.
pub mod Laws
use Prim.Native.Nat.{bit_and}
use chassis_host.Common.{
  ℕ, zero, suc, ◌+◌, ◌/◌, ◌^◌, Bool, true, false, not, ◌||◌, List, [], ◌∷◌, ◌++◌, get_or, ltb, ◌==◌,
  if◌then◌else◌, u8,
}
use chassis_host.Common.Int.{ℤ, pos, negsuc, signed16}
use chassis_host.Proto.Bytes.{put_i16, put_f32, get_u32, unsigned16}
use chassis_host.Proto.Defs.{
  con_payload_size, con_protocol_type, con_protocol_version, con_code, ping_response,
}
use chassis_host.Proto.Float32.{Float32, Triple}
use chassis_host.Proto.Frame.{Frame}

pub record ConPayload : Type 0 where
  pub sender : ℕ
  pub msg_type : ℕ

-- Checks the length, the protocol and its version, and the message type.
unfoldable pub unpack_con : Frame → ConPayload → Bool × ConPayload
unpack_con f out =
    if not (f.len == con_payload_size)
      || not (get_or f.payload 1 0 == con_protocol_type)
      || ltb (con_code ping_response) (get_or f.payload 2 0)
      || not (get_or f.payload 3 0 == con_protocol_version)
    then (false, out)
    else (true, record { sender = get_or f.payload 0 0; msg_type = get_or f.payload 2 0 })

unfoldable pub pack_con : ℕ → ℕ → List ℕ
pack_con msg_type sender =
    sender ∷ con_protocol_type ∷ u8 (bit_and msg_type 0xFF) ∷ con_protocol_version ∷ []

unfoldable pub pack_cmd_en : Bool → List ℕ
pack_cmd_en en = (if en then 1 else 0) ∷ []

-- `sign >= 0 ? 1 : 0xFF` of an int8_t.
abbrev pub sign_byte : ℤ → ℕ
sign_byte (pos n) = 1
sign_byte (negsuc n) = 0xFF

unfoldable pub pack_cmd_sign : Triple ℤ → List ℕ
pack_cmd_sign sign = sign_byte sign.e0 ∷ sign_byte sign.e1 ∷ sign_byte sign.e2 ∷ []

unfoldable pub pack_ping : ℕ → List ℕ
pack_ping t_ms =
    u8 (bit_and t_ms 0xFF)
    ∷ u8 (bit_and (t_ms / 2 ^ 8) 0xFF)
    ∷ u8 (bit_and (t_ms / 2 ^ 16) 0xFF)
    ∷ u8 (bit_and (t_ms / 2 ^ 24) 0xFF)
    ∷ []

unfoldable pub parse_ping : Frame → ℕ → Bool × ℕ
parse_ping f t_ms = if not (f.len == 4) then (false, t_ms) else (true, get_u32 f.payload)

-- `static_cast<int16_t>` of a long.
abbrev pub cast_i16 : ℤ → ℤ
cast_i16 x = signed16 (unsigned16 x)

module _ (fl : Float32) where
  open fl use {Float, bits, times, greater, less, lround, ten, rpm_top, rpm_bottom}

  -- `if (r > 3276.7f) r = 3276.7f; if (r < -3276.8f) r = -3276.8f;`
  abbrev pub clamp_rpm : Float → Float
  clamp_rpm r =
      let r' = if greater r rpm_top then rpm_top else r in
      if less r' rpm_bottom then rpm_bottom else r'

  -- What one round of the loop of `packCmdVel` writes.
  abbrev pub rpm_x10 : Float → ℤ
  rpm_x10 r = cast_i16 (lround (times (clamp_rpm r) ten))

  unfoldable pub pack_cmd_vel : Triple Float → List ℕ
  pack_cmd_vel rpm =
      put_i16 (put_i16 (put_i16 [] (rpm_x10 rpm.e0)) (rpm_x10 rpm.e1)) (rpm_x10 rpm.e2)

  unfoldable pub pack_cmd_pid : Float → Float → Float → List ℕ
  pack_cmd_pid kp ki kd = put_f32 (put_f32 (put_f32 [] (bits kp)) (bits ki)) (bits kd)

  unfoldable pub pack_cmd_twist : Float → Float → Float → List ℕ
  pack_cmd_twist vx vy wz = put_f32 (put_f32 (put_f32 [] (bits vx)) (bits vy)) (bits wz)
