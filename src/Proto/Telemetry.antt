-- ===== src/Proto/Telemetry.antt =====
-- The parsers of telemetry payloads in proto/FrameCodec.cc. Each returns its Boolean and its out
-- parameter, which stays as it was where the length is wrong.
pub mod Laws
use chassis_host.Common.{
  ℕ, zero, suc, ◌+◌, ◌-◌, ◌*◌, ◌/◌, ◌%◌, Bool, true, false, not, ◌&&◌, ◌||◌, List, [], ◌∷◌, ◌++◌,
  get_or, drop, ltb, ◌==◌, if◌then◌else◌, u16,
}
use chassis_host.Common.Int.{ℤ}
use chassis_host.Proto.Bytes.{get_u16, get_i16, get_u32, get_i32, get_f32}
use chassis_host.Proto.Float32.{Float32, Triple, triple}
use chassis_host.Proto.Frame.{Frame}

pub record StatusData : Type 0 where
  pub uptime : ℕ
  pub rsv : ℕ
  pub imu_ok : ℕ
  pub en : ℕ
  pub mode : ℕ
  pub con : ℕ
  pub has_con : Bool

-- Frames of 5 bytes, of older firmware, have no `con`.
unfoldable pub parse_status : Frame → StatusData → Bool × StatusData
parse_status f out = if ltb f.len 5 then (false, out) else (
  true,
  record {
    uptime = get_or f.payload 0 0;
    rsv = get_or f.payload 1 0;
    imu_ok = get_or f.payload 2 0;
    en = get_or f.payload 3 0;
    mode = get_or f.payload 4 0;
    con = if ltb 5 f.len then get_or f.payload 5 0 else 0;
    has_con = ltb 5 f.len;
  },
)

module _ (fl : Float32) where
  open fl use {Float, of_bits, of_int, divide, ten, hundred, thousand}

  pub record EncData : Type 0 where
    pub count : Triple ℤ
    pub rpm : Triple Float
    pub t_ms : ℕ
    pub has_ts : Bool

  pub record ImuData : Type 0 where
    pub accel_g : Triple Float
    pub gyro_dps : Triple Float
    pub rpy_deg : Triple Float

  pub record TelemetryData : Type 0 where
    pub tgt_rpm : Triple Float
    pub rpm : Triple Float
    pub out_pct : Triple Float

  pub record OdomData : Type 0 where
    pub vx : Float
    pub vy : Float
    pub wz : Float
    pub x : Float
    pub y : Float
    pub yaw : Float

  pub record SysidSample : Type 0 where
    pub idx : ℕ
    pub t_ms : ℕ
    pub ref : Float
    pub rpm : Float
    pub out : Float

  pub record SysidMeta : Type 0 where
    pub mode : ℕ
    pub motor : ℕ
    pub decim : ℕ
    pub status : ℕ
    pub kp : Float
    pub ki : Float
    pub kd : Float
    pub amp : Float
    pub bias : Float
    pub n : ℕ
    pub t_start_ms : ℕ

  -- `static_cast<float>(getI16(p)) / unit`.
  abbrev scaled : List ℕ → Float → Float
  scaled p unit = divide (of_int (get_i16 p)) unit

  unfoldable pub parse_enc : Frame → EncData → Bool × EncData
  parse_enc f out =
      let p = f.payload in
      if not (f.len == 18) && not (f.len == 22) then (false, out) else (
        true,
        record {
          count = triple (λ i. get_i32 (drop (4 * i) p));
          rpm = triple (λ i. scaled (drop (12 + 2 * i) p) ten);
          t_ms = if f.len == 22 then get_u32 (drop 18 p) else 0;
          has_ts = f.len == 22;
        },
      )

  unfoldable pub parse_imu : Frame → ImuData → Bool × ImuData
  parse_imu f out =
      let p = f.payload in
      if not (f.len == 18) then (false, out) else (
        true,
        record {
          accel_g = triple (λ i. scaled (drop (2 * i) p) thousand);
          gyro_dps = triple (λ i. scaled (drop (6 + 2 * i) p) hundred);
          rpy_deg = triple (λ i. scaled (drop (12 + 2 * i) p) hundred);
        },
      )

  unfoldable pub parse_telemetry : Frame → TelemetryData → Bool × TelemetryData
  parse_telemetry f out =
      let p = f.payload in
      if not (f.len == 18) then (false, out) else (
        true,
        record {
          tgt_rpm = triple (λ i. scaled (drop (2 * i) p) ten);
          rpm = triple (λ i. scaled (drop (6 + 2 * i) p) ten);
          out_pct = triple (λ i. scaled (drop (12 + 2 * i) p) ten);
        },
      )

  unfoldable pub parse_odom : Frame → OdomData → Bool × OdomData
  parse_odom f out =
      let p = f.payload in
      if not (f.len == 24) then (false, out) else (
        true,
        record {
          vx = of_bits (get_f32 p);
          vy = of_bits (get_f32 (drop 4 p));
          wz = of_bits (get_f32 (drop 8 p));
          x = of_bits (get_f32 (drop 12 p));
          y = of_bits (get_f32 (drop 16 p));
          yaw = of_bits (get_f32 (drop 20 p));
        },
      )

  unfoldable pub parse_sysid_meta : Frame → SysidMeta → Bool × SysidMeta
  parse_sysid_meta f out =
      let p = f.payload in
      if not (f.len == 26) then (false, out) else (
        true,
        record {
          mode = get_or p 0 0;
          motor = get_or p 1 0;
          decim = get_or p 2 0;
          status = get_or p 3 0;
          kp = of_bits (get_f32 (drop 4 p));
          ki = of_bits (get_f32 (drop 8 p));
          kd = of_bits (get_f32 (drop 12 p));
          amp = scaled (drop 16 p) hundred;
          bias = scaled (drop 18 p) hundred;
          n = get_u16 (drop 20 p);
          t_start_ms = get_u32 (drop 22 p);
        },
      )

  sysid_sample : List ℕ → ℕ → ℕ → SysidSample
  sysid_sample payload first i =
      let p = drop (4 + 10 * i) payload in
      record {
        idx = u16 (first + i);
        t_ms = get_u32 p;
        ref = scaled (drop 4 p) ten;
        rpm = scaled (drop 6 p) ten;
        out = scaled (drop 8 p) ten;
      }

  -- The loop over the samples, with `left` rounds to go from i.
  sysid_samples : ℕ → List ℕ → ℕ → ℕ → List SysidSample → List SysidSample
  sysid_samples zero payload first i out = out
  sysid_samples (suc left) payload first i out =
      sysid_samples left payload first (i + 1) (out ++ sysid_sample payload first i ∷ [])

  -- Appends the samples to `out`, or leaves it as it was.
  unfoldable pub parse_sysid_data : Frame → List SysidSample → Bool × List SysidSample
  unfolding sysid_sample sysid_samples
  parse_sysid_data f out =
      let first = get_u16 f.payload in
      let cnt = get_or f.payload 2 0 in
      if ltb f.len 14 || not ((f.len - 4) % 10 == 0)
      then (false, out)
      else if not (cnt == (f.len - 4) / 10)
      then (false, out)
      else (true, sysid_samples cnt f.payload first 0 out)
