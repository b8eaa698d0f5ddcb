-- ===== src/Proto/Tests.antt =====
-- Runs of the frame codec on concrete bytes, and the theorems about it at concrete inputs.
use chassis_host.Common.{
  ℕ, ◌+◌, ◌*◌, ◌^◌, ◌≤◌, ◌<◌, ◌≡◌, ◌≢◌, ◌↔◌, refl, arith, true, false, List, [], ◌∷◌, ◌++◌, length,
  drop, set, All, IsByte, none, some,
}
use chassis_host.Proto.Bytes.{get_u16, get_i16}
use chassis_host.Proto.Crc.{crc16_modbus}
use chassis_host.Proto.Crc.Laws.{crc16_modbus-one_byte}
use chassis_host.Proto.Defs.{con_code, enable_response}
use chassis_host.Proto.Frame.{Frame, pack_frame}
use chassis_host.Proto.Parser.{
  FrameParser, new_parser, feed, feed_loop, turn, find_header, ends_in_head0, discard, at_header,
  no_header, check_crc, frame_at, extend,
}
use chassis_host.Proto.Parser.Runs.{Runs, feed_total}
use chassis_host.Proto.Parser.Chunks.{feed_all, feed_all-concat}
use chassis_host.Proto.Parser.RoundTrip.{
  Message, IsSendable, packed, frame_sent, counted, feed_all-stream, empty-IsSettled,
}
use chassis_host.Proto.Parser.Corruption.{feed-corrupted}
use chassis_host.Proto.Parser.Bounds.{IsFrame, feed_bounds}
use chassis_host.Proto.Float32.{Float32, Triple}
use chassis_host.Proto.PatternFloats.{pattern_floats}
use chassis_host.Proto.Telemetry.{OdomData, parse_odom, parse_sysid_data}
use chassis_host.Proto.Telemetry.Laws.{
  odom_message, odom_on_the_wire, samples_in, parse_sysid_data_lem,
}
use chassis_host.Proto.Command.{ConPayload, unpack_con, parse_ping, pack_cmd_vel}
use chassis_host.Proto.Command.Laws.{
  ping_message, ping_on_the_wire, con_message, con_on_the_wire, unpack_con_iff, SentFor,
  pack_cmd_vel-get_i16,
}

-- The standard vector, "123456789".
abbrev digits : List ℕ
digits = 0x31 ∷ 0x32 ∷ 0x33 ∷ 0x34 ∷ 0x35 ∷ 0x36 ∷ 0x37 ∷ 0x38 ∷ 0x39 ∷ []

crc_vector : crc16_modbus digits ≡ 0x4B37
unfolding crc16_modbus
crc_vector = refl

abbrev message : Message
message = record { type = 0x01; seq = some 255; payload = 0xAA ∷ 0x55 ∷ 7 ∷ [] }

message-IsSendable : IsSendable message
message-IsSendable = record {
  type_byte = omega arith;
  seq_fits = omega arith;
  payload_bytes = (omega arith, (omega arith, (omega arith, tt)));
  payload_fits = omega arith;
}

-- The counter wraps; the checksum follows the payload, low byte first.
message_bytes :
    pack_frame 0x01 (0xAA ∷ 0x55 ∷ 7 ∷ []) (some 255)
    ≡ (0xAA ∷ 0x55 ∷ 0x01 ∷ 3 ∷ 255 ∷ 0xAA ∷ 0x55 ∷ 7 ∷ 43 ∷ 108 ∷ [], some 0)
unfolding pack_frame crc16_modbus
message_bytes = refl

-- Noise before a frame, a false header, and a last 0xAA that is kept.
noisy_stream :
    feed new_parser
      (9 ∷ 0xAA ∷ 0x55 ∷ 1 ∷ 99 ∷ 0xAA ∷ 0x55 ∷ 0x82 ∷ 0 ∷ 0 ∷ 0x84 ∷ 0xB8 ∷ 0xAA ∷ [])
    ≡ some (record { buf = 0xAA ∷ []; stats = record { frames = 0; crc_err = 1; dropped = 4 } }, [])
unfolding feed feed_loop turn find_header ends_in_head0 discard at_header no_header check_crc
    frame_at crc16_modbus
noisy_stream = refl

abbrev pieces : List (List ℕ)
pieces = (1 ∷ 0xAA ∷ []) ∷ [] ∷ (0x55 ∷ 2 ∷ []) ∷ []

feed_all-concat_example : feed_all new_parser pieces ≡ feed new_parser (1 ∷ 0xAA ∷ 0x55 ∷ 2 ∷ [])
feed_all-concat_example = feed_all-concat new_parser pieces (empty-IsSettled new_parser.stats)

abbrev halves_of : List ℕ → List (List ℕ)
halves_of bytes = (0xAA ∷ 0x55 ∷ 0x01 ∷ 3 ∷ []) ∷ (255 ∷ 0xAA ∷ 0x55 ∷ 7 ∷ 43 ∷ 108 ∷ bytes) ∷ []

feed_all-stream_example :
    feed_all new_parser (halves_of (0xAA ∷ 0x55 ∷ 0x01 ∷ 3 ∷ 255 ∷ 0xAA ∷ 0x55 ∷ 7 ∷ 43 ∷ 108 ∷ []))
    ≡ some (
      record { buf = []; stats = record { frames = 2; crc_err = 0; dropped = 0 } },
      frame_sent message ∷ frame_sent message ∷ [],
    )
unfolding pack_frame crc16_modbus
feed_all-stream_example =
    feed_all-stream new_parser (message ∷ message ∷ [])
      (halves_of (0xAA ∷ 0x55 ∷ 0x01 ∷ 3 ∷ 255 ∷ 0xAA ∷ 0x55 ∷ 7 ∷ 43 ∷ 108 ∷ [])) refl
      (omega arith) (message-IsSendable, (message-IsSendable, tt)) refl

feed-corrupted_example :
    feed new_parser (set (packed message) 6 0x56)
    ≡ some (record { buf = []; stats = record { frames = 0; crc_err = 1; dropped = 0 } }, [])
unfolding pack_frame crc16_modbus
feed-corrupted_example =
    feed-corrupted message new_parser 6 0x56 message-IsSendable refl (omega arith) (omega arith)
      (omega arith) (omega arith) (omega arith)

abbrev waiting : FrameParser
waiting = record { buf = 0xAA ∷ []; stats = new_parser.stats }

feed_waits : feed new_parser (0xAA ∷ []) ≡ some (waiting, [])
unfolding feed feed_loop turn find_header ends_in_head0 discard no_header
feed_waits = refl

feed_bounds_example : (length waiting.buf < 39) × All IsFrame []
feed_bounds_example = feed_bounds new_parser waiting [] (0xAA ∷ []) feed_waits

feed_total_example :
    (q : FrameParser) × (fs : List Frame) × (feed waiting digits ≡ some (q, fs))
    × Runs (extend waiting digits) q fs
feed_total_example = feed_total waiting digits

digits_bytes : All IsByte digits
digits_bytes = omega arith

crc16_modbus-one_byte_example : crc16_modbus (1 ∷ 2 ∷ digits) ≢ crc16_modbus (1 ∷ 3 ∷ digits)
crc16_modbus-one_byte_example =
    crc16_modbus-one_byte (1 ∷ []) 2 3 digits (omega arith) (omega arith) (omega arith) digits_bytes
      (omega arith)

abbrev fl0 : Float32
fl0 = pattern_floats

ping_on_the_wire_example :
    (f : Frame) × (feed new_parser (packed (ping_message 123456789 (some 7)))
      ≡ some (record { buf = []; stats = counted new_parser.stats }, f ∷ []))
    × (parse_ping f 0 ≡ (true, 123456789))
ping_on_the_wire_example =
    ping_on_the_wire new_parser 123456789 0 (some 7) refl (omega arith) (omega arith)

abbrev no_con : ConPayload
no_con = record { sender = 0; msg_type = 0 }

con_on_the_wire_example :
    (f : Frame) × (feed new_parser (packed (con_message enable_response 1 none))
      ≡ some (record { buf = []; stats = counted new_parser.stats }, f ∷ []))
    × (unpack_con f no_con ≡ (true, record { sender = 1; msg_type = con_code enable_response }))
con_on_the_wire_example =
    con_on_the_wire new_parser enable_response 1 none no_con refl (omega arith) (omega arith)

abbrev short_frame : Frame
short_frame = record { type = 6; seq = 0; payload = 1 ∷ 3 ∷ 9 ∷ 1 ∷ []; len = 4 }

unpack_con_iff_example :
    (((unpack_con short_frame no_con).0 ≡ true)
      ↔ ((◌≡◌ {A = ℕ} 4 4) × (◌≡◌ {A = ℕ} 3 3) × (9 ≤ 5) × (◌≡◌ {A = ℕ} 1 1)))
    × ((unpack_con short_frame no_con).0 ≡ false → (unpack_con short_frame no_con).1 ≡ no_con)
unpack_con_iff_example = unpack_con_iff short_frame no_con

abbrev pattern : (n : ℕ) → n < 2 ^ 32 → (k : ℕ) × (k < 2 ^ 32)
pattern n h = (n, h)

-- 4096, -4096 and 100.
abbrev speeds : Triple ((k : ℕ) × (k < 2 ^ 32))
speeds = record {
  e0 = pattern 0x45800000 (omega arith);
  e1 = pattern 0xc5800000 (omega arith);
  e2 = pattern 0x42c80000 (omega arith);
}

pack_cmd_vel-get_i16_example :
    (length (pack_cmd_vel fl0 speeds) ≡ 6)
    × SentFor fl0 speeds.e0 (get_i16 (pack_cmd_vel fl0 speeds))
    × SentFor fl0 speeds.e1 (get_i16 (drop 2 (pack_cmd_vel fl0 speeds)))
    × SentFor fl0 speeds.e2 (get_i16 (drop 4 (pack_cmd_vel fl0 speeds)))
pack_cmd_vel-get_i16_example = pack_cmd_vel-get_i16 fl0 refl speeds

-- The first speed is above the upper limit, the second below the lower one, the third neither.
limits :
    (fl0.greater speeds.e0 fl0.rpm_top ≡ true)
    × (fl0.less speeds.e1 fl0.rpm_bottom ≡ true)
    × (fl0.greater speeds.e2 fl0.rpm_top ≡ false)
    × (fl0.less speeds.e2 fl0.rpm_bottom ≡ false)
limits = (refl, refl, refl, refl)

abbrev pose : OdomData fl0
pose = record {
  vx = pattern 1 (omega arith);
  vy = pattern 2 (omega arith);
  wz = pattern 3 (omega arith);
  x = pattern 0x3f800000 (omega arith);
  y = pattern 5 (omega arith);
  yaw = pattern 0xffffffff (omega arith);
}

odom_on_the_wire_example :
    (f : Frame) × (feed new_parser (packed (odom_message fl0 pose (some 0)))
      ≡ some (record { buf = []; stats = counted new_parser.stats }, f ∷ []))
    × (parse_odom fl0 f pose ≡ (true, pose))
odom_on_the_wire_example = odom_on_the_wire fl0 new_parser pose pose (some 0) refl (omega arith)

abbrev sysid_frame : Frame
sysid_frame = record {
  type = 7;
  seq = 0;
  payload = 0 ∷ 0 ∷ 1 ∷ 0 ∷ 1 ∷ 2 ∷ 3 ∷ 4 ∷ 5 ∷ 6 ∷ 7 ∷ 8 ∷ 9 ∷ 10 ∷ [];
  len = 14;
}

parse_sysid_data_lem_example :
    let r = parse_sysid_data fl0 sysid_frame [] in
    ((r.0 ≡ true) ↔ ((◌≡◌ {A = ℕ} 14 (4 + 10 * 1)) × (1 ≤ 1)))
    × (r.0 ≡ true
        → r.1 ≡ [] ++ samples_in fl0 1 (get_u16 sysid_frame.payload) (drop 4 sysid_frame.payload))
    × (r.0 ≡ false → r.1 ≡ [])
parse_sysid_data_lem_example = parse_sysid_data_lem fl0 sysid_frame []
