-- ===== src/App/Step/Tests.antt =====
-- The host on a concrete platform: a port that takes everything, and clients on the loopback.
use Prim.Native.String.{String}
use chassis_host.Common.{
  get_or, ◌==◌, if◌then◌else◌, ℕ, ◌≡◌, refl, true, false, List, [], ◌∷◌, none, some, length, All,
  arith,
}
use chassis_host.Common.Int.{pos}
use chassis_host.Link.ConSm.{ConSm, connected, ready, new_con_sm}
use chassis_host.Proto.Bytes.{put_f32}
use chassis_host.Proto.Command.{pack_cmd_twist}
use chassis_host.Proto.Float32.{Triple}
use chassis_host.Proto.Frame.{pack_frame}
use chassis_host.Proto.Parser.{new_parser}
use chassis_host.Proto.PatternFloats.{pattern_floats}
use chassis_host.Serial.{got, at_eof, interrupted, wrote, send, after_write, keep_rest}
use chassis_host.App.Defs.{Platform, Host, HostOptions, mode_twist, ota_none}
use chassis_host.App.Output.{send_frame_to_board}
use chassis_host.App.Dispatch.{word_of}
use chassis_host.App.Timers.{on_repeat_timer, repeat_mode}
use chassis_host.App.Ota.{is_name_char, all_name_chars, is_safe_firmware_name}
use chassis_host.App.Ota.Laws.{SlashFree, DotsApart, safe_name-SlashFree}
use chassis_host.App.Step.{
  HostEvent, clock_at, command, serial_data, serial_lost, con_tick, repeat_timer, watchdog_timer,
  step, steps,
}
use chassis_host.App.Lines.Words.{WordLine}
use chassis_host.App.Step.Bytes.{byte_steps, sends, byte_steps-steps, handle_read}
use chassis_host.App.Step.Reads.{hung_up, handle_read-steps}
use chassis_host.App.Step.Calm.{motions, impossible}
use chassis_host.App.Step.Guarded.{OtaSafe}
use chassis_host.App.Step.Safety.{asks, Held, steps-OtaSafe, steps-Held, step-gates_motion}

abbrev platform0 : Platform
platform0 = record {
  fl = pattern_floats;
  Double = ℕ;
  W = ℕ;
  F = ℕ;
  strtod = λ s. (7, "");
  zero_double = 0;
  to_float = λ d. pattern_floats.of_bits d;
  at_least_zero = λ d. true;
  os = record { write = λ bytes w. (wrote (length bytes), w); open_tty = λ w. (true, w) };
  readable = λ path w. true;
  peer_ip = λ c w. "127.0.0.1";
  connected = λ c w. true;
  flasher = record { start = λ argv f. (true, f); kill_group = λ f. f; running = λ f. true };
}

abbrev opts0 : HostOptions
opts0 = record {
  con_retry_ms = 2000;
  rx_timeout_ms = 2000;
  en_resend_ms = 1000;
  flash_dev = "/dev/ttyUSB1";
  firmware_dir = "firmware";
  flash_script = "/opt/flash.py";
  flash_python = "python3";
  flash_tool = "auto";
  quiesce_timeout_ms = 3000;
  recover_timeout_ms = 15000;
}

abbrev still0 : Triple (pattern_floats.Float)
still0 = record {
  e0 = pattern_floats.of_bits 0;
  e1 = pattern_floats.of_bits 0;
  e2 = pattern_floats.of_bits 0;
}

abbrev zero0 : pattern_floats.Float
zero0 = pattern_floats.of_bits 0

-- A client drives, with the link up.
abbrev host0 : Host platform0
host0 = record {
  tcp = record { conns = 1 ∷ []; watchers = []; out = [] };
  radio = record {
    port = record { is_open = true; writing = false; out = [] };
    world = 0;
    tx_seq = 0;
    tx_frames = 0;
    sent = [];
  };
  parser = new_parser;
  motion = record {
    cmd_mode = mode_twist;
    twist = still0;
    rpm = still0;
    speed_conn = some 1;
    user_disabled = false;
  };
  cache = record {
    enc_data = record {
      count = record { e0 = pos 0; e1 = pos 0; e2 = pos 0 };
      rpm = still0;
      t_ms = 0;
      has_ts = false;
    };
    imu_data = record { accel_g = still0; gyro_dps = still0; rpy_deg = still0 };
    telem_data = record { tgt_rpm = still0; rpm = still0; out_pct = still0 };
    status_data = record {
      uptime = 0;
      rsv = 0;
      imu_ok = 0;
      en = 0;
      mode = 0;
      con = 0;
      has_con = false;
    };
    odom_data = record { vx = zero0; vy = zero0; wz = zero0; x = zero0; y = zero0; yaw = zero0 };
    have_enc = false;
    have_imu = false;
    have_telem = false;
    have_odom = false;
  };
  ping = record { last_ping_id = 0; last_ping_sent = 0; ping_conn = none };
  watch = record { last_frame = 0; silence_warned = false; last_retry = 0; last_en_sent = 0 };
  ota = record {
    phase = ota_none;
    ota_conn = none;
    file = "";
    stage = "-";
    last_line = "";
    phase_start = 0;
    cli_lines = 0;
    child = 0;
  };
  clock = 1000;
}

abbrev link_up : ConSm
link_up = record new_con_sm { state = connected; comm = ready }

-- An update: it begins, the board does not answer in time, a client tries to drive.
abbrev update_run : List HostEvent
update_run =
    command 1 ("flash" ∷ "chassis.hex" ∷ [])
    ∷ clock_at 4500
    ∷ watchdog_timer
    ∷ command 1 ("v" ∷ "0.5" ∷ [])
    ∷ repeat_timer
    ∷ []

steps-OtaSafe_example : OtaSafe platform0 (steps platform0 opts0 update_run (link_up, host0)).1
steps-OtaSafe_example =
    steps-OtaSafe platform0 opts0 update_run link_up host0 (λ busy. impossible busy)

abbrev disabled0 : Host platform0
disabled0 = record host0 { motion = record host0.motion { user_disabled = true } }

-- Disabled: a client drives, the link is lost and asked for again.
abbrev disabled_run : List HostEvent
disabled_run =
    command 1 ("v" ∷ "0.5" ∷ []) ∷ repeat_timer ∷ serial_lost "eof" ∷ watchdog_timer ∷ con_tick ∷ []

commands_only : All (λ ev. asks ev ≡ false) disabled_run
unfolding word_of
commands_only = (refl, (refl, (refl, (refl, (refl, tt)))))

steps-Held_example :
    Held platform0 opts0 disabled0 (steps platform0 opts0 disabled_run (link_up, disabled0)).1
steps-Held_example = steps-Held platform0 opts0 disabled_run link_up disabled0 commands_only refl

one_motion : motions (step platform0 opts0 repeat_timer (link_up, host0)).1.radio.sent ≡ 1
unfolding step on_repeat_timer repeat_mode send_frame_to_board pack_frame send after_write keep_rest
    pack_cmd_twist put_f32
one_motion = refl

driven : ¬ (motions (step platform0 opts0 repeat_timer (link_up, host0)).1.radio.sent ≡ 0)
driven e = omega (arith, one_motion, e)

step-gates_motion_example :
    (repeat_timer ≡ repeat_timer) × (link_up.comm ≡ ready) × (host0.motion.user_disabled ≡ false)
step-gates_motion_example = step-gates_motion platform0 opts0 repeat_timer link_up host0 driven

accepted_name : is_safe_firmware_name "chassis-v2.hex" ≡ true
unfolding is_safe_firmware_name all_name_chars is_name_char
accepted_name = refl

safe_name-SlashFree_example : SlashFree "chassis-v2.hex" × DotsApart "chassis-v2.hex"
safe_name-SlashFree_example = safe_name-SlashFree "chassis-v2.hex" accepted_name

-- "v" and "0.5", as far as the run below has words.
abbrev words0 : List ℕ → String
words0 bytes = if get_or bytes 0 0 == 118 then "v" else "0.5"

-- "v 0.5 \r\nv", in two pieces.
abbrev two_pieces : List (List ℕ)
two_pieces = (118 ∷ 32 ∷ 48 ∷ []) ∷ (46 ∷ 53 ∷ 32 ∷ 13 ∷ 10 ∷ 118 ∷ []) ∷ []

abbrev v_line : WordLine
v_line = record {
  first = 118;
  letters = [];
  more = ((32, []), (48, 46 ∷ 53 ∷ [])) ∷ [];
  end = 32 ∷ 13 ∷ [];
}

byte_steps-steps_example :
    let y = byte_steps platform0 opts0 words0 (sends 1 two_pieces) (λ c. [], (link_up, host0)) in
    (y.1 ≡ steps platform0 opts0 (command 1 ("v" ∷ "0.5" ∷ []) ∷ []) (link_up, host0))
    × (y.0 1 ≡ 118 ∷ [])
byte_steps-steps_example =
    byte_steps-steps platform0 opts0 words0 1 two_pieces (v_line ∷ []) (118 ∷ []) (λ c. [])
      (link_up, host0) refl (ground arith) refl (ground arith)

handle_read-steps_example :
    handle_read platform0 opts0 words0
      (interrupted ∷ got (0xAA ∷ []) ∷ at_eof ∷ [])
      (link_up, host0)
    ≡ steps platform0 opts0 (serial_data (0xAA ∷ []) ∷ serial_lost "eof" ∷ []) (link_up, host0)
handle_read-steps_example =
    handle_read-steps platform0 opts0 words0 ((1, 0xAA ∷ []) ∷ []) at_eof (serial_lost "eof" ∷ [])
      [] (link_up, host0) refl hung_up
