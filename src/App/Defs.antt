-- ===== src/App/Defs.antt =====
-- The state of `ChassisHost` (app/ChassisHost.h) and what the host stands on. A connection is a
-- number. The texts that go to a client are values of `Msg`, one constructor for each shape of text,
-- with the values that the source prints into it.
use Prim.Native.String.{String, ◌++◌, compare}
use Prim.Native.Nat.{Ordering}
use chassis_host.Common.{
  ℕ, ◌+◌, ◌-◌, ◌%◌, ◌^◌, Bool, true, false, ◌||◌, List, [], ◌∷◌, Option, ◌==◌, if◌then◌else◌,
}
use chassis_host.Common.Int.{ℤ}
use chassis_host.Link.ConSm.{State, CommState}
use chassis_host.Proto.Float32.{Float32, Triple}
use chassis_host.Proto.Parser.{FrameParser}
use chassis_host.Proto.Telemetry.{EncData, ImuData, TelemetryData, OdomData, StatusData}
use chassis_host.Serial.{Os, Port}

-- `==` of two `std::string`.
abbrev pub same : String → String → Bool
same s t = elim (compare s t) [ Ordering.eq ↦ true | _ ↦ false ]

-- The difference of two uint64_t.
pub elapsed : ℕ → ℕ → ℕ
elapsed now since = (now + 2 ^ 64 - since) % 2 ^ 64

pub data CmdMode : Type 0 where
  mode_none mode_twist mode_rpm : CmdMode

pub data OtaState : Type 0 where
  ota_none ota_quiescing ota_flashing ota_recovering : OtaState

-- The options that the handlers read; times in ms.
pub record HostOptions : Type 0 where
  pub con_retry_ms : ℕ
  pub rx_timeout_ms : ℕ
  pub en_resend_ms : ℕ
  pub flash_dev : String
  pub firmware_dir : String
  pub flash_script : String
  pub flash_python : String
  pub flash_tool : String
  pub quiesce_timeout_ms : ℕ
  pub recover_timeout_ms : ℕ

-- The command line of the child process.
abbrev pub flash_argv : HostOptions → String → List String
flash_argv opts file =
    opts.flash_python
    ∷ "-u"
    ∷ opts.flash_script
    ∷ "--flash"
    ∷ opts.flash_dev
    ∷ (opts.firmware_dir ++ ("/" ++ file))
    ∷ "--tool"
    ∷ opts.flash_tool
    ∷ []

-- `OtaFlasher` as the host calls it: whether a child is started for the arguments, the signal to its
-- process group, and whether one runs.
pub record Flasher (F : Type 0) : Type 0 where
  pub start : List String → F → Bool × F
  pub kill_group : F → F
  pub running : F → Bool

-- What is not the program's: floats, `double` with `strtod` (the value, and the text from `*end`
-- on), the system calls, `access`, and muduo's connections (the peer's address, and `connected`).
pub record Platform : Type 1 where
  pub fl : Float32
  pub Double : Type 0
  pub W : Type 0
  pub F : Type 0
  pub strtod : String → Double × String
  pub zero_double : Double
  pub to_float : Double → fl.Float
  pub at_least_zero : Double → Bool
  pub os : Os W
  pub readable : String → W → Bool
  pub peer_ip : ℕ → W → String
  pub connected : ℕ → W → Bool
  pub flasher : Flasher F

module _ (pl : Platform) where
  open pl use {fl, Double, W, F}

  -- What is sent to a client.
  pub data Msg : Type 0 where
    -- a fixed text, and one that names an argument
    text : String → Msg
    text_of : String → String → Msg
    con_state : CommState → Msg
    serial_state : Bool → String → Msg
    ota_state_is : String → Msg
    ota_started : String → Msg
    busy : OtaState → Msg
    ok_twist : Triple fl.Float → CommState → Msg
    ok_rpm : Triple fl.Float → Msg
    ok_pid : Double → Double → Double → Msg
    ok_sign : Triple ℤ → Msg
    ok_watch : Bool → Msg
    ok_con : State → CommState → Option ℕ → Msg
    ok_flash_status : OtaState → Option (String × String × Bool) → Msg
    pong : ℕ → Msg
    child_failed : String → ℕ → String → Msg
    odom : OdomData fl → Msg
    enc : EncData fl → Msg
    imu : ImuData fl → Msg
    telem : TelemetryData fl → Msg
    status_is : StatusData → Msg

  -- The TCP side; `out` is what was sent, the newest first.
  pub record Tcp : Type 0 where
    pub conns : List ℕ
    pub watchers : List ℕ
    pub out : List (ℕ × Msg)

  -- The serial side; `sent` lists the type and the payload of what was given to the port, the newest
  -- first, which the source does not keep.
  pub record Radio : Type 0 where
    pub port : Port
    pub world : W
    pub tx_seq : ℕ
    pub tx_frames : ℕ
    pub sent : List (ℕ × List ℕ)

  -- The speed command that is repeated, and the sticky `userDisabled_`.
  pub record Motion : Type 0 where
    pub cmd_mode : CmdMode
    pub twist : Triple fl.Float
    pub rpm : Triple fl.Float
    pub speed_conn : Option ℕ
    pub user_disabled : Bool

  -- The newest telemetry.
  pub record Cache : Type 0 where
    pub enc_data : EncData fl
    pub imu_data : ImuData fl
    pub telem_data : TelemetryData fl
    pub status_data : StatusData
    pub odom_data : OdomData fl
    pub have_enc : Bool
    pub have_imu : Bool
    pub have_telem : Bool
    pub have_odom : Bool

  pub record Ping : Type 0 where
    pub last_ping_id : ℕ
    pub last_ping_sent : ℕ
    pub ping_conn : Option ℕ

  pub record Watch : Type 0 where
    pub last_frame : ℕ
    pub silence_warned : Bool
    pub last_retry : ℕ
    pub last_en_sent : ℕ

  pub record OtaTask : Type 0 where
    pub phase : OtaState
    pub ota_conn : Option ℕ
    pub file : String
    pub stage : String
    pub last_line : String
    pub phase_start : ℕ
    pub cli_lines : ℕ
    pub child : F

  -- The fields, but for `conSm_`. `clock` is what `steadyMs` answers; a handler reads one time.
  pub record Host : Type 0 where
    pub tcp : Tcp
    pub radio : Radio
    pub parser : FrameParser
    pub motion : Motion
    pub cache : Cache
    pub ping : Ping
    pub watch : Watch
    pub ota : OtaTask
    pub clock : ℕ

-- `std::set` of connections: `count`, `insert` and `erase`.
abbrev pub contains : ℕ → List ℕ → Bool
contains c [] = false
contains c (d ∷ ds) = (c == d) || contains c ds

abbrev pub insert : ℕ → List ℕ → List ℕ
insert c cs = if contains c cs then cs else c ∷ cs

abbrev pub erase : ℕ → List ℕ → List ℕ
erase c [] = []
erase c (d ∷ ds) = let rest = erase c ds in if c == d then rest else d ∷ rest

-- A connection is the one that a `TcpConnectionPtr` holds.
abbrev pub holds : Option ℕ → ℕ → Bool
holds Option.none c = false
holds (Option.some d) c = c == d
