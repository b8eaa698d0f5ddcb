-- ===== src/Proto/Defs.antt =====
-- proto/FrameDefs.h: the constants of the wire format, and `typeName` of proto/FrameCodec.cc.
use Prim.Native.String.{String}
use chassis_host.Common.{ℕ, if◌then◌else◌, ◌==◌}

abbrev pub head0 : ℕ
head0 = 0xAA

abbrev pub head1 : ℕ
head1 = 0x55

abbrev pub frame_overhead : ℕ
frame_overhead = 7

abbrev pub max_payload : ℕ
max_payload = 32

-- `enum FrameType : uint8_t`; the source compares its values with bytes, so they are numbers.
abbrev pub pt_enc_data : ℕ
pt_enc_data = 0x01

abbrev pub pt_imu_data : ℕ
pt_imu_data = 0x02

abbrev pub pt_status : ℕ
pt_status = 0x03

abbrev pub pt_telemetry : ℕ
pt_telemetry = 0x04

abbrev pub pt_odom_data : ℕ
pt_odom_data = 0x05

abbrev pub pt_con : ℕ
pt_con = 0x06

abbrev pub pt_sysid_data : ℕ
pt_sysid_data = 0x07

abbrev pub pt_sysid_meta : ℕ
pt_sysid_meta = 0x08

abbrev pub pt_cmd_vel : ℕ
pt_cmd_vel = 0x81

abbrev pub pt_cmd_stop : ℕ
pt_cmd_stop = 0x82

abbrev pub pt_cmd_en : ℕ
pt_cmd_en = 0x83

abbrev pub pt_cmd_pid : ℕ
pt_cmd_pid = 0x84

abbrev pub pt_cmd_sign : ℕ
pt_cmd_sign = 0x85

abbrev pub pt_cmd_twist : ℕ
pt_cmd_twist = 0x86

abbrev pub pt_cmd_sysid : ℕ
pt_cmd_sysid = 0x87

abbrev pub pt_cmd_sysid_freqs : ℕ
pt_cmd_sysid_freqs = 0x88

abbrev pub pt_cmd_ping : ℕ
pt_cmd_ping = 0x8F

abbrev pub con_sender_board : ℕ
con_sender_board = 0x01

abbrev pub con_sender_host : ℕ
con_sender_host = 0x02

abbrev pub con_protocol_type : ℕ
con_protocol_type = 0x03

abbrev pub con_protocol_version : ℕ
con_protocol_version = 0x01

abbrev pub con_payload_size : ℕ
con_payload_size = 4

-- `enum ConMsgType : uint8_t`.
pub data ConMsgType : Type 0 where
  enable_request enable_response disable_request disable_response : ConMsgType
  ping_request ping_response : ConMsgType

-- The value that an enumerator has on the wire.
abbrev pub con_code : ConMsgType → ℕ
con_code enable_request = 0
con_code enable_response = 1
con_code disable_request = 2
con_code disable_response = 3
con_code ping_request = 4
con_code ping_response = 5

-- `typeName`: the short name of a command word.
unfoldable pub type_name : ℕ → String
type_name type =
    if type == pt_enc_data
    then "ENC"
    else if type == pt_imu_data
    then "IMU"
    else if type == pt_status
    then "STATUS"
    else if type == pt_telemetry
    then "TELEM"
    else if type == pt_odom_data
    then "ODOM"
    else if type == pt_con
    then "CON"
    else if type == pt_sysid_data
    then "SYSID_DATA"
    else if type == pt_sysid_meta
    then "SYSID_META"
    else if type == pt_cmd_vel
    then "CMD_VEL"
    else if type == pt_cmd_stop
    then "CMD_STOP"
    else if type == pt_cmd_en
    then "CMD_EN"
    else if type == pt_cmd_pid
    then "CMD_PID"
    else if type == pt_cmd_sign
    then "CMD_SIGN"
    else if type == pt_cmd_twist
    then "CMD_TWIST"
    else if type == pt_cmd_sysid
    then "CMD_SYSID"
    else if type == pt_cmd_sysid_freqs
    then "CMD_SYSID_FREQS"
    else if type == pt_cmd_ping
    then "PING"
    else "?"
