-- ===== src/App/Dispatch.antt =====
-- The update's commands and `handleCommand` (app/ChassisHost.cc), with the gate that holds while an
-- update runs.
use Prim.Native.String.{String, ◌++◌}
use chassis_host.Common.{
  Bool, true, false, not, ◌&&◌, ◌||◌, List, [], ◌∷◌, Option, none, some, if◌then◌else◌, ℕ,
}
use chassis_host.Link.ConSm.{ConSm}
use chassis_host.Proto.Command.{pack_cmd_en}
use chassis_host.Proto.Defs.{pt_cmd_stop, pt_cmd_en}
use chassis_host.App.Defs.{
  same, Platform, Msg, text, text_of, ota_state_is, busy, ok_flash_status, Host, mode_none,
  OtaState, ota_none, ota_quiescing, ota_flashing, ota_recovering, HostOptions,
}
use chassis_host.App.Output.{send_to, broadcast_all, transmit, ota_finish}
use chassis_host.App.Ota.{is_safe_firmware_name}
use chassis_host.App.Commands.{
  cmd_twist, cmd_rpm, cmd_stop, cmd_enable, cmd_pid, cmd_sign, cmd_ping, cmd_watch, cmd_con,
}

-- The command words of `handleCommand`.
pub data Word : Type 0 where
  w_v w_rpm w_stop w_en w_pid w_sign w_ping w_watch w_stat w_con w_flash w_flash_status : Word
  w_flash_abort w_help w_quit w_unknown : Word

unfoldable pub word_of : String → Word
word_of cmd =
    if same cmd "v"
    then w_v
    else if same cmd "rpm"
    then w_rpm
    else if same cmd "stop"
    then w_stop
    else if same cmd "en"
    then w_en
    else if same cmd "pid"
    then w_pid
    else if same cmd "sign"
    then w_sign
    else if same cmd "ping"
    then w_ping
    else if same cmd "watch"
    then w_watch
    else if same cmd "stat"
    then w_stat
    else if same cmd "con"
    then w_con
    else if same cmd "flash"
    then w_flash
    else if same cmd "flash_status"
    then w_flash_status
    else if same cmd "flash_abort"
    then w_flash_abort
    else if same cmd "help"
    then w_help
    else if same cmd "quit" || same cmd "exit"
    then w_quit
    else w_unknown

-- What an update lets through.
abbrev pub always_allowed : Word → Bool
always_allowed w_flash_status = true
always_allowed w_flash_abort = true
always_allowed w_stat = true
always_allowed w_con = true
always_allowed w_help = true
always_allowed w_quit = true
always_allowed w_watch = true
always_allowed w_stop = true
always_allowed _ = false

abbrev pub ota_busy : OtaState → Bool
ota_busy ota_none = false
ota_busy _ = true

module _ (pl : Platform) (opts : HostOptions) where
  -- `isLoopbackConn`.
  abbrev pub is_loopback : ℕ → Host pl → Bool
  is_loopback c h = let ip = pl.peer_ip c h.radio.world in same ip "127.0.0.1" || same ip "::1"

  -- The update begins: no repeated speed, the sticky flag, STOP and CMD_EN 0, and the wait for the
  -- board to say that it has stopped.
  unfoldable pub begin_quiescing : ℕ → String → ConSm × Host pl → ConSm × Host pl
  begin_quiescing c name (s, h) =
      let h1 = record h {
        ota = record h.ota {
          file = name;
          ota_conn = some c;
          stage = "-";
          last_line = "";
          cli_lines = 0;
          phase = ota_quiescing;
          phase_start = h.clock;
        };
        motion = record h.motion { cmd_mode = mode_none; speed_conn = none; user_disabled = true };
      } in
      let h2 = transmit pl pt_cmd_stop [] h1 in
      let h3 = transmit pl pt_cmd_en (pack_cmd_en false) h2 in
      (s, broadcast_all pl (ota_state_is "quiescing") (send_to pl c (text "ok flash") h3))

  -- Why an update is refused, in the order of the tests; `none` where it is not.
  pub flash_refusal : ℕ → String → Host pl → Option (Msg pl)
  flash_refusal c name h =
      if not (is_loopback c h)
      then some (text "err flash: loopback only")
      else if ota_busy h.ota.phase
      then some (busy h.ota.phase)
      else if same opts.flash_dev "" || same opts.flash_script ""
      then some (text "err flash: not configured")
      else if not (is_safe_firmware_name name)
      then some (text "err flash: file name")
      else if not (pl.readable (opts.firmware_dir ++ ("/" ++ name)) h.radio.world)
      then some (text_of "err flash: no file" name)
      else none

  unfoldable pub flash_unless : Option (Msg pl) → ℕ → String → ConSm × Host pl → ConSm × Host pl
  unfolding begin_quiescing
  flash_unless (some m) c name (s, h) = (s, send_to pl c m h)
  flash_unless none c name x = begin_quiescing c name x

  unfoldable pub cmd_flash : ℕ → List String → ConSm × Host pl → ConSm × Host pl
  unfolding flash_refusal flash_unless
  cmd_flash c (name ∷ []) (s, h) = flash_unless (flash_refusal c name h) c name (s, h)
  cmd_flash c _ (s, h) = (s, send_to pl c (text "err usage: flash") h)

  unfoldable pub cmd_flash_status : ℕ → ConSm × Host pl → ConSm × Host pl
  cmd_flash_status c (s, h) = (
    s,
    send_to pl c
        (ok_flash_status h.ota.phase (
          if ota_busy h.ota.phase
          then some (h.ota.file, h.ota.stage, (pl.flasher).running h.ota.child)
          else none))
        h,
  )

  -- `flash_abort` in each phase; only `force` stops a child that writes.
  unfoldable pub abort_in : OtaState → Bool → ℕ → Host pl → Host pl
  abort_in ota_none force c h = send_to pl c (text "err flash_abort: none") h
  abort_in ota_quiescing force c h = ota_finish pl (text "ok flash_abort: cancelled") h
  abort_in ota_flashing force c h =
      if force
      then (let h1 = send_to pl c (text "ok flash_abort force") h in
          record h1 { ota = record h1.ota { child = (pl.flasher).kill_group h1.ota.child } })
      else send_to pl c (text "err flash_abort: writing") h
  abort_in ota_recovering force c h = ota_finish pl (text "ok flash_abort: recovering") h

  unfoldable pub abort_with : List String → ℕ → ConSm × Host pl → ConSm × Host pl
  unfolding abort_in
  abort_with [] c (s, h) = (s, abort_in h.ota.phase false c h)
  abort_with (a ∷ []) c (s, h) =
      if same a "force"
      then (s, abort_in h.ota.phase true c h)
      else (s, send_to pl c (text "err usage: flash_abort") h)
  abort_with _ c (s, h) = (s, send_to pl c (text "err usage: flash_abort") h)

  unfoldable pub cmd_flash_abort : ℕ → List String → ConSm × Host pl → ConSm × Host pl
  unfolding abort_with
  cmd_flash_abort c args (s, h) =
      if not (is_loopback c h)
      then (s, send_to pl c (text "err flash_abort: loopback only") h)
      else abort_with args c (s, h)

  abbrev pub first_or_empty : List String → String
  first_or_empty [] = ""
  first_or_empty (a ∷ _) = a

  -- The command of a word; `shutdown` of the connection is muduo's.
  unfoldable pub run : Word → String → ℕ → List String → ConSm × Host pl → ConSm × Host pl
  run w_v cmd c args x = cmd_twist pl c args x
  run w_rpm cmd c args x = cmd_rpm pl c args x
  run w_stop cmd c args x = cmd_stop pl c x
  run w_en cmd c args x = cmd_enable pl c args x
  run w_pid cmd c args x = cmd_pid pl c args x
  run w_sign cmd c args x = cmd_sign pl c args x
  run w_ping cmd c args x = cmd_ping pl c x
  run w_watch cmd c args x = cmd_watch pl c (first_or_empty args) x
  run w_stat cmd c args (s, h) = (s, send_to pl c (text "stat") h)
  run w_con cmd c args x = cmd_con pl c x
  run w_flash cmd c args x = cmd_flash c args x
  run w_flash_status cmd c args x = cmd_flash_status c x
  run w_flash_abort cmd c args x = cmd_flash_abort c args x
  run w_help cmd c args (s, h) = (s, send_to pl c (text "help") h)
  run w_quit cmd c args x = x
  run w_unknown cmd c args (s, h) = (s, send_to pl c (text_of "err unknown command" cmd) h)

  unfoldable pub handle_command : ℕ → List String → ConSm × Host pl → ConSm × Host pl
  handle_command c [] x = x
  handle_command c (cmd ∷ args) (s, h) =
      let w = word_of cmd in
      if ota_busy h.ota.phase && not (always_allowed w)
      then (s, send_to pl c (busy h.ota.phase) h)
      else run w cmd c args (s, h)
