-- ===== src/App/Timers.antt =====
-- The timers of the host (app/ChassisHost.cc), each of which reads the clock once.
use chassis_host.Common.{Bool, true, false, not, ◌&&◌, ◌||◌, [], ◌∷◌, if◌then◌else◌, ltb, leb, ◌==◌}
use chassis_host.Link.ConSm.{ConSm, is_ready}
use chassis_host.Link.ConSm.Api.{connect, tick}
use chassis_host.Proto.Command.{pack_cmd_twist, pack_cmd_vel}
use chassis_host.Proto.Defs.{pt_cmd_twist, pt_cmd_vel}
use chassis_host.Serial.{open_device}
use chassis_host.App.Defs.{
  elapsed, Platform, text, odom, enc, imu, telem, status_is, Host, CmdMode, mode_none, mode_twist,
  mode_rpm, HostOptions,
}
use chassis_host.App.Output.{
  broadcast_all, send_to_watchers, notified, transmit, ota_finish, callbacks, is_recovering,
}
use chassis_host.App.Ota.{ota_begin_flasher, is_flashing}
use chassis_host.App.Commands.{is_disconnected}
use chassis_host.App.Dispatch.{ota_busy}
use chassis_host.App.Events.{is_quiescing}

module _ (pl : Platform) (opts : HostOptions) where
  unfoldable pub on_con_tick : ConSm × Host pl → ConSm × Host pl
  on_con_tick (s, h) = tick (callbacks pl) h.clock (s, h)

  -- The repeated speed command: not unless READY, and not while disabled.
  unfoldable pub repeat_mode : CmdMode → Host pl → Host pl
  repeat_mode mode_none h = h
  repeat_mode mode_twist h =
      transmit pl pt_cmd_twist
        (pack_cmd_twist pl.fl h.motion.twist.e0 h.motion.twist.e1 h.motion.twist.e2) h
  repeat_mode mode_rpm h = transmit pl pt_cmd_vel (pack_cmd_vel pl.fl h.motion.rpm) h

  unfoldable pub on_repeat_timer : ConSm × Host pl → ConSm × Host pl
  unfolding repeat_mode
  on_repeat_timer (s, h) =
      if h.motion.user_disabled || not (is_ready s.comm)
      then (s, h)
      else (s, repeat_mode h.motion.cmd_mode h)

  abbrev pub no_watchers : Host pl → Bool
  no_watchers h = elim h.tcp.watchers [ [] ↦ true | _ ∷ _ ↦ false ]

  unfoldable pub on_odom_timer : ConSm × Host pl → ConSm × Host pl
  on_odom_timer (s, h) =
      if not h.cache.have_odom || no_watchers h
      then (s, h)
      else (s, send_to_watchers pl (odom h.cache.odom_data) h)

  unfoldable pub on_slow_timer : ConSm × Host pl → ConSm × Host pl
  on_slow_timer (s, h) =
      if no_watchers h
      then (s, h)
      else (let h1 = if h.cache.have_enc then send_to_watchers pl (enc h.cache.enc_data) h else h in
          let h2 = if h.cache.have_imu then send_to_watchers pl (imu h.cache.imu_data) h1 else h1 in
          let h3 =
            if h.cache.have_telem then send_to_watchers pl (telem h.cache.telem_data) h2 else h2 in
          (s, send_to_watchers pl (status_is h.cache.status_data) h3))

  -- The parts of `onWatchdogTimer`: the serial device, the limits of the update's phases, the
  -- silence of the board, and the link.
  unfoldable pub reopen : Host pl → Host pl
  reopen h =
      if h.radio.port.is_open
      then h
      else (let ((ok, note), (port, world)) = open_device pl.os (h.radio.port, h.radio.world) in
          notified pl note (record h { radio = record h.radio { port = port; world = world } }))

  unfoldable pub ota_timeouts : ConSm × Host pl → ConSm × Host pl
  ota_timeouts (s, h) =
      let waited = elapsed h.clock h.ota.phase_start in
      if is_quiescing h.ota.phase && ltb opts.quiesce_timeout_ms waited
      then ota_begin_flasher pl opts (s, h)
      else if is_recovering pl h.ota.phase && ltb opts.recover_timeout_ms waited
      then (s, ota_finish pl (text "err flash: CON timeout") h)
      else (s, h)

  unfoldable pub warn_silence : Host pl → Host pl
  warn_silence h =
      if not (ota_busy h.ota.phase)
        && h.radio.port.is_open
        && not (h.watch.last_frame == 0)
        && ltb opts.rx_timeout_ms (elapsed h.clock h.watch.last_frame)
        && not h.watch.silence_warned
      then broadcast_all pl (text "rx-silence")
          (record h { watch = record h.watch { silence_warned = true } })
      else h

  unfoldable pub reconnect : ConSm × Host pl → ConSm × Host pl
  reconnect (s, h) =
      if not (is_flashing h.ota.phase)
        && h.radio.port.is_open
        && is_disconnected s.state
        && leb opts.con_retry_ms (elapsed h.clock h.watch.last_retry)
      then (connect (callbacks pl) h.clock
          (s, record h { watch = record h.watch { last_retry = h.clock } })).1
      else (s, h)

  unfoldable pub on_watchdog_timer : ConSm × Host pl → ConSm × Host pl
  unfolding reopen ota_timeouts warn_silence reconnect
  on_watchdog_timer (s, h) =
      let (s1, h1) = ota_timeouts (s, reopen h) in reconnect (s1, warn_silence h1)
