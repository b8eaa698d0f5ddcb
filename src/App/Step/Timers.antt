-- ===== src/App/Step/Timers.antt =====
-- The timers, but for the repeated speed command, and the child process are calm.
use Prim.Native.String.{String}
use chassis_host.Common.{
  ℕ, ◌+◌, ◌%◌, refl, Bool, true, not, ◌&&◌, ◌||◌, if◌then◌else◌, ◌==◌, ltb, leb,
}
use chassis_host.Link.ConSm.{ConSm}
use chassis_host.Link.ConSm.Related.{connect-related, tick-related}
use chassis_host.Serial.{open_device}
use chassis_host.App.Defs.{
  elapsed, Platform, Msg, text, text_of, ota_state_is, odom, enc, imu, telem, status_is, Host,
  HostOptions, ota_recovering,
}
use chassis_host.App.Output.{
  send_to_watchers, broadcast_all, ota_send_progress, callbacks, is_recovering,
}
use chassis_host.App.Ota.{
  ota_on_child_line, ota_on_child_exit, is_flashing, starts_with, is_progress, after, failure,
}
use chassis_host.App.Commands.{is_disconnected}
use chassis_host.App.Dispatch.{ota_busy}
use chassis_host.App.Events.{is_quiescing}
use chassis_host.App.Timers.{
  on_con_tick, reopen, ota_timeouts, warn_silence, reconnect, on_watchdog_timer, no_watchers,
  on_odom_timer, on_slow_timer,
}
use chassis_host.App.Step.Calm.{
  Calm, Calm-refl, Calm-trans, Calm-unchanged, broadcast_all-Calm, send_to_watchers-Calm,
  either_Calm, either_second, notified-Calm, ota_send_progress-Calm, ota_finish-Calm,
  callbacks-Kept,
}
use chassis_host.App.Step.Handlers.{
  and_left, quiescing_busy, flashing_busy, when_second, when_Calm, ota_begin_flasher-Calm,
}

module _ (pl : Platform) (opts : HostOptions) where
  pub on_con_tick-Calm : (s : ConSm) (h : Host pl) → Calm pl h (on_con_tick pl opts (s, h)).1
  unfolding on_con_tick
  on_con_tick-Calm s h = tick-related (callbacks pl) (Calm pl) (callbacks-Kept pl) h.clock s h

  pub on_odom_timer-Calm : (s : ConSm) (h : Host pl) → Calm pl h (on_odom_timer pl opts (s, h)).1
  unfolding on_odom_timer
  on_odom_timer-Calm s h =
      either_second pl {A = ConSm} (not h.cache.have_odom || no_watchers pl opts h) h (s, h) _
        (Calm-refl pl h) (send_to_watchers-Calm pl (odom h.cache.odom_data) h)

  maybe_send :
      (b : Bool) (m : Msg pl) (h h' : Host pl)
      → Calm pl h h'
      → Calm pl h (if b then send_to_watchers pl m h' else h')
  maybe_send b m h h' p =
      either_Calm pl b h _ h' (Calm-trans pl h h' _ p (send_to_watchers-Calm pl m h')) p

  pub on_slow_timer-Calm : (s : ConSm) (h : Host pl) → Calm pl h (on_slow_timer pl opts (s, h)).1
  unfolding on_slow_timer
  on_slow_timer-Calm s h =
      let c = h.cache in
      either_second pl {A = ConSm} (no_watchers pl opts h) h (s, h) _ (Calm-refl pl h)
        (maybe_send true (status_is c.status_data) h _ (
          maybe_send c.have_telem (telem c.telem_data) h _ (
            maybe_send c.have_imu (imu c.imu_data) h _
              (maybe_send c.have_enc (enc c.enc_data) h h (Calm-refl pl h)))))

  reopen-Calm : (h : Host pl) → Calm pl h (reopen pl opts h)
  unfolding reopen
  reopen-Calm h =
      let ((ok, note), (port, world)) = open_device pl.os (h.radio.port, h.radio.world) in
      let h1 : Host pl = record h { radio = record h.radio { port = port; world = world } } in
      either_Calm pl h.radio.port.is_open h h _ (Calm-refl pl h)
        (Calm-trans pl h h1 _ (Calm-unchanged pl h h1 refl refl refl) (notified-Calm pl note h1))

  ota_timeouts-Calm : (s : ConSm) (h : Host pl) → Calm pl h (ota_timeouts pl opts (s, h)).1
  unfolding ota_timeouts
  ota_timeouts-Calm s h =
      let waited = elapsed h.clock h.ota.phase_start in
      let late = ltb opts.quiesce_timeout_ms waited in
      when_second pl opts {A = ConSm} (is_quiescing h.ota.phase && late) h _ _
        (λ c.
          ota_begin_flasher-Calm pl opts s h
            (quiescing_busy h.ota.phase (and_left (is_quiescing h.ota.phase) late c)))
        (λ _.
          either_second pl {A = ConSm}
            (is_recovering pl h.ota.phase && ltb opts.recover_timeout_ms waited) h _ (s, h)
            (ota_finish-Calm pl (text "err flash: CON timeout") h) (Calm-refl pl h))

  warn_silence-Calm : (h : Host pl) → Calm pl h (warn_silence pl opts h)
  unfolding warn_silence broadcast_all
  warn_silence-Calm h =
      either_Calm pl
        (not (ota_busy h.ota.phase)
          && h.radio.port.is_open
          && not (h.watch.last_frame == 0)
          && ltb opts.rx_timeout_ms (elapsed h.clock h.watch.last_frame)
          && not h.watch.silence_warned)
        h _ h (Calm-unchanged pl h _ refl refl refl) (Calm-refl pl h)

  reconnect-Calm : (s : ConSm) (h : Host pl) → Calm pl h (reconnect pl opts (s, h)).1
  unfolding reconnect
  reconnect-Calm s h =
      let h1 : Host pl = record h { watch = record h.watch { last_retry = h.clock } } in
      either_second pl {A = ConSm}
        (not (is_flashing h.ota.phase)
          && h.radio.port.is_open
          && is_disconnected s.state
          && leb opts.con_retry_ms (elapsed h.clock h.watch.last_retry))
        h _ (s, h)
        (Calm-trans pl h h1 _ (Calm-unchanged pl h h1 refl refl refl)
          (connect-related (callbacks pl) (Calm pl) (callbacks-Kept pl) h.clock s h1))
        (Calm-refl pl h)

  pub on_watchdog_timer-Calm :
      (s : ConSm) (h : Host pl) → Calm pl h (on_watchdog_timer pl opts (s, h)).1
  unfolding on_watchdog_timer
  on_watchdog_timer-Calm s h =
      let h0 = reopen pl opts h in
      let (s1, h1) = ota_timeouts pl opts (s, h0) in
      let h2 = warn_silence pl opts h1 in
      Calm-trans pl h h0 _ (reopen-Calm h) (
        Calm-trans pl h0 h1 _ (ota_timeouts-Calm s h0)
          (Calm-trans pl h1 h2 _ (warn_silence-Calm h1) (reconnect-Calm s1 h2)))

  pub ota_on_child_line-Calm :
      (line : String) (h : Host pl) → Calm pl h (ota_on_child_line pl line h)
  unfolding ota_on_child_line
  ota_on_child_line-Calm line h =
      let h1 : Host pl = record h { ota = record h.ota { last_line = line } } in
      let told = λ (m : Msg pl) (x : Host pl) (p : Calm pl h x).
        Calm-trans pl h x _ p (ota_send_progress-Calm pl m x) in
      let here = Calm-unchanged pl h h1 refl refl refl in
      let staged : Host pl = record h1 {
        ota = record h1.ota { stage = after "STAGE: " line; cli_lines = 0 };
      } in
      let counted : Host pl = record h1 {
        ota = record h1.ota { cli_lines = h1.ota.cli_lines + 1 };
      } in
      let passed = text_of "flash line" line in
      let again = Calm-unchanged pl h counted refl refl refl in
      either_Calm pl (starts_with line "STAGE: ") h _ _
        (told (text_of "flash stage" staged.ota.stage) staged
          (Calm-unchanged pl h staged refl refl refl))
        (either_Calm pl (starts_with line "OK: ") h _ _
          (told (text_of "flash ok" (after "OK: " line)) h1 here)
          (either_Calm pl (starts_with line "FAIL: ") h _ _
            (told (text_of "flash fail" (after "FAIL: " line)) h1 here)
            (either_Calm pl (is_progress line) h _ _
              (either_Calm pl (counted.ota.cli_lines % 20 == 0) h _ counted
                (told passed counted again) again)
              (told passed h1 here))))

  pub ota_on_child_exit-Calm :
      (ok : Bool) (status : ℕ) (h : Host pl) → Calm pl h (ota_on_child_exit pl ok status h)
  unfolding ota_on_child_exit
  ota_on_child_exit-Calm ok status h =
      when_Calm pl opts (not (is_flashing h.ota.phase)) h h _ (λ _. Calm-refl pl h)
        (λ c.
          let busy = flashing_busy h.ota.phase c in
          let h1 = ota_send_progress pl (text "flash verified") h in
          let told = ota_send_progress-Calm pl (text "flash verified") h in
          let h2 : Host pl = record h1 {
            ota = record h1.ota { phase = ota_recovering; phase_start = h1.clock };
            watch = record h1.watch { last_retry = 0 };
          } in
          either_Calm pl ok h _ _
            (Calm-trans pl h h2 _
              (record {
                motion_same = told.motion_same;
                motions_same = told.motions_same;
                enables_same = told.enables_same;
                busy_before = λ _. busy;
              })
              (broadcast_all-Calm pl (ota_state_is "recovering") h2))
            (ota_finish-Calm pl (failure pl status h) h))
