-- ===== src/App/Step/Safety.antt =====
-- Safety of motion: the sticky flag, the gate of the repeated speed command, and the update.
use Prim.Native.String.{String}
use mathlib.Core.Path.{subst}
use chassis_host.Common.{
  ◌≡◌, ◌⊎◌, inl, inr, refl, sym, ap, ◌∙◌, Bool, true, false, not, ◌||◌, List, [], ◌∷◌,
  if◌then◌else◌, All,
}
use chassis_host.Link.ConSm.{ConSm, CommState, ready, not_ready, is_ready}
use chassis_host.Serial.{handle_write, close_in_loop}
use chassis_host.App.Defs.{Platform, Host, HostOptions, CmdMode, mode_none, mode_twist, mode_rpm}
use chassis_host.App.Dispatch.{word_of, ota_busy, handle_command}
use chassis_host.App.Timers.{repeat_mode, on_repeat_timer}
use chassis_host.App.Step.{
  HostEvent, clock_at, connection, command, serial_data, serial_writable, serial_lost, child_line,
  child_exit, con_tick, repeat_timer, odom_timer, slow_timer, watchdog_timer, port_writable,
  port_lost, step, steps,
}
use chassis_host.App.Step.Calm.{
  motions, enables, impossible, Calm, Calm-refl, Calm-trans, Calm-unchanged, notified-Calm,
  send_frame_to_board-still,
}
use chassis_host.App.Step.Handlers.{on_serial_data-Calm}
use chassis_host.App.Step.Timers.{
  on_con_tick-Calm, on_odom_timer-Calm, on_slow_timer-Calm, on_watchdog_timer-Calm,
  ota_on_child_line-Calm, ota_on_child_exit-Calm,
}
use chassis_host.App.Step.Guarded.{OtaSafe, Modest, Guarded, Calm→Guarded}
use chassis_host.App.Step.Acts.{asks_enable}
use chassis_host.App.Step.Dispatch.{
  handle_command-Guarded, handle_command-Modest, on_connection-Guarded,
}

-- The events that are neither `en 1` nor the timer of the speed command.
abbrev pub asks : HostEvent → Bool
asks (command c (cmd ∷ args)) = asks_enable (word_of cmd) args
asks _ = false

abbrev is_repeat : HostEvent → Bool
is_repeat repeat_timer = true
is_repeat _ = false

module _ (pl : Platform) (opts : HostOptions) where
  port_lost-Calm : (reason : String) (h : Host pl) → Calm pl h (port_lost pl opts reason h)
  unfolding port_lost
  port_lost-Calm reason h =
      let (port, note) = close_in_loop reason h.radio.port in
      let h1 : Host pl = record h { radio = record h.radio { port = port } } in
      Calm-trans pl h h1 _ (Calm-unchanged pl h h1 refl refl refl) (notified-Calm pl note h1)

  port_writable-Calm : (h : Host pl) → Calm pl h (port_writable pl opts h)
  unfolding port_writable
  port_writable-Calm h =
      let (note, (port, world)) = handle_write pl.os (h.radio.port, h.radio.world) in
      let h1 : Host pl = record h { radio = record h.radio { port = port; world = world } } in
      Calm-trans pl h h1 _ (Calm-unchanged pl h h1 refl refl refl) (notified-Calm pl note h1)

  step-Guarded :
      (ev : HostEvent) (s : ConSm) (h : Host pl)
      → asks ev ≡ false
      → is_repeat ev ≡ false
      → Guarded pl h (step pl opts ev (s, h)).1
  unfolding step handle_command
  step-Guarded (clock_at now) s h a r = Calm→Guarded pl h _ (Calm-unchanged pl h _ refl refl refl)
  step-Guarded (connection c up) s h a r = on_connection-Guarded pl opts c up s h
  step-Guarded (command c []) s h a r = Calm→Guarded pl h _ (Calm-refl pl h)
  step-Guarded (command c (cmd ∷ args)) s h a r = handle_command-Guarded pl opts cmd args c s h a
  step-Guarded (serial_data bytes) s h a r =
      Calm→Guarded pl h _ (on_serial_data-Calm pl opts bytes s h)
  step-Guarded serial_writable s h a r = Calm→Guarded pl h _ (port_writable-Calm h)
  step-Guarded (serial_lost reason) s h a r = Calm→Guarded pl h _ (port_lost-Calm reason h)
  step-Guarded (child_line line) s h a r =
      Calm→Guarded pl h _ (ota_on_child_line-Calm pl opts line h)
  step-Guarded (child_exit ok status) s h a r =
      Calm→Guarded pl h _ (ota_on_child_exit-Calm pl opts ok status h)
  step-Guarded con_tick s h a r = Calm→Guarded pl h _ (on_con_tick-Calm pl opts s h)
  step-Guarded odom_timer s h a r = Calm→Guarded pl h _ (on_odom_timer-Calm pl opts s h)
  step-Guarded slow_timer s h a r = Calm→Guarded pl h _ (on_slow_timer-Calm pl opts s h)
  step-Guarded watchdog_timer s h a r = Calm→Guarded pl h _ (on_watchdog_timer-Calm pl opts s h)
  step-Guarded repeat_timer s h a r = impossible (sym r)

  step-Modest :
      (ev : HostEvent) (s : ConSm) (h : Host pl)
      → is_repeat ev ≡ false
      → Modest pl h (step pl opts ev (s, h)).1
  unfolding step handle_command
  step-Modest (command c (cmd ∷ args)) s h r = handle_command-Modest pl opts cmd args c s h
  step-Modest (command c []) s h r = (Calm→Guarded pl h _ (Calm-refl pl h)).0
  step-Modest ev s h r = (step-Guarded ev s h refl r).0

  -- The timer of the speed command changes neither the command nor the phase.
  repeat_mode-still :
      (m : CmdMode) (h : Host pl)
      → let h' = repeat_mode pl opts m h in (h'.motion ≡ h.motion) × (h'.ota.phase ≡ h.ota.phase)
  unfolding repeat_mode
  repeat_mode-still mode_none h = (refl, refl)
  repeat_mode-still mode_twist h = send_frame_to_board-still pl _ _ h
  repeat_mode-still mode_rpm h = send_frame_to_board-still pl _ _ h

  -- What the timer comes to, by the gate.
  repeat_cases :
      (s : ConSm) (h : Host pl)
      → ((on_repeat_timer pl opts (s, h)).1 ≡ h)
        ⊎ ((h.motion.user_disabled ≡ false)
            × (s.comm ≡ ready)
            × ((on_repeat_timer pl opts (s, h)).1 ≡ repeat_mode pl opts h.motion.cmd_mode h))
  unfolding on_repeat_timer
  repeat_cases s h = by_gate h.motion.user_disabled s.comm
    where
      by_gate :
          (d : Bool) (c : CommState)
          → let h' =
              (if◌then◌else◌ {A = ConSm × Host pl}
                (d || not (is_ready c))
                (s, h)
                (s, repeat_mode pl opts h.motion.cmd_mode h)).1 in
            (h' ≡ h) ⊎ ((d ≡ false) × (c ≡ ready) × (h' ≡ repeat_mode pl opts h.motion.cmd_mode h))
      by_gate true c = inl refl
      by_gate false ready = inr (refl, refl, refl)
      by_gate false not_ready = inl refl

  -- The timer too keeps an update safe.
  repeat-safe :
      (s : ConSm) (h : Host pl) → OtaSafe pl h → OtaSafe pl (on_repeat_timer pl opts (s, h)).1
  repeat-safe s h safe = elim (repeat_cases s h) [
    | inl e ↦ subst (OtaSafe pl) (sym e) safe
    | inr (_, _, e) ↦ (λ busy.
        let still = repeat_mode-still h.motion.cmd_mode h in
        let same_phase = ap (λ x. ota_busy x.ota.phase) e ∙ ap ota_busy still.1 in
        let before = safe (sym same_phase ∙ busy) in
        (
          ap (λ x. x.motion.user_disabled) e ∙ ap (λ m. m.user_disabled) still.0 ∙ before.0,
          ap (λ x. x.motion.cmd_mode) e ∙ ap (λ m. m.cmd_mode) still.0 ∙ before.1,
        ))
  ]

  step-OtaSafe :
      (ev : HostEvent) (s : ConSm) (h : Host pl)
      → OtaSafe pl h
      → OtaSafe pl (step pl opts ev (s, h)).1
  unfolding step
  step-OtaSafe repeat_timer s h safe = repeat-safe s h safe
  step-OtaSafe ev s h safe = (step-Modest ev s h refl).safe_kept safe

  -- The timer, while disabled.
  repeat_disabled :
      (s : ConSm) (h : Host pl)
      → h.motion.user_disabled ≡ true
      → (on_repeat_timer pl opts (s, h)).1 ≡ h
  repeat_disabled s h d = elim (repeat_cases s h) [
    | inl e ↦ e
    | inr (f, _, _) ↦ impossible (sym f ∙ d)
  ]

  -- Nothing moves the wheels, and they stay disabled.
  abbrev pub Held : Host pl → Host pl → Type 0
  Held h h' =
      (h'.motion.user_disabled ≡ true)
      × (motions h'.radio.sent ≡ motions h.radio.sent)
      × (enables h'.radio.sent ≡ enables h.radio.sent)

  step-Held :
      (ev : HostEvent) (s : ConSm) (h : Host pl)
      → asks ev ≡ false
      → h.motion.user_disabled ≡ true
      → Held h (step pl opts ev (s, h)).1
  unfolding step
  step-Held repeat_timer s h a d = subst (Held h) (sym (repeat_disabled s h d)) (d, refl, refl)
  step-Held ev s h a d =
      let g = step-Guarded ev s h a refl in
      (g.1.disabled_kept d, g.0.motions_kept, g.1.enables_kept d)

-- In every run of the host from a state in which it holds, such as one without an update: while a
-- firmware update is in progress (from the wait for the board to stop until the end) the sticky
-- `userDisabled_` is set and no speed command is being repeated, whatever the clients, the board, the
-- serial port, the child process and the timers do.
pub steps-OtaSafe :
    (pl : Platform) (opts : HostOptions) (evs : List HostEvent) (s : ConSm) (h : Host pl)
    → OtaSafe pl h
    → OtaSafe pl (steps pl opts evs (s, h)).1
unfolding steps
steps-OtaSafe pl opts [] s h safe = safe
steps-OtaSafe pl opts (ev ∷ evs) s h safe =
    let (s', h') = step pl opts ev (s, h) in
    steps-OtaSafe pl opts evs s' h' (step-OtaSafe pl opts ev s h safe)

-- Once the wheels are disabled (by `en 0` or by an update), then in every run without an `en 1` they
-- stay so: the host sends no speed command and no CMD_EN 1, not when the link is lost and set up
-- again, and not when the board reports that it has started anew.
pub steps-Held :
    (pl : Platform) (opts : HostOptions) (evs : List HostEvent) (s : ConSm) (h : Host pl)
    → All (λ ev. asks ev ≡ false) evs
    → h.motion.user_disabled ≡ true
    → Held pl opts h (steps pl opts evs (s, h)).1
unfolding steps
steps-Held pl opts [] s h a d = (d, refl, refl)
steps-Held pl opts (ev ∷ evs) s h a d =
    let (s', h') = step pl opts ev (s, h) in
    let one = step-Held pl opts ev s h a.0 d in
    let rest = steps-Held pl opts evs s' h' a.1 one.0 in (rest.0, rest.1 ∙ one.1, rest.2 ∙ one.2)

-- A step of the host that hands a speed command to the serial port is the one of the repeat timer,
-- and is taken with the link READY and the wheels not disabled.
pub step-gates_motion :
    (pl : Platform) (opts : HostOptions) (ev : HostEvent) (s : ConSm) (h : Host pl)
    → ¬ (motions (step pl opts ev (s, h)).1.radio.sent ≡ motions h.radio.sent)
    → (ev ≡ repeat_timer) × (s.comm ≡ ready) × (h.motion.user_disabled ≡ false)
unfolding step
step-gates_motion pl opts repeat_timer s h moved = elim (repeat_cases pl opts s h) [
  | inl e ↦ absurd (moved (ap (λ x. motions x.radio.sent) e))
  | inr (d, c, _) ↦ (refl, c, d)
]
step-gates_motion pl opts ev s h moved =
    absurd (moved (step-Modest pl opts ev s h refl).motions_kept)
