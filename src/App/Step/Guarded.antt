-- ===== src/App/Step/Guarded.antt =====
-- What every step but two keeps: no speed command goes out, and an update stays safe; while disabled
-- it stays disabled.
use chassis_host.Common.{ℕ, ◌≡◌, refl, sym, ap, ◌∙◌, true, false, List, [], Option, none, some}
use chassis_host.Link.ConSm.{ConSm}
use chassis_host.Link.ConSm.Api.{connect, disconnect}
use chassis_host.Link.ConSm.Related.{connect-related, disconnect-related}
use chassis_host.Proto.Command.{pack_cmd_en}
use chassis_host.Proto.Defs.{pt_cmd_stop, pt_cmd_en}
use chassis_host.App.Defs.{Platform, Msg, text, Host, mode_none}
use chassis_host.App.Output.{send_to, transmit, send_frame_to_board, callbacks}
use chassis_host.App.Commands.{
  is_disconnected, Parsed, bad_argument, values, set_twist, set_rpm, cmd_stop, enable, disable,
}
use chassis_host.App.Dispatch.{ota_busy}
use chassis_host.App.Step.Calm.{
  is_motion, is_enable, motions, enables, impossible, Calm, Calm-refl, Calm-trans, send_to-Calm,
  either_second, send_frame_to_board-Calm, callbacks-Kept,
}

-- While an update runs, the wheels are disabled and no speed command is repeated.
abbrev pub OtaSafe : (pl : Platform) → Host pl → Type 0
OtaSafe pl h =
    ota_busy h.ota.phase ≡ true → (h.motion.user_disabled ≡ true) × (h.motion.cmd_mode ≡ mode_none)

-- No speed command goes out, and the update stays safe.
pub record Modest (pl : Platform) (h h' : Host pl) : Type 0 where
  pub motions_kept : motions h'.radio.sent ≡ motions h.radio.sent
  pub safe_kept : OtaSafe pl h → OtaSafe pl h'

-- While disabled it stays disabled, and no CMD_EN 1 goes out.
pub record Sticky (pl : Platform) (h h' : Host pl) : Type 0 where
  pub disabled_kept : h.motion.user_disabled ≡ true → h'.motion.user_disabled ≡ true
  pub enables_kept : h.motion.user_disabled ≡ true → enables h'.radio.sent ≡ enables h.radio.sent

abbrev pub Guarded : (pl : Platform) → Host pl → Host pl → Type 0
Guarded pl h h' = Modest pl h h' × Sticky pl h h'

module _ (pl : Platform) where
  pub Calm→Guarded : (h h' : Host pl) → Calm pl h h' → Guarded pl h h'
  Calm→Guarded h h' c = (
    record {
      motions_kept = c.motions_same;
      safe_kept = λ safe busy.
          let before = safe (c.busy_before busy) in
          (
            ap (λ m. m.user_disabled) c.motion_same ∙ before.0,
            ap (λ m. m.cmd_mode) c.motion_same ∙ before.1,
          );
    },
    record {
      disabled_kept = λ d. ap (λ m. m.user_disabled) c.motion_same ∙ d;
      enables_kept = c.enables_same;
    },
  )

  pub Modest-trans : (a b c : Host pl) → Modest pl a b → Modest pl b c → Modest pl a c
  Modest-trans a b c p q = record {
    motions_kept = q.motions_kept ∙ p.motions_kept;
    safe_kept = λ safe. q.safe_kept (p.safe_kept safe);
  }

  pub Guarded-trans : (a b c : Host pl) → Guarded pl a b → Guarded pl b c → Guarded pl a c
  Guarded-trans a b c p q = (
    Modest-trans a b c p.0 q.0,
    record {
      disabled_kept = λ d. q.1.disabled_kept (p.1.disabled_kept d);
      enables_kept = λ d. q.1.enables_kept (p.1.disabled_kept d) ∙ p.1.enables_kept d;
    },
  )

  -- A change of the speed command that neither enables nor, while an update runs, sets a speed.
  pub set_motion-Guarded :
      (h h' : Host pl)
      → h'.radio.sent ≡ h.radio.sent
      → h'.ota.phase ≡ h.ota.phase
      → (h.motion.user_disabled ≡ true → h'.motion.user_disabled ≡ true)
      → (ota_busy h.ota.phase ≡ true
          → h.motion.cmd_mode ≡ mode_none
          → h'.motion.cmd_mode ≡ mode_none)
      → Guarded pl h h'
  set_motion-Guarded h h' a b c d = (
    record {
      motions_kept = ap motions a;
      safe_kept = λ safe busy.
          let was = sym (ap ota_busy b) ∙ busy in
          let before = safe was in (c before.0, d was before.1);
    },
    record { disabled_kept = c; enables_kept = λ _. ap enables a },
  )

  pub then-Calm : (a b c : Host pl) → Guarded pl a b → Calm pl b c → Guarded pl a c
  then-Calm a b c p q = Guarded-trans a b c p (Calm→Guarded b c q)

  pub set_twist-Guarded :
      (o : Option (Parsed pl)) (c : ℕ) (s : ConSm) (h : Host pl)
      → ota_busy h.ota.phase ≡ false
      → Guarded pl h (set_twist pl o c (s, h)).1
  unfolding set_twist
  set_twist-Guarded none c s h idle = Calm→Guarded h _ (send_to-Calm pl c _ h)
  set_twist-Guarded (some (bad_argument a)) c s h idle = Calm→Guarded h _ (send_to-Calm pl c _ h)
  set_twist-Guarded (some (values v)) c s h idle =
      set_motion-Guarded h _ refl refl (λ d. d) (λ busy _. impossible (sym idle ∙ busy))

  pub set_rpm-Guarded :
      (o : Option (Parsed pl)) (c : ℕ) (s : ConSm) (h : Host pl)
      → ota_busy h.ota.phase ≡ false
      → Guarded pl h (set_rpm pl o c (s, h)).1
  unfolding set_rpm
  set_rpm-Guarded none c s h idle = Calm→Guarded h _ (send_to-Calm pl c _ h)
  set_rpm-Guarded (some (bad_argument a)) c s h idle = Calm→Guarded h _ (send_to-Calm pl c _ h)
  set_rpm-Guarded (some (values v)) c s h idle =
      set_motion-Guarded h _ refl refl (λ d. d) (λ busy _. impossible (sym idle ∙ busy))

  -- A frame that is neither a speed command nor CMD_EN, and an answer to the client.
  pub sent_and_told :
      (type : ℕ) (payload : List ℕ) (c : ℕ) (m : Msg pl) (h : Host pl)
      → is_motion type ≡ false
      → is_enable type payload ≡ false
      → Calm pl h (send_to pl c m (send_frame_to_board pl type payload h).1)
  sent_and_told type payload c m h a b =
      Calm-trans pl h _ _ (send_frame_to_board-Calm pl type payload h a (λ _. b))
        (send_to-Calm pl c m _)

  pub cmd_stop-Guarded : (c : ℕ) (s : ConSm) (h : Host pl) → Guarded pl h (cmd_stop pl c (s, h)).1
  unfolding cmd_stop
  cmd_stop-Guarded c s h =
      let h1 : Host pl = record h {
        motion = record h.motion { cmd_mode = mode_none; speed_conn = none };
      } in
      then-Calm h h1 _ (set_motion-Guarded h h1 refl refl (λ d. d) (λ _ _. refl))
        (sent_and_told pt_cmd_stop [] c _ h1 refl refl)

  pub disable-Guarded : (c : ℕ) (s : ConSm) (h : Host pl) → Guarded pl h (disable pl c (s, h)).1
  unfolding disable pack_cmd_en
  disable-Guarded c s h =
      let h1 : Host pl = record h {
        motion = record h.motion { user_disabled = true; cmd_mode = mode_none };
      } in
      let h2 = transmit pl pt_cmd_en (pack_cmd_en false) h1 in
      let h3 = (disconnect (callbacks pl) h2.clock (s, h2)).1.1 in
      then-Calm h h1 _ (set_motion-Guarded h h1 refl refl (λ _. refl) (λ _ _. refl)) (
        Calm-trans pl h1 h2 _ (send_frame_to_board-Calm pl pt_cmd_en _ h1 refl (λ _. refl)) (
          Calm-trans pl h2 h3 _
            (disconnect-related (callbacks pl) (Calm pl) (callbacks-Kept pl) h2.clock s h2)
            (send_to-Calm pl c (text "ok en=0") h3)))

  -- `en 1` lifts the flag, so it is only modest, and while an update runs it does not come to it.
  pub enable-Modest :
      (c : ℕ) (s : ConSm) (h : Host pl)
      → ota_busy h.ota.phase ≡ false
      → Modest pl h (enable pl c (s, h)).1
  unfolding enable
  enable-Modest c s h idle =
      let h1 : Host pl = record h {
        motion = record h.motion { user_disabled = false };
        watch = record h.watch { last_en_sent = h.clock };
      } in
      let h2 = transmit pl pt_cmd_en (pack_cmd_en true) h1 in
      let lifted : Modest pl h h1 = record {
        motions_kept = refl;
        safe_kept = λ _ busy. impossible (sym idle ∙ busy);
      } in
      let sent =
        send_frame_to_board-Calm pl pt_cmd_en (pack_cmd_en true) h1 refl (λ x. impossible x) in
      let linked =
        either_second pl {A = ConSm} (is_disconnected s.state) h2
          (connect (callbacks pl) h2.clock (s, h2)).1 (s, h2)
          (connect-related (callbacks pl) (Calm pl) (callbacks-Kept pl) h2.clock s h2)
          (Calm-refl pl h2) in
      Modest-trans h h1 _ lifted
        (Calm→Guarded h1 _ (
          Calm-trans pl h1 h2 _ sent
            (Calm-trans pl h2 _ _ linked (send_to-Calm pl c (text "ok en=1") _)))).0
