-- ===== src/App/Step/Handlers.antt =====
-- What the board sets off is calm.
use chassis_host.Common.{
  ℕ, ◌≡◌, refl, ap, Bool, true, false, not, ◌&&◌, List, [], ◌∷◌, Option, none, some, if◌then◌else◌,
  ◌==◌, arith,
}
use chassis_host.Link.ConSm.{ConSm}
use chassis_host.Link.ConSm.Related.{reset-related, on_frame-related}
use chassis_host.Proto.Command.{pack_cmd_en, unpack_con, parse_ping}
use chassis_host.Proto.Defs.{
  con_sender_host, pt_cmd_en, pt_enc_data, pt_imu_data, pt_telemetry, pt_odom_data, pt_status,
  pt_con, pt_cmd_ping,
}
use chassis_host.Proto.Frame.{Frame}
use chassis_host.Proto.Parser.{FrameParser, feed}
use chassis_host.Proto.Telemetry.{parse_status}
use chassis_host.App.Defs.{Platform, text, ota_state_is, Host, HostOptions, OtaState}
use chassis_host.App.Output.{callbacks}
use chassis_host.App.Ota.{ota_begin_flasher, is_flashing}
use chassis_host.App.Dispatch.{ota_busy}
use chassis_host.App.Events.{
  is_quiescing, con_msg_type, en_lost, resend_en, on_status, on_status_frame, seen, on_con,
  answer_ping, on_ping, on_board_frame, on_board_frames, deliver, on_serial_data,
}
use chassis_host.App.Step.Calm.{
  motions, enables, Calm, Calm-refl, Calm-trans, Calm-unchanged, broadcast_all-Calm, either_second,
  send_frame_to_board-Calm, ota_send_progress-Calm, ota_finish-Calm, callbacks-Kept,
}

-- A test that holds says more than its branch.
pub and_left : (a b : Bool) → (a && b) ≡ true → a ≡ true
and_left true b h = refl
and_left false b h = h

pub quiescing_busy : (o : OtaState) → is_quiescing o ≡ true → ota_busy o ≡ true
quiescing_busy o h = ground arith

pub flashing_busy : (o : OtaState) → not (is_flashing o) ≡ false → ota_busy o ≡ true
flashing_busy o h = ground arith

module _ (pl : Platform) (opts : HostOptions) where
  pub when_second :
      {A : Type 0} (b : Bool) (h : Host pl) (x y : A × Host pl)
      → (b ≡ true → Calm pl h x.1)
      → (b ≡ false → Calm pl h y.1)
      → Calm pl h (if b then x else y).1
  when_second true h x y p q = p refl
  when_second false h x y p q = q refl

  pub when_Calm :
      (b : Bool) (h x y : Host pl)
      → (b ≡ true → Calm pl h x)
      → (b ≡ false → Calm pl h y)
      → Calm pl h (if b then x else y)
  when_Calm true h x y p q = p refl
  when_Calm false h x y p q = q refl

  -- An update that goes on to its next phase.
  next_phase :
      (h h' : Host pl)
      → h'.motion ≡ h.motion
      → h'.radio.sent ≡ h.radio.sent
      → ota_busy h.ota.phase ≡ true
      → Calm pl h h'
  next_phase h h' a b c = record {
    motion_same = a;
    motions_same = ap motions b;
    enables_same = λ _. ap enables b;
    busy_before = λ _. c;
  }

  pub ota_begin_flasher-Calm :
      (s : ConSm) (h : Host pl)
      → ota_busy h.ota.phase ≡ true
      → Calm pl h (ota_begin_flasher pl opts (s, h)).1
  unfolding ota_begin_flasher
  ota_begin_flasher-Calm s h busy =
      let before =
        Calm-trans pl h _ _
          (Calm-trans pl h _ _ (next_phase h _ refl refl busy)
            (reset-related (callbacks pl) (Calm pl) (callbacks-Kept pl) s _))
          (Calm-unchanged pl _ _ refl refl refl) in
      either_second pl _ h _ _
        (Calm-trans pl h _ _ before (
          Calm-trans pl _ _ _ (ota_send_progress-Calm pl _ _)
            (broadcast_all-Calm pl (ota_state_is "flashing") _)))
        (Calm-trans pl h _ _ before (ota_finish-Calm pl (text "err flash: start") _))

  enabled_again : (d rest : Bool) → (not d && rest) ≡ true → d ≡ true → (A : Type 0) → A
  enabled_again d rest h e A = absurd (ground arith)

  resend_en-Calm : (s : ConSm) (h : Host pl) → Calm pl h (resend_en pl opts s h)
  unfolding resend_en
  resend_en-Calm s h =
      when_Calm (not h.motion.user_disabled && en_lost pl opts s h) h _ h
        (λ c. Calm-trans pl h _ _ (Calm-unchanged pl h _ refl refl refl) (
          send_frame_to_board-Calm pl pt_cmd_en (pack_cmd_en true)
            (record h { watch = record h.watch { last_en_sent = h.clock } }) refl
            (λ d. enabled_again h.motion.user_disabled (en_lost pl opts s h) c d _)))
        (λ _. Calm-refl pl h)

  on_status-Calm : (s : ConSm) (h : Host pl) → Calm pl h (on_status pl opts (s, h)).1
  unfolding on_status
  on_status-Calm s h =
      let h1 = resend_en pl opts s h in
      let again = resend_en-Calm s h in
      let stopped = h1.cache.status_data.en == 0 in
      when_second {A = ConSm} (is_quiescing h1.ota.phase && stopped) h _ _
        (λ c. Calm-trans pl h h1 _ again (
          ota_begin_flasher-Calm s h1
            (quiescing_busy h1.ota.phase (and_left (is_quiescing h1.ota.phase) stopped c))))
        (λ _. again)

  on_con-Calm : (f : Frame) (s : ConSm) (h : Host pl) → Calm pl h (on_con pl opts f (s, h)).1
  unfolding on_con
  on_con-Calm f s h =
      let (ok, c) = unpack_con f (record { sender = 0; msg_type = 0 }) in
      either_second pl {A = ConSm} (not ok) h _ _ (Calm-refl pl h) (
        either_second pl {A = ConSm} (c.sender == con_sender_host) h _ _ (Calm-refl pl h) (
          on_frame-related (callbacks pl) (Calm pl) (callbacks-Kept pl) (con_msg_type c.msg_type)
            h.clock s h))

  answer_ping-Calm : (o : Option ℕ) (b : Bool) (h : Host pl) → Calm pl h (answer_ping pl opts o b h)
  unfolding answer_ping
  answer_ping-Calm (some c) true h = Calm-unchanged pl h _ refl refl refl
  answer_ping-Calm (some c) false h = Calm-refl pl h
  answer_ping-Calm none b h = Calm-refl pl h

  on_ping-Calm : (f : Frame) (h : Host pl) → Calm pl h (on_ping pl opts f h)
  unfolding on_ping
  on_ping-Calm f h =
      let (ok, t) = parse_ping f 0 in
      answer_ping-Calm h.ping.ping_conn (ok && (t == h.ping.last_ping_id)) h

  on_status_frame-Calm :
      (f : Frame) (s : ConSm) (h : Host pl) → Calm pl h (on_status_frame pl opts f (s, h)).1
  unfolding on_status_frame
  on_status_frame-Calm f s h =
      let (ok, d) = parse_status f h.cache.status_data in
      let h1 = record h { cache = record h.cache { status_data = d } } in
      let kept = Calm-unchanged pl h h1 refl refl refl in
      either_second pl {A = ConSm} ok h (on_status pl opts (s, h1)) (s, h1)
        (Calm-trans pl h h1 _ kept (on_status-Calm s h1)) kept

  on_board_frame-Calm :
      (f : Frame) (s : ConSm) (h : Host pl) → Calm pl h (on_board_frame pl opts f (s, h)).1
  unfolding on_board_frame
  on_board_frame-Calm f s h0 =
      let h : Host pl = seen pl opts h0 in
      let here = Calm-unchanged pl h0 h refl refl refl in
      either_second pl {A = ConSm} (f.type == pt_enc_data) h0 _ _
        (Calm-unchanged pl h0 _ refl refl refl)
        (either_second pl {A = ConSm} (f.type == pt_imu_data) h0 _ _
          (Calm-unchanged pl h0 _ refl refl refl)
          (either_second pl {A = ConSm} (f.type == pt_telemetry) h0 _ _
            (Calm-unchanged pl h0 _ refl refl refl)
            (either_second pl {A = ConSm} (f.type == pt_odom_data) h0 _ _
              (Calm-unchanged pl h0 _ refl refl refl)
              (either_second pl {A = ConSm} (f.type == pt_status) h0
                (on_status_frame pl opts f (s, h)) _
                (Calm-trans pl h0 h _ here (on_status_frame-Calm f s h))
                (either_second pl {A = ConSm} (f.type == pt_con) h0 (on_con pl opts f (s, h)) _
                  (Calm-trans pl h0 h _ here (on_con-Calm f s h))
                  (either_second pl {A = ConSm} (f.type == pt_cmd_ping) h0 (s, on_ping pl opts f h)
                    (s, h) (Calm-trans pl h0 h _ here (on_ping-Calm f h)) here))))))

  on_board_frames-Calm :
      (fs : List Frame) (s : ConSm) (h : Host pl) → Calm pl h (on_board_frames pl opts fs (s, h)).1
  unfolding on_board_frames
  on_board_frames-Calm [] s h = Calm-refl pl h
  on_board_frames-Calm (f ∷ fs) s h =
      let (s', h') = on_board_frame pl opts f (s, h) in
      Calm-trans pl h h' _ (on_board_frame-Calm f s h) (on_board_frames-Calm fs s' h')

  deliver-Calm :
      (o : Option (FrameParser × List Frame)) (s : ConSm) (h : Host pl)
      → Calm pl h (deliver pl opts o (s, h)).1
  unfolding deliver
  deliver-Calm none s h = Calm-refl pl h
  deliver-Calm (some (p, fs)) s h =
      Calm-trans pl h _ _ (Calm-unchanged pl h _ refl refl refl) (on_board_frames-Calm fs s _)

  pub on_serial_data-Calm :
      (bytes : List ℕ) (s : ConSm) (h : Host pl) → Calm pl h (on_serial_data pl opts bytes (s, h)).1
  unfolding on_serial_data
  on_serial_data-Calm bytes s h = deliver-Calm (feed h.parser bytes) s h
