-- ===== src/App/Step/Calm.antt =====
-- A step that is calm: the speed command and the sticky flag stay, no motion command goes out, no
-- CMD_EN 1 goes out while disabled, and no update begins.
use chassis_host.Common.{
  ℕ, ◌+◌, ◌≡◌, refl, sym, ap, ◌∙◌, Bool, true, false, ◌&&◌, ◌||◌, List, [], ◌∷◌, Option, none, some,
  get_or, if◌then◌else◌, ◌==◌, arith,
}
use chassis_host.Link.ConSm.{CommState, is_ready}
use chassis_host.Link.ConSm.Related.{Kept}
use chassis_host.Proto.Command.{pack_cmd_en}
use chassis_host.Proto.Defs.{ConMsgType, pt_con, pt_cmd_en, pt_cmd_twist, pt_cmd_vel}
use chassis_host.Serial.{Notice}
use chassis_host.App.Defs.{Platform, Msg, ota_state_is, Host}
use chassis_host.App.Output.{
  send_to, broadcast_all, send_to_watchers, on_serial_state, notified, send_frame_to_board,
  send_con_frame, ota_send_progress, ota_finish, on_comm_state, callbacks,
}
use chassis_host.App.Dispatch.{ota_busy}

abbrev pub is_motion : ℕ → Bool
is_motion type = (type == pt_cmd_twist) || (type == pt_cmd_vel)

abbrev pub is_enable : ℕ → List ℕ → Bool
is_enable type payload = (type == pt_cmd_en) && (get_or payload 0 0 == 1)

-- How many speed commands, and how many CMD_EN 1, a list of sent frames holds.
abbrev pub motions : List (ℕ × List ℕ) → ℕ
motions [] = 0
motions ((type, payload) ∷ rest) = (if is_motion type then 1 else 0) + motions rest

abbrev pub enables : List (ℕ × List ℕ) → ℕ
enables [] = 0
enables ((type, payload) ∷ rest) = (if is_enable type payload then 1 else 0) + enables rest

pub record Calm (pl : Platform) (h h' : Host pl) : Type 0 where
  pub motion_same : h'.motion ≡ h.motion
  pub motions_same : motions h'.radio.sent ≡ motions h.radio.sent
  pub enables_same : h.motion.user_disabled ≡ true → enables h'.radio.sent ≡ enables h.radio.sent
  pub busy_before : ota_busy h'.ota.phase ≡ true → ota_busy h.ota.phase ≡ true

pub impossible {ℓ} : {A : Type ℓ} → false ≡ true → A
impossible x = absurd (ground (arith, x))

-- The value of CMD_EN that answers READY, while disabled.
answer-stays :
    (disabled : Bool)
    → disabled ≡ true
    → is_enable pt_cmd_en (pack_cmd_en (if disabled then false else true)) ≡ false
unfolding pack_cmd_en
answer-stays true x = refl
answer-stays false x = impossible x

module _ (pl : Platform) where
  pub Calm-refl : (h : Host pl) → Calm pl h h
  Calm-refl h = record {
    motion_same = refl;
    motions_same = refl;
    enables_same = λ _. refl;
    busy_before = λ b. b;
  }

  pub Calm-trans : (a b c : Host pl) → Calm pl a b → Calm pl b c → Calm pl a c
  Calm-trans a b c p q = record {
    motion_same = q.motion_same ∙ p.motion_same;
    motions_same = q.motions_same ∙ p.motions_same;
    enables_same =
        λ d. q.enables_same (ap (λ m. m.user_disabled) p.motion_same ∙ d) ∙ p.enables_same d;
    busy_before = λ x. p.busy_before (q.busy_before x);
  }

  -- What the relation looks at stays as it is.
  pub Calm-unchanged :
      (h h' : Host pl)
      → h'.motion ≡ h.motion
      → h'.radio.sent ≡ h.radio.sent
      → h'.ota.phase ≡ h.ota.phase
      → Calm pl h h'
  Calm-unchanged h h' a b c = record {
    motion_same = a;
    motions_same = ap motions b;
    enables_same = λ _. ap enables b;
    busy_before = λ x. sym (ap ota_busy c) ∙ x;
  }

  pub send_to-Calm : (c : ℕ) (m : Msg pl) (h : Host pl) → Calm pl h (send_to pl c m h)
  send_to-Calm c m h = Calm-unchanged h _ refl refl refl

  pub broadcast_all-Calm : (m : Msg pl) (h : Host pl) → Calm pl h (broadcast_all pl m h)
  unfolding broadcast_all
  broadcast_all-Calm m h = Calm-unchanged h _ refl refl refl

  pub send_to_watchers-Calm : (m : Msg pl) (h : Host pl) → Calm pl h (send_to_watchers pl m h)
  unfolding send_to_watchers
  send_to_watchers-Calm m h = Calm-unchanged h _ refl refl refl

  pub either_Calm :
      (b : Bool) (h x y : Host pl) → Calm pl h x → Calm pl h y → Calm pl h (if b then x else y)
  either_Calm true h x y p q = p
  either_Calm false h x y p q = q

  pub notified-Calm : (n : Option Notice) (h : Host pl) → Calm pl h (notified pl n h)
  unfolding on_serial_state broadcast_all
  notified-Calm none h = Calm-refl h
  notified-Calm (some n) h =
      either_Calm n.up h _ _ (Calm-unchanged h _ refl refl refl) (Calm-unchanged h _ refl refl refl)

  -- One more frame is in the list of what was sent.
  pushed-Calm :
      (type : ℕ) (payload : List ℕ) (h h' : Host pl)
      → h'.motion ≡ h.motion
      → h'.radio.sent ≡ (type, payload) ∷ h.radio.sent
      → h'.ota.phase ≡ h.ota.phase
      → is_motion type ≡ false
      → (h.motion.user_disabled ≡ true → is_enable type payload ≡ false)
      → Calm pl h h'
  pushed-Calm type payload h h' m e o a b = record {
    motion_same = m;
    motions_same =
        ap motions e ∙ ap (λ t. (if t then 1 else 0) + motions h.radio.sent) a ∙ omega arith;
    enables_same = λ d.
        ap enables e ∙ ap (λ t. (if t then 1 else 0) + enables h.radio.sent) (b d) ∙ omega arith;
    busy_before = λ x. sym (ap ota_busy o) ∙ x;
  }

  pub either_second :
      {A : Type 0} (b : Bool) (h : Host pl) (x y : A × Host pl)
      → Calm pl h x.1
      → Calm pl h y.1
      → Calm pl h (if b then x else y).1
  either_second true h x y p q = p
  either_second false h x y p q = q

  -- A frame that is no speed command, and while disabled no CMD_EN 1.
  pub send_frame_to_board-Calm :
      (type : ℕ) (payload : List ℕ) (h : Host pl)
      → is_motion type ≡ false
      → (h.motion.user_disabled ≡ true → is_enable type payload ≡ false)
      → Calm pl h (send_frame_to_board pl type payload h).1
  unfolding send_frame_to_board
  send_frame_to_board-Calm type payload h a b =
      either_second h.radio.port.is_open h _ _
        (Calm-trans h _ _ (pushed-Calm type payload h _ refl refl refl a b)
          (Calm-trans _ _ _ (notified-Calm _ _) (Calm-unchanged _ _ refl refl refl)))
        (Calm-refl h)

  pub ota_send_progress-Calm : (m : Msg pl) (h : Host pl) → Calm pl h (ota_send_progress pl m h)
  unfolding ota_send_progress
  ota_send_progress-Calm m h = progress_to h.ota.ota_conn
    where
      progress_to :
          (o : Option ℕ)
          → Calm pl h (elim o [
            | none ↦ h
            | some c ↦ if pl.connected c h.radio.world then send_to pl c m h else h
          ])
      progress_to none = Calm-refl h
      progress_to (some c) =
          either_Calm (pl.connected c h.radio.world) h _ _ (send_to-Calm c m h) (Calm-refl h)

  pub ota_finish-Calm : (m : Msg pl) (h : Host pl) → Calm pl h (ota_finish pl m h)
  unfolding ota_finish
  ota_finish-Calm m h =
      let told = ota_send_progress-Calm m h in
      let all = Calm-trans h _ _ told (broadcast_all-Calm (ota_state_is "done") _) in
      record {
        motion_same = all.motion_same;
        motions_same = all.motions_same;
        enables_same = all.enables_same;
        busy_before = λ x. impossible x;
      }

  -- The CMD_EN that answers READY follows the sticky flag.
  pub on_comm_state-Calm : (c : CommState) (h : Host pl) → Calm pl h (on_comm_state pl c h)
  unfolding on_comm_state
  on_comm_state-Calm c h =
      either_Calm (is_ready c) h _ _
        (let sent =
            Calm-trans h _ _ (Calm-unchanged h _ refl refl refl)
              (send_frame_to_board-Calm pt_cmd_en _ _ refl (answer-stays h.motion.user_disabled)) in
          either_Calm _ h _ _ (Calm-trans h _ _ sent (ota_finish-Calm _ _)) sent)
        (broadcast_all-Calm _ h)

  pub send_con_frame-Calm : (mt : ConMsgType) (h : Host pl) → Calm pl h (send_con_frame pl mt h).1
  unfolding send_con_frame
  send_con_frame-Calm mt h = send_frame_to_board-Calm pt_con _ h refl (λ _. refl)

  pub callbacks-Kept : Kept (callbacks pl) (Calm pl)
  callbacks-Kept = record {
    refl_of = Calm-refl;
    then_of = Calm-trans;
    send_of = send_con_frame-Calm;
    comm_of = on_comm_state-Calm;
  }

  -- Whatever the frame, it changes neither the speed command nor the phase of an update.
  pub send_frame_to_board-still :
      (type : ℕ) (payload : List ℕ) (h : Host pl)
      → let h' = (send_frame_to_board pl type payload h).1 in
        (h'.motion ≡ h.motion) × (h'.ota.phase ≡ h.ota.phase)
  unfolding send_frame_to_board on_serial_state broadcast_all
  send_frame_to_board-still type payload h = ground arith
