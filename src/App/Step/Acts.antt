-- ===== src/App/Step/Acts.antt =====
-- The commands, by what they keep.
use Prim.Native.String.{String}
use chassis_host.Common.{
  ℕ, ◌≡◌, refl, sym, ◌∙◌, Bool, true, false, not, ◌&&◌, List, [], ◌∷◌, Option, none, some,
  if◌then◌else◌, arith,
}
use chassis_host.Link.ConSm.{ConSm}
use chassis_host.Proto.Command.{pack_cmd_en}
use chassis_host.Proto.Defs.{pt_cmd_stop, pt_cmd_en, pt_cmd_pid, pt_cmd_sign, pt_cmd_ping}
use chassis_host.App.Defs.{
  same, Platform, Msg, text, ota_state_is, Host, HostOptions, mode_none, ota_none, ota_quiescing,
  ota_flashing, ota_recovering, OtaState,
}
use chassis_host.App.Output.{send_to, transmit}
use chassis_host.App.Commands.{
  Parsed, bad_argument, values, send_pid, send_sign, cmd_ping, cmd_enable, enable, disable,
}
use chassis_host.App.Dispatch.{
  Word, w_en, is_loopback, begin_quiescing, flash_refusal, flash_unless, cmd_flash, abort_in,
  abort_with, cmd_flash_abort,
}
use chassis_host.App.Step.Calm.{
  impossible, Calm, Calm-trans, Calm-unchanged, send_to-Calm, broadcast_all-Calm, either_second,
  send_frame_to_board-Calm, ota_finish-Calm,
}
use chassis_host.App.Step.Guarded.{Guarded, Calm→Guarded, then-Calm, sent_and_told, disable-Guarded}

-- `en 1`.
abbrev pub asks_enable : Word → List String → Bool
asks_enable w_en (a ∷ []) = same a "1"
asks_enable _ _ = false

-- A word that an update does not let through comes to its command when none runs.
pub idle_of : (b : Bool) → (b && true) ≡ false → b ≡ false
idle_of b h = ground arith

module _ (pl : Platform) (opts : HostOptions) where
  pub choose :
      (P : Host pl → Type 0) (b : Bool) (x y : ConSm × Host pl)
      → (b ≡ true → P x.1)
      → (b ≡ false → P y.1)
      → P (if b then x else y).1
  choose P true x y p q = p refl
  choose P false x y p q = q refl

  pub told : (s : ConSm) (c : ℕ) (m : Msg pl) (h : Host pl) → Guarded pl h (send_to pl c m h)
  told s c m h = Calm→Guarded pl h _ (send_to-Calm pl c m h)

  pub send_pid-Guarded :
      (o : Option (Parsed pl)) (c : ℕ) (s : ConSm) (h : Host pl)
      → Guarded pl h (send_pid pl o c (s, h)).1
  unfolding send_pid
  send_pid-Guarded none c s h = told s c _ h
  send_pid-Guarded (some (bad_argument a)) c s h = told s c _ h
  send_pid-Guarded (some (values v)) c s h =
      Calm→Guarded pl h _ (sent_and_told pl pt_cmd_pid _ c _ h refl refl)

  pub send_sign-Guarded :
      (o : Option (Parsed pl)) (c : ℕ) (s : ConSm) (h : Host pl)
      → Guarded pl h (send_sign pl o c (s, h)).1
  unfolding send_sign
  send_sign-Guarded none c s h = told s c _ h
  send_sign-Guarded (some (bad_argument a)) c s h = told s c _ h
  send_sign-Guarded (some (values v)) c s h =
      Calm→Guarded pl h _ (sent_and_told pl pt_cmd_sign _ c _ h refl refl)

  pub cmd_ping-Calm : (c : ℕ) (s : ConSm) (h : Host pl) → Calm pl h (cmd_ping pl c (s, h)).1
  unfolding cmd_ping
  cmd_ping-Calm c s h =
      either_second pl {A = ConSm} (not h.radio.port.is_open) h _ _
        (send_to-Calm pl c (text "err ping") h)
        (Calm-trans pl h _ _ (Calm-unchanged pl h _ refl refl refl)
          (send_frame_to_board-Calm pl pt_cmd_ping _ _ refl (λ _. refl)))

  pub cmd_enable-Guarded :
      (args : List String) (c : ℕ) (s : ConSm) (h : Host pl)
      → asks_enable w_en args ≡ false
      → Guarded pl h (cmd_enable pl c args (s, h)).1
  unfolding cmd_enable
  cmd_enable-Guarded [] c s h other = told s c _ h
  cmd_enable-Guarded (a ∷ []) c s h other =
      choose (Guarded pl h) (same a "1") (enable pl c (s, h)) _
        (λ yes. impossible (sym other ∙ yes))
        (λ _.
          choose (Guarded pl h) (same a "0") (disable pl c (s, h)) _ (λ _. disable-Guarded pl c s h)
            (λ _. told s c (text "err usage: en") h))
  cmd_enable-Guarded (a ∷ b ∷ rest) c s h other = told s c _ h

  begin_quiescing-Guarded :
      (c : ℕ) (name : String) (s : ConSm) (h : Host pl)
      → Guarded pl h (begin_quiescing pl opts c name (s, h)).1
  unfolding begin_quiescing pack_cmd_en
  begin_quiescing-Guarded c name s h =
      let h1 : Host pl = record h {
        ota = record h.ota {
          file = name;
          ota_conn = some c;
          stage = "-";
          last_line = "";
          cli_lines = 0;
          phase = ota_quiescing;
          phase_start = h.clock;
        };
        motion = record h.motion { cmd_mode = mode_none; speed_conn = none; user_disabled = true };
      } in
      let h2 = transmit pl pt_cmd_stop [] h1 in
      let h3 = transmit pl pt_cmd_en (pack_cmd_en false) h2 in
      let started : Guarded pl h h1 = (
        record { motions_kept = refl; safe_kept = λ _ _. (refl, refl) },
        record { disabled_kept = λ _. refl; enables_kept = λ _. refl },
      ) in
      then-Calm pl h h1 _ started (
        Calm-trans pl h1 h2 _ (send_frame_to_board-Calm pl pt_cmd_stop [] h1 refl (λ _. refl)) (
          Calm-trans pl h2 h3 _ (send_frame_to_board-Calm pl pt_cmd_en _ h2 refl (λ _. refl)) (
            Calm-trans pl h3 (send_to pl c (text "ok flash") h3) _
              (send_to-Calm pl c (text "ok flash") h3)
              (broadcast_all-Calm pl (ota_state_is "quiescing") _))))

  flash_unless-Guarded :
      (o : Option (Msg pl)) (c : ℕ) (name : String) (s : ConSm) (h : Host pl)
      → Guarded pl h (flash_unless pl opts o c name (s, h)).1
  unfolding flash_unless
  flash_unless-Guarded (some m) c name s h = told s c m h
  flash_unless-Guarded none c name s h = begin_quiescing-Guarded c name s h

  pub cmd_flash-Guarded :
      (args : List String) (c : ℕ) (s : ConSm) (h : Host pl)
      → Guarded pl h (cmd_flash pl opts c args (s, h)).1
  unfolding cmd_flash
  cmd_flash-Guarded [] c s h = told s c _ h
  cmd_flash-Guarded (name ∷ []) c s h =
      flash_unless-Guarded (flash_refusal pl opts c name h) c name s h
  cmd_flash-Guarded (a ∷ b ∷ rest) c s h = told s c _ h

  abort_in-Calm :
      (o : OtaState) (force : Bool) (c : ℕ) (h : Host pl) → Calm pl h (abort_in pl opts o force c h)
  unfolding abort_in
  abort_in-Calm ota_none force c h = send_to-Calm pl c _ h
  abort_in-Calm ota_quiescing force c h = ota_finish-Calm pl _ h
  abort_in-Calm ota_flashing true c h = Calm-unchanged pl h _ refl refl refl
  abort_in-Calm ota_flashing false c h = send_to-Calm pl c _ h
  abort_in-Calm ota_recovering force c h = ota_finish-Calm pl _ h

  abort_with-Calm :
      (args : List String) (c : ℕ) (s : ConSm) (h : Host pl)
      → Calm pl h (abort_with pl opts args c (s, h)).1
  unfolding abort_with
  abort_with-Calm [] c s h = abort_in-Calm h.ota.phase false c h
  abort_with-Calm (a ∷ []) c s h =
      either_second pl {A = ConSm} (same a "force") h _ _ (abort_in-Calm h.ota.phase true c h)
        (send_to-Calm pl c (text "err usage: flash_abort") h)
  abort_with-Calm (a ∷ b ∷ rest) c s h = send_to-Calm pl c _ h

  pub cmd_flash_abort-Calm :
      (args : List String) (c : ℕ) (s : ConSm) (h : Host pl)
      → Calm pl h (cmd_flash_abort pl opts c args (s, h)).1
  unfolding cmd_flash_abort
  cmd_flash_abort-Calm args c s h =
      either_second pl {A = ConSm} (not (is_loopback pl opts c h)) h _ _
        (send_to-Calm pl c (text "err flash_abort: loopback only") h) (abort_with-Calm args c s h)
