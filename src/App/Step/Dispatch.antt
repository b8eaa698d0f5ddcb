-- ===== src/App/Step/Dispatch.antt =====
-- `handleCommand` and the connections, by what they keep.
use Prim.Native.String.{String}
use chassis_host.Common.{
  ℕ, ◌≡◌, refl, Bool, true, false, not, ◌&&◌, List, [], ◌∷◌, none, if◌then◌else◌,
}
use chassis_host.Link.ConSm.{ConSm}
use chassis_host.Proto.Defs.{pt_cmd_stop}
use chassis_host.App.Defs.{same, holds, erase, Platform, text, busy, Host, HostOptions, mode_none}
use chassis_host.App.Output.{send_to}
use chassis_host.App.Commands.{
  cmd_pid, cmd_sign, cmd_watch, cmd_con, cmd_twist, cmd_rpm, cmd_enable, enable, disable,
}
use chassis_host.App.Dispatch.{
  Word, w_v, w_rpm, w_stop, w_en, w_pid, w_sign, w_ping, w_watch, w_stat, w_con, w_flash,
  w_flash_status, w_flash_abort, w_help, w_quit, w_unknown, word_of, always_allowed, ota_busy,
  cmd_flash_status, run, handle_command,
}
use chassis_host.App.Events.{stop_for, forget, on_connection}
use chassis_host.App.Step.Calm.{Calm-refl, Calm-unchanged, send_frame_to_board-Calm}
use chassis_host.App.Step.Guarded.{
  Modest, Guarded, Guarded-trans, Calm→Guarded, set_motion-Guarded, then-Calm, set_twist-Guarded,
  set_rpm-Guarded, cmd_stop-Guarded, disable-Guarded, enable-Modest,
}
use chassis_host.App.Step.Acts.{
  asks_enable, idle_of, choose, told, send_pid-Guarded, send_sign-Guarded, cmd_ping-Calm,
  cmd_enable-Guarded, cmd_flash-Guarded, cmd_flash_abort-Calm,
}

module _ (pl : Platform) (opts : HostOptions) where
  run-Guarded :
      (w : Word) (cmd : String) (args : List String) (c : ℕ) (s : ConSm) (h : Host pl)
      → (ota_busy h.ota.phase && not (always_allowed w)) ≡ false
      → asks_enable w args ≡ false
      → Guarded pl h (run pl opts w cmd c args (s, h)).1
  unfolding run cmd_twist cmd_rpm cmd_pid cmd_sign cmd_watch cmd_con cmd_flash_status
  run-Guarded w_v cmd args c s h g other = set_twist-Guarded pl _ c s h (idle_of _ g)
  run-Guarded w_rpm cmd args c s h g other = set_rpm-Guarded pl _ c s h (idle_of _ g)
  run-Guarded w_stop cmd args c s h g other = cmd_stop-Guarded pl c s h
  run-Guarded w_en cmd args c s h g other = cmd_enable-Guarded pl opts args c s h other
  run-Guarded w_pid cmd args c s h g other = send_pid-Guarded pl opts _ c s h
  run-Guarded w_sign cmd args c s h g other = send_sign-Guarded pl opts _ c s h
  run-Guarded w_ping cmd args c s h g other = Calm→Guarded pl h _ (cmd_ping-Calm pl opts c s h)
  run-Guarded w_watch cmd args c s h g other =
      Calm→Guarded pl h _ (Calm-unchanged pl h _ refl refl refl)
  run-Guarded w_stat cmd args c s h g other = told pl opts s c _ h
  run-Guarded w_con cmd args c s h g other = told pl opts s c _ h
  run-Guarded w_flash cmd args c s h g other = cmd_flash-Guarded pl opts args c s h
  run-Guarded w_flash_status cmd args c s h g other = told pl opts s c _ h
  run-Guarded w_flash_abort cmd args c s h g other =
      Calm→Guarded pl h _ (cmd_flash_abort-Calm pl opts args c s h)
  run-Guarded w_help cmd args c s h g other = told pl opts s c _ h
  run-Guarded w_quit cmd args c s h g other = Calm→Guarded pl h _ (Calm-refl pl h)
  run-Guarded w_unknown cmd args c s h g other = told pl opts s c _ h

  pub handle_command-Guarded :
      (cmd : String) (args : List String) (c : ℕ) (s : ConSm) (h : Host pl)
      → asks_enable (word_of cmd) args ≡ false
      → Guarded pl h (handle_command pl opts c (cmd ∷ args) (s, h)).1
  unfolding handle_command
  handle_command-Guarded cmd args c s h other =
      let w = word_of cmd in
      choose pl opts (Guarded pl h) (ota_busy h.ota.phase && not (always_allowed w))
        (s, send_to pl c (busy h.ota.phase) h) (run pl opts w cmd c args (s, h))
        (λ _. told pl opts s c (busy h.ota.phase) h) (λ g. run-Guarded w cmd args c s h g other)

  -- `en 1` too is modest: the gate keeps it from an update.
  run_en-Modest :
      (args : List String) (c : ℕ) (s : ConSm) (h : Host pl)
      → ota_busy h.ota.phase ≡ false
      → Modest pl h (cmd_enable pl c args (s, h)).1
  unfolding cmd_enable
  run_en-Modest [] c s h idle = (told pl opts s c _ h).0
  run_en-Modest (a ∷ []) c s h idle =
      choose pl opts (Modest pl h) (same a "1") (enable pl c (s, h)) _
        (λ _. enable-Modest pl c s h idle)
        (λ _.
          choose pl opts (Modest pl h) (same a "0") (disable pl c (s, h)) _
            (λ _. (disable-Guarded pl c s h).0)
            (λ _. (told pl opts s c (text "err usage: en") h).0))
  run_en-Modest (a ∷ b ∷ rest) c s h idle = (told pl opts s c _ h).0

  run-Modest :
      (w : Word) (cmd : String) (args : List String) (c : ℕ) (s : ConSm) (h : Host pl)
      → (ota_busy h.ota.phase && not (always_allowed w)) ≡ false
      → Modest pl h (run pl opts w cmd c args (s, h)).1
  unfolding run
  run-Modest w_en cmd args c s h g = run_en-Modest args c s h (idle_of _ g)
  run-Modest w cmd args c s h g = (run-Guarded w cmd args c s h g refl).0

  pub handle_command-Modest :
      (cmd : String) (args : List String) (c : ℕ) (s : ConSm) (h : Host pl)
      → Modest pl h (handle_command pl opts c (cmd ∷ args) (s, h)).1
  unfolding handle_command
  handle_command-Modest cmd args c s h =
      let w = word_of cmd in
      choose pl opts (Modest pl h) (ota_busy h.ota.phase && not (always_allowed w))
        (s, send_to pl c (busy h.ota.phase) h) (run pl opts w cmd c args (s, h))
        (λ _. (told pl opts s c (busy h.ota.phase) h).0) (λ g. run-Modest w cmd args c s h g)

  stop_for-Guarded : (c : ℕ) (h : Host pl) → Guarded pl h (stop_for pl opts c h)
  unfolding stop_for
  stop_for-Guarded c h =
      let h1 : Host pl = record h {
        motion = record h.motion { cmd_mode = mode_none; speed_conn = none };
      } in
      choose_host (holds h.motion.speed_conn c)
        (then-Calm pl h h1 _ (set_motion-Guarded pl h h1 refl refl (λ d. d) (λ _ _. refl))
          (send_frame_to_board-Calm pl pt_cmd_stop [] h1 refl (λ _. refl)))
        (Calm→Guarded pl h h (Calm-refl pl h))
    where
      choose_host :
          (b : Bool) {x y : Host pl}
          → Guarded pl h x
          → Guarded pl h y
          → Guarded pl h (if b then x else y)
      choose_host true p q = p
      choose_host false p q = q

  pub on_connection-Guarded :
      (c : ℕ) (up : Bool) (s : ConSm) (h : Host pl)
      → Guarded pl h (on_connection pl opts c up (s, h)).1
  unfolding on_connection forget
  on_connection-Guarded c true s h = Calm→Guarded pl h _ (Calm-unchanged pl h _ refl refl refl)
  on_connection-Guarded c false s h =
      let h1 : Host pl = record h {
        tcp = record h.tcp { conns = erase c h.tcp.conns; watchers = erase c h.tcp.watchers };
      } in
      let h2 = stop_for pl opts c h1 in
      Guarded-trans pl h h2 _
        (Guarded-trans pl h h1 h2 (Calm→Guarded pl h h1 (Calm-unchanged pl h h1 refl refl refl))
          (stop_for-Guarded c h1))
        (Calm→Guarded pl h2 _ (Calm-unchanged pl h2 _ refl refl refl))
