-- ===== src/App/Output.antt =====
-- What the host does to the outside (app/ChassisHost.cc): the sends to clients, `sendFrameToBoard`,
-- `otaFinish`, and the two callbacks that `conSm_` is given.
use mathlib.Core.Option
use chassis_host.Common.{
  ℕ, ◌+◌, Bool, true, false, List, [], ◌∷◌, Option, none, some, if◌then◌else◌, u64,
}
use chassis_host.Link.ConSm.{CommState, is_ready, Callbacks}
use chassis_host.Proto.Command.{pack_con, pack_cmd_en}
use chassis_host.Proto.Defs.{ConMsgType, con_code, con_sender_host, pt_con, pt_cmd_en}
use chassis_host.Proto.Frame.{pack_frame}
use chassis_host.Serial.{Notice, send}
use chassis_host.App.Defs.{
  Platform, Msg, text, con_state, serial_state, ota_state_is, Host, OtaState, ota_none,
  ota_recovering,
}

module _ (pl : Platform) where
  -- `conn->send`.
  abbrev pub send_to : ℕ → Msg pl → Host pl → Host pl
  send_to c m h = record h { tcp = record h.tcp { out = (c, m) ∷ h.tcp.out } }

  -- The loops of `broadcastAll` and `sendToWatchers`.
  pub each : List ℕ → Msg pl → List (ℕ × Msg pl) → List (ℕ × Msg pl)
  each [] m out = out
  each (c ∷ cs) m out = each cs m ((c, m) ∷ out)

  unfoldable pub broadcast_all : Msg pl → Host pl → Host pl
  broadcast_all m h = record h { tcp = record h.tcp { out = each h.tcp.conns m h.tcp.out } }

  unfoldable pub send_to_watchers : Msg pl → Host pl → Host pl
  send_to_watchers m h = record h { tcp = record h.tcp { out = each h.tcp.watchers m h.tcp.out } }

  unfoldable pub on_serial_state : Notice → Host pl → Host pl
  on_serial_state n h =
      let h' = broadcast_all (serial_state n.up n.reason) h in
      if n.up then record h' { watch = record h'.watch { last_retry = 0 } } else h'

  -- `stateCb_`, called or not.
  abbrev pub notified : Option Notice → Host pl → Host pl
  notified none h = h
  notified (some n) h = on_serial_state n h

  unfoldable pub send_frame_to_board : ℕ → List ℕ → Host pl → Bool × Host pl
  unfolding on_serial_state
  send_frame_to_board type payload h =
      if h.radio.port.is_open
      then (let (frame, seq) = pack_frame type payload (some h.radio.tx_seq) in
          let (note, (port, world)) = send pl.os frame (h.radio.port, h.radio.world) in
          let h' = notified note (record h {
            radio = record h.radio {
              port = port;
              world = world;
              tx_seq = Option.get_or seq 0;
              sent = (type, payload) ∷ h.radio.sent;
            };
          }) in
          (
            true,
            record h' { radio = record h'.radio { tx_frames = u64 (h'.radio.tx_frames + 1) } },
          ))
      else (false, h)

  -- `sendFrameToBoard` where the answer is not looked at.
  abbrev pub transmit : ℕ → List ℕ → Host pl → Host pl
  transmit type payload h = (send_frame_to_board type payload h).1

  unfoldable pub send_con_frame : ConMsgType → Host pl → Bool × Host pl
  send_con_frame mt h = send_frame_to_board pt_con (pack_con (con_code mt) con_sender_host) h

  -- To the client that began the update, if it is still there.
  unfoldable pub ota_send_progress : Msg pl → Host pl → Host pl
  ota_send_progress m h = elim h.ota.ota_conn [
    | none ↦ h
    | some c ↦ if pl.connected c h.radio.world then send_to c m h else h
  ]

  unfoldable pub ota_finish : Msg pl → Host pl → Host pl
  unfolding ota_send_progress broadcast_all
  ota_finish result h =
      let h' = broadcast_all (ota_state_is "done") (ota_send_progress result h) in
      record h' {
        ota = record h'.ota { phase = ota_none; ota_conn = none; stage = "-"; last_line = "" };
      }

  abbrev pub is_recovering : OtaState → Bool
  is_recovering ota_recovering = true
  is_recovering _ = false

  -- On READY: CMD_EN, by the sticky flag, and the end of an update that waited for the link.
  unfoldable pub on_comm_state : CommState → Host pl → Host pl
  unfolding broadcast_all ota_finish
  on_comm_state comm h =
      let h1 = broadcast_all (con_state comm) h in
      if is_ready comm
      then (let h2 = record h1 { watch = record h1.watch { last_en_sent = h1.clock } } in
          let h3 =
            transmit pt_cmd_en (pack_cmd_en (if h2.motion.user_disabled then false else true)) h2 in
          if is_recovering h3.ota.phase then ota_finish (text "ok flash complete") h3 else h3)
      else h1

  abbrev pub callbacks : Callbacks (Host pl)
  callbacks = record { send_fn = send_con_frame; comm_cb = on_comm_state }
