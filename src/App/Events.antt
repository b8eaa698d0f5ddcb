-- ===== src/App/Events.antt =====
-- The events of the host's loop (app/ChassisHost.cc): connections and frames of the
-- board. Every handler reads the clock once. What stands on text is left out: the lines of
-- `onMessage` come as tokens.
use chassis_host.Common.{
  ℕ, Bool, true, false, not, ◌&&◌, List, [], ◌∷◌, Option, none, some, if◌then◌else◌, ltb, ◌==◌,
}
use chassis_host.Link.ConSm.{ConSm, is_ready}
use chassis_host.Link.ConSm.Api.{on_frame}
use chassis_host.Proto.Command.{unpack_con, pack_cmd_en, parse_ping}
use chassis_host.Proto.Defs.{
  ConMsgType, enable_request, enable_response, disable_request, disable_response, ping_request,
  ping_response, con_sender_host, pt_enc_data, pt_imu_data, pt_telemetry, pt_odom_data, pt_status,
  pt_con, pt_cmd_ping, pt_cmd_stop, pt_cmd_en,
}
use chassis_host.Proto.Frame.{Frame}
use chassis_host.Proto.Parser.{FrameParser, feed}
use chassis_host.Proto.Telemetry.{parse_enc, parse_imu, parse_telemetry, parse_odom, parse_status}
use chassis_host.App.Defs.{
  elapsed, insert, erase, holds, Platform, text, con_state, pong, Host, mode_none, OtaState,
  ota_quiescing, HostOptions,
}
use chassis_host.App.Output.{send_to, transmit, callbacks}
use chassis_host.App.Ota.{ota_begin_flasher}

abbrev pub is_quiescing : OtaState → Bool
is_quiescing ota_quiescing = true
is_quiescing _ = false

-- `static_cast<ConMsgType>` of a byte that `unpackCon` accepts.
abbrev pub con_msg_type : ℕ → ConMsgType
con_msg_type n =
    if n == 0
    then enable_request
    else if n == 1
    then enable_response
    else if n == 2
    then disable_request
    else if n == 3
    then disable_response
    else if n == 4
    then ping_request
    else ping_response

module _ (pl : Platform) (opts : HostOptions) where
  -- The client whose speed command is repeated has gone: STOP, and no repeated speed.
  unfoldable pub stop_for : ℕ → Host pl → Host pl
  stop_for c h =
      if holds h.motion.speed_conn c
      then transmit pl pt_cmd_stop []
          (record h { motion = record h.motion { cmd_mode = mode_none; speed_conn = none } })
      else h

  -- `pingConn_.reset()` and `otaConn_.reset()`, where they are the client that has gone.
  unfoldable pub forget : ℕ → Host pl → Host pl
  forget c h = record h {
    ping = record h.ping {
      ping_conn = if holds h.ping.ping_conn c then none else h.ping.ping_conn;
    };
    ota = record h.ota { ota_conn = if holds h.ota.ota_conn c then none else h.ota.ota_conn };
  }

  unfoldable pub on_connection : ℕ → Bool → ConSm × Host pl → ConSm × Host pl
  unfolding stop_for forget
  on_connection c true (s, h) =
      let h1 = record h { tcp = record h.tcp { conns = insert c h.tcp.conns } } in
      (s, send_to pl c (con_state s.comm) (send_to pl c (text "greeting") h1))
  on_connection c false (s, h) =
      let h1 = record h {
        tcp = record h.tcp { conns = erase c h.tcp.conns; watchers = erase c h.tcp.watchers };
      } in
      (s, forget c (stop_for c h1))

  -- The first half for a STATUS that was parsed: CMD_EN again for a board that started anew.
  abbrev pub en_lost : ConSm → Host pl → Bool
  en_lost s h =
      is_ready s.comm
      && (h.cache.status_data.en == 0)
      && ltb opts.en_resend_ms (elapsed h.clock h.watch.last_en_sent)

  unfoldable pub resend_en : ConSm → Host pl → Host pl
  resend_en s h =
      if not h.motion.user_disabled && en_lost s h
      then transmit pl pt_cmd_en (pack_cmd_en true)
          (record h { watch = record h.watch { last_en_sent = h.clock } })
      else h

  -- The second half: the update goes on once the board says that it has stopped.
  unfoldable pub on_status : ConSm × Host pl → ConSm × Host pl
  unfolding resend_en
  on_status (s, h) =
      let h1 = resend_en s h in
      if is_quiescing h1.ota.phase && (h1.cache.status_data.en == 0)
      then ota_begin_flasher pl opts (s, h1)
      else (s, h1)

  unfoldable pub on_con : Frame → ConSm × Host pl → ConSm × Host pl
  on_con f (s, h) =
      let (ok, c) = unpack_con f (record { sender = 0; msg_type = 0 }) in
      if not ok
      then (s, h)
      else if c.sender == con_sender_host
      then (s, h)
      else on_frame (callbacks pl) (con_msg_type c.msg_type) h.clock (s, h)

  unfoldable pub answer_ping : Option ℕ → Bool → Host pl → Host pl
  answer_ping (some c) true h =
      let h1 = send_to pl c (pong (elapsed h.clock h.ping.last_ping_sent)) h in
      record h1 { ping = record h1.ping { ping_conn = none } }
  answer_ping _ _ h = h

  unfoldable pub on_ping : Frame → Host pl → Host pl
  unfolding answer_ping
  on_ping f h =
      let (ok, t) = parse_ping f 0 in
      answer_ping h.ping.ping_conn (ok && (t == h.ping.last_ping_id)) h

  unfoldable pub on_status_frame : Frame → ConSm × Host pl → ConSm × Host pl
  unfolding on_status
  on_status_frame f (s, h) =
      let (ok, d) = parse_status f h.cache.status_data in
      let h1 = record h { cache = record h.cache { status_data = d } } in
      if ok then on_status (s, h1) else (s, h1)

  -- `lastFrameMs_ = steadyMs(); rxSilenceWarned_ = false;`.
  abbrev pub seen : Host pl → Host pl
  seen h = record h { watch = record h.watch { last_frame = h.clock; silence_warned = false } }

  -- `onFrame`.
  unfoldable pub on_board_frame : Frame → ConSm × Host pl → ConSm × Host pl
  unfolding on_status_frame on_con on_ping
  on_board_frame f (s, h0) =
      let h = seen h0 in
      if f.type == pt_enc_data
      then (let (ok, d) = parse_enc pl.fl f h.cache.enc_data in
          (s, record h { cache = record h.cache { have_enc = ok; enc_data = d } }))
      else if f.type == pt_imu_data
      then (let (ok, d) = parse_imu pl.fl f h.cache.imu_data in
          (s, record h { cache = record h.cache { have_imu = ok; imu_data = d } }))
      else if f.type == pt_telemetry
      then (let (ok, d) = parse_telemetry pl.fl f h.cache.telem_data in
          (s, record h { cache = record h.cache { have_telem = ok; telem_data = d } }))
      else if f.type == pt_odom_data
      then (let (ok, d) = parse_odom pl.fl f h.cache.odom_data in
          (s, record h { cache = record h.cache { have_odom = ok; odom_data = d } }))
      else if f.type == pt_status
      then on_status_frame f (s, h)
      else if f.type == pt_con
      then on_con f (s, h)
      else if f.type == pt_cmd_ping
      then (s, on_ping f h)
      else (s, h)

  unfoldable pub on_board_frames : List Frame → ConSm × Host pl → ConSm × Host pl
  unfolding on_board_frame
  on_board_frames [] x = x
  on_board_frames (f ∷ fs) x = on_board_frames fs (on_board_frame f x)

  -- The parser never runs out of fuel, so `none` does not arise.
  unfoldable pub deliver : Option (FrameParser × List Frame) → ConSm × Host pl → ConSm × Host pl
  unfolding on_board_frames
  deliver none x = x
  deliver (some (p, fs)) (s, h) = on_board_frames fs (s, record h { parser = p })

  unfoldable pub on_serial_data : List ℕ → ConSm × Host pl → ConSm × Host pl
  unfolding deliver
  on_serial_data bytes (s, h) = deliver (feed h.parser bytes) (s, h)
