-- ===== src/Link/ConSm/Api.antt =====
-- The public operations of `ConSm`: what the application and the timer call.
use chassis_host.Common.{ℕ, ◌+◌, Bool, true, false, ◌&&◌, ltb, leb, if◌then◌else◌, u64}
use chassis_host.Common.Int.{ℤ, pos, negsuc}
use chassis_host.Proto.Defs.{
  ConMsgType, enable_request, enable_response, disable_request, disable_response, ping_request,
  ping_response,
}
use chassis_host.Link.ConSm.{
  State, disconnected, connecting, connected, disconnecting, not_ready, Callbacks, ConSm, ev_enable,
  ev_enable_request, ev_disable, ev_disable_request, ev_accept, ev_reject, is_ready, ping_armed,
  schedule_ping_std, process, con_rsp_timeout, repeat_ping_time, con_retry_max, max_ping_repeat,
}

-- `state_ == ST_CONNECTING || state_ == ST_DISCONNECTING`.
abbrev pub in_handshake : State → Bool
in_handshake connecting = true
in_handshake disconnecting = true
in_handshake _ = false

-- `0 < deadline && deadline <= nowMs`.
abbrev pub expired : ℕ → ℕ → Bool
expired deadline now = ltb 0 deadline && leb deadline now

module _ {E : Type 0} (cb : Callbacks E) where
  open cb use {send_fn, comm_cb}

  unfoldable pub connect_from : State → ℕ → ConSm × E → ℤ × (ConSm × E)
  connect_from connected now x = (pos 0, x)
  connect_from connecting now x = (negsuc 0, x)
  connect_from _ now x = (pos 0, process cb ev_enable now x)

  unfoldable pub connect : ℕ → ConSm × E → ℤ × (ConSm × E)
  unfolding connect_from
  connect now (s, e) = connect_from s.state now (s, e)

  unfoldable pub disconnect_from : State → ℕ → ConSm → E → ℤ × (ConSm × E)
  disconnect_from connected now s e =
      (pos 0, process cb ev_disable now (record s { ping_rep = 0 }, e))
  disconnect_from disconnected now s e = (pos 0, (s, e))
  disconnect_from _ now s e = (negsuc 0, (s, e))

  unfoldable pub disconnect : ℕ → ConSm × E → ℤ × (ConSm × E)
  unfolding disconnect_from
  disconnect now (s, e) = disconnect_from s.state now s e

  unfoldable pub reset : ConSm × E → ConSm × E
  reset (s, e) =
      let s' = record s {
        state = disconnected;
        rsp_deadline = 0;
        ping_deadline = 0;
        ping_rep = 0;
        req_rep = 0;
      } in
      if is_ready s.comm then (record s' { comm = not_ready }, comm_cb not_ready e) else (s', e)

  unfoldable pub on_frame : ConMsgType → ℕ → ConSm × E → ConSm × E
  on_frame enable_request now x = process cb ev_enable_request now x
  on_frame enable_response now x = process cb ev_accept now x
  on_frame disable_request now x = process cb ev_disable_request now x
  on_frame disable_response now x = process cb ev_reject now x
  on_frame ping_request now x = x
  on_frame ping_response now (s, e) = (schedule_ping_std now s, e)

  -- The first half of `tick`: no answer to a handshake in time.
  unfoldable pub tick_rsp : ℕ → ConSm × E → ConSm × E
  tick_rsp now (s, e) =
      if expired s.rsp_deadline now
      then (let s0 = record s { rsp_deadline = 0 } in
          if ltb s.req_rep con_retry_max && in_handshake s.state
          then (let s1 = record s0 { req_rep = s.req_rep + 1 } in
              let (ok, e') = send_fn s1.cur_req e in
              if ok
              then (record s1 { rsp_deadline = u64 (now + con_rsp_timeout) }, e')
              else process cb ev_reject now (s1, e'))
          else process cb ev_reject now (s0, e))
      else (s, e)

  -- The second half: no answer to a PING in time.
  unfoldable pub tick_ping : ℕ → ConSm × E → ConSm × E
  tick_ping now (s, e) =
      if expired s.ping_deadline now
      then (let s0 = record s { ping_deadline = 0 } in
          if leb s.ping_rep max_ping_repeat
          then (let s1 = record s0 { ping_rep = s.ping_rep + 1 } in
              if is_ready s.comm
              then (let (ok, e') = send_fn ping_request e in
                  if ok
                  then (if ping_armed s1
                      then (record s1 { ping_deadline = u64 (now + repeat_ping_time) }, e')
                      else (s1, e'))
                  else process cb ev_reject now (s1, e'))
              else (s1, e))
          else process cb ev_reject now (s0, e))
      else (s, e)

  unfoldable pub tick : ℕ → ConSm × E → ConSm × E
  tick now x = tick_ping now (tick_rsp now x)
