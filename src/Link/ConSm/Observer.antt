-- ===== src/Link/ConSm/Observer.antt =====
-- What the callback tells: a relation between the reported state and the environment that each
-- report restores and no sending breaks holds after every operation.
use chassis_host.Common.{ℕ, arith, List, [], ◌∷◌}
use chassis_host.Proto.Defs.{ConMsgType}
use chassis_host.Link.ConSm.{
  ev_disable, ev_enable_request, ev_accept, ev_disable_request, ev_reject, CommState, not_ready,
  Callbacks, ConSm, Event, ev_enable, process, schedule_ping_std, ping_armed,
}
use chassis_host.Link.ConSm.Api.{connect, disconnect, reset, on_frame, tick_rsp, tick_ping, tick}
use chassis_host.Link.ConSm.Ops.{
  Op, op_connect, op_disconnect, op_tick, op_frame, op_reset, step, steps,
}

module _ {E : Type 0} (cb : Callbacks E) (R : CommState → E → Type 0)
    (send_keeps : (c : CommState) (msg : ConMsgType) (e : E) → R c e → R c (cb.send_fn msg e).1)
    (report_sets : (c : CommState) (e : E) → R c (cb.comm_cb c e)) where
  process-R :
      (ev : Event) (now : ℕ) (s : ConSm) (e : E)
      → R s.comm e
      → let x = process cb ev now (s, e) in R x.0.comm x.1
  unfolding process
  process-R ev_enable now s e r = grind (arith, send_keeps, report_sets)
  process-R _ now s e r = grind (arith, send_keeps, report_sets)

  abbrev Told : ConSm × E → Type 0
  Told x = R x.0.comm x.1

  connect-R : (now : ℕ) (s : ConSm) (e : E) → R s.comm e → Told (connect cb now (s, e)).1
  unfolding connect
  connect-R now s e r = ground (arith, process-R ev_enable now s e)

  disconnect-R : (now : ℕ) (s : ConSm) (e : E) → R s.comm e → Told (disconnect cb now (s, e)).1
  unfolding disconnect
  disconnect-R now s e r = ground (arith, process-R ev_disable now (record s { ping_rep = 0 }) e)

  reset-R : (s : ConSm) (e : E) → R s.comm e → Told (reset cb (s, e))
  unfolding reset
  reset-R s e r = ground (arith, report_sets not_ready e)

  on_frame-R :
      (msg : ConMsgType) (now : ℕ) (s : ConSm) (e : E)
      → R s.comm e
      → Told (on_frame cb msg now (s, e))
  unfolding on_frame schedule_ping_std ping_armed
  on_frame-R msg now s e r = ground (
    arith,
    process-R ev_enable_request now s e,
    process-R ev_accept now s e,
    process-R ev_disable_request now s e,
    process-R ev_reject now s e,
  )

  tick_rsp-R : (now : ℕ) (s : ConSm) (e : E) → R s.comm e → Told (tick_rsp cb now (s, e))
  unfolding tick_rsp
  tick_rsp-R now s e r = grind (arith, process-R, send_keeps)

  tick_ping-R : (now : ℕ) (s : ConSm) (e : E) → R s.comm e → Told (tick_ping cb now (s, e))
  unfolding tick_ping ping_armed
  tick_ping-R now s e r = grind (arith, process-R, send_keeps)

  step-R : (op : Op) (x : ConSm × E) → Told x → Told (step cb op x)
  unfolding step tick
  step-R (op_connect now) (s, e) r = connect-R now s e r
  step-R (op_disconnect now) (s, e) r = disconnect-R now s e r
  step-R (op_tick now) (s, e) r =
      let (s', e') = tick_rsp cb now (s, e) in tick_ping-R now s' e' (tick_rsp-R now s e r)
  step-R (op_frame msg now) (s, e) r = on_frame-R msg now s e r
  step-R op_reset (s, e) r = reset-R s e r

  -- An environment that every report brings into step with the reported state, and that sending
  -- does not bring out of step, is in step with the machine's present communication state after any
  -- sequence of operations, if it was before. A change that is overwritten within one operation may
  -- go unreported.
  pub steps-in_step :
      (ops : List Op) (x : ConSm × E)
      → R x.0.comm x.1
      → R (steps cb ops x).0.comm (steps cb ops x).1
  unfolding steps
  steps-in_step [] x r = r
  steps-in_step (op ∷ ops) x r = steps-in_step ops (step cb op x) (step-R op x r)
