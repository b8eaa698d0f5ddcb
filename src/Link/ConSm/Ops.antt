-- ===== src/Link/ConSm/Ops.antt =====
-- Every operation of the machine, one after the other: what holds after any sequence of them.
use chassis_host.Common.{ℕ, ◌≡◌, arith, List, [], ◌∷◌, All}
use chassis_host.Proto.Defs.{ConMsgType}
use chassis_host.Link.ConSm.{
  connected, Callbacks, ConSm, Event, ev_enable, ev_enable_request, ev_disable, ev_disable_request,
  ev_accept, ev_reject, process, new_con_sm, ping_armed, schedule_ping_std,
}
use chassis_host.Link.ConSm.Api.{connect, disconnect, reset, on_frame, tick_rsp, tick_ping, tick}
use chassis_host.Link.ConSm.Process.{WellFormed, Armed, IsClock, process-WellFormed, process-Armed}

-- What the application, the serial port and the timer may do, with the clock's reading.
pub data Op : Type 0 where
  op_connect op_disconnect op_tick : ℕ → Op
  op_frame : ConMsgType → ℕ → Op
  op_reset : Op

abbrev pub AtClock : Op → Type 0
AtClock (op_connect now) = IsClock now
AtClock (op_disconnect now) = IsClock now
AtClock (op_tick now) = IsClock now
AtClock (op_frame msg now) = IsClock now
AtClock op_reset = Unit {0}

module _ {E : Type 0} (cb : Callbacks E) where
  unfoldable pub step : Op → ConSm × E → ConSm × E
  step (op_connect now) x = (connect cb now x).1
  step (op_disconnect now) x = (disconnect cb now x).1
  step (op_tick now) x = tick cb now x
  step (op_frame msg now) x = on_frame cb msg now x
  step op_reset x = reset cb x

  unfoldable pub steps : List Op → ConSm × E → ConSm × E
  steps [] x = x
  steps (op ∷ ops) x = steps ops (step op x)

  -- What is kept: the invariant and the timers.
  abbrev pub Kept : ConSm × E → Type 0
  Kept x = WellFormed x.0 × Armed x.0

  process-Kept :
      (ev : Event) (now : ℕ) (s : ConSm) (e : E)
      → IsClock now
      → (ev ≡ ev_disable → s.state ≡ connected)
      → WellFormed s
      → Armed s
      → Kept (process cb ev now (s, e))
  process-Kept ev now s e c only w a =
      (process-WellFormed cb ev now s e only w, process-Armed cb ev now s e c a)

  connect-Kept :
      (now : ℕ) (s : ConSm) (e : E)
      → IsClock now
      → WellFormed s
      → Armed s
      → Kept (connect cb now (s, e)).1
  unfolding connect
  connect-Kept now s e c w a = ground (arith, process-Kept ev_enable now s e c)

  disconnect-Kept :
      (now : ℕ) (s : ConSm) (e : E)
      → IsClock now
      → WellFormed s
      → Armed s
      → Kept (disconnect cb now (s, e)).1
  unfolding disconnect
  disconnect-Kept now s e c w a =
      ground (arith, process-Kept ev_disable now (record s { ping_rep = 0 }) e c)

  reset-Kept : (s : ConSm) (e : E) → WellFormed s → Armed s → Kept (reset cb (s, e))
  unfolding reset
  reset-Kept s e w a = ground arith

  on_frame-Kept :
      (msg : ConMsgType) (now : ℕ) (s : ConSm) (e : E)
      → IsClock now
      → WellFormed s
      → Armed s
      → Kept (on_frame cb msg now (s, e))
  unfolding on_frame schedule_ping_std ping_armed
  on_frame-Kept msg now s e c w a = ground (
    arith,
    process-Kept ev_enable_request now s e c,
    process-Kept ev_accept now s e c,
    process-Kept ev_disable_request now s e c,
    process-Kept ev_reject now s e c,
  )

  -- A handshake that times out: its request once more, or an end by EV_REJECT.
  pub tick_rsp-Kept :
      (now : ℕ) (s : ConSm) (e : E)
      → IsClock now
      → WellFormed s
      → Armed s
      → Kept (tick_rsp cb now (s, e))
  unfolding tick_rsp process
  tick_rsp-Kept now s e c w a = ground arith

  tick_ping-Kept :
      (now : ℕ) (s : ConSm) (e : E)
      → IsClock now
      → WellFormed s
      → Armed s
      → Kept (tick_ping cb now (s, e))
  unfolding tick_ping process ping_armed
  tick_ping-Kept now s e c w a = ground arith

  pub tick-Kept :
      (now : ℕ) (s : ConSm) (e : E)
      → IsClock now
      → WellFormed s
      → Armed s
      → Kept (tick cb now (s, e))
  unfolding tick
  tick-Kept now s e c w a =
      let (s', e') = tick_rsp cb now (s, e) in
      let kept = tick_rsp-Kept now s e c w a in tick_ping-Kept now s' e' c kept.0 kept.1

  step-Kept : (op : Op) (x : ConSm × E) → AtClock op → WellFormed x.0 → Armed x.0 → Kept (step op x)
  unfolding step
  step-Kept (op_connect now) (s, e) c w a = connect-Kept now s e c w a
  step-Kept (op_disconnect now) (s, e) c w a = disconnect-Kept now s e c w a
  step-Kept (op_tick now) (s, e) c w a = tick-Kept now s e c w a
  step-Kept (op_frame msg now) (s, e) c w a = on_frame-Kept msg now s e c w a
  step-Kept op_reset (s, e) c w a = reset-Kept s e w a

  steps-Kept :
      (ops : List Op) (x : ConSm × E)
      → All AtClock ops
      → WellFormed x.0
      → Armed x.0
      → Kept (steps ops x)
  unfolding steps
  steps-Kept [] x c w a = (w, a)
  steps-Kept (op ∷ ops) x c w a =
      let kept = step-Kept op x c.0 w a in steps-Kept ops (step op x) c.1 kept.0 kept.1

new-WellFormed : WellFormed new_con_sm
new-WellFormed = ground arith

new-Armed : Armed new_con_sm
new-Armed = ground arith

-- After any calls of the public operations on a new machine, in any order, with any frames received,
-- any outcome of sending and any environment, at clock readings below 2 ^ 63: READY is reported
-- exactly in CONNECTED and DISCONNECTING, each timer runs only where it means something, at most
-- three PINGs and five repeated requests are counted, and in every state but DISCONNECTED a timer
-- runs that will end it.
pub reachable-WellFormed :
    {E : Type 0} (cb : Callbacks E) (ops : List Op) (e : E)
    → All AtClock ops
    → WellFormed (steps cb ops (new_con_sm, e)).0 × Armed (steps cb ops (new_con_sm, e)).0
reachable-WellFormed cb ops e c = steps-Kept cb ops (new_con_sm, e) c new-WellFormed new-Armed
