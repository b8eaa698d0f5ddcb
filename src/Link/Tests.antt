-- ===== src/Link/Tests.antt =====
-- Scenarios of the link's state machine with a recording environment, and the theorems about it at
-- concrete inputs.
use chassis_host.Common.{
  ℕ, zero, suc, ◌+◌, ◌≡◌, ◌≢◌, ◌↔◌, ◌⊎◌, refl, arith, Bool, true, false, some, List, [], ◌∷◌, ◌++◌,
  u64,
}
use chassis_host.Common.Int.{pos, negsuc}
use chassis_host.Proto.Defs.{
  ConMsgType, enable_request, enable_response, disable_request, disable_response, ping_request,
  ping_response,
}
use chassis_host.Link.ConSm.{
  disconnected, connecting, connected, disconnecting, CommState, not_ready, ready, Callbacks, ConSm,
  ev_enable_request, new_con_sm, process_fuel, process,
}
use chassis_host.Link.ConSm.Api.{connect, disconnect, on_frame, tick_rsp, tick_ping, tick}
use chassis_host.Link.ConSm.Process.{WellFormed, Armed, process_enough}
use chassis_host.Link.ConSm.Ops.{
  Op, op_connect, op_disconnect, op_tick, op_frame, step, steps, reachable-WellFormed,
}
use chassis_host.Link.ConSm.Observer.{steps-in_step}
use chassis_host.Link.ConSm.Silence.{ticks, silence-disconnects}
use chassis_host.Link.ConSm.Calls.{connect_lem, disconnect_lem}

-- What was sent and what was reported, oldest first; sending works while `up`.
record Tape : Type 0 where
  sent : List ConMsgType
  reports : List CommState
  up : Bool

abbrev record_tape : Callbacks Tape
record_tape = record {
  send_fn = λ msg t. (t.up, record t { sent = t.sent ++ msg ∷ [] });
  comm_cb = λ c t. record t { reports = t.reports ++ c ∷ [] };
}

abbrev blank : Tape
blank = record { sent = []; reports = []; up = true }

-- The link comes up, the board asks anew, the host takes the link down.
abbrev session : List Op
session =
    op_connect 1000
    ∷ op_frame enable_response 1100
    ∷ op_tick 2100
    ∷ op_frame ping_response 2150
    ∷ op_frame enable_request 2200
    ∷ op_disconnect 2300
    ∷ op_frame disable_response 2380
    ∷ []

session_tape : (steps record_tape session (new_con_sm, blank)).1 ≡ record {
  sent = enable_request ∷ ping_request ∷ enable_response ∷ disable_request ∷ [];
  reports = ready ∷ ready ∷ not_ready ∷ [];
  up = true;
}
unfolding steps step connect disconnect on_frame tick tick_rsp tick_ping process
session_tape = refl

reachable-WellFormed_example :
    WellFormed (steps record_tape session (new_con_sm, blank)).0
    × Armed (steps record_tape session (new_con_sm, blank)).0
reachable-WellFormed_example = reachable-WellFormed record_tape session blank (omega arith)

-- In step: the last report is the state; before the first one it is NOT_READY.
abbrev last_report : CommState → List CommState → CommState
last_report c [] = c
last_report c (r ∷ rs) = last_report r rs

last_report-snoc : (c d : CommState) (rs : List CommState) → last_report d (rs ++ c ∷ []) ≡ c
last_report-snoc c d [] = refl
last_report-snoc c d (r ∷ rs) = last_report-snoc c r rs

abbrev InStep : CommState → Tape → Type 0
InStep c t = last_report not_ready t.reports ≡ c

steps-in_step_example :
    InStep
      (steps record_tape session (new_con_sm, blank)).0.comm
      (steps record_tape session (new_con_sm, blank)).1
steps-in_step_example =
    steps-in_step record_tape InStep (λ c msg e r. r)
      (λ c e. last_report-snoc c not_ready e.reports) session (new_con_sm, blank) refl

abbrev greeting : ConSm
greeting = record new_con_sm { state = connecting; rsp_deadline = 1400 }

-- A tick every 100 ms.
abbrev every : ℕ → ℕ → ℕ → List ℕ
every period zero t = []
every period (suc n) t = t ∷ every period n (t + period)

abbrev many_ticks : List ℕ
many_ticks = every 100 36 1000

greeting-WellFormed : WellFormed greeting
greeting-WellFormed = ground arith

greeting-Armed : Armed greeting
greeting-Armed = ground arith

silence-disconnects_example :
    ((ticks record_tape many_ticks (greeting, blank)).0.state ≡ disconnected)
    × ((ticks record_tape many_ticks (greeting, blank)).0.comm ≡ not_ready)
silence-disconnects_example =
    silence-disconnects record_tape 100 1000 1400 many_ticks greeting blank greeting-WellFormed
      greeting-Armed (omega arith) (omega arith, omega arith) (omega arith) (omega arith)

process_enough_example :
    process_fuel record_tape 5 ev_enable_request 1000 (new_con_sm, blank)
    ≡ some (process record_tape ev_enable_request 1000 (new_con_sm, blank))
process_enough_example = process_enough record_tape 3 ev_enable_request 1000 (new_con_sm, blank)

connect_lem_example :
    let r = connect record_tape 5 (greeting, blank) in
    let sent = record_tape.send_fn enable_request blank in
    (r.0 ≡ negsuc 0 ↔ greeting.state ≡ connecting)
    × (greeting.state ≢ connecting → r.0 ≡ pos 0)
    × (greeting.state ≢ disconnected → r.1 ≡ (greeting, blank))
    × (greeting.state ≡ disconnected
        → sent.0 ≡ true
        → (r.1.0.state ≡ connecting)
          × (r.1.0.rsp_deadline ≡ u64 (5 + 400))
          × (r.1.0.cur_req ≡ enable_request)
          × (r.1.1 ≡ sent.1))
    × (greeting.state ≡ disconnected
        → sent.0 ≡ false
        → (r.1.0.state ≡ disconnected) × (r.1.0.rsp_deadline ≡ 0) × (r.1.1 ≡ sent.1))
connect_lem_example = connect_lem record_tape 5 greeting blank

disconnect_lem_example :
    let r = disconnect record_tape 5 (greeting, blank) in
    let sent = record_tape.send_fn disable_request blank in
    (r.0 ≡ pos 0 ↔ (greeting.state ≡ connected ⊎ greeting.state ≡ disconnected))
    × (r.0 ≡ negsuc 0 ↔ (greeting.state ≡ connecting ⊎ greeting.state ≡ disconnecting))
    × (greeting.state ≢ connected → r.1 ≡ (greeting, blank))
    × (greeting.state ≡ connected
        → sent.0 ≡ true
        → (r.1.0.state ≡ disconnecting)
          × (r.1.0.rsp_deadline ≡ u64 (5 + 400))
          × (r.1.0.comm ≡ ready)
          × (r.1.1 ≡ sent.1))
    × (greeting.state ≡ connected
        → sent.0 ≡ false
        → (r.1.0.state ≡ disconnected)
          × (r.1.0.comm ≡ not_ready)
          × (r.1.1 ≡ record_tape.comm_cb not_ready sent.1))
disconnect_lem_example = disconnect_lem record_tape 5 greeting blank greeting-WellFormed
