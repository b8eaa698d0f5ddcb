-- ===== src/Link/ConSm.antt =====
-- `ConSm` of link/ConSm: the four-state client machine of the link. Logging is left out. The clock
-- is the argument `now`; what the two callbacks act on is an environment of any type.
pub mod Api
pub mod Process
pub mod Ops
pub mod Observer
pub mod Silence
pub mod Calls
pub mod Related
use Prim.Native.String.{String}
use mathlib.Core.Option
use chassis_host.Common.{
  ℕ, zero, suc, ◌+◌, ◌%◌, ◌^◌, Bool, true, false, not, ◌&&◌, ◌||◌, Option, none, some, ltb, leb,
  ◌==◌, if◌then◌else◌, u64,
}
use chassis_host.Proto.Defs.{
  ConMsgType, enable_request, enable_response, disable_request, disable_response, ping_request,
  ping_response,
}

pub data State : Type 0 where
  disconnected connecting connected disconnecting : State

pub data CommState : Type 0 where
  not_ready ready : CommState

unfoldable pub state_name : State → String
state_name disconnected = "DISCONNECTED"
state_name connecting = "CONNECTING"
state_name connected = "CONNECTED"
state_name disconnecting = "DISCONNECTING"

unfoldable pub comm_name : CommState → String
comm_name ready = "READY"
comm_name not_ready = "NOT_READY"

-- Times in ms.
abbrev pub ping_time : ℕ
ping_time = 1000

abbrev pub repeat_ping_time : ℕ
repeat_ping_time = 300

abbrev pub max_ping_repeat : ℕ
max_ping_repeat = 2

abbrev pub con_rsp_timeout : ℕ
con_rsp_timeout = 400

abbrev pub con_retry_max : ℕ
con_retry_max = 5

pub data Event : Type 0 where
  ev_enable ev_enable_request ev_disable ev_disable_request ev_accept ev_reject : Event

-- `sendFn_` says whether the frame went out; both callbacks may change the environment. The
-- constructor is given both, so the tests for an empty `std::function` do not show.
pub record Callbacks (E : Type 0) : Type 0 where
  pub send_fn : ConMsgType → E → Bool × E
  pub comm_cb : CommState → E → E

-- The fields; a deadline of 0 is not armed. Deadlines are uint64_t; the two counters are int.
pub record ConSm : Type 0 where
  pub state : State
  pub comm : CommState
  pub rsp_deadline : ℕ
  pub ping_deadline : ℕ
  pub ping_rep : ℕ
  pub req_rep : ℕ
  pub cur_req : ConMsgType

abbrev pub new_con_sm : ConSm
new_con_sm = record {
  state = disconnected;
  comm = not_ready;
  rsp_deadline = 0;
  ping_deadline = 0;
  ping_rep = 0;
  req_rep = 0;
  cur_req = enable_request;
}

-- The side effects that a transition collects.
pub record Deferred : Type 0 where
  pub send : Bool
  pub send_type : ConMsgType
  pub cancel_rsp : Bool
  pub cancel_ping : Bool
  pub arm_rsp : Bool
  pub arm_ping : Bool
  pub fire_comm : Bool
  pub new_comm : CommState
  pub follow_up : Event
  pub has_follow_up : Bool

abbrev pub no_effects : Deferred
no_effects = record {
  send = false;
  send_type = enable_request;
  cancel_rsp = false;
  cancel_ping = false;
  arm_rsp = false;
  arm_ping = false;
  fire_comm = false;
  new_comm = not_ready;
  follow_up = ev_enable;
  has_follow_up = false;
}

abbrev pub is_ready : CommState → Bool
is_ready ready = true
is_ready not_ready = false

unfoldable pub to_connected : ConSm → Deferred → ConSm × Deferred
to_connected s d = (
  record s { req_rep = 0; comm = ready },
  record d { cancel_rsp = true; fire_comm = true; new_comm = ready; arm_ping = true },
)

-- `if (comm_ != COMM_NOT_READY) { … }`.
abbrev pub drop_comm : ConSm → Deferred → ConSm × Deferred
drop_comm s d =
    if is_ready s.comm
    then (record s { comm = not_ready }, record d { fire_comm = true; new_comm = not_ready })
    else (s, d)

unfoldable pub to_disconnected : ConSm → Deferred → ConSm × Deferred
to_disconnected s d =
    let (s', d') = drop_comm s (record d { cancel_rsp = true; cancel_ping = true }) in
    (record s' { ping_rep = 0; req_rep = 0 }, d')

-- `curReq_ = type; d.send = true; d.sendType = type;`.
abbrev pub request : ConMsgType → ConSm → Deferred → ConSm × Deferred
request type s d = (record s { cur_req = type }, record d { send = true; send_type = type })

-- The transition table: the state, the event, the fields and the effects so far.
transition : State → Event → ConSm → Deferred → ConSm × Deferred
transition disconnected ev_enable s d = request enable_request (record s { state = connecting }) d
transition disconnected ev_enable_request s d =
    request enable_response (record s { state = connecting }) d
transition connecting ev_accept s d = to_connected (record s { state = connected }) d
transition connecting ev_reject s d =
    (record s { state = disconnected; req_rep = 0 }, record d { cancel_rsp = true })
transition connecting ev_enable_request s d =
    let (s', d') = request enable_response (record s { state = connected }) d in to_connected s' d'
transition connecting ev_disable s d =
    request disable_request (record s { state = disconnecting }) d
transition connected ev_enable_request s d =
    let (s', d') = request enable_response s d in
    let (s'', d'') = drop_comm s' d' in to_connected s'' d''
transition connected ev_disable s d = request disable_request (record s { state = disconnecting }) d
transition connected ev_disable_request s d =
    let (s', d') = to_disconnected (record s { state = disconnected }) d in
    request disable_response s' d'
transition connected ev_reject s d =
    drop_comm (record s { state = disconnected })
      (record d { cancel_rsp = true; cancel_ping = true })
transition disconnecting ev_reject s d = to_disconnected (record s { state = disconnected }) d
transition _ _ s d = (s, d)

unfoldable pub sm : Event → ConSm → Deferred → ConSm × Deferred
unfolding transition to_connected to_disconnected
sm ev s d = transition s.state ev s d

abbrev pub in_ping_state : State → Bool
in_ping_state connected = true
in_ping_state disconnecting = true
in_ping_state _ = false

unfoldable pub ping_armed : ConSm → Bool
ping_armed s = is_ready s.comm && in_ping_state s.state

unfoldable pub schedule_ping_std : ℕ → ConSm → ConSm
unfolding ping_armed
schedule_ping_std now s = record s {
  ping_rep = 0;
  ping_deadline = if ping_armed s then u64 (now + ping_time) else 0;
}

abbrev pub is_response : ConMsgType → Bool
is_response enable_response = true
is_response disable_response = true
is_response _ = false

module _ {E : Type 0} (cb : Callbacks E) where
  open cb use {send_fn, comm_cb}

  -- `if (d.send) { … }`: what goes out, and what follows from it.
  flush_send : Deferred → E → Deferred × E
  flush_send d e =
      if d.send
      then (let (ok, e') = send_fn d.send_type e in
          (
            if ok
                then (if is_response d.send_type
                    then record d { has_follow_up = true; follow_up = ev_accept }
                    else record d { arm_rsp = true })
                else record d { has_follow_up = true; follow_up = ev_reject },
            e',
          ))
      else (d, e)

  -- The effects in the source's order.
  unfoldable pub flush : Deferred → ℕ → ConSm → E → Deferred × ConSm × E
  unfolding flush_send schedule_ping_std
  flush d now s e =
      let s1 = record s {
        rsp_deadline = if d.cancel_rsp then 0 else s.rsp_deadline;
        ping_deadline = if d.cancel_ping then 0 else s.ping_deadline;
      } in
      let (d', e') = flush_send d e in
      let s2 =
        if d'.arm_rsp then record s1 { rsp_deadline = u64 (now + con_rsp_timeout) } else s1 in
      let s3 = if d'.arm_ping then schedule_ping_std now s2 else s2 in
      (d', s3, if d'.fire_comm then comm_cb d'.new_comm e' else e')

  -- `process`, with fuel for the follow-up events.
  unfoldable pub process_fuel : ℕ → Event → ℕ → ConSm × E → Option (ConSm × E)
  unfolding sm flush
  process_fuel zero ev now (s, e) = none
  process_fuel (suc fuel) ev now (s, e) =
      let (s1, d1) = sm ev s no_effects in
      let (d2, s2, e2) = flush d1 now s1 e in
      let rest = process_fuel fuel d2.follow_up now (s2, e2) in
      if d2.has_follow_up then rest else some (s2, e2)

  -- A follow-up has no follow-up of its own, so two rounds are enough.
  unfoldable pub process : Event → ℕ → ConSm × E → ConSm × E
  unfolding process_fuel
  process ev now x = Option.get_or (process_fuel 2 ev now x) x
