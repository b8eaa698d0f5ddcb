-- ===== src/Link/ConSm/Related.antt =====
-- What the machine does to the environment goes through its two callbacks: a relation that is
-- reflexive and transitive, and that each callback keeps, relates the environment before an
-- operation to the one after it.
use mathlib.Core.Option
use chassis_host.Common.{
  ℕ, zero, suc, Bool, true, false, Option, none, some, if◌then◌else◌, ◌&&◌, ltb, leb,
}
use chassis_host.Proto.Defs.{
  ConMsgType, enable_request, enable_response, disable_request, disable_response, ping_request,
  ping_response,
}
use chassis_host.Link.ConSm.{
  State, disconnected, connecting, connected, disconnecting, CommState, not_ready, Callbacks, ConSm,
  Event, ev_enable, ev_enable_request, ev_accept, ev_disable, ev_disable_request, ev_reject,
  Deferred, no_effects, is_ready, sm, flush_send, flush, process_fuel, process, con_retry_max,
  max_ping_repeat,
}
use chassis_host.Link.ConSm.Api.{
  connect_from, connect, disconnect_from, disconnect, reset, on_frame, in_handshake, expired,
  tick_rsp, tick_ping, tick,
}

-- A relation on environments that both callbacks keep.
pub record Kept {E : Type 0} (cb : Callbacks E) (R : E → E → Type 0) : Type 0 where
  pub refl_of : (e : E) → R e e
  pub then_of : (a b c : E) → R a b → R b c → R a c
  pub send_of : (mt : ConMsgType) (e : E) → R e (cb.send_fn mt e).1
  pub comm_of : (c : CommState) (e : E) → R e (cb.comm_cb c e)

module _ {E : Type 0} (cb : Callbacks E) (R : E → E → Type 0) (k : Kept cb R) where
  open k use {refl_of, then_of, send_of, comm_of}

  either : (b : Bool) (e x y : E) → R e x → R e y → R e (if b then x else y)
  either true e x y p q = p
  either false e x y p q = q

  either_pair :
      {A : Type 0} (b : Bool) (e : E) (x y : A × E) → R e x.1 → R e y.1 → R e (if b then x else y).1
  either_pair true e x y p q = p
  either_pair false e x y p q = q

  flush_send-related : (d : Deferred) (e : E) → R e (flush_send cb d e).1
  unfolding flush_send
  flush_send-related d e = either_pair d.send e _ _ (send_of d.send_type e) (refl_of e)

  flush-related : (d : Deferred) (now : ℕ) (s : ConSm) (e : E) → R e (flush cb d now s e).2
  unfolding flush
  flush-related d now s e =
      let (d', e') = flush_send cb d e in
      let sent = flush_send-related d e in
      either d'.fire_comm e _ _ (then_of e e' _ sent (comm_of d'.new_comm e')) sent

  abbrev Reached : E → Option (ConSm × E) → Type 0
  Reached e none = Unit
  Reached e (some x) = R e x.1

  either-Reached :
      (b : Bool) (e : E) (x y : Option (ConSm × E))
      → Reached e x
      → Reached e y
      → Reached e (if b then x else y)
  either-Reached true e x y p q = p
  either-Reached false e x y p q = q

  then-Reached : (e e' : E) (x : Option (ConSm × E)) → R e e' → Reached e' x → Reached e x
  then-Reached e e' none p q = tt
  then-Reached e e' (some x) p q = then_of e e' x.1 p q

  process_fuel-related :
      (n : ℕ) (ev : Event) (now : ℕ) (s : ConSm) (e : E)
      → Reached e (process_fuel cb n ev now (s, e))
  unfolding process_fuel
  process_fuel-related zero ev now s e = tt
  process_fuel-related (suc n) ev now s e =
      let (s1, d1) = sm ev s no_effects in
      let (d2, s2, e2) = flush cb d1 now s1 e in
      let one = flush-related d1 now s1 e in
      either-Reached d2.has_follow_up e _ _
        (then-Reached e e2 _ one (process_fuel-related n d2.follow_up now s2 e2)) one

  get_or-related :
      (s : ConSm) (e : E) (x : Option (ConSm × E)) → Reached e x → R e (Option.get_or x (s, e)).1
  get_or-related s e none p = refl_of e
  get_or-related s e (some x) p = p

  pub process-related :
      (ev : Event) (now : ℕ) (s : ConSm) (e : E) → R e (process cb ev now (s, e)).1
  unfolding process
  process-related ev now s e =
      get_or-related s e (process_fuel cb 2 ev now (s, e)) (process_fuel-related 2 ev now s e)

  connect_from-related :
      (st : State) (now : ℕ) (s : ConSm) (e : E) → R e (connect_from cb st now (s, e)).1.1
  unfolding connect_from
  connect_from-related disconnected now s e = process-related ev_enable now s e
  connect_from-related disconnecting now s e = process-related ev_enable now s e
  connect_from-related connected now s e = refl_of e
  connect_from-related connecting now s e = refl_of e

  pub connect-related : (now : ℕ) (s : ConSm) (e : E) → R e (connect cb now (s, e)).1.1
  unfolding connect
  connect-related now s e = connect_from-related s.state now s e

  disconnect_from-related :
      (st : State) (now : ℕ) (s : ConSm) (e : E) → R e (disconnect_from cb st now s e).1.1
  unfolding disconnect_from
  disconnect_from-related connected now s e =
      process-related ev_disable now (record s { ping_rep = 0 }) e
  disconnect_from-related disconnected now s e = refl_of e
  disconnect_from-related connecting now s e = refl_of e
  disconnect_from-related disconnecting now s e = refl_of e

  pub disconnect-related : (now : ℕ) (s : ConSm) (e : E) → R e (disconnect cb now (s, e)).1.1
  unfolding disconnect
  disconnect-related now s e = disconnect_from-related s.state now s e

  pub reset-related : (s : ConSm) (e : E) → R e (reset cb (s, e)).1
  unfolding reset
  reset-related s e = either_pair (is_ready s.comm) e _ _ (comm_of not_ready e) (refl_of e)

  pub on_frame-related :
      (mt : ConMsgType) (now : ℕ) (s : ConSm) (e : E) → R e (on_frame cb mt now (s, e)).1
  unfolding on_frame
  on_frame-related enable_request now s e = process-related ev_enable_request now s e
  on_frame-related enable_response now s e = process-related ev_accept now s e
  on_frame-related disable_request now s e = process-related ev_disable_request now s e
  on_frame-related disable_response now s e = process-related ev_reject now s e
  on_frame-related ping_request now s e = refl_of e
  on_frame-related ping_response now s e = refl_of e

  -- A send, and REJECT if it failed.
  sent_or_rejected :
      (ok : Bool) (now : ℕ) (s : ConSm) (e e' : E) (x : ConSm × E)
      → R e e'
      → R e x.1
      → R e (if ok then x else process cb ev_reject now (s, e')).1
  sent_or_rejected ok now s e e' x p q =
      either_pair ok e _ _ q (then_of e e' _ p (process-related ev_reject now s e'))

  tick_rsp-related : (now : ℕ) (s : ConSm) (e : E) → R e (tick_rsp cb now (s, e)).1
  unfolding tick_rsp
  tick_rsp-related now s e =
      either_pair (expired s.rsp_deadline now) e _ _
        (either_pair (ltb s.req_rep con_retry_max && in_handshake s.state) e _ _
          (sent_or_rejected (cb.send_fn s.cur_req e).0 now _ e _ _ (send_of s.cur_req e)
            (send_of s.cur_req e))
          (process-related ev_reject now _ e))
        (refl_of e)

  tick_ping-related : (now : ℕ) (s : ConSm) (e : E) → R e (tick_ping cb now (s, e)).1
  unfolding tick_ping
  tick_ping-related now s e =
      either_pair (expired s.ping_deadline now) e _ _
        (either_pair (leb s.ping_rep max_ping_repeat) e _ _
          (either_pair (is_ready s.comm) e _ _
            (sent_or_rejected (cb.send_fn ping_request e).0 now _ e _ _ (send_of ping_request e)
              (either_pair _ e _ _ (send_of ping_request e) (send_of ping_request e)))
            (refl_of e))
          (process-related ev_reject now _ e))
        (refl_of e)

  pub tick-related : (now : ℕ) (s : ConSm) (e : E) → R e (tick cb now (s, e)).1
  unfolding tick
  tick-related now s e =
      let (s', e') = tick_rsp cb now (s, e) in
      then_of e e' _ (tick_rsp-related now s e) (tick_ping-related now s' e')
