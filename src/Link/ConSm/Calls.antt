-- ===== src/Link/ConSm/Calls.antt =====
-- What `connect`, `disconnect` and `reset` return and do, in every state.
use chassis_host.Common.{ℕ, ◌+◌, ◌≡◌, ◌≢◌, ◌↔◌, ◌⊎◌, arith, true, false, u64}
use chassis_host.Common.Int.{pos, negsuc}
use chassis_host.Proto.Defs.{enable_request, disable_request}
use chassis_host.Link.ConSm.{
  disconnected, connecting, connected, disconnecting, not_ready, ready, Callbacks, ConSm, process,
}
use chassis_host.Link.ConSm.Api.{connect, disconnect}
use chassis_host.Link.ConSm.Process.{WellFormed}

module _ {E : Type 0} (cb : Callbacks E) where
  -- `connect` answers -1 exactly in CONNECTING and 0 otherwise; it does something in DISCONNECTED
  -- only: it sends ENABLE_REQUEST once, and goes to CONNECTING with the answer due in 400 ms, or
  -- back to DISCONNECTED where the frame could not be sent. In DISCONNECTING it answers 0 and changes
  -- nothing.
  pub connect_lem :
      (now : ℕ) (s : ConSm) (e : E)
      → let r = connect cb now (s, e) in
        let sent = cb.send_fn enable_request e in
        (r.0 ≡ negsuc 0 ↔ s.state ≡ connecting)
        × (s.state ≢ connecting → r.0 ≡ pos 0)
        × (s.state ≢ disconnected → r.1 ≡ (s, e))
        × (s.state ≡ disconnected
            → sent.0 ≡ true
            → (r.1.0.state ≡ connecting)
              × (r.1.0.rsp_deadline ≡ u64 (now + 400))
              × (r.1.0.cur_req ≡ enable_request)
              × (r.1.1 ≡ sent.1))
        × (s.state ≡ disconnected
            → sent.0 ≡ false
            → (r.1.0.state ≡ disconnected) × (r.1.0.rsp_deadline ≡ 0) × (r.1.1 ≡ sent.1))
  unfolding connect process
  connect_lem now s e = (
    (λ h. ground arith, λ h. ground arith),
    λ h. ground arith,
    λ h. ground arith,
    λ h k. ground arith,
    λ h k. ground arith,
  )

  -- `disconnect` answers 0 in CONNECTED and DISCONNECTED and -1 while a handshake runs; it does
  -- something in CONNECTED only: it sends DISABLE_REQUEST once and waits 400 ms in DISCONNECTING with
  -- READY still reported, or, where the frame could not be sent, is in DISCONNECTED at once and has
  -- reported NOT_READY.
  pub disconnect_lem :
      (now : ℕ) (s : ConSm) (e : E)
      → WellFormed s
      → let r = disconnect cb now (s, e) in
        let sent = cb.send_fn disable_request e in
        (r.0 ≡ pos 0 ↔ (s.state ≡ connected ⊎ s.state ≡ disconnected))
        × (r.0 ≡ negsuc 0 ↔ (s.state ≡ connecting ⊎ s.state ≡ disconnecting))
        × (s.state ≢ connected → r.1 ≡ (s, e))
        × (s.state ≡ connected
            → sent.0 ≡ true
            → (r.1.0.state ≡ disconnecting)
              × (r.1.0.rsp_deadline ≡ u64 (now + 400))
              × (r.1.0.comm ≡ ready)
              × (r.1.1 ≡ sent.1))
        × (s.state ≡ connected
            → sent.0 ≡ false
            → (r.1.0.state ≡ disconnected)
              × (r.1.0.comm ≡ not_ready)
              × (r.1.1 ≡ cb.comm_cb not_ready sent.1))
  unfolding disconnect process
  disconnect_lem now s e w = (
    (λ h. ground arith, λ h. ground arith),
    (λ h. ground arith, λ h. ground arith),
    λ h. ground arith,
    λ h k. ground arith,
    λ h k. ground arith,
  )
