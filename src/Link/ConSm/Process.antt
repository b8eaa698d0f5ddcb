-- ===== src/Link/ConSm/Process.antt =====
-- Events through the transition table: no follow-up is left over, and what holds of the fields
-- between two operations.
use chassis_host.Common.{ℕ, suc, ◌^◌, ◌≤◌, ◌<◌, ◌≡◌, ◌↔◌, ◌⊎◌, arith, some}
use chassis_host.Link.ConSm.{
  connecting, connected, disconnecting, ready, Callbacks, ConSm, Event, ev_enable, ev_disable,
  process_fuel, process,
}

module _ {E : Type 0} (cb : Callbacks E) where
  -- With any fuel of at least two an event is processed with its follow-up, and the result is
  -- that of `process`: the follow-ups of an event never run out of fuel.
  pub process_enough :
      (n : ℕ) (ev : Event) (now : ℕ) (x : ConSm × E)
      → process_fuel cb (suc (suc n)) ev now x ≡ some (process cb ev now x)
  unfolding process
  process_enough n ev_enable now (s, e) = ground arith
  process_enough n _ now (s, e) = ground arith

-- What holds between two operations.
pub record WellFormed (s : ConSm) : Type 0 where
  pub comm_of_state : (s.comm ≡ ready) ↔ ((s.state ≡ connected) ⊎ (s.state ≡ disconnecting))
  pub rsp_live : 0 < s.rsp_deadline → (s.state ≡ connecting) ⊎ (s.state ≡ disconnecting)
  pub ping_live : 0 < s.ping_deadline → s.comm ≡ ready
  pub ping_rep_capped : s.ping_rep ≤ 3
  pub req_rep_capped : s.req_rep ≤ 5

-- A timer runs in every state but DISCONNECTED: the machine cannot wait forever.
pub record Armed (s : ConSm) : Type 0 where
  pub handshake : (s.state ≡ connecting) ⊎ (s.state ≡ disconnecting) → 0 < s.rsp_deadline
  pub alive : s.state ≡ connected → 0 < s.ping_deadline

-- A clock from which no deadline wraps.
abbrev pub IsClock : ℕ → Type 0
IsClock now = now < 2 ^ 63

module _ {E : Type 0} (cb : Callbacks E) where
  -- EV_DISABLE comes from `disconnect`, which sends it in CONNECTED only.
  pub process-WellFormed :
      (ev : Event) (now : ℕ) (s : ConSm) (e : E)
      → (ev ≡ ev_disable → s.state ≡ connected)
      → WellFormed s
      → WellFormed (process cb ev now (s, e)).0
  unfolding process
  process-WellFormed ev_enable now s e only w = ground arith
  process-WellFormed _ now s e only w = ground arith

  -- Only EV_ENABLE and EV_DISABLE start a handshake, and both arm its timer or fail at once.
  pub process-Armed :
      (ev : Event) (now : ℕ) (s : ConSm) (e : E)
      → IsClock now
      → Armed s
      → Armed (process cb ev now (s, e)).0
  unfolding process
  process-Armed ev_enable now s e only w = ground arith
  process-Armed _ now s e only w = ground arith
