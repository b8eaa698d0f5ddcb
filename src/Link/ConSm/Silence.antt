-- ===== src/Link/ConSm/Silence.antt =====
-- A peer that is silent: the timer alone brings the machine back to DISCONNECTED.
use chassis_host.Common.{
  ℕ, zero, suc, ◌+◌, ◌-◌, ◌*◌, ◌≤◌, ◌<◌, ◌≡◌, ◌⊎◌, inl, inr, arith, List, [], ◌∷◌, leb, Bool-cases,
}
use chassis_host.Link.ConSm.{
  State, disconnected, connecting, connected, disconnecting, not_ready, Callbacks, ConSm, process,
  ping_armed,
}
use chassis_host.Link.ConSm.Api.{tick_rsp, tick_ping, tick}
use chassis_host.Link.ConSm.Process.{WellFormed, Armed, IsClock}
use chassis_host.Link.ConSm.Ops.{tick-Kept, tick_rsp-Kept}

le_or_lt : (a b : ℕ) → (a ≤ b) ⊎ (b < a)
le_or_lt a b = elim (Bool-cases (leb a b)) [
  | inl small ↦ inl (ground (arith, small))
  | inr large ↦ inr (ground (arith, large))
]

-- How many timeouts the machine still takes.
abbrev patience_in : State → ℕ → ℕ → ℕ
patience_in disconnected reqs pings = 0
patience_in connecting reqs pings = 6 - reqs
patience_in disconnecting reqs pings = 6 - reqs
patience_in connected reqs pings = 4 - pings

abbrev patience : ConSm → ℕ
patience s = patience_in s.state s.req_rep s.ping_rep

-- The deadline that the state waits for.
abbrev deadline_in : State → ℕ → ℕ → ℕ
deadline_in disconnected rsp ping = 0
deadline_in connecting rsp ping = rsp
deadline_in disconnecting rsp ping = rsp
deadline_in connected rsp ping = ping

abbrev deadline : ConSm → ℕ
deadline s = deadline_in s.state s.rsp_deadline s.ping_deadline

-- Whatever is armed is armed for `m` at the latest.
abbrev pub DueBy : ℕ → ConSm → Type 0
DueBy m s = (s.rsp_deadline ≤ m) × (s.ping_deadline ≤ m)

-- Clock readings from `prev` on, none more than `gap` after the one before.
abbrev pub Steady : ℕ → ℕ → List ℕ → Type 0
Steady gap prev [] = Unit {0}
Steady gap prev (now ∷ rest) = (prev ≤ now) × (now ≤ prev + gap) × IsClock now × Steady gap now rest

-- The last of the readings.
abbrev pub last_time : ℕ → List ℕ → ℕ
last_time prev [] = prev
last_time prev (now ∷ rest) = last_time now rest

-- Time enough for so many timeouts, where ticks come at most `gap` late.
abbrev time_for : ℕ → ℕ → ℕ
time_for gap zero = 0
time_for gap (suc p) = gap + 400 + time_for gap p

time_for_mono : (gap p q : ℕ) → p ≤ q → time_for gap p ≤ time_for gap q
time_for_mono gap zero q h = omega arith
time_for_mono gap (suc p) zero h = absurd (omega arith)
time_for_mono gap (suc p) (suc q) h = omega (arith, time_for_mono gap p q (omega arith))

time_for-lt : (gap p q : ℕ) → p < q → gap + 400 + time_for gap p ≤ time_for gap q
time_for-lt gap p q h = time_for_mono gap (suc p) q h

-- What a silent step at `now` does: a timeout is taken and nothing is armed for later than 400 ms from
-- then, or the machine waits for the same deadline as before.
abbrev Waits : ℕ → ConSm → ConSm → Type 0
Waits now s s' =
    (patience s' ≤ patience s)
    × (patience s' < patience s → deadline s' ≤ now + 400)
    × (patience s' ≡ patience s → deadline s' ≡ deadline s)

Waits-both : (now : ℕ) (s s' s'' : ConSm) → Waits now s s' → Waits now s' s'' → Waits now s s''
Waits-both now s s' s'' (a, b, c) (a', b', c') =
    (omega arith, λ lt. ground arith, λ eq. ground arith)

-- The first half takes a timeout that is due in a handshake, the second one in CONNECTED.
both_halves :
    (now : ℕ) (s s' s'' : ConSm)
    → Waits now s s'
    → Waits now s' s''
    → deadline s ≤ now
    → ((s.state ≡ connecting) ⊎ (s.state ≡ disconnecting) → patience s' < patience s)
    → (s.state ≡ connected → s'.state ≡ connected)
    → (s'.state ≡ connected → deadline s' ≤ now → patience s'' < patience s')
    → patience s'' ≤ patience s - 1
both_halves now s s' s'' (a, b, c) (a', b', c') d first stays second = ground arith

module _ {E : Type 0} (cb : Callbacks E) where
  tick_rsp-Waits :
      (now : ℕ) (s : ConSm) (e : E)
      → IsClock now
      → WellFormed s
      → let s' = (tick_rsp cb now (s, e)).0 in
        Waits now s s' × (s.state ≡ connected → s'.state ≡ connected)
  unfolding tick_rsp process
  tick_rsp-Waits now s e c w = ground arith

  tick_rsp_due :
      (now : ℕ) (s : ConSm) (e : E)
      → WellFormed s
      → Armed s
      → deadline s ≤ now
      → (s.state ≡ connecting) ⊎ (s.state ≡ disconnecting)
      → patience (tick_rsp cb now (s, e)).0 < patience s
  unfolding tick_rsp process
  tick_rsp_due now s e w a d h = ground arith

  tick_ping-Waits :
      (now : ℕ) (s : ConSm) (e : E)
      → IsClock now
      → WellFormed s
      → Waits now s (tick_ping cb now (s, e)).0
  unfolding tick_ping process ping_armed
  tick_ping-Waits now s e c w = ground arith

  tick_ping_due :
      (now : ℕ) (s : ConSm) (e : E)
      → WellFormed s
      → Armed s
      → s.state ≡ connected
      → deadline s ≤ now
      → patience (tick_ping cb now (s, e)).0 < patience s
  unfolding tick_ping process ping_armed
  tick_ping_due now s e w a h d = ground arith

  tick-Waits :
      (now : ℕ) (s : ConSm) (e : E)
      → IsClock now
      → WellFormed s
      → Armed s
      → let s' = (tick cb now (s, e)).0 in
        Waits now s s' × (deadline s ≤ now → patience s' ≤ patience s - 1)
  unfolding tick
  tick-Waits now s e c w a =
      let (s', e') = tick_rsp cb now (s, e) in
      let s'' = (tick_ping cb now (s', e')).0 in
      let kept = tick_rsp-Kept cb now s e c w a in
      let (first, stays) = tick_rsp-Waits now s e c w in
      let second = tick_ping-Waits now s' e' c kept.0 in
      (
        Waits-both now s s' s'' first second,
        λ d.
            both_halves now s s' s'' first second d (tick_rsp_due now s e w a d) stays
              (tick_ping_due now s' e' kept.0 kept.1),
      )

  -- The timer's ticks, and nothing else.
  pub ticks : List ℕ → ConSm × E → ConSm × E
  ticks [] x = x
  ticks (now ∷ rest) x = ticks rest (tick cb now x)

  ticks-patience :
      (gap prev : ℕ) (times : List ℕ) (s : ConSm) (e : E)
      → WellFormed s
      → Armed s
      → Steady gap prev times
      → WellFormed (ticks times (s, e)).0 × (patience (ticks times (s, e)).0 ≤ patience s)
  unfolding ticks
  ticks-patience gap prev [] s e w a p = (w, omega arith)
  ticks-patience gap prev (now ∷ rest) s e w a p =
      let (s', e') = tick cb now (s, e) in
      let kept = tick-Kept cb now s e p.2 w a in
      let one = tick-Waits now s e p.2 w a in
      let more = ticks-patience gap now rest s' e' kept.0 kept.1 p.3 in
      (more.0, omega (arith, one.0.0, more.1))

  -- As time goes on, the patience is used up: the time that is left is always enough for what is left
  -- of it.
  ticks-no_patience :
      (gap m prev : ℕ) (times : List ℕ) (s : ConSm) (e : E)
      → WellFormed s
      → Armed s
      → Steady gap prev times
      → prev ≤ m
      → deadline s ≤ m
      → m + time_for gap (patience s) ≤ last_time prev times
      → patience (ticks times (s, e)).0 ≤ 0
  unfolding ticks
  ticks-no_patience gap m prev [] s e w a p before d long = elim (le_or_lt (patience s) 0) [
    | inl none_left ↦ none_left
    | inr some_left ↦ absurd (omega (arith, time_for-lt gap 0 (patience s) some_left))
  ]
  ticks-no_patience gap m prev (now ∷ rest) s e w a p before d long =
      let (s', e') = tick cb now (s, e) in
      let kept = tick-Kept cb now s e p.2 w a in
      let (one, due) = tick-Waits now s e p.2 w a in
      elim (le_or_lt (patience s) (patience s')) [
        | inr fell ↦
            ticks-no_patience gap (now + 400) now rest s' e' kept.0 kept.1 p.3 (omega arith)
              (one.1 fell) (omega (arith, time_for-lt gap (patience s') (patience s) fell))
        | inl same ↦ elim (le_or_lt now m) [
          | inl early ↦
              ticks-no_patience gap m now rest s' e' kept.0 kept.1 p.3 early
                (omega (arith, one.2 (omega (arith, one.0))))
                (omega (arith, time_for_mono gap (patience s') (patience s) one.0))
          | inr late ↦ omega (
            arith,
            due (omega arith),
            one.0,
            (ticks-patience gap now rest s' e' kept.0 kept.1 p.3).1,
          )
        ]
      ]

  disconnected_when_out : (s : ConSm) → WellFormed s → patience s ≤ 0 → s.state ≡ disconnected
  disconnected_when_out s w h = ground arith

  patience-le : (s : ConSm) → patience s ≤ 6
  patience-le s = ground arith

  deadline-le : (m : ℕ) (s : ConSm) → DueBy m s → deadline s ≤ m
  deadline-le m s d = ground arith

-- If the peer answers nothing and the timer ticks, each tick at most `gap` ms after the one before (the
-- first one after `n`), then a machine in any reachable state is in DISCONNECTED with READY withdrawn
-- as soon as the ticks have gone on for 6 (`gap` + 400) ms from a time `m` that is not before `n` and
-- for which everything was armed at the latest; whatever became of what it sent in the meantime.
pub silence-disconnects :
    {E : Type 0} (cb : Callbacks E) (gap n m : ℕ) (times : List ℕ) (s : ConSm) (e : E)
    → WellFormed s
    → Armed s
    → n ≤ m
    → DueBy m s
    → Steady gap n times
    → m + 6 * (gap + 400) ≤ last_time n times
    → ((ticks cb times (s, e)).0.state ≡ disconnected)
      × ((ticks cb times (s, e)).0.comm ≡ not_ready)
silence-disconnects cb gap n m times s e w a h d p long =
    let end = (ticks-patience cb gap n times s e w a p).0 in
    let enough = time_for_mono gap (patience s) 6 (patience-le cb s) in
    let out = disconnected_when_out cb (ticks cb times (s, e)).0 end (
      ticks-no_patience cb gap m n times s e w a p h (deadline-le cb m s d)
        (omega (arith, enough))) in
    (out, ground (arith, end.comm_of_state, out))
