-- ===== src/Serial/Laws.antt =====
-- The send buffer of the serial port: its bound, that what waits in it is waited for, and the order
-- of the bytes.
use chassis_host.Common.{
  ℕ, ◌≤◌, ◌≡◌, refl, sym, ap, ◌∙◌, ◌⊎◌, Bool, true, false, not, ◌&&◌, List, [], ◌∷◌, ◌++◌, length,
  take, drop, if◌then◌else◌, ◌==◌, arith, length-drop, take-append-drop,
}
use chassis_host.Serial.{
  Written, wrote, would_block, device_gone, other_error, Os, Port, tx_overflow_limit, close_in_loop,
  keep_rest, after_write, open_device, send, drained, handle_write,
}

-- While the port is open its buffer is within the limit, and bytes in it mean that POLLOUT is asked
-- for.
pub record PortOk (p : Port) : Type 0 where
  pub bounded : p.is_open ≡ true → length p.out ≤ tx_overflow_limit
  pub armed : p.is_open ≡ true → (length p.out ≡ 0) ⊎ (p.writing ≡ true)

keep_rest-PortOk : (rest : List ℕ) (p : Port) → PortOk p → PortOk (keep_rest rest p).0
unfolding keep_rest close_in_loop
keep_rest-PortOk rest p ok = ground arith

after_write-PortOk :
    (r : Written) (bytes : List ℕ) (p : Port) → PortOk p → PortOk (after_write r bytes p).0
unfolding after_write close_in_loop
after_write-PortOk (wrote n) bytes p ok = keep_rest-PortOk (drop n bytes) p ok
after_write-PortOk would_block bytes p ok = keep_rest-PortOk bytes p ok
after_write-PortOk device_gone bytes p ok = ground arith
after_write-PortOk other_error bytes p ok = keep_rest-PortOk bytes p ok

append-nil : (xs : List ℕ) → xs ++ [] ≡ xs
append-nil [] = refl
append-nil (x ∷ xs) = ap (λ ys. x ∷ ys) (append-nil xs)

-- The bytes that were not written go behind those that wait.
keep_rest-out : (rest : List ℕ) (p : Port) → (keep_rest rest p).0.out ≡ p.out ++ rest
unfolding keep_rest close_in_loop
keep_rest-out [] p = sym (append-nil p.out)
keep_rest-out (x ∷ xs) p = ground arith

module _ {W : Type 0} (os : Os W) where
  drained-PortOk : (r : Written) (p : Port) → PortOk p → PortOk (drained os r p).0
  unfolding drained close_in_loop
  drained-PortOk (wrote n) p ok = ground (arith, length-drop n p.out)
  drained-PortOk would_block p ok = ok
  drained-PortOk device_gone p ok = ground arith
  drained-PortOk other_error p ok = ground arith

  send-PortOk : (bytes : List ℕ) (p : Port) (w : W) → PortOk p → PortOk (send os bytes (p, w)).1.0
  unfolding send
  send-PortOk bytes p w ok =
      ground
        (arith, after_write-PortOk (os.write bytes w).0 bytes p ok, keep_rest-PortOk bytes p ok)

  handle_write-PortOk : (p : Port) (w : W) → PortOk p → PortOk (handle_write os (p, w)).1.0
  unfolding handle_write
  handle_write-PortOk p w ok = ground (arith, drained-PortOk (os.write p.out w).0 p ok)

  open_device-PortOk : (p : Port) (w : W) → PortOk p → PortOk (open_device os (p, w)).1.0
  unfolding open_device
  open_device-PortOk p w ok = ground arith

  -- What a `write` took of the bytes that it was given.
  abbrev pub taken : Written → List ℕ → List ℕ
  taken (wrote n) bytes = take n bytes
  taken _ bytes = []

  -- What `send` itself writes.
  abbrev pub written_now : List ℕ → Port → W → List ℕ
  written_now bytes p w =
      if not p.writing && (length p.out == 0) then taken (os.write bytes w).0 bytes else []

  after_write-order :
      (r : Written) (bytes : List ℕ) (p : Port)
      → p.out ≡ []
      → (after_write r bytes p).0.is_open ≡ true
      → taken r bytes ++ (after_write r bytes p).0.out ≡ bytes
  unfolding after_write close_in_loop
  after_write-order (wrote n) bytes p e o =
      ap (λ xs. take n bytes ++ xs)
        (keep_rest-out (drop n bytes) p ∙ ap (λ xs. xs ++ drop n bytes) e)
      ∙ take-append-drop n bytes
  after_write-order would_block bytes p e o = keep_rest-out bytes p ∙ ap (λ xs. xs ++ bytes) e
  after_write-order device_gone bytes p e o = ground arith
  after_write-order other_error bytes p e o = keep_rest-out bytes p ∙ ap (λ xs. xs ++ bytes) e

  -- `send` by its two tests: a port that is shut, and a write at once.
  by_tests :
      (shut direct : Bool) (bytes : List ℕ) (p : Port) (w : W)
      → (shut ≡ true → p.is_open ≡ false)
      → (direct ≡ true → p.out ≡ [])
      → let r = (os.write bytes w).0 in
        let q =
          if◌then◌else◌ {A = Port} shut p
            (if◌then◌else◌ {A = Port} direct (after_write r bytes p).0 (keep_rest bytes p).0) in
        q.is_open ≡ true → (if direct then taken r bytes else []) ++ q.out ≡ p.out ++ bytes
  by_tests true direct bytes p w hs hd o = absurd (ground (arith, hs refl))
  by_tests false true bytes p w hs hd o =
      after_write-order (os.write bytes w).0 bytes p (hd refl) o
      ∙ sym (ap (λ xs. xs ++ bytes) (hd refl))
  by_tests false false bytes p w hs hd o = keep_rest-out bytes p

  send-port :
      (bytes : List ℕ) (p : Port) (w : W)
      → (send os bytes (p, w)).1.0
        ≡ if◌then◌else◌ {A = Port} (not p.is_open) p (
            if◌then◌else◌ {A = Port}
              (not p.writing && (length p.out == 0))
              (after_write (os.write bytes w).0 bytes p).0
              (keep_rest bytes p).0)
  unfolding send
  send-port bytes p w = ground arith

length-zero : (xs : List ℕ) → length xs ≡ 0 → xs ≡ []
length-zero [] e = refl
length-zero (x ∷ xs) e = absurd (omega (arith, e))

-- Whatever the system calls do, `send`, `handleWrite` and `openDevice` keep the buffer of an open port
-- within its limit of 1 MiB, and never leave bytes in it without asking for POLLOUT.
pub port-PortOk :
    {W : Type 0} (os : Os W) (bytes : List ℕ) (p : Port) (w : W)
    → PortOk p
    → PortOk (send os bytes (p, w)).1.0
      × PortOk (handle_write os (p, w)).1.0
      × PortOk (open_device os (p, w)).1.0
port-PortOk os bytes p w ok =
    (send-PortOk os bytes p w ok, handle_write-PortOk os p w ok, open_device-PortOk os p w ok)

-- When the port is still open after `send`, the bytes that `send` wrote and those that then wait are
-- the bytes that waited before and the new ones, in this order: none is lost or overtaken, however
-- much of them `write` took.
pub send-order :
    {W : Type 0} (os : Os W) (bytes : List ℕ) (p : Port) (w : W)
    → (send os bytes (p, w)).1.0.is_open ≡ true
    → written_now os bytes p w ++ (send os bytes (p, w)).1.0.out ≡ p.out ++ bytes
send-order os bytes p w o =
    let e = send-port os bytes p w in
    ap (λ q. written_now os bytes p w ++ q.out) e
    ∙ by_tests os (not p.is_open) (not p.writing && (length p.out == 0)) bytes p w
        (λ h. ground arith) (λ h. length-zero p.out (ground arith))
        (sym (ap (λ q. q.is_open) e) ∙ o)
