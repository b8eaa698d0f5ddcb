-- ===== src/Serial.antt =====
-- `SerialPort` of serial/SerialPort.cc, as the loop's thread runs it: `runInLoop` runs at once
-- there. The system calls are a parameter; a state callback is the last thing that an operation
-- does, so it is returned as a notice.
pub mod Laws
mod Tests
use Prim.Native.String.{String}
use chassis_host.Common.{
  ℕ, Bool, true, false, not, ◌&&◌, List, [], ◌∷◌, ◌++◌, length, drop, Option, none, some, ltb, ◌==◌,
  if◌then◌else◌,
}

-- What `write` comes to: bytes taken; EAGAIN or EWOULDBLOCK; one of the errors of a device that is
-- gone (EPIPE, ECONNRESET, EBADF, ENODEV, EIO); any other error.
pub data Written : Type 0 where
  wrote : ℕ → Written
  would_block device_gone other_error : Written

-- The system calls: `write`, and `open` with the set-up of the line.
pub record Os (W : Type 0) : Type 0 where
  pub write : List ℕ → W → Written × W
  pub open_tty : W → Bool × W

-- `fd_ >= 0`, whether the channel waits for POLLOUT, and `outputBuffer_`.
pub record Port : Type 0 where
  pub is_open : Bool
  pub writing : Bool
  pub out : List ℕ

-- A call of `stateCb_`.
pub record Notice : Type 0 where
  pub up : Bool
  pub reason : String

abbrev pub tx_overflow_limit : ℕ
tx_overflow_limit = 1048576

abbrev pub closed_port : Port
closed_port = record { is_open = false; writing = false; out = [] }

unfoldable pub close_in_loop : String → Port → Port × Option Notice
close_in_loop reason p =
    if p.is_open
    then (
      record p { is_open = false; writing = false },
      some (record { up = false; reason = reason }),
    )
    else (p, none)

-- What is left of the bytes is kept, POLLOUT is asked for, and too much of it closes the port.
unfoldable pub keep_rest : List ℕ → Port → Port × Option Notice
unfolding close_in_loop
keep_rest rest p =
    if length rest == 0
    then (p, none)
    else (let p' = record p { out = p.out ++ rest; writing = true } in
        if ltb tx_overflow_limit (length p'.out)
        then close_in_loop "tx-overflow" p'
        else (p', none))

-- After the direct `write` of `sendInLoop`.
unfoldable pub after_write : Written → List ℕ → Port → Port × Option Notice
unfolding close_in_loop
after_write (wrote n) bytes p = keep_rest (drop n bytes) p
after_write would_block bytes p = keep_rest bytes p
after_write device_gone bytes p = close_in_loop "write-fault" p
after_write other_error bytes p = keep_rest bytes p

module _ {W : Type 0} (os : Os W) where
  open os use {write, open_tty}

  unfoldable pub open_device : Port × W → (Bool × Option Notice) × (Port × W)
  open_device (p, w) =
      if p.is_open
      then ((true, none), (p, w))
      else (let (ok, w') = open_tty w in
          if ok
          then (
            (true, some (record { up = true; reason = "opened" })),
            (record { is_open = true; writing = false; out = [] }, w'),
          )
          else ((false, none), (p, w')))

  unfoldable pub send : List ℕ → Port × W → Option Notice × (Port × W)
  unfolding after_write
  send bytes (p, w) =
      if not p.is_open
      then (none, (p, w))
      else if not p.writing && (length p.out == 0)
      then (let (r, w') = write bytes w in
          let (p', note) = after_write r bytes p in (note, (p', w')))
      else (let (p', note) = keep_rest bytes p in (note, (p', w)))

  -- After the `write` of `handleWrite`.
  unfoldable pub drained : Written → Port → Port × Option Notice
  unfolding close_in_loop
  drained (wrote n) p =
      let rest = drop n p.out in
      (record p { out = rest; writing = if length rest == 0 then false else p.writing }, none)
  drained would_block p = (p, none)
  drained _ p = close_in_loop "write-error" p

  unfoldable pub handle_write : Port × W → Option Notice × (Port × W)
  unfolding drained
  handle_write (p, w) =
      if not p.is_open
      then (none, (p, w))
      else if not p.writing
      then (none, (p, w))
      else (let (r, w') = write p.out w in let (p', note) = drained r p in (note, (p', w')))

-- What a `read` of `handleRead` comes to: bytes, 0, EAGAIN or EWOULDBLOCK, EINTR, another error.
pub data Read : Type 0 where
  got : List ℕ → Read
  at_eof drained_dry interrupted read_error : Read

-- The `for (;;)` of `handleRead`, with `dataCb_` and `closeInLoop` on a state of any kind.
module _ {S : Type 0} (on_data : List ℕ → S → S) (close : String → S → S) where
  unfoldable pub read_loop : List Read → S → S
  read_loop [] s = s
  read_loop (got bytes ∷ more) s = read_loop more (on_data bytes s)
  read_loop (at_eof ∷ more) s = close "eof" s
  read_loop (drained_dry ∷ more) s = s
  read_loop (interrupted ∷ more) s = read_loop more s
  read_loop (read_error ∷ more) s = close "read-error" s
