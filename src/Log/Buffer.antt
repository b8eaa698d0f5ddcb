-- ===== src/Log/Buffer.antt =====
-- `FixedBuffer` of log/LogStream.h: a buffer of a fixed size that takes what fits whole, and nothing
-- of what does not.
use chassis_host.Common.{
  ℕ, ◌-◌, ◌<◌, List, [], ◌++◌, length, ltb, if◌then◌else◌, arith, length-append,
}

-- `sizeof data_`, and the bytes in front of `cur_`.
pub record FixedBuffer : Type 0 where
  pub size : ℕ
  pub bytes : List ℕ

abbrev pub small_buffer : ℕ
small_buffer = 4096

abbrev pub large_buffer : ℕ
large_buffer = 4000000

abbrev pub avail : FixedBuffer → ℕ
avail b = b.size - length b.bytes

unfoldable pub append : List ℕ → FixedBuffer → FixedBuffer
append new b = if ltb (length new) (avail b) then record b { bytes = b.bytes ++ new } else b

abbrev pub reset : FixedBuffer → FixedBuffer
reset b = record b { bytes = [] }

abbrev pub empty_buffer : ℕ → FixedBuffer
empty_buffer size = record { size = size; bytes = [] }

-- A byte is left for good: the end of the buffer is never reached.
abbrev pub InBounds : FixedBuffer → Type 0
InBounds b = length b.bytes < b.size

pub append-InBounds : (new : List ℕ) (b : FixedBuffer) → InBounds b → InBounds (append new b)
unfolding append
append-InBounds new b h = ground (arith, length-append b.bytes new)
