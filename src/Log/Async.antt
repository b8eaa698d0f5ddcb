-- ===== src/Log/Async.antt =====
-- `AsyncLogging` of log/AsyncLogging.h and log/AsyncLogging.cc: the callers' `append` and the rounds
-- of the thread that writes. A release build is modelled: `assert` does nothing. What the mutex makes
-- one is one step; the wait on the condition may end at any time. The file is an interface.
pub mod Callers
pub mod Rounds
pub mod Kept
pub mod Backlog
pub mod FileSink
use chassis_host.Common.{
  ◌>>=◌, ℕ, ◌+◌, ◌-◌, ◌≡◌, Bool, true, false, Option, none, some, List, [], ◌∷◌, ◌++◌, length, take,
  ltb, if◌then◌else◌,
}
use chassis_host.Log.Buffer.{FixedBuffer, large_buffer, empty_buffer, avail, append, reset}

-- What `threadFunc` uses of its `LogFile`, and what the file promises of it.
pub record Sink : Type 1 where
  pub File : Type 0
  pub write : List ℕ → File → File
  pub flush : File → File
  pub contents : File → List ℕ
  pub contents-write : (bytes : List ℕ) (f : File) → contents (write bytes f) ≡ contents f ++ bytes
  pub contents-flush : (f : File) → contents (flush f) ≡ contents f

-- The members that the mutex guards; `none` is a null pointer.
pub record FrontEnd : Type 0 where
  pub current : Option FixedBuffer
  pub next : Option FixedBuffer
  pub buffers : List (Option FixedBuffer)

abbrev pub new_buffer : FixedBuffer
new_buffer = empty_buffer large_buffer

abbrev pub new_front : FrontEnd
new_front = record { current = some new_buffer; next = some new_buffer; buffers = [] }

-- The spare buffer, or a new one.
abbrev pub spare : Option FixedBuffer → FixedBuffer
spare (some b) = b
spare none = new_buffer

abbrev append_current : List ℕ → Option FixedBuffer → FrontEnd → Option FrontEnd
unfolding append
append_current line none f = none
append_current line (some cur) f =
    if ltb (length line) (avail cur)
    then some (record f { current = some (append line cur) })
    else some (record {
      current = some (append line (spare f.next));
      next = none;
      buffers = f.buffers ++ (some cur ∷ []);
    })

-- A null `currentBuffer_` is not defined: `none`.
unfoldable pub append_line : List ℕ → FrontEnd → Option FrontEnd
unfolding append
append_line line f = append_current line f.current f

-- Where `threadFunc` stands: at the test of the loop, before the locked part, before the writing,
-- before the return of the buffers, at its end.
pub data Phase : Type 0 where
  at_test : Phase
  before_lock : Phase
  before_write : Phase
  before_return : Phase
  ended : Phase

pub record BackEnd : Type 0 where
  pub phase : Phase
  pub new_buffer1 : Option FixedBuffer
  pub new_buffer2 : Option FixedBuffer
  pub to_write : List (Option FixedBuffer)

abbrev pub new_back : BackEnd
new_back = record {
  phase = at_test;
  new_buffer1 = some new_buffer;
  new_buffer2 = some new_buffer;
  to_write = [];
}

-- `if (!nextBuffer_) nextBuffer_ = std::move(newBuffer2)`.
abbrev lend : Option FixedBuffer → Option FixedBuffer → Option FixedBuffer × Option FixedBuffer
lend (some b) spare2 = (some b, spare2)
lend none spare2 = (spare2, none)

-- The locked part of a round.
unfoldable pub collect : FrontEnd → BackEnd → FrontEnd × BackEnd
collect f b =
    let (next, spare2) = lend f.next b.new_buffer2 in
    (
      record { current = b.new_buffer1; next = next; buffers = b.to_write },
      record {
        phase = before_write;
        new_buffer1 = none;
        new_buffer2 = spare2;
        to_write = f.buffers ++ (f.current ∷ []);
      },
    )

-- `buffersToWrite.back()` of an empty vector is not defined.
abbrev pub back_of :
    List (Option FixedBuffer) → Option (List (Option FixedBuffer) × Option FixedBuffer)
back_of [] = none
back_of (x ∷ []) = some ([], x)
back_of (x ∷ (y ∷ ys)) = do (front, last) ← back_of (y ∷ ys); some (x ∷ front, last)

-- A buffer is taken from the back and emptied; `reset` of a null pointer is not defined.
abbrev pub take_back : List (Option FixedBuffer) → Option (List (Option FixedBuffer) × FixedBuffer)
take_back bs = do (front, last) ← back_of bs; b ← last; some (front, reset b)

abbrev pub is_null : Option FixedBuffer → Bool
is_null none = true
is_null (some b) = false

abbrev refill1 : BackEnd → Option BackEnd
refill1 b = do
  (left, one) ← take_back b.to_write
  some (record b { to_write = left; new_buffer1 = some one })

abbrev refill2 : BackEnd → Option BackEnd
refill2 b = do
  (left, two) ← take_back b.to_write
  some (record b { to_write = left; new_buffer2 = some two })

-- `newBuffer1` gets a buffer only if at most 2 were written.
abbrev return_first : BackEnd → Option BackEnd
return_first b =
    if ltb 2 (length b.to_write)
    then some (record b { to_write = take 2 b.to_write })
    else (if is_null b.new_buffer1 then refill1 b else some b)

abbrev return_second : BackEnd → Option BackEnd
return_second b = if is_null b.new_buffer2 then refill2 b else some b

-- The return of the buffers, up to `buffersToWrite.clear()`.
unfoldable pub return_buffers : BackEnd → Option BackEnd
return_buffers b = do
  b₁ ← return_first b
  b₂ ← return_second b₁
  some (record b₂ { phase = at_test; to_write = [] })

-- The logger, and the thread with its file.
pub record AsyncLogging (sink : Sink) : Type 0 where
  pub running : Bool
  pub front : FrontEnd
  pub back : BackEnd
  pub file : sink.File

pub data LogStep : Type 0 where
  add_line : List ℕ → LogStep
  stop : LogStep
  round : LogStep

-- The storm protection: `notice` is the text of the line for a number of dropped buffers.
abbrev pub storm : ℕ
storm = 25

module _ (sink : Sink) (notice : ℕ → List ℕ) where
  abbrev pub start : sink.File → AsyncLogging sink
  start file = record { running = true; front = new_front; back = new_back; file = file }

  abbrev pub write_all : List (Option FixedBuffer) → sink.File → Option sink.File
  write_all [] file = some file
  write_all (none ∷ more) file = none
  write_all (some b ∷ more) file = write_all more (sink.write b.bytes file)

  -- The writing of a round.
  unfoldable pub write_round : List (Option FixedBuffer) → sink.File → Option sink.File
  write_round bs file =
      if ltb storm (length bs)
      then write_all (take 2 bs) (sink.write (notice (length bs - 2)) file)
      else write_all bs file

  -- What is left of the buffers for their return.
  abbrev pub left : List (Option FixedBuffer) → List (Option FixedBuffer)
  left bs = if ltb storm (length bs) then take 2 bs else bs

  abbrev round_at : Phase → AsyncLogging sink → Option (AsyncLogging sink)
  unfolding collect write_round return_buffers
  round_at at_test l = some (record l {
    back = record l.back { phase = if l.running then before_lock else ended };
    file = if l.running then l.file else sink.flush l.file;
  })
  round_at before_lock l =
      let (front, back) = collect l.front l.back in some (record l { front = front; back = back })
  round_at before_write l = do
    file ← write_round l.back.to_write l.file
    some (record l {
      back = record l.back { phase = before_return; to_write = left l.back.to_write };
      file = file;
    })
  round_at before_return l = do
    back ← return_buffers l.back
    some (record l { back = back; file = sink.flush l.file })
  round_at ended l = some l

  -- One step of a caller, of `stop`, or of the thread.
  unfoldable pub log_step : LogStep → AsyncLogging sink → Option (AsyncLogging sink)
  unfolding append_line collect write_round return_buffers
  log_step (add_line line) l = do
    front ← append_line line l.front
    some (record l { front = front })
  log_step stop l = some (record l { running = false })
  log_step round l = round_at l.back.phase l

  unfoldable pub log_steps : List LogStep → AsyncLogging sink → Option (AsyncLogging sink)
  unfolding log_step
  log_steps [] l = some l
  log_steps (x ∷ xs) l = do l₁ ← log_step x l; log_steps xs l₁
