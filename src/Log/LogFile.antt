-- ===== src/Log/LogFile.antt =====
-- `LogFile` of log/LogFile.h and log/LogFile.cc: the log file that is rolled by size and by day. The
-- mutex orders the calls and is left out. The clock, the host and the file system are arguments.
pub mod Name
pub mod Conserved
pub mod Fresh
use chassis_host.Common.{
  ℕ, ◌+◌, ◌-◌, ◌*◌, ◌/◌, Bool, true, false, not, Option, none, some, List, [], ◌∷◌, ◌++◌, length,
  ltb, leb, ◌==◌, if◌then◌else◌,
}
use chassis_host.Log.File.{AppendFile, Fwrite, open_file, append_file}

abbrev pub roll_per_seconds : ℕ
roll_per_seconds = 24 * 60 * 60

-- The members, and what stands outside: the files that were closed, in order, and the bytes of the
-- present file that the last `fflush` has handed on.
pub record LogFile : Type 0 where
  pub roll_size : ℕ
  pub flush_interval : ℕ
  pub check_every_n : ℕ
  pub count : ℕ
  pub file : AppendFile
  pub start_of_period : ℕ
  pub last_roll : ℕ
  pub last_flush : ℕ
  pub closed : List AppendFile
  pub flushed : ℕ

abbrev pub period : ℕ → ℕ
period now = now / roll_per_seconds * roll_per_seconds

-- The initializers run in the order of the members: `file_`, whose argument `getLogFileName` has
-- written `lastRoll_`, stands before `startOfPeriod_`, `lastRoll_` and `lastFlush_`.
unfoldable pub new_log_file : ℕ → ℕ → ℕ → Bool → ℕ → LogFile
new_log_file roll_size flush_interval check_every_n opened now =
    let named : LogFile = record {
      roll_size = roll_size;
      flush_interval = flush_interval;
      check_every_n = check_every_n;
      count = 0;
      file = open_file opened;
      start_of_period = 0;
      last_roll = now;
      last_flush = 0;
      closed = [];
      flushed = 0;
    } in
    let zeroed : LogFile = record named { start_of_period = 0; last_roll = 0; last_flush = 0 } in
    record zeroed { start_of_period = period zeroed.last_roll }

-- What the calls of one `append` answer: `fwrite_unlocked`, `::time` of the check and of
-- `getLogFileName`, and whether `fopen` succeeds.
pub record Answers : Type 0 where
  pub fwrite : Fwrite
  pub now : ℕ
  pub roll_now : ℕ
  pub opens : Bool

unfoldable pub roll_file : Answers → LogFile → LogFile
roll_file env lf =
    if ltb lf.last_roll env.roll_now
    then record lf {
      last_roll = env.roll_now;
      last_flush = env.roll_now;
      start_of_period = period env.roll_now;
      file = open_file env.opens;
      closed = lf.closed ++ (lf.file ∷ []);
      flushed = 0;
    }
    else lf

abbrev pub stream_of : Option (List ℕ) → List ℕ
stream_of (some out) = out
stream_of none = []

-- `flush` does nothing on a file that is not open.
unfoldable pub flush : LogFile → LogFile
flush lf = record lf { flushed = length (stream_of lf.file.fp) }

-- The check of every `checkEveryN_`-th line.
unfoldable pub check_period : Answers → LogFile → LogFile
unfolding roll_file flush
check_period env lf =
    if not (period env.now == lf.start_of_period)
    then roll_file env lf
    else if ltb lf.flush_interval (env.now - lf.last_flush)
    then flush (record lf { last_flush = env.now })
    else lf

-- What follows the `file_->append` of `append_unlocked`.
unfoldable pub after_line : Answers → LogFile → LogFile
unfolding roll_file check_period
after_line env lf =
    if ltb lf.roll_size lf.file.written
    then roll_file env lf
    else if leb lf.check_every_n (lf.count + 1)
    then check_period env (record lf { count = 0 })
    else record lf { count = lf.count + 1 }

abbrev pub with_file : Answers → LogFile → Option AppendFile → Option LogFile
unfolding after_line
with_file env lf none = none
with_file env lf (some f) = some (after_line env (record lf { file = f }))

unfoldable pub append_unlocked : Answers → List ℕ → LogFile → Option LogFile
unfolding append_file after_line
append_unlocked env line lf = with_file env lf (append_file env.fwrite line lf.file)
