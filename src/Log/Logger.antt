-- ===== src/Log/Logger.antt =====
-- `Logger` of log/Logger.h and log/Logger.cc: the line that a statement such as LOG_INFO writes. What
-- `localtime_r`, `strerror_r` and `gettid` answer are arguments; the file's name is as `__FILE__` gives
-- it.
pub mod Line
pub mod Text
use chassis_host.Common.{
  ℕ, zero, suc, ◌+◌, ◌*◌, ◌/◌, ◌%◌, Bool, true, false, not, Option, none, some, List, [], ◌∷◌, ◌++◌,
  leb, ◌==◌, if◌then◌else◌,
}
use chassis_host.Common.Int.{ℤ, pos}
use chassis_host.Log.Buffer.{FixedBuffer, small_buffer, empty_buffer}
use chassis_host.Log.Level.{LogLevel, trace, debug, info, warn, error, fatal, num_log_levels}
use chassis_host.Log.Stream.{Item, char, string, integer, put_all}

-- What stands behind the last `sep`, if there is one: `strrchr` and one more.
abbrev pub after_last : ℕ → List ℕ → Option (List ℕ)
after_last sep [] = none
after_last sep (c ∷ cs) = elim (after_last sep cs) [
  | none ↦ if c == sep then some cs else none
  | some rest ↦ some rest
]

abbrev pub or_whole : List ℕ → Option (List ℕ) → List ℕ
or_whole whole none = whole
or_whole whole (some rest) = rest

-- `SourceFile`: behind the last '/', and then behind the last '\\'.
unfoldable pub base_name : List ℕ → List ℕ
base_name file = let name = or_whole file (after_last 47 file) in or_whole name (after_last 92 name)

-- `kLogLevelNames[level]`.
abbrev pub level_name : LogLevel → List ℕ
level_name trace = 84 ∷ 82 ∷ 65 ∷ 67 ∷ 69 ∷ 32 ∷ []
level_name debug = 68 ∷ 69 ∷ 66 ∷ 85 ∷ 71 ∷ 32 ∷ []
level_name info = 73 ∷ 78 ∷ 70 ∷ 79 ∷ 32 ∷ 32 ∷ []
level_name warn = 87 ∷ 65 ∷ 82 ∷ 78 ∷ 32 ∷ 32 ∷ []
level_name error = 69 ∷ 82 ∷ 82 ∷ 79 ∷ 82 ∷ 32 ∷ []
level_name fatal = 70 ∷ 65 ∷ 84 ∷ 65 ∷ 76 ∷ 32 ∷ []
level_name num_log_levels = []

-- The thread's `t_time` and `t_lastSecond`.
pub record TimeCache : Type 0 where
  pub time_text : List ℕ
  pub last_second : ℕ

abbrev pub new_cache : TimeCache
new_cache = record { time_text = []; last_second = 0 }

abbrev pub micro_per_second : ℕ
micro_per_second = 1000 * 1000

-- The text of a second is made anew only when the second is another one.
unfoldable pub refresh : (ℕ → List ℕ) → ℕ → TimeCache → TimeCache
refresh local_text seconds cache =
    if seconds == cache.last_second
    then cache
    else record { time_text = local_text seconds; last_second = seconds }

-- ".%06d ".
abbrev pub micro_text : ℕ → List ℕ
micro_text n =
    46
    ∷ (48 + n / 100000 % 10)
    ∷ (48 + n / 10000 % 10)
    ∷ (48 + n / 1000 % 10)
    ∷ (48 + n / 100 % 10)
    ∷ (48 + n / 10 % 10)
    ∷ (48 + n % 10)
    ∷ 32
    ∷ []

-- A statement: its level, the saved `errno` with its text, the function's name where it is printed,
-- the values, the file and the line.
pub record Statement : Type 0 where
  pub level : LogLevel
  pub saved_errno : ℕ
  pub errno_text : List ℕ
  pub func : Option (List ℕ)
  pub values : List Item
  pub file : List ℕ
  pub line : ℕ

abbrev pub errno_items : ℕ → List ℕ → List Item
errno_items errno errno_text =
    if errno == 0
    then []
    else string (some errno_text)
      ∷ string (some (32 ∷ 40 ∷ 101 ∷ 114 ∷ 114 ∷ 110 ∷ 111 ∷ 61 ∷ []))
      ∷ integer (pos errno)
      ∷ string (some (41 ∷ 32 ∷ []))
      ∷ []

abbrev pub func_items : Option (List ℕ) → List Item
func_items none = []
func_items (some func) = char 91 ∷ string (some func) ∷ string (some (93 ∷ 32 ∷ [])) ∷ []

-- What the constructor of `Impl` writes.
abbrev pub head_items : List ℕ → ℕ → ℕ → Statement → List Item
head_items time_text micro tid s =
    string (some time_text)
    ∷ string (some (micro_text (micro % micro_per_second)))
    ∷ integer (pos tid)
    ∷ char 32
    ∷ string (some (level_name s.level))
    ∷ errno_items s.saved_errno s.errno_text

-- `finish`.
abbrev pub end_items : Statement → List Item
unfolding base_name
end_items s =
    string (some (32 ∷ 45 ∷ 32 ∷ []))
    ∷ string (some (base_name s.file))
    ∷ char 58
    ∷ integer (pos s.line)
    ∷ char 10
    ∷ []

abbrev pub statement_items : List ℕ → ℕ → ℕ → Statement → List Item
statement_items time_text micro tid s =
    head_items time_text micro tid s ++ (func_items s.func ++ (s.values ++ end_items s))

-- What the destructor does: `g_output`, and for FATAL `g_flush` and `abort`.
pub data Effect : Type 0 where
  output : List ℕ → Effect
  flush_output abort : Effect

abbrev pub after_output : LogLevel → List Effect
after_output fatal = flush_output ∷ abort ∷ []
after_output _ = []

-- The whole statement, by a thread whose id is `tid`, at `micro` microseconds.
unfoldable pub log_statement :
    (ℕ → List ℕ) → ℕ → ℕ → Statement → TimeCache → TimeCache × List Effect
unfolding refresh put_all
log_statement local_text micro tid s cache =
    let cache' = refresh local_text (micro / micro_per_second) cache in
    let buffer =
      put_all (empty_buffer small_buffer) (statement_items cache'.time_text micro tid s) in
    (cache', output buffer.bytes ∷ after_output s.level)

-- The order of the levels, and the test in front of every statement but LOG_SYSERR and LOG_SYSFATAL.
abbrev pub level_code : LogLevel → ℕ
level_code trace = 0
level_code debug = 1
level_code info = 2
level_code warn = 3
level_code error = 4
level_code fatal = 5
level_code num_log_levels = 6

unfoldable pub log_at :
    LogLevel
    → LogLevel
    → (TimeCache → TimeCache × List Effect)
    → TimeCache
    → TimeCache × List Effect
log_at log_level level statement cache =
    if leb (level_code log_level) (level_code level) then statement cache else (cache, [])
