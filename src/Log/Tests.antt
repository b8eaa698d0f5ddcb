-- ===== src/Log/Tests.antt =====
-- Runs of the log's code on small inputs, and the theorems at concrete inputs.
use chassis_host.Common.{
  ◌/◌, ◌+◌, inr, ℕ, ◌≤◌, ◌≡◌, refl, true, none, some, List, [], ◌∷◌, ◌++◌, length, map, arith, All,
}
use chassis_host.Common.Int.{pos, negsuc}
use chassis_host.Log.Buffer.{small_buffer, empty_buffer, append}
use chassis_host.Log.Convert.{convert, write_digits, turn_round}
use chassis_host.Log.Convert.Value.{read_digits, IsDigit, convert-magnitude}
use chassis_host.Log.Stream.{Item, bool, string, integer, pointer_text, put_all, put}
use chassis_host.Log.Stream.Whole.{Kept, put_all-Kept}
use chassis_host.Log.File.{open_file, append_file, append_loop}
use chassis_host.Log.LogFile.{LogFile, Answers, new_log_file, append_unlocked, period}
use chassis_host.Log.LogFile.Conserved.{append_lines, all_bytes, lines_of, append_lines-all_bytes}
use chassis_host.Log.LogFile.Fresh.{waiting, append_lines-first_roll}
use chassis_host.Log.LogFile.Name.{get_log_file_name, erase_domain}
use chassis_host.Log.Async.{
  Sink, AsyncLogging, LogStep, add_line, stop, round, start, log_step, log_steps, append_line,
  collect, return_buffers, new_front, new_buffer, write_round,
}
use chassis_host.Log.Async.Rounds.{all_text}
use chassis_host.Log.Async.Kept.{AllFit, lines_of as lines_of_steps, log_steps-all_text}
use chassis_host.Log.Async.Backlog.{full, log_steps-null}
use chassis_host.Log.Async.FileSink.{log_file_sink}
use chassis_host.Log.Logger.{
  TimeCache, Statement, base_name, output, flush_output, abort, log_statement,
}
use chassis_host.Log.Logger.Text.{line_text}
use chassis_host.Log.Logger.Line.{CacheOk, log_statement-line}
use chassis_host.Log.Level.{warn, info, fatal, num_log_levels, level_from_string, is_name}

convert_907 : convert (pos 907) ≡ 57 ∷ 48 ∷ 55 ∷ []
unfolding convert write_digits turn_round
convert_907 = refl

-- -45 comes out as "45".
convert_-45 : convert (negsuc 44) ≡ 52 ∷ 53 ∷ []
unfolding convert write_digits turn_round
convert_-45 = refl

convert-magnitude_example :
    (read_digits 0 (convert (negsuc 44)) ≡ 45)
    × (All IsDigit (convert (negsuc 44)) × (length (convert (negsuc 44)) ≤ 20))
convert-magnitude_example = convert-magnitude (negsuc 44) (omega arith)

pointer_text_7f3a : pointer_text 0x7f3a ≡ 48 ∷ 120 ∷ 55 ∷ 102 ∷ 51 ∷ 97 ∷ []
pointer_text_7f3a = refl

-- "n=" and a number, a flag and a null string.
abbrev line_items : List Item
line_items = string (some (110 ∷ 61 ∷ [])) ∷ (integer (pos 42) ∷ (bool true ∷ (string none ∷ [])))

put_all_bytes :
    (put_all (empty_buffer small_buffer) line_items).bytes
    ≡ 110 ∷ 61 ∷ 52 ∷ 50 ∷ 49 ∷ 40 ∷ 110 ∷ 117 ∷ 108 ∷ 108 ∷ 41 ∷ []
unfolding put_all put append convert write_digits turn_round
put_all_bytes = refl

put_all-Kept_example :
    (kept : List Item) × Kept
      (empty_buffer small_buffer)
      line_items
      (put_all (empty_buffer small_buffer) line_items)
      kept
put_all-Kept_example = put_all-Kept (empty_buffer small_buffer) line_items (omega arith)

-- A disk that takes two bytes of each line: the third is lost, and none is counted.
append_file_short :
    append_file (λ line. 2) (65 ∷ 66 ∷ 67 ∷ []) (record { fp = some (64 ∷ []); written = 1 })
    ≡ some (record { fp = some (64 ∷ 65 ∷ 66 ∷ []); written = 1 })
unfolding append_file append_loop
append_file_short = refl

-- A disk that takes everything, at noon of the second day of 1970, and one second later.
abbrev noon : Answers
noon = record { fwrite = length; now = 129600; roll_now = 129600; opens = true }

abbrev a_second_later : Answers
a_second_later = record { fwrite = length; now = 129601; roll_now = 129601; opens = true }

abbrev noon_file : LogFile
noon_file = waiting 4 3 3 0 []

abbrev four_lines : List (Answers × List ℕ)
four_lines =
    (noon, 65 ∷ 66 ∷ 67 ∷ [])
    ∷ (noon, 68 ∷ 69 ∷ [])
    ∷ (a_second_later, 70 ∷ 71 ∷ 72 ∷ 73 ∷ 74 ∷ [])
    ∷ (a_second_later, 75 ∷ [])
    ∷ []

append_lines-all_bytes_example :
    (lf : LogFile) × ((append_lines four_lines (some noon_file) ≡ some lf)
      × (all_bytes lf ≡ all_bytes noon_file ++ lines_of four_lines))
append_lines-all_bytes_example =
    append_lines-all_bytes four_lines noon_file
      ((refl, refl), ((refl, refl), ((refl, refl), ((refl, refl), tt)))) refl

-- Opened at noon, with a limit of 1000 bytes and a check at the second line: closed there.
append_lines-first_roll_example :
    let first : LogFile = new_log_file 1000 3 2 true 129600 in
    let before : LogFile = waiting 1000 3 2 1 (65 ∷ []) in
    (append_lines ((noon, 65 ∷ []) ∷ []) (some first) ≡ some before)
    × (append_unlocked a_second_later (66 ∷ []) before
        ≡ some (record before {
          count = 0;
          file = open_file true;
          start_of_period = period 129601;
          last_roll = 129601;
          last_flush = 129601;
          closed = record { fp = some (65 ∷ 66 ∷ []); written = 2 } ∷ [];
        }))
append_lines-first_roll_example =
    append_lines-first_roll 1000 3 2 129600 ((noon, 65 ∷ []) ∷ []) a_second_later (66 ∷ [])
      ((refl, refl), tt) (refl, refl) (omega arith) (omega arith) (omega arith) (omega arith)

-- ".domain" goes, and no point stands between the time and the host.
get_log_file_name_text :
    get_log_file_name (109 ∷ []) (50 ∷ []) (some (104 ∷ 46 ∷ 100 ∷ [])) (55 ∷ [])
    ≡ 109 ∷ 46 ∷ 50 ∷ 104 ∷ 46 ∷ 55 ∷ 46 ∷ 108 ∷ 111 ∷ 103 ∷ []
unfolding get_log_file_name erase_domain
get_log_file_name_text = refl

-- The logger over a log file.
abbrev a_notice : ℕ → List ℕ
a_notice n = 33 ∷ []

abbrev noon_sink : Sink
noon_sink = log_file_sink (λ lf line. noon) (λ lf line. (refl, refl))

abbrev two_rounds : List LogStep
two_rounds =
    add_line (65 ∷ [])
    ∷ round
    ∷ round
    ∷ add_line (66 ∷ [])
    ∷ round
    ∷ stop
    ∷ round
    ∷ add_line (67 ∷ [])
    ∷ round
    ∷ []

two_rounds_fit : AllFit noon_sink a_notice two_rounds (start noon_sink a_notice (noon_file, refl))
unfolding log_step append_line collect write_round return_buffers append
two_rounds_fit =
    (omega arith, (tt, (omega arith, (omega arith, (tt, (tt, (tt, (omega arith, (tt, tt)))))))))

log_steps-all_text_example :
    (l : AsyncLogging noon_sink) × ((log_steps noon_sink a_notice two_rounds
          (start noon_sink a_notice (noon_file, refl))
        ≡ some l)
      × (all_text noon_sink a_notice l
          ≡ noon_sink.contents (noon_file, refl) ++ lines_of_steps noon_sink a_notice two_rounds))
log_steps-all_text_example =
    log_steps-all_text noon_sink a_notice two_rounds (noon_file, refl) two_rounds_fit

log_steps-null_example :
    log_steps noon_sink a_notice (round ∷ (round ∷ (round ∷ (round ∷ (add_line (65 ∷ []) ∷ []))))) (
      full noon_sink a_notice new_front none
        (map (λ b. some b) (new_buffer ∷ (new_buffer ∷ (new_buffer ∷ []))))
        (noon_file, refl))
    ≡ none
log_steps-null_example =
    log_steps-null noon_sink a_notice new_front new_buffer new_buffer new_buffer [] none
      (noon_file, refl) (65 ∷ []) (omega arith)

-- A warning with one value, at 90 microseconds past second 5, by thread 7, in "a/b.c", line 9; the
-- cache has the text "5" for this second.
abbrev warning : Statement
warning = record {
  level = warn;
  saved_errno = 0;
  errno_text = [];
  func = none;
  values = integer (pos 42) ∷ [];
  file = 97 ∷ 47 ∷ 98 ∷ 46 ∷ 99 ∷ [];
  line = 9;
}

abbrev seconds_text : ℕ → List ℕ
seconds_text n = (48 + n) ∷ []

abbrev fifth : TimeCache
fifth = record { time_text = 53 ∷ []; last_second = 5 }

-- "5.000090 7 WARN  42 - b.c:9" and the end of the line.
warning_text :
    line_text (seconds_text 5) 5000090 7 warning
    ≡ 53 ∷ 46 ∷ 48 ∷ 48 ∷ 48 ∷ 48 ∷ 57 ∷ 48 ∷ 32 ∷ 55 ∷ 32 ∷ 87 ∷ 65 ∷ 82 ∷ 78 ∷ 32 ∷ 32 ∷ 52 ∷ 50
      ∷ 32 ∷ 45 ∷ 32 ∷ 98 ∷ 46 ∷ 99 ∷ 58 ∷ 57 ∷ 10 ∷ []
unfolding convert write_digits turn_round base_name
warning_text = refl

warning_fits : length (line_text (seconds_text (5000090 / 1000000)) 5000090 7 warning) + 32 ≤ 4096
unfolding convert write_digits turn_round base_name
warning_fits = omega arith

log_statement-line_example :
    let r = log_statement seconds_text 5000090 7 warning fifth in
    let text = line_text (seconds_text (5000090 / 1000000)) 5000090 7 warning in
    (warn ≡ fatal → r.1 ≡ output text ∷ flush_output ∷ abort ∷ [])
    × (¬ (warn ≡ fatal) → r.1 ≡ output text ∷ [])
    × CacheOk seconds_text r.0
log_statement-line_example =
    log_statement-line seconds_text 5000090 7 warning fifth (inr refl) (omega arith) warning_fits

-- "Info", and "Info ".
level_from_string_info : level_from_string (some (73 ∷ 110 ∷ 102 ∷ 111 ∷ [])) ≡ info
unfolding level_from_string is_name
level_from_string_info = refl

level_from_string_spaces :
    level_from_string (some (73 ∷ 110 ∷ 102 ∷ 111 ∷ 32 ∷ [])) ≡ num_log_levels
unfolding level_from_string is_name
level_from_string_spaces = refl
