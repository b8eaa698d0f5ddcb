-- ===== src/Log/LogFile/Fresh.antt =====
-- The first file of a log.
use mathlib.Core.List.{append_assoc, append-nil}
use chassis_host.Common.{
  ℕ, suc, ◌+◌, ◌≤◌, ◌<◌, ◌≡◌, sym, ap, ◌∙◌, true, some, List, [], ◌∷◌, ◌++◌, length, arith, All,
  length-append,
}
use chassis_host.Log.File.{open_file}
use chassis_host.Log.File.Loop.{append_file-whole}
use chassis_host.Log.LogFile.{
  LogFile, Answers, new_log_file, period, roll_file, check_period, after_line, append_unlocked,
  with_file,
}
use chassis_host.Log.LogFile.Conserved.{Healthy, append_lines, lines_of}

-- The file after `k` lines of together `out`, none of which was checked.
abbrev pub waiting : ℕ → ℕ → ℕ → ℕ → List ℕ → LogFile
waiting roll_size flush_interval n k out = record {
  roll_size = roll_size;
  flush_interval = flush_interval;
  check_every_n = n;
  count = k;
  file = record { fp = some out; written = length out };
  start_of_period = 0;
  last_roll = 0;
  last_flush = 0;
  closed = [];
  flushed = 0;
}

module _ (roll_size flush_interval n : ℕ) where
  wrote : (k : ℕ) (out line : List ℕ) → LogFile
  wrote k out line = record (waiting roll_size flush_interval n k out) {
    file = record { fp = some (out ++ line); written = length out + length line };
  }

  append-waiting :
      (env : Answers) (line : List ℕ) (k : ℕ) (out : List ℕ)
      → Healthy (env, line)
      → k + 1 < n
      → length out + length line ≤ roll_size
      → append_unlocked env line (waiting roll_size flush_interval n k out)
        ≡ some (waiting roll_size flush_interval n (k + 1) (out ++ line))
  unfolding append_unlocked after_line
  append-waiting env line k out h early room =
      let lf : LogFile = waiting roll_size flush_interval n k out in
      ap (with_file env lf) (append_file-whole env.fwrite line out (length out) h.1)
      ∙ ground (arith, early, room, length-append out line)

  append-last :
      (env : Answers) (line : List ℕ) (k : ℕ) (out : List ℕ)
      → Healthy (env, line)
      → k + 1 ≡ n
      → length out + length line ≤ roll_size
      → 86400 ≤ env.now
      → 0 < env.roll_now
      → append_unlocked env line (waiting roll_size flush_interval n k out)
        ≡ some (record {
          roll_size = roll_size;
          flush_interval = flush_interval;
          check_every_n = n;
          count = 0;
          file = open_file true;
          start_of_period = period env.roll_now;
          last_roll = env.roll_now;
          last_flush = env.roll_now;
          closed = record { fp = some (out ++ line); written = length out + length line } ∷ [];
          flushed = 0;
        })
  unfolding append_unlocked after_line check_period roll_file
  append-last env line k out h last room day later =
      let lf : LogFile = waiting roll_size flush_interval n k out in
      ap (with_file env lf) (append_file-whole env.fwrite line out (length out) h.1)
      ∙ ground (arith, last, room, day, later, h.0)

  append_lines-waiting :
      (ls : List (Answers × List ℕ)) (k : ℕ) (out : List ℕ)
      → All Healthy ls
      → k + length ls < n
      → length out + length (lines_of ls) ≤ roll_size
      → append_lines ls (some (waiting roll_size flush_interval n k out))
        ≡ some (waiting roll_size flush_interval n (k + length ls) (out ++ lines_of ls))
  append_lines-waiting [] k out h early room =
      ap (λ q. some (waiting roll_size flush_interval n q out)) {x = k} {y = k + 0} (omega arith)
      ∙ ap (λ l. some (waiting roll_size flush_interval n (k + 0) l)) (sym (append-nil out))
  append_lines-waiting ((env, line) ∷ more) k out h early room =
      let grown = length-append line (lines_of more) in
      ap (append_lines more)
        (append-waiting env line k out h.0 (omega arith) (omega (arith, grown)))
      ∙ append_lines-waiting more (k + 1) (out ++ line) h.1 (omega arith)
          (omega (arith, grown, length-append out line))
      ∙ ap (λ q. some (waiting roll_size flush_interval n q ((out ++ line) ++ lines_of more)))
          {x = k + 1 + length more} {y = k + suc (length more)} (omega arith)
      ∙ ap (λ l. some (waiting roll_size flush_interval n (k + suc (length more)) l))
          (append_assoc out line (lines_of more))

  -- The first file of a log is closed at its `checkEveryN_`-th line, on the day on which it was opened
  -- and however little is in it: the constructor leaves `lastRoll_` and `startOfPeriod_` at 0, whatever
  -- time `getLogFileName` has read. Up to that line nothing is closed. (The files open and take whole
  -- lines, the clock has left the first day of 1970, and the size limit is not reached.)
  pub append_lines-first_roll :
      (opened_at : ℕ) (ls : List (Answers × List ℕ)) (env : Answers) (line : List ℕ)
      → All Healthy ls
      → Healthy (env, line)
      → length ls + 1 ≡ n
      → length (lines_of ls) + length line ≤ roll_size
      → 86400 ≤ env.now
      → 0 < env.roll_now
      → let first : LogFile = new_log_file roll_size flush_interval n true opened_at in
        let before : LogFile = waiting roll_size flush_interval n (length ls) (lines_of ls) in
        (append_lines ls (some first) ≡ some before)
        × (append_unlocked env line before
            ≡ some (record before {
              count = 0;
              file = open_file true;
              start_of_period = period env.roll_now;
              last_roll = env.roll_now;
              last_flush = env.roll_now;
              closed =
                  record {
                    fp = some (lines_of ls ++ line);
                    written = length (lines_of ls) + length line;
                  }
                  ∷ [];
            }))
  unfolding new_log_file
  append_lines-first_roll opened_at ls env line hs h last room day later = (
    append_lines-waiting ls 0 [] hs (omega arith) (omega arith)
        ∙ ap (λ q. some (waiting roll_size flush_interval n q (lines_of ls))) {x = 0 + length ls}
            {y = length ls} (omega arith),
    append-last env line (length ls) (lines_of ls) h last room day later,
  )
