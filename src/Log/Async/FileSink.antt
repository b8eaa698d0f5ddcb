-- ===== src/Log/Async/FileSink.antt =====
-- The `LogFile` that `threadFunc` makes, as the file of the logger, on a disk that takes everything.
use chassis_host.Common.{ℕ, ◌≡◌, refl, List, ◌++◌}
use chassis_host.Log.LogFile.{LogFile, Answers, flush}
use chassis_host.Log.LogFile.Conserved.{Healthy, IsOpen, all_bytes, append_unlocked-Healthy}
use chassis_host.Log.Async.{Sink}

module _ (answers : LogFile → List ℕ → Answers)
    (healthy : (lf : LogFile) (line : List ℕ) → Healthy (answers lf line, line)) where
  abbrev pub OpenFile : Type 0
  OpenFile = (lf : LogFile) × IsOpen lf

  abbrev pub write_line : List ℕ → OpenFile → OpenFile
  write_line line (lf, is_open) =
      let (lf', (e, (bytes, still_open))) =
        append_unlocked-Healthy (answers lf line) line lf (healthy lf line) is_open in
      (lf', still_open)

  abbrev pub flush_file : OpenFile → OpenFile
  unfolding flush
  flush_file (lf, is_open) = (flush lf, is_open)

  pub write_line-bytes :
      (line : List ℕ) (f : OpenFile) → all_bytes (write_line line f).0 ≡ all_bytes f.0 ++ line
  write_line-bytes line (lf, is_open) =
      (append_unlocked-Healthy (answers lf line) line lf (healthy lf line) is_open).1.1.0

  pub flush_file-bytes : (f : OpenFile) → all_bytes (flush_file f).0 ≡ all_bytes f.0
  unfolding flush
  flush_file-bytes f = refl

  abbrev pub log_file_sink : Sink
  log_file_sink = record {
    File = OpenFile;
    write = write_line;
    flush = flush_file;
    contents = λ f. all_bytes f.0;
    contents-write = write_line-bytes;
    contents-flush = flush_file-bytes;
  }
