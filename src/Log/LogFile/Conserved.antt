-- ===== src/Log/LogFile/Conserved.antt =====
-- No byte is lost while the files open and take whole lines.
use mathlib.Core.List.{append_assoc, append-nil}
use chassis_host.Common.{
  ℕ, ◌+◌, ◌≡◌, inl, inr, refl, sym, ap, ◌∙◌, Bool, true, false, Option, none, some, List, [], ◌∷◌,
  ◌++◌, length, ltb, arith, All, Bool-cases,
}
use chassis_host.Log.File.{AppendFile, append_file}
use chassis_host.Log.File.Loop.{append_file-whole}
use chassis_host.Log.LogFile.{
  LogFile, Answers, roll_file, stream_of, flush, check_period, after_line, with_file,
  append_unlocked,
}

-- One call after the other; a fault ends the run.
abbrev pub append_lines : List (Answers × List ℕ) → Option LogFile → Option LogFile
append_lines ls none = none
append_lines [] (some lf) = some lf
append_lines ((env, line) ∷ more) (some lf) = append_lines more (append_unlocked env line lf)

abbrev pub contents : List AppendFile → List ℕ
contents [] = []
contents (f ∷ fs) = stream_of f.fp ++ contents fs

-- Everything written so far, from the first file to the present one.
abbrev pub all_bytes : LogFile → List ℕ
all_bytes lf = contents lf.closed ++ stream_of lf.file.fp

abbrev pub lines_of : List (Answers × List ℕ) → List ℕ
lines_of [] = []
lines_of ((env, line) ∷ more) = line ++ lines_of more

-- `fopen` succeeds and `fwrite_unlocked` takes the line.
abbrev pub Healthy : Answers × List ℕ → Type 0
Healthy (env, line) = (env.opens ≡ true) × (env.fwrite line ≡ length line)

abbrev opened : Option (List ℕ) → Bool
opened (some out) = true
opened none = false

abbrev pub IsOpen : LogFile → Type 0
IsOpen lf = opened lf.file.fp ≡ true

contents-append : (fs gs : List AppendFile) → contents (fs ++ gs) ≡ contents fs ++ contents gs
contents-append [] gs = refl
contents-append (f ∷ fs) gs =
    ap (λ l. stream_of f.fp ++ l) (contents-append fs gs)
    ∙ sym (append_assoc (stream_of f.fp) (contents fs) (contents gs))

-- What the part after the write keeps.
abbrev Same : LogFile → LogFile → Type 0
Same lf lf' = (all_bytes lf' ≡ all_bytes lf) × IsOpen lf'

roll_file-Same :
    (env : Answers) (lf : LogFile) → env.opens ≡ true → IsOpen lf → Same lf (roll_file env lf)
unfolding roll_file
roll_file-Same env lf opens is_open = elim (Bool-cases (ltb lf.last_roll env.roll_now)) [
  | inl later ↦ rw later (
      rw opens (
        ap (λ l. l ++ []) (contents-append lf.closed (lf.file ∷ []))
            ∙ append-nil (contents lf.closed ++ (stream_of lf.file.fp ++ []))
            ∙ ap (λ l. contents lf.closed ++ l) (append-nil (stream_of lf.file.fp)),
        refl,
      ))
  | inr same ↦ rw same (refl, is_open)
]

check_period-Same :
    (env : Answers) (lf : LogFile) → env.opens ≡ true → IsOpen lf → Same lf (check_period env lf)
unfolding check_period flush
check_period-Same env lf opens is_open =
    ground (arith, roll_file-Same env lf opens is_open, is_open)

after_line-Same :
    (env : Answers) (lf : LogFile) → env.opens ≡ true → IsOpen lf → Same lf (after_line env lf)
unfolding after_line
after_line-Same env lf opens is_open = ground (
  arith,
  roll_file-Same env lf opens is_open,
  check_period-Same env (record lf { count = 0 }) opens is_open,
  is_open,
)

append_file-opened :
    (env : Answers) (line : List ℕ) (fp : Option (List ℕ)) (w : ℕ)
    → env.fwrite line ≡ length line
    → opened fp ≡ true
    → append_file env.fwrite line (record { fp = fp; written = w })
      ≡ some (record { fp = some (stream_of fp ++ line); written = w + length line })
append_file-opened env line none w h is_open = absurd (ground (arith, is_open))
append_file-opened env line (some out) w h is_open = append_file-whole env.fwrite line out w h

pub append_unlocked-Healthy :
    (env : Answers) (line : List ℕ) (lf : LogFile)
    → Healthy (env, line)
    → IsOpen lf
    → (lf' : LogFile) × ((append_unlocked env line lf ≡ some lf')
        × ((all_bytes lf' ≡ all_bytes lf ++ line) × IsOpen lf'))
unfolding append_unlocked
append_unlocked-Healthy env line lf h is_open =
    let f : AppendFile = record {
      fp = some (stream_of lf.file.fp ++ line);
      written = lf.file.written + length line;
    } in
    let wrote : LogFile = record lf { file = f } in
    let (bytes, still_open) = after_line-Same env wrote h.0 refl in
    (
      after_line env wrote,
      (
        ap (with_file env lf) (append_file-opened env line lf.file.fp lf.file.written h.1 is_open),
        (bytes ∙ sym (append_assoc (contents lf.closed) (stream_of lf.file.fp) line), still_open),
      ),
    )

-- However a file is rolled, by size or by day: while every `fopen` succeeds and every
-- `fwrite_unlocked` takes its whole line, a run of calls ends without a fault, and the files, from the
-- first that was closed to the present one, hold the lines in order with no byte lost or doubled.
pub append_lines-all_bytes :
    (ls : List (Answers × List ℕ)) (lf : LogFile)
    → All Healthy ls
    → IsOpen lf
    → (lf' : LogFile) × ((append_lines ls (some lf) ≡ some lf')
        × (all_bytes lf' ≡ all_bytes lf ++ lines_of ls))
append_lines-all_bytes [] lf h is_open = (lf, (refl, sym (append-nil (all_bytes lf))))
append_lines-all_bytes ((env, line) ∷ more) lf h is_open =
    let (lf₁, (e₁, (bytes₁, is_open₁))) = append_unlocked-Healthy env line lf h.0 is_open in
    let (lf₂, (e₂, bytes₂)) = append_lines-all_bytes more lf₁ h.1 is_open₁ in
    (
      lf₂,
      (
        ap (append_lines more) e₁ ∙ e₂,
        bytes₂
            ∙ ap (λ l. l ++ lines_of more) bytes₁
            ∙ append_assoc (all_bytes lf) line (lines_of more),
      ),
    )
