-- ===== src/Log/File.antt =====
-- `AppendFile` of log/FileUtil.h and log/FileUtil.cc: a file that bytes are written to the end of.
-- What `fopen` and `fwrite_unlocked` answer are arguments.
pub mod Loop
use chassis_host.Common.{
  ℕ, zero, suc, ◌+◌, ◌-◌, Bool, true, false, Option, none, some, List, [], ◌∷◌, ◌++◌, length, take,
  drop, ltb, ◌==◌, if◌then◌else◌,
}

-- `fp_` is null, or open with the bytes that the stream has taken; `writtenBytes()`.
pub record AppendFile : Type 0 where
  pub fp : Option (List ℕ)
  pub written : ℕ

abbrev pub open_file : Bool → AppendFile
open_file opened = record { fp = if opened then some [] else none; written = 0 }

-- The number of bytes of `logline + written` that one `fwrite_unlocked` takes.
abbrev pub Fwrite : Type 0
Fwrite = List ℕ → ℕ

-- `while (written < len)`: `written` when the loop ends, and the bytes of the stream.
unfoldable pub append_loop : ℕ → Fwrite → List ℕ → ℕ → List ℕ → ℕ × List ℕ
append_loop zero fwrite logline written out = (written, out)
append_loop (suc fuel) fwrite logline written out =
    let remain = drop written logline in
    let n = fwrite remain in
    let rest = append_loop fuel fwrite logline (written + n) (out ++ take n remain) in
    if ltb written (length logline)
    then if n == length remain then rest else (written, out ++ take n remain)
    else (written, out)

-- `fwrite_unlocked` and `ferror` on a null `fp_` are not defined: the `none` at the end.
abbrev append_to : Fwrite → List ℕ → ℕ → Option (List ℕ) → Option AppendFile
append_to fwrite logline w (some out) =
    let (written, out') = append_loop (suc (length logline)) fwrite logline 0 out in
    some (record { fp = some out'; written = w + written })
append_to fwrite logline w none =
    if ltb 0 (length logline) then none else some (record { fp = none; written = w })

unfoldable pub append_file : Fwrite → List ℕ → AppendFile → Option AppendFile
unfolding append_loop
append_file fwrite logline f = append_to fwrite logline f.written f.fp
