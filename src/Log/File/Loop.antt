-- ===== src/Log/File/Loop.antt =====
-- The loop of `AppendFile::append`, by what it does.
use mathlib.Core.List.{append-nil}
use chassis_host.Common.{
  ℕ, suc, ◌+◌, ◌<◌, ◌≡◌, refl, sym, ap, ◌∙◌, some, List, [], ◌∷◌, ◌++◌, length, take, arith,
}
use chassis_host.Log.File.{Fwrite, append_loop, append_file}

take-all : (xs : List ℕ) → take (length xs) xs ≡ xs
take-all [] = refl
take-all (x ∷ xs) = ap (λ ys. x ∷ ys) (take-all xs)

loop-whole :
    (fuel : ℕ) (fwrite : Fwrite) (line out : List ℕ)
    → 0 < length line
    → fwrite line ≡ length line
    → append_loop (suc (suc fuel)) fwrite line 0 out ≡ (length line, out ++ line)
unfolding append_loop
loop-whole fuel fwrite line out pos h = ground (arith, pos, h, take-all line)

loop-partial :
    (fuel : ℕ) (fwrite : Fwrite) (line out : List ℕ)
    → fwrite line < length line
    → append_loop (suc fuel) fwrite line 0 out ≡ (0, out ++ take (fwrite line) line)
unfolding append_loop
loop-partial fuel fwrite line out h = ground (arith, h)

-- There is one `fwrite_unlocked` for a line. When it takes the whole line, all of it is in the stream
-- and is counted.
pub append_file-whole :
    (fwrite : Fwrite) (line out : List ℕ) (w : ℕ)
    → fwrite line ≡ length line
    → append_file fwrite line (record { fp = some out; written = w })
      ≡ some (record { fp = some (out ++ line); written = w + length line })
unfolding append_file append_loop
append_file-whole fwrite [] out w h =
    ap (λ l. some (record { fp = some l; written = w + 0 })) (sym (append-nil out))
append_file-whole fwrite (c ∷ cs) out w h =
    ap (λ q. some (record { fp = some q.1; written = w + q.0 }))
      (loop-whole (length cs) fwrite (c ∷ cs) out (omega arith) h)

-- When it takes less, the line is cut off there for good: nothing is tried again, and the bytes that
-- are in the stream are not counted.
pub append_file-partial :
    (fwrite : Fwrite) (line out : List ℕ) (w : ℕ)
    → fwrite line < length line
    → append_file fwrite line (record { fp = some out; written = w })
      ≡ some (record { fp = some (out ++ take (fwrite line) line); written = w })
unfolding append_file append_loop
append_file-partial fwrite [] out w h = absurd (omega arith)
append_file-partial fwrite (c ∷ cs) out w h =
    ap (λ q. some (record { fp = some q.1; written = w + q.0 }))
      (loop-partial (suc (length cs)) fwrite (c ∷ cs) out h)
    ∙ ap (λ k. some (record { fp = some (out ++ take (fwrite (c ∷ cs)) (c ∷ cs)); written = k }))
        {x = w + 0} {y = w} (omega arith)
