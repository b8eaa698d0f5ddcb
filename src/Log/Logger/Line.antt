-- ===== src/Log/Logger/Line.antt =====
-- The line that a statement writes, as one text.
use chassis_host.Common.{
  ℕ, ◌+◌, ◌/◌, ◌≤◌, ◌<◌, ◌≡◌, ◌⊎◌, inl, inr, refl, sym, ap, ◌∙◌, List, [], ◌∷◌, length, ◌==◌, arith,
  Bool-cases,
}
use chassis_host.Log.Buffer.{small_buffer, empty_buffer}
use chassis_host.Log.Stream.{Item, put_all}
use chassis_host.Log.Stream.Whole.{line_of, put_all-Kept}
use chassis_host.Log.Level.{LogLevel, fatal}
use chassis_host.Log.Logger.{
  TimeCache, refresh, Statement, statement_items, output, flush_output, abort, after_output,
  log_statement,
}
use chassis_host.Log.Logger.Text.{line_text, statement_items-text}

-- The cache holds the text of its second, or has not been used.
abbrev pub CacheOk : (ℕ → List ℕ) → TimeCache → Type 0
CacheOk local_text cache =
    (cache.last_second ≡ 0) ⊎ (cache.time_text ≡ local_text cache.last_second)

abbrev Refreshed : (ℕ → List ℕ) → ℕ → TimeCache → Type 0
Refreshed local_text seconds cache =
    (cache.time_text ≡ local_text seconds) × (cache.last_second ≡ seconds)

used :
    (local_text : ℕ → List ℕ) (seconds : ℕ) (cache : TimeCache)
    → 0 < seconds
    → seconds ≡ cache.last_second
    → CacheOk local_text cache
    → Refreshed local_text seconds cache
used local_text seconds cache pos e (inl unused) = absurd (omega (arith, pos, e, unused))
used local_text seconds cache pos e (inr text) = (text ∙ ap local_text (sym e), sym e)

refresh-Refreshed :
    (local_text : ℕ → List ℕ) (seconds : ℕ) (cache : TimeCache)
    → 0 < seconds
    → CacheOk local_text cache
    → Refreshed local_text seconds (refresh local_text seconds cache)
unfolding refresh
refresh-Refreshed local_text seconds cache pos ok =
    elim (Bool-cases (seconds == cache.last_second)) [
      | inl same ↦ rw same (used local_text seconds cache pos (ground (arith, same)) ok)
      | inr other ↦ rw other (refl, refl)
    ]

after_output-fatal :
    (level : LogLevel) → level ≡ fatal → after_output level ≡ flush_output ∷ abort ∷ []
after_output-fatal level f = ap after_output f

after_output-other : (level : LogLevel) → ¬ (level ≡ fatal) → after_output level ≡ []
after_output-other fatal f = absurd (f refl)
after_output-other _ f = refl

put_all-whole :
    (items : List Item)
    → length (line_of items) + 32 ≤ small_buffer
    → (put_all (empty_buffer small_buffer) items).bytes ≡ line_of items
put_all-whole items fits =
    let (kept, (sub, (text, (bounds, all)))) =
      put_all-Kept (empty_buffer small_buffer) items (omega arith) in
    text ∙ whole kept all
  where
    whole :
        (kept : List Item)
        → (small_buffer < 0 + length (line_of items) + 32) ⊎ (kept ≡ items)
        → line_of kept ≡ line_of items
    whole kept (inl few) = absurd (omega (arith, fits, few))
    whole kept (inr all) = ap line_of all

log_statement-output :
    (local_text : ℕ → List ℕ) (micro tid : ℕ) (s : Statement) (cache : TimeCache)
    → CacheOk local_text cache
    → 1000000 ≤ micro
    → length (line_text (local_text (micro / 1000000)) micro tid s) + 32 ≤ 4096
    → ((log_statement local_text micro tid s cache).1
        ≡ output (line_text (local_text (micro / 1000000)) micro tid s) ∷ after_output s.level)
      × CacheOk local_text (log_statement local_text micro tid s cache).0
unfolding log_statement
log_statement-output local_text micro tid s cache ok late fits =
    let seconds : ℕ = micro / 1000000 in
    let (text, second) = refresh-Refreshed local_text seconds cache (omega (arith, late)) ok in
    let same = statement_items-text (local_text seconds) micro tid s in
    (
      ap
            (λ t.
              output (put_all (empty_buffer small_buffer) (statement_items t micro tid s)).bytes
              ∷ after_output s.level)
            text
          ∙ ap (λ t. output t ∷ after_output s.level)
              (put_all-whole (statement_items (local_text seconds) micro tid s)
                  (omega (arith, ap length same, fits))
                ∙ same),
      inr (text ∙ ap local_text (sym second)),
    )

-- A statement whose whole text leaves 32 bytes of the 4096 free hands on that text: the time of its own
-- second, whether it comes from the thread's cache or not, a point and six digits of microseconds, the
-- thread, the level, the error if there is one, the function if it is printed, the values, the file
-- without its folders, the line number, and the end of the line. FATAL goes on to flush and abort, and
-- no other level does. The cache stays right. (The clock has passed the first second of 1970.)
pub log_statement-line :
    (local_text : ℕ → List ℕ) (micro tid : ℕ) (s : Statement) (cache : TimeCache)
    → CacheOk local_text cache
    → 1000000 ≤ micro
    → length (line_text (local_text (micro / 1000000)) micro tid s) + 32 ≤ 4096
    → let r = log_statement local_text micro tid s cache in
      let text = line_text (local_text (micro / 1000000)) micro tid s in
      (s.level ≡ fatal → r.1 ≡ output text ∷ flush_output ∷ abort ∷ [])
      × (¬ (s.level ≡ fatal) → r.1 ≡ output text ∷ [])
      × CacheOk local_text r.0
log_statement-line local_text micro tid s cache ok late fits =
    let (said, good) = log_statement-output local_text micro tid s cache ok late fits in
    let text : List ℕ = line_text (local_text (micro / 1000000)) micro tid s in
    (
      λ f. said ∙ ap (λ t. output text ∷ t) (after_output-fatal s.level f),
      λ f. said ∙ ap (λ t. output text ∷ t) (after_output-other s.level f),
      good,
    )
