-- ===== src/Log/Async/Kept.antt =====
-- No line is lost between the callers and the file, however their calls and the thread's rounds
-- follow each other, while a round does not find more than two buffers.
use mathlib.Core.List.{append_assoc, append-nil}
use mathlib.Core.Path.{subst}
use chassis_host.Common.{
  ◌>>=◌, ℕ, ◌<◌, ◌≡◌, refl, sym, ap, ◌∙◌, false, Option, none, some, List, [], ◌∷◌, ◌++◌, length,
}
use chassis_host.Log.Buffer.{large_buffer}
use chassis_host.Log.Async.{
  Sink, AsyncLogging, LogStep, add_line, stop, round, log_step, log_steps, start,
}
use chassis_host.Log.Async.Callers.{quiet, front_text, append_line-Appended}
use chassis_host.Log.Async.Rounds.{testing, idle, unwritten, all_text, Shape, IsCalm, round-Rounded}

module _ (sink : Sink) (notice : ℕ → List ℕ) where
  -- What one step needs, and the same of each step of a run.
  abbrev pub Fits : LogStep → AsyncLogging sink → Type 0
  Fits (add_line line) l = length line < large_buffer
  Fits stop l = Unit
  Fits round l = IsCalm sink notice l.back.phase l.front

  abbrev pub Next : (AsyncLogging sink → Type 0) → Option (AsyncLogging sink) → Type 0
  Next P none = Unit
  Next P (some l) = P l

  abbrev pub AllFit : List LogStep → AsyncLogging sink → Type 0
  AllFit [] l = Unit
  AllFit (x ∷ xs) l = Fits x l × Next (AllFit xs) (log_step sink notice x l)

  abbrev pub text_of : LogStep → List ℕ
  text_of (add_line line) = line
  text_of _ = []

  abbrev pub lines_of : List LogStep → List ℕ
  lines_of [] = []
  lines_of (x ∷ xs) = text_of x ++ lines_of xs

  abbrev Stepped : LogStep → AsyncLogging sink → Type 0
  Stepped x l =
      (l' : AsyncLogging sink) × ((log_step sink notice x l ≡ some l')
        × (Shape sink notice l' × (all_text sink notice l' ≡ all_text sink notice l ++ text_of x)))

  log_step-Stepped :
      (x : LogStep) (l : AsyncLogging sink) → Fits x l → Shape sink notice l → Stepped x l
  unfolding log_step
  log_step-Stepped (add_line line) l fits (fs, bs) =
      let (f, (e, (shape, text))) = append_line-Appended line l.front fits fs in
      let kept : List ℕ = unwritten l.back.phase l.back.to_write in
      (
        record l { front = f },
        (
          ap (λ o. o >>= λ front. some (record l { front = front })) e,
          (
            (shape, bs),
            ap (λ t. sink.contents l.file ++ (kept ++ t)) text
                ∙ sym (
                    append_assoc (sink.contents l.file) (kept ++ front_text l.front) line
                    ∙ ap (λ t. sink.contents l.file ++ t)
                        (append_assoc kept (front_text l.front) line)),
          ),
        ),
      )
  log_step-Stepped stop l fits shape =
      (record l { running = false }, (refl, (shape, sym (append-nil (all_text sink notice l)))))
  log_step-Stepped round l fits (fs, bs) =
      let (l', (e, (shape, text))) =
        round-Rounded sink notice l.running l.front l.back l.file fits fs bs in
      (l', (e, (shape, text ∙ sym (append-nil (all_text sink notice l)))))

  log_steps-Shape :
      (xs : List LogStep) (l : AsyncLogging sink)
      → AllFit xs l
      → Shape sink notice l
      → (l' : AsyncLogging sink) × ((log_steps sink notice xs l ≡ some l')
          × (all_text sink notice l' ≡ all_text sink notice l ++ lines_of xs))
  unfolding log_steps
  log_steps-Shape [] l fit shape = (l, (refl, sym (append-nil (all_text sink notice l))))
  log_steps-Shape (x ∷ xs) l fit shape =
      let (l₁, (e₁, (shape₁, text₁))) = log_step-Stepped x l fit.0 shape in
      let fit₁ : AllFit xs l₁ = subst (Next (AllFit xs)) e₁ fit.1 in
      let (l₂, (e₂, text₂)) = log_steps-Shape xs l₁ fit₁ shape₁ in
      (
        l₂,
        (
          ap (λ o. o >>= log_steps sink notice xs) e₁ ∙ e₂,
          text₂
              ∙ ap (λ t. t ++ lines_of xs) text₁
              ∙ append_assoc (all_text sink notice l) (text_of x) (lines_of xs),
        ),
      )

  -- Whatever order the callers' lines, `stop` and the thread's steps come in: as long as each line is
  -- shorter than a buffer and no round finds more than two buffers, the run ends without the use of a
  -- null pointer, and what is in the file, in the thread's buffers and in the callers' buffers is what
  -- was in the file and then the lines of the calls, in order, with no byte lost or doubled.
  pub log_steps-all_text :
      (xs : List LogStep) (file : sink.File)
      → AllFit xs (start sink notice file)
      → (l : AsyncLogging sink) × ((log_steps sink notice xs (start sink notice file) ≡ some l)
          × (all_text sink notice l ≡ sink.contents file ++ lines_of xs))
  log_steps-all_text xs file fit =
      let (l, (e, text)) =
        log_steps-Shape xs (start sink notice file) fit (quiet refl, idle testing) in
      (l, (e, text ∙ ap (λ t. t ++ lines_of xs) (append-nil (sink.contents file))))
