-- ===== src/Log/Async/Backlog.antt =====
-- A round that finds more than two buffers.
use mathlib.Core.List.{append_assoc, append-nil}
use chassis_host.Common.{
  ◌>>=◌, ℕ, suc, ◌-◌, ◌<◌, ◌≤◌, ◌≡◌, refl, sym, ap, ◌∙◌, true, Option, none, some, List, [], ◌∷◌,
  ◌++◌, map, length, le→ltb, lt→ltb, arith,
}
use chassis_host.Log.Buffer.{FixedBuffer, reset}
use chassis_host.Log.Async.{
  Sink, FrontEnd, at_test, before_write, before_return, AsyncLogging, LogStep, add_line, round,
  write_all, write_round, log_step, log_steps, storm,
}
use chassis_host.Log.Async.Callers.{texts}

length-map : (bs : List FixedBuffer) → length (map (λ b. some b) bs) ≡ length bs
length-map [] = refl
length-map (b ∷ bs) = ap suc (length-map bs)

module _ (sink : Sink) (notice : ℕ → List ℕ) where
  -- What `write_all` does to the contents.
  abbrev Wrote : List (Option FixedBuffer) → sink.File → List ℕ → Type 0
  Wrote bs file text =
      (file' : sink.File) × ((write_all sink notice bs file ≡ some file')
        × (sink.contents file' ≡ sink.contents file ++ text))

  write_all-Wrote :
      (bs : List FixedBuffer) (file : sink.File)
      → Wrote (map (λ b. some b) bs) file (texts (map (λ b. some b) bs))
  write_all-Wrote [] file = (file, (refl, sym (append-nil (sink.contents file))))
  write_all-Wrote (b ∷ bs) file =
      let (file', (e, text)) = write_all-Wrote bs (sink.write b.bytes file) in
      (
        file',
        (
          e,
          text
              ∙ ap (λ t. t ++ texts (map (λ b. some b) bs)) (sink.contents-write b.bytes file)
              ∙ append_assoc (sink.contents file) b.bytes (texts (map (λ b. some b) bs)),
        ),
      )

  -- Of more than 25 waiting buffers a round writes the first two, which are the oldest, behind a line
  -- that reports the number of the others. All those after the second are never written.
  pub write_round-storm :
      (a b : FixedBuffer) (bs : List FixedBuffer) (file : sink.File)
      → 23 < length bs
      → (file' : sink.File) × ((write_round sink notice (map (λ x. some x) (a ∷ (b ∷ bs))) file
            ≡ some file')
          × (sink.contents file'
              ≡ sink.contents file ++ (notice (length bs) ++ (a.bytes ++ b.bytes))))
  unfolding write_round
  write_round-storm a b bs file many =
      let all : List (Option FixedBuffer) = map (λ x. some x) (a ∷ (b ∷ bs)) in
      let n : length all - 2 ≡ length bs = omega (arith, length-map bs) in
      let line : List ℕ = notice (length bs) in
      let (file', (e, text)) = write_all-Wrote (a ∷ (b ∷ [])) (sink.write line file) in
      (
        file',
        (
          rw (lt→ltb storm (length all) (omega (arith, many, length-map bs))) (
              ap (λ k. write_all sink notice (some a ∷ (some b ∷ [])) (sink.write (notice k) file))
                n
              ∙ e),
          text
              ∙ ap (λ t. sink.contents (sink.write line file) ++ (a.bytes ++ t))
                  (append-nil b.bytes)
              ∙ ap (λ t. t ++ (a.bytes ++ b.bytes)) (sink.contents-write line file)
              ∙ append_assoc (sink.contents file) line (a.bytes ++ b.bytes),
        ),
      )

  -- The states of the thread on the way.
  abbrev pub full :
      FrontEnd → Option FixedBuffer → List (Option FixedBuffer) → sink.File → AsyncLogging sink
  full f spare2 bs file = record {
    running = true;
    front = f;
    back = record { phase = before_write; new_buffer1 = none; new_buffer2 = spare2; to_write = bs };
    file = file;
  }

  abbrev held :
      FrontEnd → Option FixedBuffer → List (Option FixedBuffer) → sink.File → AsyncLogging sink
  held f spare2 bs file = record {
    running = true;
    front = f;
    back = record {
      phase = before_return;
      new_buffer1 = none;
      new_buffer2 = spare2;
      to_write = bs;
    };
    file = file;
  }

  abbrev bare : FrontEnd → Option FixedBuffer → sink.File → AsyncLogging sink
  bare f spare2 file = record {
    running = true;
    front = f;
    back = record { phase = at_test; new_buffer1 = none; new_buffer2 = spare2; to_write = [] };
    file = file;
  }

  full-held :
      (f : FrontEnd) (bs : List FixedBuffer) (spare2 : Option FixedBuffer) (file file' : sink.File)
      → length bs ≤ 25
      → write_all sink notice (map (λ b. some b) bs) file ≡ some file'
      → log_step sink notice round (full f spare2 (map (λ b. some b) bs) file)
        ≡ some (held f spare2 (map (λ b. some b) bs) file')
  unfolding log_step
  full-held f bs spare2 file file' few e =
      let all : List (Option FixedBuffer) = map (λ b. some b) bs in
      rw (le→ltb storm (length all) (omega (arith, few, length-map bs)))
        (ap (λ o. o >>= λ file. some (held f spare2 all file)) e)

  held-bare :
      (f : FrontEnd) (a b : FixedBuffer) (bs : List (Option FixedBuffer)) (file : sink.File)
      (spare2 : Option FixedBuffer)
      → 0 < length bs
      → (s : Option FixedBuffer) × (log_step sink notice round
            (held f spare2 (some a ∷ (some b ∷ bs)) file)
          ≡ some (bare f s (sink.flush file)))
  unfolding log_step
  held-bare f a b bs file none h =
      (some (reset b), rw (lt→ltb 2 (length (some a ∷ (some b ∷ bs))) (omega arith)) refl)
  held-bare f a b bs file (some s) h =
      (some s, rw (lt→ltb 2 (length (some a ∷ (some b ∷ bs))) (omega arith)) refl)

  bare-null :
      (f : FrontEnd) (s : Option FixedBuffer) (file : sink.File) (line : List ℕ)
      → log_steps sink notice (round ∷ (round ∷ (add_line line ∷ []))) (bare f s file) ≡ none
  unfolding log_steps
  bare-null f s file line = refl

  -- After a round that has found more than two buffers, but no storm of more than 25, the spare buffer
  -- of the thread stays null. Its next round makes that the buffer of the callers, and the next line
  -- that is logged is written through a null pointer.
  pub log_steps-null :
      (f : FrontEnd) (a b c : FixedBuffer) (more : List FixedBuffer) (spare2 : Option FixedBuffer)
      (file : sink.File) (line : List ℕ)
      → length more ≤ 22
      → log_steps sink notice
          (round ∷ (round ∷ (round ∷ (round ∷ (add_line line ∷ [])))))
          (full f spare2 (map (λ x. some x) (a ∷ (b ∷ (c ∷ more)))) file)
        ≡ none
  unfolding log_steps
  log_steps-null f a b c more spare2 file line few =
      let (file', (e, text)) = write_all-Wrote (a ∷ (b ∷ (c ∷ more))) file in
      let (s, returned) =
        held-bare f a b (map (λ x. some x) (c ∷ more)) file' spare2 (omega arith) in
      let last : List LogStep = round ∷ (round ∷ (add_line line ∷ [])) in
      ap (λ o. o >>= log_steps sink notice (round ∷ last))
        (full-held f (a ∷ (b ∷ (c ∷ more))) spare2 file file' (omega (arith, few)) e)
      ∙ ap (λ o. o >>= log_steps sink notice last) returned
      ∙ bare-null f s (sink.flush file') line
