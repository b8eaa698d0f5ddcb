-- ===== src/Log/Async/Rounds.antt =====
-- The thread's side: what its buffers look like from step to step, and that a round without a backlog
-- moves what waits into the file.
use mathlib.Core.List.{append_assoc, append-nil}
use chassis_host.Common.{
  ℕ, ◌≤◌, ◌≡◌, refl, sym, ap, ◌∙◌, Bool, true, false, Option, none, some, List, [], ◌∷◌, ◌++◌,
  length, arith,
}
use chassis_host.Log.Buffer.{FixedBuffer, reset}
use chassis_host.Log.Async.{
  Sink, FrontEnd, BackEnd, Phase, at_test, before_lock, before_write, before_return, ended,
  AsyncLogging, round, new_buffer, log_step,
}
use chassis_host.Log.Async.Callers.{texts, IsLarge, FrontShape, quiet, lent, front_text}

pub data IsIdle : Phase → Type 0 where
  testing : IsIdle at_test
  locking : IsIdle before_lock
  over : IsIdle ended

pub data IsBusy : Phase → Type 0 where
  writing : IsBusy before_write
  returning : IsBusy before_return

pub data BackShape : BackEnd → Type 0 where
  idle :
      {p : Phase}
      → IsIdle p
      → BackShape (record {
        phase = p;
        new_buffer1 = some new_buffer;
        new_buffer2 = some new_buffer;
        to_write = [];
      })
  one :
      {p : Phase} {b : FixedBuffer}
      → IsBusy p
      → IsLarge b
      → BackShape (record {
        phase = p;
        new_buffer1 = none;
        new_buffer2 = some new_buffer;
        to_write = some b ∷ [];
      })
  two :
      {p : Phase} {a b : FixedBuffer}
      → IsBusy p
      → IsLarge a
      → IsLarge b
      → BackShape (record {
        phase = p;
        new_buffer1 = none;
        new_buffer2 = none;
        to_write = some a ∷ (some b ∷ []);
      })

abbrev pub unwritten : Phase → List (Option FixedBuffer) → List ℕ
unwritten before_write bs = texts bs
unwritten _ bs = []

reset-IsLarge : (b : FixedBuffer) → IsLarge b → reset b ≡ new_buffer
reset-IsLarge b large = ap (λ n. record { size = n; bytes = [] }) large

module _ (sink : Sink) (notice : ℕ → List ℕ) where
  -- Every byte in the file, in the thread's buffers and in the callers' buffers, oldest first.
  abbrev pub all_text : AsyncLogging sink → List ℕ
  all_text l =
      sink.contents l.file ++ (unwritten l.back.phase l.back.to_write ++ front_text l.front)

  abbrev pub Shape : AsyncLogging sink → Type 0
  Shape l = FrontShape l.front × BackShape l.back

  -- The queue of a round has at most one buffer, besides the one in use.
  abbrev pub IsCalm : Phase → FrontEnd → Type 0
  IsCalm before_lock f = length f.buffers ≤ 1
  IsCalm _ f = Unit

  abbrev pub Rounded : AsyncLogging sink → Type 0
  Rounded l =
      (l' : AsyncLogging sink) × ((log_step sink notice round l ≡ some l')
        × (Shape l' × (all_text l' ≡ all_text l)))

  -- At the end of a round.
  abbrev pub at_rest : Bool → FrontEnd → FixedBuffer → FixedBuffer → sink.File → AsyncLogging sink
  at_rest running f first second file = record {
    running = running;
    front = f;
    back = record {
      phase = at_test;
      new_buffer1 = some first;
      new_buffer2 = some second;
      to_write = [];
    };
    file = sink.flush file;
  }

  pub round-Rounded :
      (running : Bool) (f : FrontEnd) (b : BackEnd) (file : sink.File)
      → IsCalm b.phase f
      → FrontShape f
      → BackShape b
      → Rounded (record { running = running; front = f; back = b; file = file })
  unfolding log_step
  round-Rounded true f b file calm fs (idle testing) = (
    record {
      running = true;
      front = f;
      back = record {
        phase = before_lock;
        new_buffer1 = some new_buffer;
        new_buffer2 = some new_buffer;
        to_write = [];
      };
      file = file;
    },
    (refl, ((fs, idle locking), refl)),
  )
  round-Rounded false f b file calm fs (idle testing) = (
    record {
      running = false;
      front = f;
      back = record {
        phase = ended;
        new_buffer1 = some new_buffer;
        new_buffer2 = some new_buffer;
        to_write = [];
      };
      file = sink.flush file;
    },
    (refl, ((fs, idle over), ap (λ l. l ++ front_text f) (sink.contents-flush file))),
  )
  round-Rounded running f b file calm (quiet {b = c} large) (idle locking) = (
    record {
      running = running;
      front = record { current = some new_buffer; next = some new_buffer; buffers = [] };
      back = record {
        phase = before_write;
        new_buffer1 = none;
        new_buffer2 = some new_buffer;
        to_write = some c ∷ [];
      };
      file = file;
    },
    (
      refl,
      (
        (quiet refl, one writing large),
        ap (λ l. sink.contents file ++ l) (append-nil (c.bytes ++ []) ∙ append-nil c.bytes),
      ),
    ),
  )
  round-Rounded running f b file calm (lent {b = c} {q = q} {bs = []} large large_q)
        (idle locking) =
      (
        record {
          running = running;
          front = record { current = some new_buffer; next = some new_buffer; buffers = [] };
          back = record {
            phase = before_write;
            new_buffer1 = none;
            new_buffer2 = none;
            to_write = some q ∷ (some c ∷ []);
          };
          file = file;
        },
        (
          refl,
          (
            (quiet refl, two writing large_q large),
            ap (λ l. sink.contents file ++ l)
                (append-nil (q.bytes ++ (c.bytes ++ []))
                  ∙ ap (λ l. q.bytes ++ l) (append-nil c.bytes)
                  ∙ ap (λ l. l ++ c.bytes) (sym (append-nil q.bytes))),
          ),
        ),
      )
  round-Rounded running f b file calm (lent {bs = x ∷ bs} large large_q) (idle locking) =
      absurd (omega (arith, calm))
  round-Rounded running f b file calm fs (idle over) = (
    record { running = running; front = f; back = b; file = file },
    (refl, ((fs, idle over), refl)),
  )
  round-Rounded running f b file calm fs (one {b = x} writing large) = (
    record {
      running = running;
      front = f;
      back = record b { phase = before_return };
      file = sink.write x.bytes file;
    },
    (
      refl,
      (
        (fs, one returning large),
        ap (λ l. l ++ front_text f)
              (sink.contents-write x.bytes file
                ∙ ap (λ l. sink.contents file ++ l) (sym (append-nil x.bytes)))
            ∙ append_assoc (sink.contents file) (x.bytes ++ []) (front_text f),
      ),
    ),
  )
  round-Rounded running f b file calm fs (one {b = x} returning large) = (
    at_rest running f new_buffer new_buffer file,
    (
      ap (λ n. some (at_rest running f n new_buffer file)) (reset-IsLarge x large),
      ((fs, idle testing), ap (λ l. l ++ front_text f) (sink.contents-flush file)),
    ),
  )
  round-Rounded running f b file calm fs (two {a = x} {b = y} writing large_x large_y) = (
    record {
      running = running;
      front = f;
      back = record b { phase = before_return };
      file = sink.write y.bytes (sink.write x.bytes file);
    },
    (
      refl,
      (
        (fs, two returning large_x large_y),
        ap (λ l. l ++ front_text f)
              (sink.contents-write y.bytes (sink.write x.bytes file)
                ∙ ap (λ l. l ++ y.bytes) (sink.contents-write x.bytes file)
                ∙ append_assoc (sink.contents file) x.bytes y.bytes
                ∙ ap (λ l. sink.contents file ++ (x.bytes ++ l)) (sym (append-nil y.bytes)))
            ∙ append_assoc (sink.contents file) (x.bytes ++ (y.bytes ++ [])) (front_text f),
      ),
    ),
  )
  round-Rounded running f b file calm fs (two {a = x} {b = y} returning large_x large_y) = (
    at_rest running f new_buffer new_buffer file,
    (
      ap (λ n. some (at_rest running f n (reset x) file)) (reset-IsLarge y large_y)
          ∙ ap (λ n. some (at_rest running f new_buffer n file)) (reset-IsLarge x large_x),
      ((fs, idle testing), ap (λ l. l ++ front_text f) (sink.contents-flush file)),
    ),
  )
