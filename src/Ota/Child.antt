-- ===== src/Ota/Child.antt =====
-- `OtaFlasher` of ota/OtaFlasher.cc: the life of the child process. What the system answers is an
-- argument of each operation. What waits for the loop is the list `tasks`: what `queueInLoop` and
-- `runAfter` were given.
pub mod WellFormed
pub mod Reaping
use Prim.Native.String.{String}
use chassis_host.Common.{
  ℕ, zero, suc, ◌+◌, ◌-◌, ◌^◌, Bool, true, false, not, ◌&&◌, ◌||◌, List, [], ◌∷◌, ◌++◌, Option,
  none, some, ltb, ◌==◌, if◌then◌else◌,
}
use chassis_host.Ota.Lines.{take_reads, emit}
use chassis_host.Ota.Status.{exited, exit_status}

pub data Signal : Type 0 where
  sig_term sig_kill : Signal

-- What is seen from outside: a start with its pid, a line, a signal to a process group, and the call
-- of the exit callback.
pub data Note : Type 0 where
  started : ℕ → Note
  line : List ℕ → Note
  signalled : Signal → ℕ → Note
  exit_called : Bool → ℕ → Note

-- `detachPipe`, `pollReap(tries)`, and the second look of `killGroup`.
pub data Task : Type 0 where
  detach : Task
  reap : ℕ → Task
  kill_check : Task

-- The fields; `pid_` is 0 where no child runs, `exit_cb` says whether `exitCb_` is set. The channel is
-- there as long as the pipe. `notes` is the newest first.
pub record Child : Type 0 where
  pub pid : ℕ
  pub pipe_open : Bool
  pub line_buf : List ℕ
  pub detach_scheduled : Bool
  pub has_exited : Bool
  pub exit_cb : Bool
  pub tasks : List Task
  pub notes : List Note

abbrev pub new_child : Child
new_child = record {
  pid = 0;
  pipe_open = false;
  line_buf = [];
  detach_scheduled = false;
  has_exited = false;
  exit_cb = false;
  tasks = [];
  notes = [];
}

-- `pipe` and `posix_spawnp`; a child that is spawned has the pid n + 1.
pub data Launch : Type 0 where
  pipe_failed spawn_failed : Launch
  spawned : ℕ → Launch

launch_child : Launch → Child → Bool × Child
launch_child pipe_failed c = (false, c)
launch_child spawn_failed c = (false, c)
launch_child (spawned n) c = (
  true,
  record c {
    pid = n + 1;
    pipe_open = true;
    line_buf = [];
    detach_scheduled = false;
    has_exited = false;
    exit_cb = true;
    notes = started (n + 1) ∷ c.notes;
  },
)

unfoldable pub start : List String → Launch → Child → Bool × Child
unfolding launch_child
start argv launch c =
    if ltb 0 c.pid
    then (false, c)
    else elim argv [ [] ↦ (false, c) | _ ∷ _ ↦ launch_child launch c ]

-- `kill(-pid_, SIGTERM)` finds no group where `gone`.
unfoldable pub kill_group : Bool → Child → Child
kill_group gone c =
    if (c.pid == 0) || c.has_exited || gone
    then c
    else record c { notes = signalled sig_term c.pid ∷ c.notes; tasks = kill_check ∷ c.tasks }

-- Half a second later; `alive` is what `kill(-pid_, 0)` answers.
unfoldable pub check_killed : Bool → Child → Child
check_killed alive c =
    if ltb 0 c.pid && not c.has_exited && alive
    then record c { notes = signalled sig_kill c.pid ∷ c.notes }
    else c

abbrev pub note_lines : List (List ℕ) → List Note → List Note
note_lines [] notes = notes
note_lines (l ∷ ls) notes = note_lines ls (line l ∷ notes)

unfoldable pub schedule_detach : Child → Child
schedule_detach c = if not c.pipe_open || c.detach_scheduled then c else record c {
  detach_scheduled = true;
  line_buf = [];
  notes = note_lines (emit c.line_buf []) c.notes;
  tasks = detach ∷ c.tasks;
}

-- How the reads of one wake-up end: with 0, with EAGAIN, or with another error. EINTR reads on.
pub data Ending : Type 0 where
  at_eof would_block read_failed : Ending

after_reads : Ending → Child → Child
unfolding schedule_detach
after_reads would_block c = c
after_reads _ c = schedule_detach c

unfoldable pub on_readable : List (List ℕ) → Ending → Child → Child
unfolding after_reads
on_readable reads ending c =
    if c.pipe_open
    then (let (buf, lines) = take_reads reads c.line_buf in
        after_reads ending (record c { line_buf = buf; notes = note_lines lines c.notes }))
    else c

-- What `waitpid` with WNOHANG answers.
pub data Reap : Type 0 where
  reaped : ℕ → Reap
  still_running interrupted failed : Reap

-- `-1` as a status.
abbrev pub no_status : ℕ
no_status = 2 ^ 32 - 1

unfoldable pub finish : ℕ → Child → Child
finish status c =
    let c' = record c { has_exited = true; pid = 0; exit_cb = false } in
    if c.exit_cb
    then record c' {
      notes = exit_called (exited status && (exit_status status == 0)) status ∷ c.notes;
    }
    else c'

abbrev pub max_tries : ℕ
max_tries = 200

-- Not there yet: again in 50 ms, and after 10 s SIGKILL and a `waitpid` that waits; `last` is what
-- that answers, `none` for an error.
reap_later : ℕ → Option ℕ → Child → Child
unfolding finish
reap_later tries last c =
    if ltb tries max_tries
    then record c { tasks = reap (tries + 1) ∷ c.tasks }
    else (let c' = record c { notes = signalled sig_kill c.pid ∷ c.notes } in
        elim last [ none ↦ finish no_status c' | some status ↦ finish status c' ])

reap_by : Reap → ℕ → Option ℕ → Child → Child
unfolding finish reap_later
reap_by (reaped status) tries last c = finish status c
reap_by failed tries last c = finish no_status c
reap_by _ tries last c = reap_later tries last c

unfoldable pub poll_reap : Reap → Option ℕ → ℕ → Child → Child
unfolding reap_by
poll_reap r last tries c = if (c.pid == 0) || c.has_exited then c else reap_by r tries last c

unfoldable pub detach_pipe : Reap → Option ℕ → Child → Child
unfolding poll_reap
detach_pipe r last c =
    if c.pipe_open
    then poll_reap r last 0 (record c { pipe_open = false; detach_scheduled = false })
    else c

unfoldable pub run_task : Task → Reap → Option ℕ → Bool → Child → Child
unfolding detach_pipe poll_reap check_killed
run_task detach r last alive c = detach_pipe r last c
run_task (reap tries) r last alive c = poll_reap r last tries c
run_task kill_check r last alive c = check_killed alive c

-- The n-th task, and the others.
abbrev pub take_task : ℕ → List Task → Option (Task × List Task)
take_task n [] = none
take_task zero (t ∷ ts) = some (t, ts)
take_task (suc n) (t ∷ ts) = elim (take_task n ts) [ none ↦ none | some (u, us) ↦ some (u, t ∷ us) ]

-- What the loop calls, in any order: the host's calls, the pipe's events (`hang_up` is the close and
-- the error callback), and any task that waits.
pub data ChildEvent : Type 0 where
  start_call : List String → Launch → ChildEvent
  kill_call : Bool → ChildEvent
  readable : List (List ℕ) → Ending → ChildEvent
  hang_up : ChildEvent
  fire : ℕ → Reap → Option ℕ → Bool → ChildEvent

unfoldable pub fire_task : Option (Task × List Task) → Reap → Option ℕ → Bool → Child → Child
unfolding run_task
fire_task none r last alive c = c
fire_task (some (t, ts)) r last alive c = run_task t r last alive (record c { tasks = ts })

unfoldable pub step : ChildEvent → Child → Child
unfolding start kill_group on_readable schedule_detach fire_task
step (start_call argv launch) c = (start argv launch c).1
step (kill_call gone) c = kill_group gone c
step (readable reads ending) c = on_readable reads ending c
step hang_up c = schedule_detach c
step (fire n r last alive) c = fire_task (take_task n c.tasks) r last alive c

unfoldable pub steps : List ChildEvent → Child → Child
unfolding step
steps [] c = c
steps (ev ∷ evs) c = steps evs (step ev c)

-- The destructor: SIGTERM, up to 20 waits of 50 ms (`waits` says which of them reaped the child), and
-- then SIGKILL.
abbrev pub reaped_in : ℕ → List Bool → Bool
reaped_in zero waits = false
reaped_in (suc n) [] = false
reaped_in (suc n) (w ∷ waits) = w || reaped_in n waits

unfoldable pub destroy : List Bool → Child → Child
destroy waits c =
    let c1 =
      if ltb 0 c.pid
      then record c {
        pid = 0;
        notes =
            if reaped_in 20 waits
            then signalled sig_term c.pid ∷ c.notes
            else signalled sig_kill c.pid ∷ signalled sig_term c.pid ∷ c.notes;
      }
      else c in
    record c1 { pipe_open = false }
