-- ===== src/Ota/Child/WellFormed.antt =====
-- What holds of the flasher whatever the loop calls: the exit callback is owed exactly while a child
-- runs, and what will call it waits in the loop.
use chassis_host.Common.{
  ℕ, zero, suc, ◌+◌, ◌-◌, ◌*◌, ◌≤◌, ◌<◌, ◌≡◌, refl, Bool, true, false, not, ◌&&◌, List, [], ◌∷◌,
  Option, none, some, ltb, arith,
}
use Prim.Native.String.{String}
use chassis_host.Ota.Lines.{take_reads, emit}
use chassis_host.Ota.Child.{
  Note, started, line, exit_called, Task, detach, reap, kill_check, Child, new_child, Launch,
  pipe_failed, spawn_failed, spawned, start, kill_group, check_killed, note_lines, schedule_detach,
  Ending, at_eof, would_block, read_failed, after_reads, on_readable, Reap, reaped, still_running,
  interrupted, failed, finish, poll_reap, detach_pipe, run_task, take_task, ChildEvent, start_call,
  kill_call, readable, hang_up, fire, fire_task, step, steps,
}

abbrev pub bit : Bool → ℕ
bit true = 1
bit false = 0

abbrev pub is_start : Note → ℕ
is_start (started n) = 1
is_start _ = 0

abbrev pub is_exit : Note → ℕ
is_exit (exit_called ok status) = 1
is_exit _ = 0

-- How many children were started, and how often the exit callback was called.
abbrev pub starts : List Note → ℕ
starts [] = 0
starts (n ∷ ns) = is_start n + starts ns

abbrev pub exits : List Note → ℕ
exits [] = 0
exits (n ∷ ns) = is_exit n + exits ns

abbrev pub is_detach : Task → ℕ
is_detach detach = 1
is_detach _ = 0

abbrev pub is_reap : Task → ℕ
is_reap (reap n) = 1
is_reap _ = 0

abbrev pub detaches : List Task → ℕ
detaches [] = 0
detaches (t ∷ ts) = is_detach t + detaches ts

abbrev pub reaps : List Task → ℕ
reaps [] = 0
reaps (t ∷ ts) = is_reap t + reaps ts

abbrev pub polls_of : Task → ℕ
polls_of (reap tries) = 201 - tries
polls_of _ = 0

-- How many polls the tasks still allow.
abbrev pub polls_left : List Task → ℕ
polls_left [] = 0
polls_left (t ∷ ts) = polls_of t + polls_left ts

polls_left-le : (ts : List Task) → polls_left ts ≤ 201 * reaps ts
polls_left-le [] = omega arith
polls_left-le (detach ∷ ts) = omega (arith, polls_left-le ts)
polls_left-le (reap tries ∷ ts) = omega (arith, polls_left-le ts)
polls_left-le (kill_check ∷ ts) = omega (arith, polls_left-le ts)

pub record WellFormed (c : Child) : Type 0 where
  pub owed : c.exit_cb ≡ ltb 0 c.pid
  pub once : exits c.notes + bit c.exit_cb ≡ starts c.notes
  pub running : 0 < c.pid → c.has_exited ≡ false
  pub pipe_of : c.pipe_open ≡ true → 0 < c.pid
  pub scheduled : c.detach_scheduled ≡ true → c.pipe_open ≡ true
  pub one_detach : detaches c.tasks ≡ bit c.detach_scheduled
  pub one_reap : reaps c.tasks ≡ bit (ltb 0 c.pid && not c.pipe_open)
  pub some_left : 0 < c.pid → c.pipe_open ≡ false → 0 < polls_left c.tasks
  pub few_left : polls_left c.tasks ≤ 200

pub note_lines-counts :
    (ls : List (List ℕ)) (ns : List Note)
    → (exits (note_lines ls ns) ≡ exits ns) × (starts (note_lines ls ns) ≡ starts ns)
note_lines-counts [] ns = (refl, refl)
note_lines-counts (l ∷ ls) ns = omega (arith, note_lines-counts ls (line l ∷ ns))

start-WellFormed :
    (argv : List String) (launch : Launch) (c : Child)
    → WellFormed c
    → WellFormed (start argv launch c).1
unfolding start
start-WellFormed [] launch c w = ground arith
start-WellFormed (a ∷ argv) pipe_failed c w = ground arith
start-WellFormed (a ∷ argv) spawn_failed c w = ground arith
start-WellFormed (a ∷ argv) (spawned n) c w = ground arith

kill_group-WellFormed : (gone : Bool) (c : Child) → WellFormed c → WellFormed (kill_group gone c)
unfolding kill_group
kill_group-WellFormed gone c w = ground arith

schedule_detach-WellFormed : (c : Child) → WellFormed c → WellFormed (schedule_detach c)
unfolding schedule_detach
schedule_detach-WellFormed c w = ground (arith, note_lines-counts (emit c.line_buf []) c.notes)

after_reads-WellFormed :
    (ending : Ending) (c : Child) → WellFormed c → WellFormed (after_reads ending c)
unfolding after_reads
after_reads-WellFormed would_block c w = w
after_reads-WellFormed at_eof c w = schedule_detach-WellFormed c w
after_reads-WellFormed read_failed c w = schedule_detach-WellFormed c w

on_readable-WellFormed :
    (reads : List (List ℕ)) (ending : Ending) (c : Child)
    → WellFormed c
    → WellFormed (on_readable reads ending c)
unfolding on_readable
on_readable-WellFormed reads ending c w =
    let (buf, lines) = take_reads reads c.line_buf in
    let c' : Child = record c { line_buf = buf; notes = note_lines lines c.notes } in
    let w' : WellFormed c' = ground (arith, note_lines-counts lines c.notes) in
    ground (arith, after_reads-WellFormed ending c' w')

-- The state between a task's removal and its work: the task that reaps is off the list.
record AlmostWellFormed (c : Child) : Type 0 where
  owed : c.exit_cb ≡ ltb 0 c.pid
  once : exits c.notes + bit c.exit_cb ≡ starts c.notes
  running : 0 < c.pid → c.has_exited ≡ false
  no_pipe : c.pipe_open ≡ false
  unscheduled : c.detach_scheduled ≡ false
  no_detach : detaches c.tasks ≡ 0
  no_reap : reaps c.tasks ≡ 0

poll_reap-WellFormed :
    (r : Reap) (last : Option ℕ) (tries : ℕ) (c : Child)
    → AlmostWellFormed c
    → WellFormed (poll_reap r last tries c)
unfolding poll_reap finish
poll_reap-WellFormed (reaped status) last tries c w = ground (arith, polls_left-le c.tasks)
poll_reap-WellFormed failed last tries c w = ground (arith, polls_left-le c.tasks)
poll_reap-WellFormed still_running last tries c w = ground (arith, polls_left-le c.tasks)
poll_reap-WellFormed interrupted last tries c w = ground (arith, polls_left-le c.tasks)

-- What is taken and what is left make up the list.
abbrev pub CountsOf : List Task → Option (Task × List Task) → Type 0
CountsOf ts none = Unit
CountsOf ts (some (t, us)) =
    (detaches ts ≡ is_detach t + detaches us)
    × (reaps ts ≡ is_reap t + reaps us)
    × (polls_left ts ≡ polls_of t + polls_left us)

CountsOf-cons :
    (u : Task) (ts : List Task) (o : Option (Task × List Task))
    → CountsOf ts o
    → CountsOf (u ∷ ts) (elim o as (λ _. Option (Task × List Task)) [
      | none ↦ none
      | some (t, us) ↦ some (t, u ∷ us)
    ])
CountsOf-cons u ts none h = tt
CountsOf-cons u ts (some (t, us)) h = omega arith

pub take_task-CountsOf : (n : ℕ) (ts : List Task) → CountsOf ts (take_task n ts)
take_task-CountsOf n [] = tt
take_task-CountsOf zero (t ∷ ts) = (refl, refl, refl)
take_task-CountsOf (suc n) (t ∷ ts) = CountsOf-cons t ts (take_task n ts) (take_task-CountsOf n ts)

detach_pipe-WellFormed :
    (r : Reap) (last : Option ℕ) (c : Child) (ts : List Task)
    → WellFormed c
    → detaches c.tasks ≡ 1 + detaches ts
    → reaps c.tasks ≡ reaps ts
    → polls_left c.tasks ≡ polls_left ts
    → WellFormed (detach_pipe r last (record c { tasks = ts }))
unfolding detach_pipe
detach_pipe-WellFormed r last c ts w d p l =
    let c' : Child = record c { tasks = ts; pipe_open = false; detach_scheduled = false } in
    let a : AlmostWellFormed c' = ground (arith, w, d, p, l) in
    ground (arith, poll_reap-WellFormed r last 0 c' a)

check_killed-WellFormed :
    (alive : Bool) (c : Child) → WellFormed c → WellFormed (check_killed alive c)
unfolding check_killed
check_killed-WellFormed alive c w = ground arith

fire_task-WellFormed :
    (o : Option (Task × List Task)) (r : Reap) (last : Option ℕ) (alive : Bool) (c : Child)
    → CountsOf c.tasks o
    → WellFormed c
    → WellFormed (fire_task o r last alive c)
unfolding fire_task run_task
fire_task-WellFormed none r last alive c h w = w
fire_task-WellFormed (some (detach, ts)) r last alive c h w =
    detach_pipe-WellFormed r last c ts w h.0 (omega (arith, h.1)) (omega (arith, h.2))
fire_task-WellFormed (some (reap tries, ts)) r last alive c h w =
    poll_reap-WellFormed r last tries (record c { tasks = ts }) (ground (arith, w, h.0, h.1, h.2))
fire_task-WellFormed (some (kill_check, ts)) r last alive c h w =
    check_killed-WellFormed alive (record c { tasks = ts }) (ground (arith, w, h.0, h.1, h.2))

pub step-WellFormed : (ev : ChildEvent) (c : Child) → WellFormed c → WellFormed (step ev c)
unfolding step
step-WellFormed (start_call argv launch) c w = start-WellFormed argv launch c w
step-WellFormed (kill_call gone) c w = kill_group-WellFormed gone c w
step-WellFormed (readable reads ending) c w = on_readable-WellFormed reads ending c w
step-WellFormed hang_up c w = schedule_detach-WellFormed c w
step-WellFormed (fire n r last alive) c w =
    fire_task-WellFormed (take_task n c.tasks) r last alive c (take_task-CountsOf n c.tasks) w

pub steps-WellFormed : (evs : List ChildEvent) (c : Child) → WellFormed c → WellFormed (steps evs c)
unfolding steps
steps-WellFormed [] c w = w
steps-WellFormed (ev ∷ evs) c w = steps-WellFormed evs (step ev c) (step-WellFormed ev c w)

pub new_child-WellFormed : WellFormed new_child
new_child-WellFormed = ground arith

-- In every run of the flasher, whatever the loop calls and the system answers, as long as the flasher
-- is not destroyed: the exit callback was called once for each child that was started, but for the
-- one that runs; and for the one that runs the pipe is open, or exactly one `pollReap` waits in the
-- loop.
pub steps-exit_once :
    (evs : List ChildEvent)
    → let c = steps evs new_child in
      (exits c.notes + bit (ltb 0 c.pid) ≡ starts c.notes)
      × (0 < c.pid → c.pipe_open ≡ false → reaps c.tasks ≡ 1)
steps-exit_once evs =
    let w = steps-WellFormed evs new_child new_child-WellFormed in
    (ground (arith, w), ground (arith, w))
