-- ===== src/Ota/Child/Reaping.antt =====
-- A child whose output has ended is reaped within 201 polls.
use Prim.Native.String.{String}
use chassis_host.Common.{
  ℕ, ◌+◌, ◌≤◌, ◌<◌, ◌≡◌, ◌⊎◌, inl, inr, Bool, true, false, List, [], ◌∷◌, Option, none, some, arith,
}
use chassis_host.Ota.Lines.{take_reads, emit}
use chassis_host.Ota.Child.{
  signalled, sig_kill, Task, detach, reap, kill_check, Child, Launch, pipe_failed, spawn_failed,
  spawned, start, kill_group, check_killed, note_lines, schedule_detach, Ending, at_eof,
  would_block, read_failed, after_reads, on_readable, Reap, reaped, still_running, interrupted,
  failed, finish, poll_reap, detach_pipe, run_task, take_task, ChildEvent, start_call, kill_call,
  readable, hang_up, fire, fire_task, step, steps,
}
use chassis_host.Ota.Child.WellFormed.{
  exits, polls_of, polls_left, CountsOf, take_task-CountsOf, WellFormed, step-WellFormed,
  note_lines-counts,
}

abbrev polls_now : Option (Task × List Task) → ℕ
polls_now (some (reap tries, ts)) = 1
polls_now _ = 0

-- How many of the events are polls.
abbrev pub polls_in : ChildEvent → Child → ℕ
polls_in (fire n r last alive) c = polls_now (take_task n c.tasks)
polls_in _ c = 0

unfoldable pub polls : List ChildEvent → Child → ℕ
polls [] c = 0
polls (ev ∷ evs) c = polls_in ev c + polls evs (step ev c)

-- The callback is called, or the child still runs and k polls fewer are left.
abbrev Progress : ℕ → Child → Child → Type 0
Progress k c c' =
    (exits c.notes < exits c'.notes)
    ⊎ ((c'.pipe_open ≡ false)
        × (0 < c'.pid)
        × (k + polls_left c'.tasks ≤ polls_left c.tasks)
        × (exits c'.notes ≡ exits c.notes))

start-Progress :
    (argv : List String) (launch : Launch) (c : Child)
    → c.pipe_open ≡ false
    → 0 < c.pid
    → Progress 0 c (start argv launch c).1
unfolding start
start-Progress argv launch c p r = ground arith

poll_reap-Progress :
    (r : Reap) (last : Option ℕ) (tries : ℕ) (c : Child) (ts : List Task)
    → WellFormed c
    → c.pipe_open ≡ false
    → 0 < c.pid
    → polls_left c.tasks ≡ polls_of (reap tries) + polls_left ts
    → Progress 1 c (poll_reap r last tries (record c { tasks = ts }))
unfolding poll_reap finish
poll_reap-Progress (reaped status) last tries c ts w p b h = ground arith
poll_reap-Progress failed last tries c ts w p b h = ground arith
poll_reap-Progress still_running last tries c ts w p b h = ground arith
poll_reap-Progress interrupted last tries c ts w p b h = ground arith

fire_task-Progress :
    (o : Option (Task × List Task)) (r : Reap) (last : Option ℕ) (alive : Bool) (c : Child)
    → CountsOf c.tasks o
    → WellFormed c
    → c.pipe_open ≡ false
    → 0 < c.pid
    → Progress (polls_now o) c (fire_task o r last alive c)
unfolding fire_task run_task detach_pipe check_killed
fire_task-Progress none r last alive c h w p b = ground arith
fire_task-Progress (some (detach, ts)) r last alive c h w p b = ground arith
fire_task-Progress (some (reap tries, ts)) r last alive c h w p b =
    poll_reap-Progress r last tries c ts w p b h.2
fire_task-Progress (some (kill_check, ts)) r last alive c h w p b = ground arith

step-Progress :
    (ev : ChildEvent) (c : Child)
    → WellFormed c
    → c.pipe_open ≡ false
    → 0 < c.pid
    → Progress (polls_in ev c) c (step ev c)
unfolding step kill_group on_readable schedule_detach
step-Progress (start_call argv launch) c w p b = start-Progress argv launch c p b
step-Progress (kill_call gone) c w p b = ground arith
step-Progress (readable reads ending) c w p b = ground arith
step-Progress hang_up c w p b = ground arith
step-Progress (fire n r last alive) c w p b =
    fire_task-Progress (take_task n c.tasks) r last alive c (take_task-CountsOf n c.tasks) w p b

poll_reap-grows :
    (r : Reap) (last : Option ℕ) (tries : ℕ) (c : Child)
    → exits c.notes ≤ exits (poll_reap r last tries c).notes
unfolding poll_reap finish
poll_reap-grows (reaped status) last tries c = ground arith
poll_reap-grows failed last tries c = ground arith
poll_reap-grows still_running last tries c = ground arith
poll_reap-grows interrupted last tries c = ground arith

schedule_detach-grows : (c : Child) → exits c.notes ≤ exits (schedule_detach c).notes
unfolding schedule_detach
schedule_detach-grows c = ground (arith, note_lines-counts (emit c.line_buf []) c.notes)

after_reads-grows :
    (ending : Ending) (c : Child) → exits c.notes ≤ exits (after_reads ending c).notes
unfolding after_reads
after_reads-grows would_block c = omega arith
after_reads-grows at_eof c = schedule_detach-grows c
after_reads-grows read_failed c = schedule_detach-grows c

on_readable-grows :
    (reads : List (List ℕ)) (ending : Ending) (c : Child)
    → exits c.notes ≤ exits (on_readable reads ending c).notes
unfolding on_readable
on_readable-grows reads ending c =
    let (buf, lines) = take_reads reads c.line_buf in
    let c' : Child = record c { line_buf = buf; notes = note_lines lines c.notes } in
    ground (arith, note_lines-counts lines c.notes, after_reads-grows ending c')

fire_task-grows :
    (o : Option (Task × List Task)) (r : Reap) (last : Option ℕ) (alive : Bool) (c : Child)
    → exits c.notes ≤ exits (fire_task o r last alive c).notes
unfolding fire_task run_task detach_pipe check_killed
fire_task-grows none r last alive c = omega arith
fire_task-grows (some (detach, ts)) r last alive c = ground (
  arith,
  poll_reap-grows r last 0 (record c { tasks = ts; pipe_open = false; detach_scheduled = false }),
)
fire_task-grows (some (reap tries, ts)) r last alive c =
    poll_reap-grows r last tries (record c { tasks = ts })
fire_task-grows (some (kill_check, ts)) r last alive c = ground arith

step-grows : (ev : ChildEvent) (c : Child) → exits c.notes ≤ exits (step ev c).notes
unfolding step kill_group start
step-grows (start_call [] launch) c = ground arith
step-grows (start_call (a ∷ argv) pipe_failed) c = ground arith
step-grows (start_call (a ∷ argv) spawn_failed) c = ground arith
step-grows (start_call (a ∷ argv) (spawned n)) c = ground arith
step-grows (kill_call gone) c = ground arith
step-grows (readable reads ending) c = on_readable-grows reads ending c
step-grows hang_up c = schedule_detach-grows c
step-grows (fire n r last alive) c = fire_task-grows (take_task n c.tasks) r last alive c

steps-grows : (evs : List ChildEvent) (c : Child) → exits c.notes ≤ exits (steps evs c).notes
unfolding steps
steps-grows [] c = omega arith
steps-grows (ev ∷ evs) c = omega (arith, step-grows ev c, steps-grows evs (step ev c))

exit_of_polls :
    (evs : List ChildEvent) (c : Child)
    → WellFormed c
    → c.pipe_open ≡ false
    → 0 < c.pid
    → polls_left c.tasks ≤ polls evs c
    → exits c.notes < exits (steps evs c).notes
unfolding polls steps
exit_of_polls [] c w p b many = absurd (omega (arith, w.some_left b p))
exit_of_polls (ev ∷ evs) c w p b many =
    let c' = step ev c in
    elim (step-Progress ev c w p b) [
      | inl done ↦ omega (arith, steps-grows evs c')
      | inr (p', b', left, e) ↦
          omega (arith, exit_of_polls evs c' (step-WellFormed ev c w) p' b' (omega arith))
    ]

-- From any reachable state with a child whose output has ended: once 200 polls have taken place in a
-- run of the loop, the exit callback has been called, whatever the child does and `waitpid` answers.
pub polls-exit :
    (evs : List ChildEvent) (c : Child)
    → WellFormed c
    → c.pipe_open ≡ false
    → 0 < c.pid
    → 200 ≤ polls evs c
    → exits c.notes < exits (steps evs c).notes
polls-exit evs c w p b many = exit_of_polls evs c w p b (omega (arith, w.few_left))

-- A kill, the end of the child's output, the turn of the loop that reaps it, and the start of the next
-- child, all before the second look of `killGroup` is due.
abbrev pub quick_restart : ℕ → List String → ℕ → List ChildEvent
quick_restart status argv pid =
    kill_call false
    ∷ readable [] at_eof
    ∷ fire 0 (reaped status) none true
    ∷ start_call argv (spawned pid)
    ∷ []

-- The second look of `killGroup` does not know whose it is. A reachable child that runs with its output
-- open and no detach waiting gets SIGTERM, ends its output, is reaped at once with any status, and
-- another child is started, all within the half second: the second look, which is then the first task
-- that waits, sends SIGKILL to the group of the new child, if that is alive by then.
pub kill_check-hits_next_child :
    (argv : List String) (arg : String) (status pid : ℕ) (r : Reap) (last : Option ℕ) (c : Child)
    → WellFormed c
    → 0 < c.pid
    → c.pipe_open ≡ true
    → c.detach_scheduled ≡ false
    → let again = steps (quick_restart status (arg ∷ argv) pid) c in
      (again.pid ≡ pid + 1)
      × ((step (fire 0 r last true) again).notes ≡ signalled sig_kill (pid + 1) ∷ again.notes)
unfolding kill_group detach_pipe poll_reap finish start step steps run_task check_killed on_readable
    after_reads schedule_detach fire_task take_reads
kill_check-hits_next_child argv arg status pid r last c w b p d = ground arith
