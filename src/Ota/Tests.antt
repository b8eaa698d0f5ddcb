-- ===== src/Ota/Tests.antt =====
-- The flasher on concrete runs.
use chassis_host.Common.{
  ℕ, ◌+◌, ◌≤◌, ◌<◌, ◌≡◌, refl, true, false, List, [], ◌∷◌, none, ltb, replicate, arith,
}
use chassis_host.Ota.Lines.{take_chars, take_reads, add_char}
use chassis_host.Ota.Lines.Split.{kept, kept_lines, IsStream, take_reads-stream}
use chassis_host.Ota.Child.{
  Child, new_child, spawned, start, schedule_detach, at_eof, would_block, on_readable, reaped,
  still_running, finish, poll_reap, detach_pipe, run_task, sig_kill, signalled, started, reap,
  ChildEvent, start_call, readable, fire, step, steps,
}
use chassis_host.Ota.Child.WellFormed.{bit, starts, exits, reaps, WellFormed, steps-exit_once}
use chassis_host.Ota.Child.Reaping.{polls, polls-exit, quick_restart, kill_check-hits_next_child}

-- "ab" CR LF "c" in two reads, and "d" without an end.
abbrev two_reads : List (List ℕ)
two_reads = (97 ∷ 98 ∷ 13 ∷ 10 ∷ 99 ∷ []) ∷ (10 ∷ 100 ∷ []) ∷ []

abbrev three_lines : List (List ℕ × ℕ)
three_lines = (97 ∷ 98 ∷ [], 13) ∷ ([], 10) ∷ (99 ∷ [], 10) ∷ []

three_lines-IsStream : IsStream three_lines
three_lines-IsStream = (((refl, (refl, tt)), refl), ((tt, refl), (((refl, tt), refl), tt)))

take_reads-stream_example : take_reads two_reads [] ≡ (kept (100 ∷ []), kept_lines three_lines)
take_reads-stream_example =
    take_reads-stream two_reads three_lines (100 ∷ []) three_lines-IsStream (refl, tt) refl

two_lines : kept_lines three_lines ≡ (97 ∷ 98 ∷ []) ∷ (99 ∷ []) ∷ []
two_lines = refl

-- A child starts, writes, closes its output, is not there at the first poll, and ends with status 0.
abbrev flash_run : List ChildEvent
flash_run =
    start_call ("python3" ∷ []) (spawned 41)
    ∷ readable two_reads would_block
    ∷ readable [] at_eof
    ∷ fire 0 still_running none true
    ∷ fire 0 (reaped 0) none true
    ∷ []

steps-exit_once_example :
    let c = steps flash_run new_child in
    (exits c.notes + bit (ltb 0 c.pid) ≡ starts c.notes)
    × (0 < c.pid → c.pipe_open ≡ false → reaps c.tasks ≡ 1)
steps-exit_once_example = steps-exit_once flash_run

flash_run-exits : exits (steps flash_run new_child).notes ≡ 1
unfolding steps step start on_readable take_reads take_chars add_char schedule_detach run_task
    detach_pipe poll_reap finish
flash_run-exits = refl

abbrev closed_child : Child
closed_child = record {
  pid = 42;
  pipe_open = false;
  line_buf = [];
  detach_scheduled = false;
  has_exited = false;
  exit_cb = true;
  tasks = reap 1 ∷ [];
  notes = started 42 ∷ [];
}

closed_child-WellFormed : WellFormed closed_child
closed_child-WellFormed = ground arith

-- A child that never ends by itself.
abbrev patient : List ChildEvent
patient = replicate 200 (fire 0 still_running none true)

polled_often : 200 ≤ polls patient closed_child
unfolding polls step run_task poll_reap finish
polled_often = omega arith

polls-exit_example : exits closed_child.notes < exits (steps patient closed_child).notes
polls-exit_example =
    polls-exit patient closed_child closed_child-WellFormed refl (omega arith) polled_often

-- It has written "ab" without an end of line.
abbrev open_child : Child
open_child = record closed_child { pipe_open = true; line_buf = 97 ∷ 98 ∷ []; tasks = [] }

open_child-WellFormed : WellFormed open_child
open_child-WellFormed = ground arith

kill_check-hits_next_child_example :
    let again = steps (quick_restart 15 ("python3" ∷ []) 50) open_child in
    (again.pid ≡ 51)
    × ((step (fire 0 still_running none true) again).notes ≡ signalled sig_kill 51 ∷ again.notes)
kill_check-hits_next_child_example =
    kill_check-hits_next_child [] "python3" 15 50 still_running none open_child
      open_child-WellFormed (omega arith) refl refl
