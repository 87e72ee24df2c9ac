-- ===== src/Proc/Life/Suspends.antt =====
-- The suspension of processes, midsched_* of kernel/proc/proc.c.
use oops_os.Prelude.{ℕ, Bool, true, false, ltb, ◌==◌, if◌then◌else◌}
use oops_os.Proc.Sched.{State, sleeping, suspended_sleep, suspended, runnable}
use oops_os.Proc.Life.Slots.{n_proc, Table, set_proc}
use oops_os.Proc.Life.Wakes.{is_held}

-- `midsched_suspend_one` for the victim `i`: before the swap, and after it.
abbrev pub suspend_state : State → State
suspend_state sleeping = suspended_sleep
suspend_state s = suspended

unfoldable pub suspend : Table → ℕ → Table
suspend t i =
    set_proc t i (record (t.procs i) { state = suspend_state (t.procs i).state; suspending = true })

unfoldable pub suspend_end : Table → ℕ → Bool → State → Table
suspend_end t i swapped prev =
    let p = record (t.procs i) { suspending = false } in
    set_proc t i (if swapped then p else if is_held p.state then (record p { state = prev }) else p)

-- `midsched_maybe_resume` and `midsched_resume_all` of one process.
abbrev pub resume_state : State → ℕ → State
resume_state suspended chan = runnable
resume_state suspended_sleep chan = if chan == 0 then runnable else sleeping
resume_state s chan = s

unfoldable pub resume : Table → ℕ → Table
resume t i =
    set_proc t i (record (t.procs i) { state = resume_state (t.procs i).state (t.procs i).chan })

unfoldable pub resume_all : Table → Table
resume_all t = record t {
  procs = λ i.
      if ltb i n_proc
      then (record (t.procs i) {
        state = resume_state (t.procs i).state (t.procs i).chan;
        suspending = false;
      })
      else t.procs i;
}
