-- ===== src/Proc/Life/Examples.antt =====
-- A table with init at slot 0, which forks a child at slot 1, which forks one at slot 2 and waits for it.
use oops_os.Prelude.{
  ℕ, ◌≡◌, ◌≢◌, refl, true, false, none, some, arith, ◌==◌, if◌then◌else◌, pos, negsuc, inl,
}
use oops_os.Prelude.Arrays.{put}
use oops_os.Prelude.Search.{first_from}
use oops_os.Proc.Sched.{unused, sleeping, runnable, zombie, is_unused}
use oops_os.Proc.Life.{
  Proc, Table, enough, claimed, set_up, count_pid, free_slot, allocproc, born, fork_with, fork,
  dispatch, sleep, wakeup, kill, suspend, suspend_end, wait_on, waitpid,
}
use oops_os.Proc.Life.System.{
  at_large, waits, System, proc_of, with_table, runs, forks, scans, IsBooted, Reach, boots, next,
}
use oops_os.Proc.Life.Sound.{is_alive}
use oops_os.Proc.Life.Exits.{no_lost_exit, parents_live}
use oops_os.Proc.Life.Lost.{suspend_loses_wakeup, kill_zero}

abbrev free_proc : Proc
free_proc = record {
  state = unused;
  pid = 0;
  parent = none;
  leader = none;
  group = 0;
  chan = 0;
  killed = false;
  xstate = pos 0;
  suspending = false;
}

abbrev init_proc : Proc
init_proc = record free_proc { state = runnable; pid = 1; group = 1 }

abbrev booted : System
booted = record {
  table = record { procs = λ i. if i == 0 then init_proc else free_proc; next_pid = 2; init = 0 };
  doing = λ i. at_large;
}

booted-IsBooted : IsBooted booted
booted-IsBooted = record {
  init_below = omega arith;
  init_state = refl;
  init_parent = refl;
  init_pid = omega arith;
  others = λ i ne. other i ne;
  idle = λ i. refl;
}
  where
    other :
        (i : ℕ) → i ≢ 0 → ((proc_of booted i).state ≡ unused) × ((proc_of booted i).parent ≡ none)
    other i ne = let e : (i == 0) ≡ false = ground arith in rw e (refl, refl)

abbrev init_runs : System
init_runs = with_table booted (dispatch booted.table 0)

abbrev child_born : System
child_born = with_table init_runs (fork init_runs.table 0 enough true).1

abbrev child_runs : System
child_runs = with_table child_born (dispatch child_born.table 1)

abbrev grandchild_born : System
grandchild_born = with_table child_runs (fork child_runs.table 1 enough true).1

abbrev child_waits : System
child_waits = record {
  table = sleep grandchild_born.table 1 2;
  doing = put grandchild_born.doing 1 (waits (negsuc 0));
}

child_waits-Reach : Reach child_waits
unfolding dispatch fork allocproc free_slot first_from set_up count_pid claimed fork_with born
    waitpid wait_on sleep put
child_waits-Reach =
    next
      (next
        (next
          (next (next (boots booted-IsBooted) (runs 0 (omega arith) refl))
            (forks 0 enough true (omega arith, refl)))
          (runs 1 (omega arith) refl))
        (forks 1 enough true (omega arith, refl)))
      (scans 1 (negsuc 0) true false (omega arith, refl) (inl refl))

no_lost_exit_example : (proc_of child_waits 2).state ≢ zombie
unfolding dispatch fork allocproc free_slot first_from set_up count_pid claimed fork_with born sleep
    put
no_lost_exit_example =
    no_lost_exit child_waits 1 (negsuc 0) 2 child_waits-Reach (λ e. omega arith) refl refl refl refl

parents_live_example :
    ((i q : ℕ)
      → (proc_of child_waits i).parent ≡ some q
      → is_alive ((proc_of child_waits q).state) ≡ true)
    × ((i j : ℕ)
        → is_unused ((proc_of child_waits i).state) ≡ false
        → is_unused ((proc_of child_waits j).state) ≡ false
        → (proc_of child_waits i).pid ≡ (proc_of child_waits j).pid
        → i ≡ j)
parents_live_example = parents_live child_waits child_waits-Reach

abbrev one_sleeper : Table
one_sleeper = record (booted.table) {
  procs = λ i.
      if i == 1
      then (record free_proc { state = sleeping; pid = 2; chan = 90 })
      else booted.table.procs i;
}

suspend_loses_wakeup_example :
    (((wakeup one_sleeper 90).procs 1).state ≡ runnable)
    × (((suspend_end (wakeup (suspend one_sleeper 1) 90) 1 false sleeping).procs 1).state
        ≡ sleeping)
    × (((suspend_end (wakeup (suspend one_sleeper 1) 90) 1 false sleeping).procs 1).chan ≡ 90)
suspend_loses_wakeup_example = suspend_loses_wakeup one_sleeper 1 (omega arith) refl

kill_zero_example :
    ((kill booted.table 0).0 ≡ true)
    × ((fork (kill booted.table 0).1 0 enough true).0 ≡ some ((kill booted.table 0).1).next_pid)
    × ((((fork (kill booted.table 0).1 0 enough true).1).procs 1).killed ≡ true)
unfolding free_slot first_from
kill_zero_example = kill_zero booted.table 0 1 refl refl (λ j l. ground arith)
