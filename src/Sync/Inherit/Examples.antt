-- ===== src/Sync/Inherit/Examples.antt =====
-- Process 5 releases one of two sleep locks; a process of priority 7 waits for the other.
use oops_os.Prelude.{ℕ, ◌==◌, true, false, if◌then◌else◌}
use oops_os.Proc.Sched.{running, unused}
use oops_os.Sync.Sem.{no_sem}
use oops_os.Sync.Deadlock.{Locks}
use oops_os.Sync.Inherit.{Heir}

abbrev heirs : ℕ → Heir
heirs i =
    if i == 1
    then (record {
      pid = 5;
      state = running;
      priority = 3;
      pi_boost = 9;
      mlfq_level = 1;
      mlfq_ticks = 0;
    })
    else (record {
      pid = 0;
      state = unused;
      priority = 10;
      pi_boost = 0;
      mlfq_level = 0;
      mlfq_ticks = 0;
    })

abbrev held_locks : Locks
held_locks = record {
  sems = λ i. no_sem;
  sem_at = λ i. 1000;
  sets = λ i. record { allocated = false; count = 0; sems = λ j. no_sem };
  set_sem_at = λ i j. 2000;
  monitors = λ i. record {
    allocated = false;
    locked = false;
    owner = 0;
    waiters = 0;
    pi_waiter_max = 0;
    conds = λ j. record { allocated = false; waiters = 0 };
  };
  monitor_at = λ i. 3000;
  sleeplocks = λ i.
      if i == 0
      then (record { locked = true; pid = 5; pi_waiter_max = 9 })
      else (record { locked = true; pid = 5; pi_waiter_max = 7 });
  sleeplock_at = λ i. 4000;
  sleeplock_count = 2;
}
