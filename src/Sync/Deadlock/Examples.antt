-- ===== src/Sync/Deadlock/Examples.antt =====
-- Process 1 asks for monitor 1, whose owner sleeps on monitor 0, which process 1 owns.
use oops_os.Prelude.{
  ℕ, ◌+◌, ◌≡◌, ◌↔◌, ◌⊎◌, inl, inr, true, false, ◌==◌, if◌then◌else◌, none, pos, refl, sym, ◌∙◌,
  arith, ℕ_discrete,
}
use oops_os.Proc.Sched.{State, sleeping, running, unused, is_unused}
use oops_os.Proc.Life.{Proc}
use oops_os.Sync.Sem.{no_sem}
use oops_os.Sync.Monitor.{Monitor}
use oops_os.Prelude.Search.{first_from}
use oops_os.Sync.Deadlock.{
  Locks, find_owner, find_in_sets, sleeplock_owner, owner_of_chan, waits_for, next_owner, chase,
  deadlock_detect,
}
use oops_os.Sync.Deadlock.Chain.{WaitsFor, UniquePids}
use oops_os.Sync.Deadlock.Detect.{deadlock_detect_iff}

abbrev process : State → ℕ → ℕ → Proc
process state pid chan = record {
  state = state;
  pid = pid;
  parent = none;
  leader = none;
  group = 0;
  chan = chan;
  killed = false;
  xstate = pos 0;
  suspending = false;
}

abbrev two_procs : ℕ → Proc
two_procs i =
    if i == 1
    then process running 1 0
    else if i == 2
    then process sleeping 2 4000
    else process unused 0 0

abbrev held_by : ℕ → Monitor
held_by pid = record {
  allocated = true;
  locked = true;
  owner = pid;
  waiters = 0;
  pi_waiter_max = 0;
  conds = λ i. record { allocated = false; waiters = 0 };
}

-- Monitor `i` is at 4000 + 2 * i.
abbrev two_monitors : Locks
two_monitors = record {
  sems = λ i. no_sem;
  sem_at = λ i. 1000 + i;
  sets = λ i. record { allocated = false; count = 0; sems = λ j. no_sem };
  set_sem_at = λ i j. 2000 + i + j;
  monitors = λ i. if i == 0 then held_by 1 else held_by 2;
  monitor_at = λ i. 4000 + i + i;
  sleeplocks = λ i. record { locked = false; pid = 0; pi_waiter_max = 0 };
  sleeplock_at = λ i. 9000;
  sleeplock_count = 0;
}

live_slots :
    (i : ℕ)
    → is_unused (two_procs i).state ≡ false
    → (i ≡ 1) × ((two_procs i).pid ≡ 1) ⊎ (i ≡ 2) × ((two_procs i).pid ≡ 2)
live_slots i e = elim (ℕ_discrete i 1) [
  | yes a ↦ inl (a, rw a refl)
  | no a ↦ elim (ℕ_discrete i 2) [
    | yes b ↦ inr (b, rw b refl)
    | no b ↦
        let x : (i == 1) ≡ false = ground arith in
        let y : (i == 2) ≡ false = ground arith in absurd (cc (rw (x, y) at e))
  ]
]

two_procs-UniquePids : UniquePids two_procs
two_procs-UniquePids i j b c e f q = elim (live_slots i e) [
  | inl (a, p) ↦ elim (live_slots j f) [
    | inl (d, r) ↦ a ∙ sym d
    | inr (d, r) ↦ absurd (omega (arith, p, r, q))
  ]
  | inr (a, p) ↦ elim (live_slots j f) [
    | inl (d, r) ↦ absurd (omega (arith, p, r, q))
    | inr (d, r) ↦ a ∙ sym d
  ]
]

deadlock_detect_iff_example :
    (deadlock_detect two_monitors two_procs 1 4002 ≡ true)
    ↔ WaitsFor two_monitors two_procs 1 (owner_of_chan two_monitors 4002)
deadlock_detect_iff_example =
    deadlock_detect_iff two_monitors two_procs 1 4002 two_procs-UniquePids (omega arith) refl
      (omega arith) (omega arith)

-- The cycle is found.
two_monitors_deadlock : deadlock_detect two_monitors two_procs 1 4002 ≡ true
unfolding deadlock_detect chase next_owner waits_for first_from owner_of_chan find_owner
    find_in_sets sleeplock_owner
two_monitors_deadlock = refl
