-- ===== src/Sync/Inherit.antt =====
-- Priority inheritance: pi_donate and pi_recalc of kernel/proc/proc.c, and the sleep locks of
-- kernel/lock/sleeplock.c. A call of a sleep lock is one step up to its sleep or its return; what it
-- donates or has recalculated is part of its answer. Built with SCHED_MLFQ, as by default.
pub mod Recalc
mod Examples
use oops_os.Prelude.{
  ℕ, zero, suc, ◌+◌, Bool, true, false, not, ◌&&◌, Option, none, some, ltb, leb, ◌==◌,
  if◌then◌else◌,
}
use oops_os.Prelude.Arrays.{put}
use oops_os.Prelude.Search.{first_from}
use oops_os.Proc.Sched.{State, is_unused}
use oops_os.Proc.Life.{n_proc}
use oops_os.Sync.Monitor.{Monitor}
use oops_os.Sync.Deadlock.{Locks, SleepLock, n_monitors}

-- The part of `struct proc` that inheritance uses.
pub record Heir : Type 0 where
  pub pid : ℕ
  pub state : State
  pub priority : ℕ
  pub pi_boost : ℕ
  pub mlfq_level : ℕ
  pub mlfq_ticks : ℕ

abbrev pub find_heir : (ℕ → Heir) → ℕ → Option ℕ
find_heir procs pid =
    first_from (λ i. (procs i).pid == pid && not (is_unused (procs i).state)) 0 n_proc

unfoldable pub donated : Heir → ℕ → Heir
donated h prio =
    let boosted = record h { pi_boost = if ltb h.pi_boost prio then prio else h.pi_boost } in
    if ltb h.priority prio then (record boosted { mlfq_level = 0; mlfq_ticks = 0 }) else boosted

unfoldable pub donate_to : (ℕ → Heir) → Option ℕ → ℕ → ℕ → Heir
donate_to procs none prio = procs
donate_to procs (some i) prio = put procs i (donated (procs i) prio)

unfoldable pub pi_donate : (ℕ → Heir) → ℕ → ℕ → ℕ → Heir
pi_donate procs owner prio =
    if owner == 0
    then procs
    else donate_to procs (find_heir procs owner) (if ltb 20 prio then 20 else prio)

-- The loops of monitor_max_waiter_for_pid and sleeplock_max_waiter_for_pid, from `i` on with `k` to go.
unfoldable pub max_from : (ℕ → Bool) → (ℕ → ℕ) → ℕ → ℕ → ℕ → ℕ
max_from held prio i zero max = max
max_from held prio i (suc k) max =
    max_from held prio (suc i) k (if held i && ltb max (prio i) then prio i else max)

abbrev pub holds_monitor : Locks → ℕ → ℕ → Bool
holds_monitor l pid i =
    (l.monitors i).allocated && (l.monitors i).locked && (l.monitors i).owner == pid

abbrev pub holds_sleeplock : Locks → ℕ → ℕ → Bool
holds_sleeplock l pid i = (l.sleeplocks i).locked && (l.sleeplocks i).pid == pid

unfoldable pub monitor_max_waiter : Locks → ℕ → ℕ
monitor_max_waiter l pid =
    max_from (holds_monitor l pid) (λ i. (l.monitors i).pi_waiter_max) 0 n_monitors 0

unfoldable pub sleeplock_max_waiter : Locks → ℕ → ℕ
sleeplock_max_waiter l pid =
    max_from (holds_sleeplock l pid) (λ i. (l.sleeplocks i).pi_waiter_max) 0 l.sleeplock_count 0

unfoldable pub max_waiter : Locks → ℕ → ℕ
max_waiter l pid =
    if ltb (monitor_max_waiter l pid) (sleeplock_max_waiter l pid)
    then sleeplock_max_waiter l pid
    else monitor_max_waiter l pid

unfoldable pub boost_to : (ℕ → Heir) → Option ℕ → ℕ → ℕ → Heir
boost_to procs none max = procs
boost_to procs (some i) max = put procs i (record (procs i) { pi_boost = max })

unfoldable pub pi_recalc : Locks → (ℕ → Heir) → ℕ → ℕ → Heir
pi_recalc l procs owner =
    if owner == 0 then procs else boost_to procs (find_heir procs owner) (max_waiter l owner)

-- NINODE + NBUF
abbrev pub max_sleeplocks : ℕ
max_sleeplocks = 80

abbrev pub no_sleeplock : SleepLock
no_sleeplock = record { locked = false; pid = 0; pi_waiter_max = 0 }

-- `initsleeplock` with register_sleeplock; `none` is the panic.
unfoldable pub initsleeplock : Locks → ℕ → Option Locks
initsleeplock l address =
    if ltb l.sleeplock_count max_sleeplocks
    then some (record l {
      sleeplocks = put l.sleeplocks l.sleeplock_count no_sleeplock;
      sleeplock_at = put l.sleeplock_at l.sleeplock_count address;
      sleeplock_count = l.sleeplock_count + 1;
    })
    else none

abbrev pub donor : Heir → ℕ
donor h = if ltb h.priority h.pi_boost then h.pi_boost else h.priority

-- `acquiresleep` of process `me` from the test of its loop on: whether it has the lock, or sleeps.
unfoldable pub acquiresleep : SleepLock → (ℕ → Heir) → ℕ → Bool × SleepLock × (ℕ → Heir)
acquiresleep lk procs me =
    let prio = donor (procs me) in
    if lk.locked
    then (
      false,
      record lk { pi_waiter_max = if ltb lk.pi_waiter_max prio then prio else lk.pi_waiter_max },
      pi_donate procs lk.pid prio,
    )
    else (true, record lk { locked = true; pid = (procs me).pid; pi_waiter_max = 0 }, procs)

-- `releasesleep` of lock `i`; the sleepers wake.
unfoldable pub releasesleep : Locks → (ℕ → Heir) → ℕ → Locks × (ℕ → Heir)
releasesleep l procs i =
    let l' = record l {
      sleeplocks =
          put l.sleeplocks i
            (record (l.sleeplocks i) { locked = false; pid = 0; pi_waiter_max = 0 });
    } in
    (l', pi_recalc l' procs (l.sleeplocks i).pid)

unfoldable pub holdingsleep : SleepLock → ℕ → Bool
holdingsleep lk pid = lk.locked && lk.pid == pid
