-- ===== src/Sync/Deadlock.antt =====
-- Who waits for whom: owner_of_chan and deadlock_detect of kernel/proc/proc.c, sleeplock_owner of
-- kernel/lock/sleeplock.c. The search reads the tables as they are at one moment. A channel is an
-- address, and 0 is none; an owner is a pid, and 0 is nobody.
pub mod Counting
pub mod Chain
pub mod Detect
mod Examples
use oops_os.Prelude.{
  ℕ, zero, suc, Bool, true, false, not, ◌&&◌, Option, none, some, ltb, ◌==◌, if◌then◌else◌,
}
use oops_os.Prelude.Search.{first_from}
use oops_os.Proc.Sched.{is_unused}
use oops_os.Proc.Life.{Proc, n_proc, is_sleeping}
use oops_os.Sync.Sem.{Sem, SemSet}
use oops_os.Sync.Monitor.{Monitor}

abbrev pub n_sems : ℕ
n_sems = 128

abbrev pub n_sets : ℕ
n_sets = 16

abbrev pub n_monitors : ℕ
n_monitors = 16

-- `struct sleeplock`
pub record SleepLock : Type 0 where
  pub locked : Bool
  pub pid : ℕ
  pub pi_waiter_max : ℕ

-- The tables, with the address of each entry. `sleeplocks` points to `sleeplock_count` locks.
pub record Locks : Type 0 where
  pub sems : ℕ → Sem
  pub sem_at : ℕ → ℕ
  pub sets : ℕ → SemSet
  pub set_sem_at : ℕ → ℕ → ℕ
  pub monitors : ℕ → Monitor
  pub monitor_at : ℕ → ℕ
  pub sleeplocks : ℕ → SleepLock
  pub sleeplock_at : ℕ → ℕ
  pub sleeplock_count : ℕ

-- A loop over the addresses `place` from `i` on, `k` rounds, that returns an owner.
unfoldable pub find_owner : (ℕ → ℕ) → (ℕ → ℕ) → ℕ → ℕ → ℕ → Option ℕ
find_owner place owner chan i zero = none
find_owner place owner chan i (suc k) =
    let later = find_owner place owner chan (suc i) k in
    if chan == place i then some (owner i) else later

abbrev pub or_else : Option ℕ → Option ℕ → Option ℕ
or_else none next = next
or_else (some o) next = some o

unfoldable pub find_in_sets : Locks → ℕ → ℕ → ℕ → Option ℕ
find_in_sets l chan i zero = none
find_in_sets l chan i (suc k) =
    let later = find_in_sets l chan (suc i) k in
    let set = l.sets i in
    if not set.allocated
    then later
    else or_else (find_owner (l.set_sem_at i) (λ j. (set.sems j).owner) chan 0 set.count) later

abbrev pub owner_or_0 : Option ℕ → ℕ
owner_or_0 none = 0
owner_or_0 (some o) = o

unfoldable pub sleeplock_owner : Locks → ℕ → ℕ
sleeplock_owner l chan =
    owner_or_0 (find_owner l.sleeplock_at (λ i. (l.sleeplocks i).pid) chan 0 l.sleeplock_count)

unfoldable pub owner_of_chan : Locks → ℕ → ℕ
owner_of_chan l chan =
    if chan == 0
    then 0
    else owner_or_0 (
        or_else (find_owner l.sem_at (λ i. (l.sems i).owner) chan 0 n_sems) (
          or_else (find_in_sets l chan 0 n_sets) (
            or_else (find_owner l.monitor_at (λ i. (l.monitors i).owner) chan 0 n_monitors)
              (some (sleeplock_owner l chan)))))

abbrev pub is_live : ℕ → Proc → Bool
is_live pid p = p.pid == pid && not (is_unused p.state)

-- The end of a round: the owner to go on with, and 0 where the search ends.
unfoldable pub waits_for : Locks → (ℕ → Proc) → Option ℕ → ℕ
waits_for l procs none = 0
waits_for l procs (some i) =
    if not (is_sleeping (procs i).state) then 0 else owner_of_chan l (procs i).chan

unfoldable pub next_owner : Locks → (ℕ → Proc) → ℕ → ℕ
next_owner l procs pid = waits_for l procs (first_from (λ i. is_live pid (procs i)) 0 n_proc)

-- The loop from the owner `pid` on, with `k` rounds to go.
unfoldable pub chase : Locks → (ℕ → Proc) → ℕ → ℕ → ℕ → Bool
chase l procs me zero pid = false
chase l procs me (suc k) pid =
    let later = chase l procs me k (next_owner l procs pid) in
    if pid == 0 then false else if pid == me then true else later

-- `me` is the pid of the caller.
unfoldable pub deadlock_detect : Locks → (ℕ → Proc) → ℕ → ℕ → Bool
deadlock_detect l procs me chan =
    if chan == 0 then false else chase l procs me n_proc (owner_of_chan l chan)
