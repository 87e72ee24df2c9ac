-- ===== src/Sync/Monitor.antt =====
-- The monitor system calls of kernel/sysproc.c on one monitor. A call holds the monitor's lock until
-- it returns or sleeps, and again from its wake-up on; each such stretch is one step. Ids that are
-- out of range, and what a call does for priority inheritance elsewhere, are left out.
pub mod System
pub mod Exclusion
mod Examples
use oops_os.Prelude.{
  ℕ, zero, suc, ◌+◌, ◌-◌, Bool, true, false, ◌||◌, ◌&&◌, not, Option, none, some, ltb, ◌==◌,
  if◌then◌else◌,
}
use oops_os.Prelude.Arrays.{put, all_below}

abbrev pub cond_max : ℕ
cond_max = 16

-- `struct condvar`
pub record Cond : Type 0 where
  pub allocated : Bool
  pub waiters : ℕ

-- `struct monitor`; `owner` is 0 for nobody.
pub record Monitor : Type 0 where
  pub allocated : Bool
  pub locked : Bool
  pub owner : ℕ
  pub waiters : ℕ
  pub pi_waiter_max : ℕ
  pub conds : ℕ → Cond

-- How a stretch ends: the call returns 0 or -1, sleeps on the monitor or on a condition variable.
-- Sleeping in `mon_enter` and in the second loop of `cond_wait` is told apart.
pub data Outcome : Type 0 where
  done : Outcome
  failed : Outcome
  waits_enter : Outcome
  waits_cond : ℕ → Outcome
  waits_again : Outcome

unfoldable pub create : Monitor → Option Monitor
create m =
    if m.allocated
    then none
    else some (record {
      allocated = true;
      locked = false;
      owner = 0;
      waiters = 0;
      pi_waiter_max = 0;
      conds =
          λ i. if ltb i cond_max then (record { allocated = false; waiters = 0 }) else m.conds i;
    })

unfoldable pub free : Monitor → Outcome × Monitor
free m =
    if not m.allocated || m.locked || ltb 0 m.waiters
    then (failed, m)
    else if not
        (all_below cond_max (λ i. not ((m.conds i).allocated || ltb 0 ((m.conds i).waiters))))
    then (failed, m)
    else (done, record m { allocated = false; pi_waiter_max = 0 })

-- What the caller brings: its pid and state, and the answer of `deadlock_detect`.
pub record Caller : Type 0 where
  pub pid : ℕ
  pub killed : Bool
  pub priority : ℕ
  pub pi_boost : ℕ
  pub deadlock : Bool

abbrev donor : Caller → ℕ
donor c = if ltb c.priority c.pi_boost then c.pi_boost else c.priority

-- The loop of `mon_enter` from its test on, up to the sleep or the return.
unfoldable pub enter_loop : Monitor → Caller → Outcome × Monitor
enter_loop m c =
    if m.locked
    then (if c.killed || c.deadlock then (failed, m) else (
      waits_enter,
      record m {
        pi_waiter_max = if ltb m.pi_waiter_max (donor c) then donor c else m.pi_waiter_max;
        waiters = m.waiters + 1;
      },
    ))
    else (done, record m { locked = true; owner = c.pid; pi_waiter_max = 0 })

unfoldable pub enter : Monitor → Caller → Outcome × Monitor
unfolding enter_loop
enter m c = if not m.allocated || m.owner == c.pid then (failed, m) else enter_loop m c

-- `mon_enter` after its sleep.
unfoldable pub enter_woken : Monitor → Caller → Outcome × Monitor
unfolding enter_loop
enter_woken m c = enter_loop (record m { waiters = m.waiters - 1 }) c

unfoldable pub exit : Monitor → Caller → Outcome × Monitor
exit m c =
    if not m.allocated || not (m.owner == c.pid)
    then (failed, m)
    else (done, record m { locked = false; owner = 0; pi_waiter_max = 0 })

-- The first condition variable from `i` on that is not allocated.
unfoldable pub free_cond : (ℕ → Cond) → ℕ → ℕ → Option ℕ
free_cond conds i zero = none
free_cond conds i (suc k) =
    let later = free_cond conds (suc i) k in if (conds i).allocated then later else some i

unfoldable pub with_cond : Monitor → Option ℕ → Option (ℕ × Monitor)
with_cond m none = none
with_cond m (some i) =
    some (i, record m { conds = put m.conds i (record { allocated = true; waiters = 0 }) })

unfoldable pub cond_create : Monitor → Option (ℕ × Monitor)
unfolding with_cond
cond_create m = if not m.allocated then none else with_cond m (free_cond m.conds 0 cond_max)

unfoldable pub cond_free : Monitor → ℕ → Outcome × Monitor
cond_free m i =
    if not m.allocated || not (m.conds i).allocated || ltb 0 ((m.conds i).waiters)
    then (failed, m)
    else (done, record m { conds = put m.conds i (record (m.conds i) { allocated = false }) })

unfoldable pub cond_wait : Monitor → Caller → ℕ → Outcome × Monitor
cond_wait m c i =
    if not m.allocated || not (m.conds i).allocated || not (m.owner == c.pid)
    then (failed, m)
    else (
      waits_cond i,
      record m {
        conds = put m.conds i (record (m.conds i) { waiters = (m.conds i).waiters + 1 });
        locked = false;
        owner = 0;
      },
    )

-- The second loop of `cond_wait`, from its test on.
unfoldable pub relock : Monitor → Caller → Outcome × Monitor
relock m c =
    if m.locked
    then (waits_again, record m { waiters = m.waiters + 1 })
    else (done, record m { locked = true; owner = c.pid })

-- `cond_wait` after its sleep on the condition variable.
unfoldable pub cond_woken : Monitor → Caller → ℕ → Outcome × Monitor
unfolding relock
cond_woken m c i =
    let m' = record m {
      conds = put m.conds i (record (m.conds i) { waiters = (m.conds i).waiters - 1 });
    } in
    if c.killed then (failed, m') else relock m' c

-- `cond_wait` after a sleep in its second loop.
unfoldable pub again_woken : Monitor → Caller → Outcome × Monitor
unfolding relock
again_woken m c =
    let m' = record m { waiters = m.waiters - 1 } in if c.killed then (failed, m') else relock m' c

-- `cond_signal` and `cond_broadcast`: whether they wake somebody.
unfoldable pub cond_signal : Monitor → Caller → ℕ → Option Bool
cond_signal m c i =
    if not m.allocated || not (m.conds i).allocated || not (m.owner == c.pid)
    then none
    else some (ltb 0 ((m.conds i).waiters))
