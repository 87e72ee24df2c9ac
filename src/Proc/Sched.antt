-- ===== src/Proc/Sched.antt =====
-- The scheduling classes of kernel/proc/proc.c: real-time least laxity first, and the multi-level
-- feedback queue. A task is the part of `struct proc` that they use; the table is a list. Ticks and
-- the tick fields are natural numbers; a sum that the source casts to `uint` wraps at 2^32, the `int`
-- sums of `rt_period` are taken not to overflow.
pub mod Candidates
pub mod Realtime
pub mod Feedback
mod Examples
use oops_os.Prelude.{
  ℕ, zero, suc, ◌+◌, ◌-◌, ◌*◌, ◌/◌, ◌%◌, Bool, true, false, ◌&&◌, ◌||◌, not, Option, none, some,
  List, [], ◌∷◌, map, ltb, leb, ◌==◌, if◌then◌else◌, ℤ, pos, pos_part, ltb_ℤ, Status, ok, err,
}

abbrev pub u32 : ℕ → ℕ
u32 n = n % 4294967296

pub data State : Type 0 where
  unused sleeping suspended_sleep suspended runnable running zombie : State

abbrev pub is_runnable : State → Bool
is_runnable runnable = true
is_runnable _ = false

abbrev pub is_running : State → Bool
is_running running = true
is_running _ = false

abbrev pub is_unused : State → Bool
is_unused unused = true
is_unused _ = false

-- `rt_policy` is `realtime`: SCHED_RT_LLF or SCHED_NORMAL.
pub record Task : Type 0 where
  pub pid : ℕ
  pub state : State
  pub priority : ℕ
  pub dyn_priority : ℕ
  pub level : ℕ
  pub ticks : ℕ
  pub realtime : Bool
  pub period : ℕ
  pub runtime : ℕ
  pub deadline : ℕ
  pub release : ℕ
  pub deadline_tick : ℕ
  pub remaining : ℕ
  pub misses : ℕ

unfoldable pub rt_reset : Task → Task
rt_reset t = record t {
  realtime = false;
  period = 0;
  runtime = 0;
  deadline = 0;
  release = 0;
  deadline_tick = 0;
  remaining = 0;
  misses = 0;
}

unfoldable pub rt_setup : Task → ℕ → ℕ → ℕ → ℕ → Task
rt_setup t period runtime deadline now = record t {
  realtime = true;
  period = period;
  runtime = runtime;
  deadline = deadline;
  release = now;
  deadline_tick = u32 (now + deadline);
  remaining = runtime;
  misses = 0;
}

-- One round of the loop of `rt_refresh_locked`: the next period begins.
unfoldable pub rt_period : Task → Task
rt_period t = record t {
  misses = if ltb 0 t.remaining then t.misses + 1 else t.misses;
  release = t.release + t.period;
  deadline_tick = t.release + t.period + t.deadline;
  remaining = t.runtime;
}

unfoldable pub rt_catch_up : ℕ → ℕ → Task → Task
rt_catch_up zero now t = t
rt_catch_up (suc fuel) now t =
    let rest = rt_catch_up fuel now (rt_period t) in
    if leb (u32 (t.release + t.period)) now then rest else t

-- `rt_refresh_locked`; the loop has at most `now + 1` rounds.
unfoldable pub rt_refresh : ℕ → Task → Task
rt_refresh now t =
    if not t.realtime
    then t
    else if t.period == 0 || t.deadline == 0 || t.runtime == 0
    then t
    else rt_catch_up (suc now) now t

unfoldable pub rt_eligible : ℕ → Task → Bool
rt_eligible now t = t.realtime && ltb 0 t.remaining && leb t.release now

-- `rt_laxity_locked(p) < rt_laxity_locked(q)`, where the laxity is the deadline's tick less the
-- current tick and the remaining budget.
unfoldable pub less_lax : Task → Task → Bool
less_lax p q = ltb (p.deadline_tick + q.remaining) (q.deadline_tick + p.remaining)

-- The test of the loop of `rt_pick` on a task, refreshed.
unfoldable pub is_candidate : ℕ → Task → Bool
is_candidate now t = is_runnable t.state && t.realtime && rt_eligible now (rt_refresh now t)

unfoldable pub better : Option Task → Task → Option Task
better none t = some t
better (some b) t = if less_lax t b then some t else some b

-- The loop of `rt_pick` with the best task so far.
unfoldable pub pick_from : ℕ → Option Task → List Task → Option Task
pick_from now best [] = best
pick_from now best (t ∷ ts) =
    pick_from now (if is_candidate now t then better best (rt_refresh now t) else best) ts

-- The table after the loop: it has refreshed every task that it looked at.
unfoldable pub refreshed : ℕ → Task → Task
refreshed now t = if is_runnable t.state && t.realtime then rt_refresh now t else t

unfoldable pub rt_pick : ℕ → List Task → Option Task × List Task
rt_pick now ts = (pick_from now none ts, map (refreshed now) ts)

-- The first task with the pid is replaced; `err` if there is none.
unfoldable pub update_pid : List Task → ℕ → (Task → Task) → Status × List Task
update_pid [] pid f = (err, [])
update_pid (t ∷ ts) pid f =
    let (s, ts') = update_pid ts pid f in if t.pid == pid then (ok, f t ∷ ts) else (s, t ∷ ts')

unfoldable pub rt_set : List Task → ℕ → ℕ → ℤ → ℤ → ℤ → Status × List Task
rt_set ts now pid period runtime deadline =
    if not (ltb_ℤ (pos 0) period) || not (ltb_ℤ (pos 0) runtime) || not (ltb_ℤ (pos 0) deadline)
    then (err, ts)
    else if ltb_ℤ deadline runtime || ltb_ℤ period deadline
    then (err, ts)
    else update_pid ts pid
        (λ t. rt_setup t (pos_part period) (pos_part runtime) (pos_part deadline) now)

unfoldable pub rt_clear : List Task → ℕ → Status × List Task
rt_clear ts pid = update_pid ts pid rt_reset

-- `rt_tick` on the running process: whether it asks for a reschedule. `seen` is the class that the first test
-- reads before the lock is taken; `rt_clear` may come in between.
unfoldable pub rt_tick : ℕ → Bool → Option Task → Bool × Option Task
rt_tick now seen none = (false, none)
rt_tick now seen (some t) =
    if not seen
    then (false, some t)
    else if not (is_running t.state)
    then (false, some t)
    else if t.realtime
    then (false, some t)
    else (let t' = rt_refresh now t in
        let left = if ltb 0 t'.remaining then t'.remaining - 1 else t'.remaining in
        if left == 0
        then (true, some (record t' { remaining = 0 }))
        else (false, some (record t' { remaining = left })))

abbrev pub levels : ℕ
levels = 4

-- `mlfq_time_slice`
abbrev pub slice : ℕ → ℕ
slice zero = 1
slice (suc zero) = 2
slice (suc (suc zero)) = 4
slice (suc (suc (suc n))) = 8

abbrev pub clamp : ℤ → ℕ
clamp p = if ltb_ℤ p (pos 0) then 0 else if ltb 20 (pos_part p) then 20 else pos_part p

-- The level of a priority: `(MLFQ_LEVELS - 1) - (priority * MLFQ_LEVELS / 21)`, put into range.
unfoldable pub level_of : ℕ → ℕ
level_of p =
    if leb levels (levels - 1 - p * levels / 21) then levels - 1 else levels - 1 - p * levels / 21

-- `setPriority`, where the scheduler is SCHED_MLFQ and where it is another.
unfoldable pub set_priority : Bool → List Task → ℕ → ℤ → Status × List Task
set_priority mlfq ts pid p = update_pid ts pid λ t.
    if mlfq
    then (record t { priority = clamp p; level = level_of (clamp p); ticks = 0 })
    else (record t { priority = clamp p; dyn_priority = clamp p })

-- `mlfq_tick` on the running process: whether its slice is over.
unfoldable pub mlfq_tick : Task → Bool × Task
mlfq_tick t =
    if not (is_running t.state)
    then (false, t)
    else (let level = if leb levels t.level then levels - 1 else t.level in
        if leb (slice level) (t.ticks + 1)
        then (
          true,
          record t { level = if ltb level (levels - 1) then level + 1 else level; ticks = 0 },
        )
        else (false, record t { level = level; ticks = t.ticks + 1 }))

-- `mlfq_boost` and its static `last_boost`.
unfoldable pub mlfq_boost : ℕ → ℕ → List Task → ℕ × List Task
mlfq_boost last now ts =
    if now == last
    then (last, ts)
    else (now, map (λ t. if is_unused t.state then t else (record t { level = 0; ticks = 0 })) ts)
