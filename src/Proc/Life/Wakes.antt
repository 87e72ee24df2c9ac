-- ===== src/Proc/Life/Wakes.antt =====
-- sleep, the wake-ups, kill and killtree (kernel/proc/proc.c).
use oops_os.Prelude.{
  ℕ, zero, suc, ◌+◌, Bool, true, false, not, ◌&&◌, none, some, ltb, ◌==◌, if◌then◌else◌,
}
use oops_os.Prelude.Search.{first_from}
use oops_os.Proc.Sched.{State, sleeping, suspended_sleep, suspended, runnable, running, is_unused}
use oops_os.Proc.Life.Slots.{n_proc, Proc, Table, set_proc}

-- `sleep`, up to the switch and after it.
unfoldable pub sleep : Table → ℕ → ℕ → Table
sleep t i chan = set_proc t i (record (t.procs i) { chan = chan; state = sleeping })

unfoldable pub tidy : Table → ℕ → Table
tidy t i = set_proc t i (record (t.procs i) { chan = 0 })

-- What a scheduler and `yield` do to the state.
unfoldable pub dispatch : Table → ℕ → Table
dispatch t i = set_proc t i (record (t.procs i) { state = running })

unfoldable pub yield_cpu : Table → ℕ → Table
yield_cpu t i = set_proc t i (record (t.procs i) { state = runnable })

-- A process that sleeps on the channel is woken; one that is suspended stays so.
abbrev pub wake_state : State → State
wake_state sleeping = runnable
wake_state suspended_sleep = suspended
wake_state s = s

unfoldable pub woken : ℕ → Proc → Proc
woken chan p = if p.chan == chan then (record p { state = wake_state p.state }) else p

unfoldable pub wakeup : Table → ℕ → Table
wakeup t chan = record t { procs = λ i. if ltb i n_proc then woken chan (t.procs i) else t.procs i }

abbrev pub is_asleep : State → Bool
is_asleep sleeping = true
is_asleep suspended_sleep = true
is_asleep _ = false

unfoldable pub wakeup_one_proc : Table → ℕ → Table
wakeup_one_proc t chan =
    elim (first_from (λ i. is_asleep ((t.procs i).state) && (t.procs i).chan == chan) 0 n_proc) [
      | none ↦ t
      | some i ↦ set_proc t i (woken chan (t.procs i))
    ]

-- `wakeup1`
unfoldable pub wake_waiter : Table → ℕ → Table
wake_waiter t i = set_proc t i (woken (i + 1) (t.procs i))

abbrev pub kill_state : State → State
kill_state sleeping = runnable
kill_state suspended_sleep = runnable
kill_state suspended = runnable
kill_state s = s

abbrev pub is_held : State → Bool
is_held suspended_sleep = true
is_held suspended = true
is_held _ = false

unfoldable pub mark_killed : Proc → Proc
mark_killed p = record p {
  killed = true;
  state = kill_state p.state;
  suspending = if is_held p.state then false else p.suspending;
}

unfoldable pub kill : Table → ℕ → Bool × Table
kill t pid = elim (first_from (λ i. (t.procs i).pid == pid) 0 n_proc) [
  | none ↦ (false, t)
  | some i ↦ (true, set_proc t i (mark_killed (t.procs i)))
]

-- `is_descendant` follows at most `k` parents.
unfoldable pub is_descendant : Table → ℕ → ℕ → ℕ → Bool
is_descendant t root i zero = false
is_descendant t root i (suc k) =
    let up : Bool = elim ((t.procs i).parent) [
      | none ↦ false
      | some j ↦ is_descendant t root j k
    ] in
    if (t.procs i).pid == root then true else up

abbrev pub in_tree : Table → ℕ → ℕ → ℕ → Bool
in_tree t pid k i = ltb i n_proc && not (is_unused ((t.procs i).state)) && is_descendant t pid i k

unfoldable pub killtree : Table → ℕ → ℕ → Bool × Table
killtree t pid k = (
  elim (first_from (in_tree t pid k) 0 n_proc) [ none ↦ false | some i ↦ true ],
  record t { procs = λ i. if in_tree t pid k i then mark_killed (t.procs i) else t.procs i },
)
