-- ===== src/Proc/Life/Ends.antt =====
-- The end of a process: exit, waitpid, join and tgroup_kill_and_reap (kernel/proc/proc.c).
use oops_os.Prelude.{
  ℕ, ◌+◌, ◌-◌, Bool, true, false, not, ◌&&◌, ◌||◌, Option, none, some, ltb, ◌==◌, if◌then◌else◌, ℤ,
  pos, negsuc,
}
use oops_os.Prelude.Search.{first_from}
use oops_os.Prelude.Sums.{sum_below}
use oops_os.Proc.Sched.{State, sleeping, runnable, zombie}
use oops_os.Proc.Life.Slots.{n_proc, Proc, Table, is_zombie, points_to, set_proc, freed}
use oops_os.Proc.Life.Wakes.{sleep, wake_waiter}

-- `exit`: the parent that it notes before the last stretch; `none` is a null pointer.
unfoldable pub noted_parent : Proc → Option ℕ
noted_parent p = elim p.parent [ none ↦ p.leader | some q ↦ some q ]

unfoldable pub reparent : Table → ℕ → Table
reparent t p = record t {
  procs = λ i.
      if ltb i n_proc && points_to ((t.procs i).parent) p
      then (record (t.procs i) { parent = some t.init })
      else t.procs i;
}

unfoldable pub become_zombie : Table → ℕ → ℤ → Table
become_zombie t p status = set_proc t p (record (t.procs p) { xstate = status; state = zombie })

-- The last stretch, under the locks of the noted parent `q` and of the process.
unfoldable pub exit_end : Table → ℕ → ℕ → ℤ → Table
exit_end t p q status = become_zombie (wake_waiter (reparent t p) q) p status

-- `wait` is `waitpid` of a negative pid with no options.
abbrev pub pid_fits : ℤ → ℕ → Bool
pid_fits (negsuc n) pid = true
pid_fits (pos n) pid = pid == n

abbrev pub is_child : Table → ℕ → ℤ → ℕ → Bool
is_child t p pid i = points_to ((t.procs i).parent) p && pid_fits pid ((t.procs i).pid)

-- The child's pid; -1; 0 with WNOHANG; or the caller has gone to sleep.
pub data Waited : Type 0 where
  reaped : ℕ → Waited
  failed still_running slept : Waited

unfoldable pub wait_on : Table → ℕ → Bool → Bool → Waited × Table
wait_on t p kids nohang =
    if not kids || (t.procs p).killed
    then (failed, t)
    else if nohang
    then (still_running, t)
    else (slept, sleep t p (p + 1))

abbrev pub zombie_child : Table → ℕ → ℤ → ℕ → Bool
zombie_child t p pid i = is_child t p pid i && is_zombie ((t.procs i).state)

abbrev pub is_some : Option ℕ → Bool
is_some none = false
is_some (some i) = true

unfoldable pub waitpid : Table → ℕ → ℤ → Bool → Bool → Waited × Table
waitpid t p pid copied nohang = elim (first_from (zombie_child t p pid) 0 n_proc) [
  | some i ↦
      if copied then (reaped ((t.procs i).pid), set_proc t i (freed (t.procs i))) else (failed, t)
  | none ↦ wait_on t p (is_some (first_from (is_child t p pid) 0 n_proc)) nohang
]

-- `join`, whose `freethread` also takes the thread out of the caller's group.
abbrev pub is_thread : Table → ℕ → ℕ → Bool
is_thread t p i = points_to ((t.procs i).leader) p

unfoldable pub leave_group : Table → ℕ → Table
leave_group t p = set_proc t p (record (t.procs p) { group = (t.procs p).group - 1 })

unfoldable pub join : Table → ℕ → Bool → Waited × Table
join t p copied =
    elim (first_from (λ i. is_thread t p i && is_zombie ((t.procs i).state)) 0 n_proc) [
      | some i ↦
          if copied
          then (reaped ((t.procs i).pid), leave_group (set_proc t i (freed (t.procs i))) p)
          else (failed, t)
      | none ↦ wait_on t p (is_some (first_from (is_thread t p) 0 n_proc)) false
    ]

-- One round of `tgroup_kill_and_reap`: the threads that are zombies go, the others are killed. Then the
-- leader is done, or sleeps for the next round.
abbrev pub is_sleeping : State → Bool
is_sleeping sleeping = true
is_sleeping _ = false

unfoldable pub end_thread : Proc → Proc
end_thread p =
    if is_zombie p.state
    then freed p
    else record p { killed = true; state = if is_sleeping p.state then runnable else p.state }

abbrev pub zombie_threads : Table → ℕ → ℕ
zombie_threads t l =
    sum_below n_proc (λ i. if is_thread t l i && is_zombie ((t.procs i).state) then 1 else 0)

unfoldable pub end_threads : Table → ℕ → Table
end_threads t l = record t {
  procs = λ i. if ltb i n_proc && is_thread t l i then end_thread (t.procs i) else t.procs i;
}

unfoldable pub reap_round : Table → ℕ → Bool × Table
reap_round t l =
    let t' = end_threads t l in
    let t'' =
      set_proc t' l (record (t'.procs l) { group = (t'.procs l).group - zombie_threads t l }) in
    if not (is_some (first_from (is_thread t l) 0 n_proc)) || not (ltb 1 ((t''.procs l).group))
    then (true, t'')
    else (false, sleep t'' l (l + 1))
