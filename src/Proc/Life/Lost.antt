-- ===== src/Proc/Life/Lost.antt =====
-- A wake-up that a failed suspension undoes, and a signal to pid 0 that meets a free slot.
use oops_os.Prelude.{
  ℕ, ◌+◌, ◌≤◌, ◌<◌, ◌≡◌, ◌≢◌, refl, ◌∙◌, ap, true, false, some, arith, ltb, ◌==◌, subst, ℕ_discrete,
}
use oops_os.Prelude.Arrays.{put, put_self, put_ne}
use oops_os.Prelude.Search.{
  first_from, IsFirst, first_from-IsFirst, first_from-some, first_from_ext,
}
use oops_os.Proc.Sched.{State, sleeping, runnable, is_unused}
use oops_os.Proc.Life.{
  n_proc, Proc, Table, enough, claimed, set_up, count_pid, free_slot, allocproc, born, fork_with,
  fork, kill_state, mark_killed, kill, wake_state, suspend_state, is_held, woken, wakeup, suspend,
  suspend_end, set_proc,
}

-- The state and the channel of one slot after each operation.
suspend-at :
    (t : Table) (i : ℕ)
    → (((suspend t i).procs i).state ≡ suspend_state ((t.procs i).state))
      × (((suspend t i).procs i).chan ≡ (t.procs i).chan)
unfolding suspend
suspend-at t i = (ap (λ (p : Proc). p.state) here, ap (λ (p : Proc). p.chan) here)
  where
    here :
        put t.procs i
          (record (t.procs i) { state = suspend_state ((t.procs i).state); suspending = true })
          i
        ≡ record (t.procs i) { state = suspend_state ((t.procs i).state); suspending = true }
    here = put_self t.procs i _

wakeup-at :
    (t : Table) (i chan : ℕ)
    → i < n_proc
    → (t.procs i).chan ≡ chan
    → (((wakeup t chan).procs i).state ≡ wake_state ((t.procs i).state))
      × (((wakeup t chan).procs i).chan ≡ chan)
unfolding wakeup woken
wakeup-at t i chan l e =
    let below : ltb i n_proc ≡ true = ground arith in
    let same : ((t.procs i).chan == chan) ≡ true = ground (arith, e) in rw (below, same) (refl, e)

suspend_end-at :
    (t : Table) (i : ℕ) (prev : State)
    → is_held ((t.procs i).state) ≡ true
    → (((suspend_end t i false prev).procs i).state ≡ prev)
      × (((suspend_end t i false prev).procs i).chan ≡ (t.procs i).chan)
unfolding suspend_end
suspend_end-at t i prev e = rw e (ap (λ (p : Proc). p.state) here, ap (λ (p : Proc). p.chan) here)
  where
    here :
        put t.procs i (record (t.procs i) { state = prev; suspending = false }) i
        ≡ record (t.procs i) { state = prev; suspending = false }
    here = put_self t.procs i _

-- `wakeup` makes a process that sleeps on the channel runnable. If `midsched_suspend_one` has picked it
-- before, and its swap then moves no page, the process is left asleep on the channel all the same.
pub suspend_loses_wakeup :
    (t : Table) (i : ℕ)
    → i < n_proc
    → (t.procs i).state ≡ sleeping
    → let left = suspend_end (wakeup (suspend t i) (t.procs i).chan) i false sleeping in
      (((wakeup t (t.procs i).chan).procs i).state ≡ runnable)
      × ((left.procs i).state ≡ sleeping)
      × ((left.procs i).chan ≡ (t.procs i).chan)
suspend_loses_wakeup t i l e =
    let away = suspend-at t i in
    let woke = wakeup-at (suspend t i) i ((t.procs i).chan) l away.1 in
    let held =
      woke.0 ∙ (ap wake_state away.0 ∙ ap (λ (x : State). wake_state (suspend_state x)) e) in
    let ended =
      suspend_end-at (wakeup (suspend t i) (t.procs i).chan) i sleeping (ap is_held held) in
    ((wakeup-at t i ((t.procs i).chan) l refl).0 ∙ ap wake_state e, ended.0, ended.1 ∙ woke.1)

kill-free :
    (t : Table) (i : ℕ)
    → i < n_proc
    → (t.procs i).pid ≡ 0
    → ((j : ℕ) → j < i → (t.procs j).pid ≢ 0)
    → kill t 0 ≡ (true, set_proc t i (mark_killed (t.procs i)))
unfolding kill
kill-free t i l z before = rw (kill, found) refl
  where
    found : first_from (λ j. (t.procs j).pid == 0) 0 n_proc ≡ some i
    found =
        first_from-some (λ j. (t.procs j).pid == 0) 0 n_proc i
          (omega arith, omega arith, ground arith, λ j a b. ground (arith, before j b))

-- The first free slot, to which a signal has been sent.
killed_slot : Table → ℕ → Table
killed_slot t i = set_proc t i (mark_killed (t.procs i))

free_slot-killed : (t : Table) (i : ℕ) → free_slot t ≡ some i → free_slot (killed_slot t i) ≡ some i
unfolding free_slot killed_slot mark_killed
free_slot-killed t i e =
    first_from_ext (λ j. is_unused ((killed_slot t i).procs j).state)
      (λ j. is_unused ((t.procs j).state)) 0 n_proc same
    ∙ e
  where
    kill_state-unused : (x : State) → is_unused (kill_state x) ≡ is_unused x
    kill_state-unused State.unused = refl
    kill_state-unused State.sleeping = refl
    kill_state-unused State.suspended_sleep = refl
    kill_state-unused State.suspended = refl
    kill_state-unused State.runnable = refl
    kill_state-unused State.running = refl
    kill_state-unused State.zombie = refl

    same :
        (j : ℕ)
        → 0 ≤ j
        → j < 0 + n_proc
        → is_unused ((killed_slot t i).procs j).state ≡ is_unused ((t.procs j).state)
    same j a b = elim (ℕ_discrete j i) [
      | yes x ↦
          rw (x, put_self t.procs i (mark_killed (t.procs i)))
            (kill_state-unused ((t.procs i).state))
      | no ne ↦ rw (put_ne t.procs i (mark_killed (t.procs i)) j ne) refl
    ]

fork-claims :
    (t : Table) (p i : ℕ)
    → free_slot t ≡ some i
    → ((fork t p enough true).0 ≡ some t.next_pid)
      × ((((fork t p enough true).1).procs i).killed ≡ (t.procs i).killed)
unfolding fork allocproc set_up count_pid fork_with born claimed
fork-claims t p i e =
    rw (fork, allocproc, e)
      (
        ap (λ (x : Proc). some x.pid) (put_self t.procs i (claimed (t.procs i) t.next_pid)),
        ap (λ (x : Proc). x.killed) (put_self (put t.procs i (claimed (t.procs i) t.next_pid)) i _)
            ∙ ap (λ (x : Proc). x.killed) (put_self t.procs i (claimed (t.procs i) t.next_pid)),
      )

free_slot-IsFirst :
    (t : Table) (i : ℕ)
    → free_slot t ≡ some i
    → IsFirst (λ j. is_unused ((t.procs j).state)) 0 n_proc (some i)
unfolding free_slot
free_slot-IsFirst t i e =
    subst (IsFirst (λ j. is_unused ((t.procs j).state)) 0 n_proc) e
      (first_from-IsFirst (λ j. is_unused ((t.procs j).state)) 0 n_proc)

mark_killed-killed : (p : Proc) → (mark_killed p).killed ≡ true
unfolding mark_killed
mark_killed-killed p = refl

-- `kill` of pid 0 succeeds if the first free slot holds pid 0, as `freeproc` leaves it, and no slot
-- before it does. The next `fork` that succeeds takes this slot, and its child is killed from the start.
pub kill_zero :
    (t : Table) (p i : ℕ)
    → free_slot t ≡ some i
    → (t.procs i).pid ≡ 0
    → ((j : ℕ) → j < i → (t.procs j).pid ≢ 0)
    → let t' = (kill t 0).1 in
      ((kill t 0).0 ≡ true)
      × ((fork t' p enough true).0 ≡ some t'.next_pid)
      × ((((fork t' p enough true).1).procs i).killed ≡ true)
unfolding killed_slot
kill_zero t p i e z before =
    let met = kill-free t i below z before in
    let forked = fork-claims (killed_slot t i) p i (free_slot-killed t i e) in
    rw met (refl, forked.0, forked.1 ∙ marked)
  where
    below : i < n_proc
    below = omega (arith, (free_slot-IsFirst t i e).1)

    marked : ((killed_slot t i).procs i).killed ≡ true
    marked =
        ap (λ (x : Proc). x.killed) (put_self t.procs i (mark_killed (t.procs i)))
        ∙ mark_killed-killed (t.procs i)
