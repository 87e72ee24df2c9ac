-- ===== src/Proc/Life/Quiet.antt =====
-- The steps that keep the invariant slot by slot: all but births, waits and exits.
use oops_os.Prelude.{
  ℕ, ◌+◌, ◌≡◌, ◌≢◌, refl, sym, ◌⊎◌, inl, inr, Bool, true, false, ◌&&◌, arith, ltb, ◌==◌,
  if◌then◌else◌, Bool-cases, Option-cases, ℤ,
}
use oops_os.Prelude.Search.{first_from}
use oops_os.Proc.Sched.{
  State, unused, sleeping, suspended_sleep, suspended, runnable, running, zombie, is_unused,
}
use oops_os.Proc.Life.{
  n_proc, Proc, is_zombie, is_asleep, dispatch, yield_cpu, sleep, tidy, wake_state, woken, wakeup,
  wakeup_one_proc, wake_waiter, kill_state, mark_killed, kill, in_tree, killtree, is_held,
  suspend_state, suspend, suspend_end, resume_state, resume, resume_all,
}
use oops_os.Proc.Life.System.{Doing, waits, System, proc_of, Runs, with_table}
use oops_os.Proc.Life.Sound.{
  IsSound, IsQuiet, Keeps, quiet, same-IsQuiet, Keeps-IsSound, slot-IsSound,
}

-- A change of state that neither takes nor frees a slot, and puts nobody to sleep.
abbrev Calm : State → State → Type 0
Calm s s' =
    (is_unused s' ≡ is_unused s)
    × (is_zombie s' ≡ is_zombie s)
    × (is_asleep s' ≡ true → is_asleep s ≡ true)

restate-IsQuiet :
    (d : Doing) (p q : Proc)
    → q.pid ≡ p.pid
    → q.parent ≡ p.parent
    → q.chan ≡ p.chan
    → Calm p.state q.state
    → IsQuiet d p q
restate-IsQuiet d p q i r c (f, z, a) = record {
  free = f;
  dead = z;
  pid = λ u. i;
  parent = r;
  asleep = λ pid w x. (a x, c);
}

wake_state-Calm : (s : State) → Calm s (wake_state s)
wake_state-Calm unused = (refl, refl, λ a. a)
wake_state-Calm sleeping = (refl, refl, λ a. refl)
wake_state-Calm suspended_sleep = (refl, refl, λ a. refl)
wake_state-Calm suspended = (refl, refl, λ a. a)
wake_state-Calm runnable = (refl, refl, λ a. a)
wake_state-Calm running = (refl, refl, λ a. a)
wake_state-Calm zombie = (refl, refl, λ a. a)

kill_state-Calm : (s : State) → Calm s (kill_state s)
kill_state-Calm unused = (refl, refl, λ a. a)
kill_state-Calm sleeping = (refl, refl, λ a. refl)
kill_state-Calm suspended_sleep = (refl, refl, λ a. refl)
kill_state-Calm suspended = (refl, refl, λ a. a)
kill_state-Calm runnable = (refl, refl, λ a. a)
kill_state-Calm running = (refl, refl, λ a. a)
kill_state-Calm zombie = (refl, refl, λ a. a)

resume_state-Calm : (s : State) (chan : ℕ) → Calm s (resume_state s chan)
resume_state-Calm suspended_sleep chan = elim (Bool-cases (chan == 0)) [
  | inl e ↦ rw e (refl, refl, λ a. refl)
  | inr e ↦ rw e (refl, refl, λ a. refl)
]
resume_state-Calm unused chan = (refl, refl, λ a. a)
resume_state-Calm sleeping chan = (refl, refl, λ a. a)
resume_state-Calm suspended chan = (refl, refl, λ a. cc a)
resume_state-Calm runnable chan = (refl, refl, λ a. a)
resume_state-Calm running chan = (refl, refl, λ a. a)
resume_state-Calm zombie chan = (refl, refl, λ a. a)

module _ (s : System) (h : IsSound s) where
  pub dispatch-IsSound :
      (i : ℕ) → (proc_of s i).state ≡ runnable → IsSound (with_table s (dispatch s.table i))
  unfolding dispatch
  dispatch-IsSound i e =
      slot-IsSound s i _
        (quiet (
          restate-IsQuiet (s.doing i) (proc_of s i) _ refl refl refl
            (rw e (refl, refl, λ a. cc a))))
        h

  pub yield_cpu-IsSound : (i : ℕ) → Runs s i → IsSound (with_table s (yield_cpu s.table i))
  unfolding yield_cpu
  yield_cpu-IsSound i r =
      slot-IsSound s i _
        (quiet (
          restate-IsQuiet (s.doing i) (proc_of s i) _ refl refl refl
            (rw r.1 (refl, refl, λ a. cc a))))
        h

  pub sleep-IsSound :
      (i chan : ℕ)
      → Runs s i
      → ((pid : ℤ) → s.doing i ≢ waits pid)
      → IsSound (with_table s (sleep s.table i chan))
  unfolding sleep
  sleep-IsSound i chan r ne =
      slot-IsSound s i _
        (quiet (record {
          free = rw r.1 refl;
          dead = rw r.1 refl;
          pid = λ u. refl;
          parent = refl;
          asleep = λ pid d a. absurd (ne pid d);
        }))
        h

  pub tidy-IsSound : (i : ℕ) → Runs s i → IsSound (with_table s (tidy s.table i))
  unfolding tidy
  tidy-IsSound i r =
      slot-IsSound s i _
        (quiet (record {
          free = refl;
          dead = refl;
          pid = λ u. refl;
          parent = refl;
          asleep = λ pid d a. absurd (cc (rw r.1 at a));
        }))
        h

pub woken-IsQuiet : (d : Doing) (chan : ℕ) (p : Proc) → IsQuiet d p (woken chan p)
unfolding woken
woken-IsQuiet d chan p = elim (Bool-cases (p.chan == chan)) [
  | inl e ↦ rw e (
      restate-IsQuiet d p (record p { state = wake_state p.state }) refl refl refl
        (wake_state-Calm p.state))
  | inr e ↦ rw e (same-IsQuiet d p)
]

mark_killed-IsQuiet : (d : Doing) (p : Proc) → IsQuiet d p (mark_killed p)
unfolding mark_killed
mark_killed-IsQuiet d p = restate-IsQuiet d p _ refl refl refl (kill_state-Calm p.state)

held-used : (x : State) → is_held x ≡ true → (is_unused x ≡ false) × (is_zombie x ≡ false)
held-used unused e = absurd (cc e)
held-used sleeping e = (refl, refl)
held-used suspended_sleep e = (refl, refl)
held-used suspended e = (refl, refl)
held-used runnable e = (refl, refl)
held-used running e = (refl, refl)
held-used zombie e = absurd (cc e)

-- A step that changes the slots that pass a test.
pub tested-Keeps :
    (s : System) (test : ℕ → Bool) (f : Proc → Proc)
    → ((d : Doing) (p : Proc) → Keeps d p (f p))
    → (i : ℕ) → Keeps (s.doing i) (proc_of s i) (if test i then f (proc_of s i) else proc_of s i)
tested-Keeps s test f k i = elim (Bool-cases (test i)) [
  | inl e ↦ rw e (k (s.doing i) (proc_of s i))
  | inr e ↦ rw e (quiet (same-IsQuiet (s.doing i) (proc_of s i)))
]

module _ (s : System) (h : IsSound s) where
  pub wakeup-IsSound : (chan : ℕ) → IsSound (with_table s (wakeup s.table chan))
  unfolding wakeup
  wakeup-IsSound chan =
      Keeps-IsSound s _ refl (omega arith)
        (tested-Keeps s (λ i. ltb i n_proc) (woken chan) (λ d p. quiet (woken-IsQuiet d chan p))) h

  pub wakeup_one_proc-IsSound : (chan : ℕ) → IsSound (with_table s (wakeup_one_proc s.table chan))
  unfolding wakeup_one_proc
  wakeup_one_proc-IsSound chan =
      elim (Option-cases (
        first_from (λ i. is_asleep ((proc_of s i).state) && (proc_of s i).chan == chan) 0 n_proc)) [
          | inl e ↦ rw (wakeup_one_proc, e) h
          | inr (i, e) ↦
              rw (wakeup_one_proc, e)
                (slot-IsSound s i _ (quiet (woken-IsQuiet (s.doing i) chan (proc_of s i))) h)
        ]

  pub wake_waiter-IsSound : (i : ℕ) → IsSound (with_table s (wake_waiter s.table i))
  unfolding wake_waiter
  wake_waiter-IsSound i =
      slot-IsSound s i _ (quiet (woken-IsQuiet (s.doing i) (i + 1) (proc_of s i))) h

  pub kill-IsSound : (pid : ℕ) → IsSound (with_table s (kill s.table pid).1)
  unfolding kill
  kill-IsSound pid = elim (Option-cases (first_from (λ i. (proc_of s i).pid == pid) 0 n_proc)) [
    | inl e ↦ rw (kill, e) h
    | inr (i, e) ↦
        rw (kill, e) (slot-IsSound s i _ (quiet (mark_killed-IsQuiet (s.doing i) (proc_of s i))) h)
  ]

  pub killtree-IsSound : (pid k : ℕ) → IsSound (with_table s (killtree s.table pid k).1)
  unfolding killtree
  killtree-IsSound pid k =
      Keeps-IsSound s _ refl (omega arith)
        (tested-Keeps s (in_tree s.table pid k) mark_killed
          (λ d p. quiet (mark_killed-IsQuiet d p)))
        h

  pub suspend-IsSound :
      (i : ℕ)
      → ((proc_of s i).state ≡ runnable) ⊎ ((proc_of s i).state ≡ sleeping)
      → IsSound (with_table s (suspend s.table i))
  unfolding suspend
  suspend-IsSound i e =
      slot-IsSound s i _ (quiet (restate-IsQuiet (s.doing i) (proc_of s i) _ refl refl refl calm)) h
    where
      calm : Calm ((proc_of s i).state) (suspend_state ((proc_of s i).state))
      calm = elim e [ inl q ↦ rw q (refl, refl, λ a. cc a) | inr q ↦ rw q (refl, refl, λ a. refl) ]

  pub keep_out-IsSound :
      (i : ℕ) (prev : State) → IsSound (with_table s (suspend_end s.table i true prev))
  unfolding suspend_end
  keep_out-IsSound i prev =
      slot-IsSound s i _
        (quiet (restate-IsQuiet (s.doing i) (proc_of s i) _ refl refl refl (refl, refl, λ a. a))) h

  pub restore-IsSound :
      (i : ℕ) (prev : State)
      → (prev ≡ runnable) ⊎ (prev ≡ sleeping)
      → (proc_of s i).state ≡ suspend_state prev
      → IsSound (with_table s (suspend_end s.table i false prev))
  unfolding suspend_end
  restore-IsSound i prev e was =
      slot-IsSound s i _
        (elim e [
          | inl q ↦
              rw (was, q)
                (quiet (
                  restate-IsQuiet (s.doing i) (proc_of s i) _ refl refl refl
                    (rw (was, q) (refl, refl, λ a. cc a))))
          | inr q ↦
              rw (was, q)
                (quiet (
                  restate-IsQuiet (s.doing i) (proc_of s i) _ refl refl refl
                    (rw (was, q) (refl, refl, λ a. refl))))
        ])
        h

  -- A process that is not waiting for a child may be put back to sleep.
  pub put_back-IsSound :
      (i : ℕ) (prev : State)
      → (prev ≡ runnable) ⊎ (prev ≡ sleeping)
      → is_held ((proc_of s i).state) ≡ true
      → ((pid : ℤ) → s.doing i ≢ waits pid)
      → IsSound (with_table s (suspend_end s.table i false prev))
  unfolding suspend_end
  put_back-IsSound i prev e held ne =
      let (free, dead) = held-used ((proc_of s i).state) held in
      slot-IsSound s i _
        (rw held (
          quiet (record {
            free = elim e [ inl q ↦ rw q (sym free) | inr q ↦ rw q (sym free) ];
            dead = elim e [ inl q ↦ rw q (sym dead) | inr q ↦ rw q (sym dead) ];
            pid = λ u. refl;
            parent = refl;
            asleep = λ pid d a. absurd (ne pid d);
          })))
        h

  pub leave_be-IsSound :
      (i : ℕ) (prev : State)
      → is_held ((proc_of s i).state) ≡ false
      → IsSound (with_table s (suspend_end s.table i false prev))
  unfolding suspend_end
  leave_be-IsSound i prev out =
      slot-IsSound s i _
        (rw out
          (quiet (restate-IsQuiet (s.doing i) (proc_of s i) _ refl refl refl (refl, refl, λ a. a))))
        h

  pub resume-IsSound : (i : ℕ) → IsSound (with_table s (resume s.table i))
  unfolding resume
  resume-IsSound i =
      slot-IsSound s i _
        (quiet (
          restate-IsQuiet (s.doing i) (proc_of s i) _ refl refl refl
            (resume_state-Calm ((proc_of s i).state) ((proc_of s i).chan))))
        h

  pub resume_all-IsSound : IsSound (with_table s (resume_all s.table))
  unfolding resume_all
  resume_all-IsSound =
      Keeps-IsSound s _ refl (omega arith)
        (tested-Keeps s (λ i. ltb i n_proc)
          (λ p. record p { state = resume_state p.state p.chan; suspending = false })
          (λ d p. quiet (restate-IsQuiet d p _ refl refl refl (resume_state-Calm p.state p.chan))))
        h
