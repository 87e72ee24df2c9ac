-- ===== src/Proc/Life/Exits.antt =====
-- `exit` keeps the invariant, and with it all steps do.
use oops_os.Prelude.{
  ℕ, ◌+◌, ◌≡◌, ◌≢◌, refl, sym, ◌∙◌, ap, ◌⊎◌, inl, inr, true, false, some, arith, ◌==◌, Bool-cases,
  ℕ_discrete, ℤ, subst, some_inj,
}
use oops_os.Prelude.Arrays.{put, put_self, put_ne}
use oops_os.Proc.Sched.{
  State, unused, sleeping, suspended_sleep, suspended, runnable, running, zombie, is_unused,
}
use oops_os.Proc.Life.{
  Proc, Table, is_held, suspend_end, is_zombie, is_asleep, pid_fits, noted_parent, wake_state,
  woken, wake_waiter, reparent, exit_end,
}
use oops_os.Proc.Life.System.{
  Doing, at_large, waits, misses, missed, exits, System, proc_of, Runs, with_table, Step, runs,
  yields, sleeps, tidies, wakes, wakes_one, wakes_init, kills, kills_tree, suspends, keeps_out,
  restores, restores_late, restores_nothing, resumes, resumes_all, forks, clones, scans, joins,
  reaps, notes, ends, Reach, boots, next,
}
use oops_os.Proc.Life.Sound.{is_alive, IsSound, IsQuiet, same-IsQuiet, booted-IsSound}
use oops_os.Proc.Life.Quiet.{
  dispatch-IsSound, yield_cpu-IsSound, sleep-IsSound, tidy-IsSound, woken-IsQuiet, wakeup-IsSound,
  wakeup_one_proc-IsSound, wake_waiter-IsSound, kill-IsSound, killtree-IsSound, suspend-IsSound,
  keep_out-IsSound, restore-IsSound, put_back-IsSound, leave_be-IsSound, resume-IsSound,
  resume_all-IsSound,
}
use oops_os.Proc.Life.Family.{fork-IsSound, clone-IsSound}
use oops_os.Proc.Life.Threads.{join-IsSound, reap_round-IsSound}
use oops_os.Proc.Life.Waits.{doing-IsSound, at_large-IsSound, Runs-alive, waitpid-IsSound}
use oops_os.Proc.Life.Orphans.{
  IsHandedOver, reparent-IsHandedOver, reparent-IsSound, zombie-IsSound,
}

wake_state-awake : (x : State) → is_asleep (wake_state x) ≡ false
wake_state-awake unused = refl
wake_state-awake sleeping = refl
wake_state-awake suspended_sleep = refl
wake_state-awake suspended = refl
wake_state-awake runnable = refl
wake_state-awake running = refl
wake_state-awake zombie = refl

woken-awake : (chan : ℕ) (p : Proc) → p.chan ≡ chan → is_asleep ((woken chan p).state) ≡ false
unfolding woken
woken-awake chan p e =
    let same : (p.chan == chan) ≡ true = ground (arith, e) in rw same (wake_state-awake p.state)

wake_waiter-at : (t : Table) (q : ℕ) → (wake_waiter t q).procs q ≡ woken (q + 1) (t.procs q)
unfolding wake_waiter
wake_waiter-at t q = put_self t.procs q _

wake_waiter-IsQuiet :
    (t : Table) (q : ℕ) (d : Doing) (j : ℕ) → IsQuiet d (t.procs j) ((wake_waiter t q).procs j)
unfolding wake_waiter
wake_waiter-IsQuiet t q d j = elim (ℕ_discrete j q) [
  | yes e ↦
      subst (λ x. IsQuiet d (t.procs x) (put t.procs q (woken (q + 1) (t.procs q)) x)) (sym e)
        (subst (IsQuiet d (t.procs q)) (sym (put_self t.procs q (woken (q + 1) (t.procs q))))
          (woken-IsQuiet d (q + 1) (t.procs q)))
  | no n ↦
      subst (IsQuiet d (t.procs j)) (sym (put_ne t.procs q (woken (q + 1) (t.procs q)) j n))
        (same-IsQuiet d (t.procs j))
]

exit_end-IsSound :
    (s : System) (p q : ℕ) (status : ℤ)
    → IsSound s
    → Runs s p
    → s.doing p ≡ exits q
    → p ≢ s.table.init
    → IsSound (record { table = exit_end s.table p q status; doing = put s.doing p at_large })
unfolding exit_end wake_waiter reparent
exit_end-IsSound s p q status h r d ne =
    zombie-IsSound idle p status (at_large-IsSound awake p sound alive) r.0 used ne
      (put_self s.doing p at_large) (λ j e. k.left j (sym (quiet_at j).parent ∙ e)) woke
  where
    k : IsHandedOver s p (reparent s.table p)
    k = reparent-IsHandedOver s p h ne

    given : System
    given = with_table s (reparent s.table p)

    given_sound : IsSound given
    given_sound = reparent-IsSound s p h ne

    awake : System
    awake = with_table given (wake_waiter given.table q)

    sound : IsSound awake
    sound = wake_waiter-IsSound given given_sound q

    idle : System
    idle = record awake { doing = put s.doing p at_large }

    quiet_at : (j : ℕ) → IsQuiet (s.doing j) (proc_of given j) (proc_of awake j)
    quiet_at j = wake_waiter-IsQuiet given.table q (s.doing j) j

    running_still : (proc_of given p).state ≡ running
    running_still = k.state p ∙ r.1

    used : is_unused ((proc_of awake p).state) ≡ false
    used = (quiet_at p).free ∙ ap is_unused running_still

    alive : is_alive ((proc_of awake p).state) ≡ true
    alive =
        rw
          (
            (quiet_at p).free ∙ ap is_unused running_still,
            (quiet_at p).dead ∙ ap is_zombie running_still,
          )
          refl

    parent_of : (i : ℕ) → (proc_of awake p).parent ≡ some i → i ≢ s.table.init → i ≡ q
    parent_of i e ni = elim (k.parent p) [
      | inl x ↦ elim (h.noted p q i d (sym x ∙ (sym (quiet_at p).parent ∙ e))) [
        | inl y ↦ y
        | inr y ↦ absurd (ni y)
      ]
      | inr (x, y) ↦ absurd (ni (some_inj (sym (sym (quiet_at p).parent ∙ e) ∙ y)))
    ]

    woke_at : (pid : ℤ) → s.doing q ≡ waits pid → is_asleep ((proc_of awake q).state) ≡ false
    woke_at pid w = elim (Bool-cases (is_asleep ((proc_of awake q).state))) [
      | inr a ↦ a
      | inl a ↦
          let chan = given_sound.own_chan q pid w ((quiet_at q).asleep pid w a).0 in
          ap (λ (x : Proc). is_asleep x.state) (wake_waiter-at given.table q)
          ∙ woken-awake (q + 1) (proc_of given q) chan
    ]

    woke :
        (i : ℕ) (pid : ℤ)
        → (proc_of awake p).parent ≡ some i
        → i ≢ s.table.init
        → put s.doing p at_large i ≡ waits pid
        → is_asleep ((proc_of awake i).state) ≡ false
    woke i pid e ni w = elim (ℕ_discrete i p) [
      | yes x ↦ absurd (cc (put_self s.doing p at_large, rw x at w))
      | no n ↦
          let same = parent_of i e ni in
          subst (λ x. is_asleep ((proc_of awake x).state) ≡ false) (sym same)
            (woke_at pid (ap s.doing (sym same) ∙ (sym (put_ne s.doing p at_large i n) ∙ w)))
    ]

notes-IsSound :
    (s : System) (p q : ℕ)
    → IsSound s
    → Runs s p
    → noted_parent (proc_of s p) ≡ some q
    → IsSound (record s { doing = put s.doing p (exits q) })
unfolding noted_parent
notes-IsSound s p q h r e =
    doing-IsSound s p (exits q) h (Runs-alive s p r)
      (λ x y same par. inl (some_inj (rw (noted_parent, par) at e) ∙ exits_inj q x same))
      (λ pid c. cc c) (λ pid j ne c. cc c)
  where
    exits_inj : (x y : ℕ) → exits x ≡ exits y → x ≡ y
    exits_inj x y =
        ap λ (z : Doing). elim z [ at_large ↦ x | waits w ↦ x | misses w ↦ x | exits w ↦ w ]

missed-ne-waits : (d : Doing) (pid : ℤ) → missed d ≢ waits pid
missed-ne-waits at_large pid e = cc e
missed-ne-waits (waits x) pid e = cc e
missed-ne-waits (misses x) pid e = cc e
missed-ne-waits (exits q) pid e = cc e

missed-exits : (d : Doing) (q : ℕ) → missed d ≡ exits q → d ≡ exits q
missed-exits at_large q e = e
missed-exits (waits x) q e = absurd (cc e)
missed-exits (misses x) q e = absurd (cc e)
missed-exits (exits r) q e = e

held-alive : (x : State) → is_held x ≡ true → is_alive x ≡ true
held-alive unused e = absurd (cc e)
held-alive sleeping e = refl
held-alive suspended_sleep e = refl
held-alive suspended e = refl
held-alive runnable e = refl
held-alive running e = refl
held-alive zombie e = absurd (cc e)

restore_late-IsSound :
    (s : System) (i : ℕ) (prev : State)
    → IsSound s
    → (prev ≡ runnable) ⊎ (prev ≡ sleeping)
    → is_held ((proc_of s i).state) ≡ true
    → IsSound (record {
      table = suspend_end s.table i false prev;
      doing = put s.doing i (missed (s.doing i));
    })
restore_late-IsSound s i prev h e held =
    put_back-IsSound (record s { doing = put s.doing i (missed (s.doing i)) })
      (doing-IsSound s i (missed (s.doing i)) h (held-alive ((proc_of s i).state) held)
        (λ q r m. h.noted i q r (missed-exits (s.doing i) q m))
        (λ pid m. absurd (missed-ne-waits (s.doing i) pid m))
        (λ pid j ne m. absurd (missed-ne-waits (s.doing i) pid m)))
      i prev e held (λ pid m. missed-ne-waits (s.doing i) pid (sym (put_self s.doing i _) ∙ m))

Step-IsSound : {s t : System} → Step s t → IsSound s → IsSound t
Step-IsSound {s} (runs i l e) h = dispatch-IsSound s h i e
Step-IsSound {s} (yields i r) h = yield_cpu-IsSound s h i r
Step-IsSound {s} (sleeps i chan r ne) h = sleep-IsSound s h i chan r ne
Step-IsSound {s} (tidies i r) h = tidy-IsSound s h i r
Step-IsSound {s} (wakes chan) h = wakeup-IsSound s h chan
Step-IsSound {s} (wakes_one chan) h = wakeup_one_proc-IsSound s h chan
Step-IsSound {s} wakes_init h = wake_waiter-IsSound s h s.table.init
Step-IsSound {s} (kills pid) h = kill-IsSound s h pid
Step-IsSound {s} (kills_tree pid k) h = killtree-IsSound s h pid k
Step-IsSound {s} (suspends i e) h = suspend-IsSound s h i e
Step-IsSound {s} (keeps_out i prev) h = keep_out-IsSound s h i prev
Step-IsSound {s} (restores i prev e was) h = restore-IsSound s h i prev e was
Step-IsSound {s} (restores_late i prev e held late) h = restore_late-IsSound s i prev h e held
Step-IsSound {s} (restores_nothing i prev out) h = leave_be-IsSound s h i prev out
Step-IsSound {s} (resumes i) h = resume-IsSound s h i
Step-IsSound {s} resumes_all h = resume_all-IsSound s h
Step-IsSound {s} (forks p supply copied r) h = fork-IsSound s p supply copied h r
Step-IsSound {s} (clones p supply ready r) h = clone-IsSound s p supply ready h
Step-IsSound {s} (scans p pid copied nohang r d) h = waitpid-IsSound s p pid copied nohang h r
Step-IsSound {s} (joins p copied r d) h = join-IsSound s p copied h r d
Step-IsSound {s} (reaps l r d) h = reap_round-IsSound s l h r d
Step-IsSound {s} (notes p q r d ne e) h = notes-IsSound s p q h r e
Step-IsSound {s} (ends p q status r d ne) h = exit_end-IsSound s p q status h r d ne

-- In every state that the table can get to, the invariant holds.
pub Reach-IsSound : {s : System} → Reach s → IsSound s
Reach-IsSound {s} (boots b) = booted-IsSound s b
Reach-IsSound (next r st) = Step-IsSound st (Reach-IsSound r)

-- In every reachable state, a process other than init that is asleep in `wait` or `waitpid` has no zombie among
-- the children that it waits for, unless a suspension whose swap failed has put it back to sleep after a
-- wake-up since it began to wait (`misses`).
pub no_lost_exit :
    (s : System) (i : ℕ) (pid : ℤ) (j : ℕ)
    → Reach s
    → i ≢ s.table.init
    → s.doing i ≡ waits pid
    → is_asleep ((proc_of s i).state) ≡ true
    → (proc_of s j).parent ≡ some i
    → pid_fits pid ((proc_of s j).pid) ≡ true
    → (proc_of s j).state ≢ zombie
no_lost_exit s i pid j r ne d a e f z =
    cc ((Reach-IsSound r).no_zombie i pid j ne d a e f, ap is_zombie z)

-- In every reachable state, after suspensions that failed too, a parent is neither a free slot nor a zombie, so
-- that somebody is there to wait for each child; and no two processes have the same pid.
pub parents_live :
    (s : System)
    → Reach s
    → ((i q : ℕ) → (proc_of s i).parent ≡ some q → is_alive ((proc_of s q).state) ≡ true)
      × ((i j : ℕ)
          → is_unused ((proc_of s i).state) ≡ false
          → is_unused ((proc_of s j).state) ≡ false
          → (proc_of s i).pid ≡ (proc_of s j).pid
          → i ≡ j)
parents_live s r = ((Reach-IsSound r).parent_alive, (Reach-IsSound r).pid_apart)
