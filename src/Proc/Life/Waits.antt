-- ===== src/Proc/Life/Waits.antt =====
-- `waitpid` keeps the invariant.
use oops_os.Prelude.{
  ℕ, ◌+◌, ◌<◌, ◌≡◌, ◌≢◌, refl, ◌∙◌, ap, ◌⊎◌, inl, inr, Bool, true, false, not, ◌||◌, Option, none,
  some, arith, Bool-cases, Option-cases, ℕ_discrete, ℤ, subst, some_inj,
}
use oops_os.Prelude.Arrays.{put, put_self, put_ne, put_again}
use oops_os.Prelude.Search.{first_from, IsFirst, first_from-IsFirst}
use oops_os.Proc.Sched.{sleeping}
use oops_os.Proc.Life.{
  n_proc, Proc, is_zombie, is_asleep, pid_fits, points_to, sleep, wait_on, zombie_child, waitpid,
}
use oops_os.Proc.Life.System.{
  Doing, at_large, waits, misses, exits, System, proc_of, Runs, with_table, doing_after,
}
use oops_os.Proc.Life.Sound.{is_alive, IsSound, zombie_used}
use oops_os.Proc.Life.Quiet.{sleep-IsSound}
use oops_os.Proc.Life.Threads.{freed-IsSound, at_large-ne-waits}

waits_inj : (x y : ℤ) → waits x ≡ waits y → x ≡ y
waits_inj x y = ap λ (d : Doing). elim d [ at_large ↦ x | waits z ↦ z | misses z ↦ x | exits q ↦ x ]

-- A change of what one process is doing.
pub doing-IsSound :
    (s : System) (p : ℕ) (d : Doing)
    → IsSound s
    → is_alive ((proc_of s p).state) ≡ true
    → ((q r : ℕ) → d ≡ exits q → (proc_of s p).parent ≡ some r → (r ≡ q) ⊎ (r ≡ s.table.init))
    → ((pid : ℤ)
        → d ≡ waits pid
        → is_asleep ((proc_of s p).state) ≡ true
        → (proc_of s p).chan ≡ p + 1)
    → ((pid : ℤ) (j : ℕ)
        → p ≢ s.table.init
        → d ≡ waits pid
        → (proc_of s j).parent ≡ some p
        → pid_fits pid ((proc_of s j).pid) ≡ true
        → is_zombie ((proc_of s j).state) ≡ false)
    → IsSound (record s { doing = put s.doing p d })
doing-IsSound s p d h a noted own quiet_kids = record {
  init_below = h.init_below;
  init_alive = h.init_alive;
  used_below = h.used_below;
  free_alone = h.free_alone;
  parent_alive = h.parent_alive;
  idle = λ i u. elim (ℕ_discrete i p) [
    | yes e ↦ absurd (cc (rw e at u, a))
    | no ne ↦ rw (put_ne s.doing p d i ne) (h.idle i u)
  ];
  noted = λ i q r. elim (ℕ_discrete i p) [
    | yes e ↦ rw (e, put_self s.doing p d) (noted q r)
    | no ne ↦ rw (put_ne s.doing p d i ne) (h.noted i q r)
  ];
  own_chan = λ i pid. elim (ℕ_discrete i p) [
    | yes e ↦ rw (e, put_self s.doing p d) (own pid)
    | no ne ↦ rw (put_ne s.doing p d i ne) (h.own_chan i pid)
  ];
  no_zombie = λ i pid j. elim (ℕ_discrete i p) [
    | yes e ↦ rw (e, put_self s.doing p d) (λ x y z. quiet_kids pid j x y)
    | no ne ↦ rw (put_ne s.doing p d i ne) (h.no_zombie i pid j)
  ];
  pid_below = h.pid_below;
  pid_apart = h.pid_apart;
}

pub at_large-IsSound :
    (s : System) (p : ℕ)
    → IsSound s
    → is_alive ((proc_of s p).state) ≡ true
    → IsSound (record s { doing = put s.doing p at_large })
at_large-IsSound s p h a =
    doing-IsSound s p at_large h a (λ q r e. cc e) (λ pid e. cc e) (λ pid j ne e. cc e)

pub Runs-alive : (s : System) (p : ℕ) → Runs s p → is_alive ((proc_of s p).state) ≡ true
Runs-alive s p r = rw r.1 refl

-- A caller that finds no zombie among the children that it waits for goes to sleep.
wait_sleep-IsSound :
    (s : System) (p : ℕ) (pid : ℤ)
    → IsSound s
    → Runs s p
    → first_from (zombie_child s.table p pid) 0 n_proc ≡ none
    → IsSound (record { table = sleep s.table p (p + 1); doing = put s.doing p (waits pid) })
unfolding sleep
wait_sleep-IsSound s p pid h r e =
    subst (λ d. IsSound (record { table = sleep s.table p (p + 1); doing = d }))
      (put_again s.doing p at_large (waits pid))
      (doing-IsSound lying p (waits pid) sound (ap is_alive state) (λ q x y. cc y) (λ x y z. chan)
        calm)
  where
    free : System
    free = record s { doing = put s.doing p at_large }

    lying : System
    lying = with_table free (sleep s.table p (p + 1))

    sound : IsSound lying
    sound =
        sleep-IsSound free (at_large-IsSound s p h (Runs-alive s p r)) p (p + 1) r
          (at_large-ne-waits (free.doing p) (put_self s.doing p at_large))

    asleep : Proc
    asleep = record (proc_of s p) { chan = p + 1; state = sleeping }

    state : (proc_of lying p).state ≡ sleeping
    state = ap (λ (x : Proc). x.state) (put_self s.table.procs p asleep)

    chan : (proc_of lying p).chan ≡ p + 1
    chan = ap (λ (x : Proc). x.chan) (put_self s.table.procs p asleep)

    scan : IsFirst (zombie_child s.table p pid) 0 n_proc none
    scan =
        subst (IsFirst (zombie_child s.table p pid) 0 n_proc) e
          (first_from-IsFirst (zombie_child s.table p pid) 0 n_proc)

    points : (o : Option ℕ) → o ≡ some p → points_to o p ≡ true
    points none x = absurd (cc x)
    points (some k) x = ground (arith, some_inj x)

    zombie_below : (j : ℕ) → is_zombie ((proc_of s j).state) ≡ true → j < n_proc
    zombie_below j z = h.used_below j (zombie_used ((proc_of s j).state) z)

    calm :
        (x : ℤ) (j : ℕ)
        → p ≢ s.table.init
        → waits pid ≡ waits x
        → (proc_of lying j).parent ≡ some p
        → pid_fits x ((proc_of lying j).pid) ≡ true
        → is_zombie ((proc_of lying j).state) ≡ false
    calm x j ni same par fits = elim (ℕ_discrete j p) [
      | yes q ↦ rw (q, put_self s.table.procs p asleep) refl
      | no ne ↦
          rw (put_ne s.table.procs p asleep j ne)
            (elim (Bool-cases (is_zombie ((proc_of s j).state))) [
              | inr z ↦ z
              | inl z ↦
                  let there = put_ne s.table.procs p asleep j ne in
                  let kin = points ((proc_of s j).parent) (rw there at par) in
                  let fit =
                    ap (λ y. pid_fits y ((proc_of s j).pid)) (waits_inj pid x same)
                    ∙ rw there at fits in
                  absurd (
                    cc (
                      rw (kin, fit, z) at (scan j (omega arith) (omega (arith, zombie_below j z)))))
            ])
    ]

failed_wait-IsSound :
    (s : System) (p : ℕ) (pid : ℤ) (kids nohang : Bool)
    → IsSound s
    → Runs s p
    → first_from (zombie_child s.table p pid) 0 n_proc ≡ none
    → IsSound (record {
      table = (wait_on s.table p kids nohang).1;
      doing = put s.doing p (doing_after pid (wait_on s.table p kids nohang).0);
    })
unfolding wait_on
failed_wait-IsSound s p pid kids nohang h r e =
    elim (Bool-cases (not kids || (proc_of s p).killed)) [
      | inl x ↦ rw x (at_large-IsSound s p h (Runs-alive s p r))
      | inr x ↦ elim (Bool-cases nohang) [
        | inl q ↦ rw (x, q) (at_large-IsSound s p h (Runs-alive s p r))
        | inr q ↦ rw (x, q) (wait_sleep-IsSound s p pid h r e)
      ]
    ]

pub waitpid-IsSound :
    (s : System) (p : ℕ) (pid : ℤ) (copied nohang : Bool)
    → IsSound s
    → Runs s p
    → IsSound (record {
      table = (waitpid s.table p pid copied nohang).1;
      doing = put s.doing p (doing_after pid (waitpid s.table p pid copied nohang).0);
    })
unfolding waitpid
waitpid-IsSound s p pid copied nohang h r =
    elim (Option-cases (first_from (zombie_child s.table p pid) 0 n_proc)) [
      | inl e ↦ rw (waitpid, e) (failed_wait-IsSound s p pid _ nohang h r e)
      | inr (i, e) ↦
          let f =
            subst (IsFirst (zombie_child s.table p pid) 0 n_proc) e
              (first_from-IsFirst (zombie_child s.table p pid) 0 n_proc) in
          let z : is_zombie ((proc_of s i).state) ≡ true = ground (arith, f.2) in
          elim (Bool-cases copied) [
            | inl q ↦
                rw (waitpid, e, q)
                  (freed-IsSound (record s { doing = put s.doing p at_large }) i z
                    (at_large-IsSound s p h (Runs-alive s p r)))
            | inr q ↦ rw (waitpid, e, q) (at_large-IsSound s p h (Runs-alive s p r))
          ]
    ]
