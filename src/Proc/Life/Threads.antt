-- ===== src/Proc/Life/Threads.antt =====
-- Joins and the end of a thread group keep the invariant.
use oops_os.Prelude.{
  ℕ, ◌+◌, ◌-◌, ◌≡◌, ◌≢◌, refl, ◌∙◌, ap, inl, inr, Bool, true, false, not, ◌&&◌, ◌||◌, arith, ltb,
  if◌then◌else◌, Bool-cases, Option-cases, ℤ, subst,
}
use oops_os.Prelude.Arrays.{put_self}
use oops_os.Prelude.Search.{first_from, IsFirst, first_from-IsFirst}
use oops_os.Proc.Sched.{
  State, unused, sleeping, suspended_sleep, suspended, runnable, running, zombie, is_unused,
}
use oops_os.Proc.Life.{
  n_proc, Proc, is_zombie, is_asleep, is_sleeping, freed, set_proc, is_thread, end_thread,
  end_threads, zombie_threads, reap_round, is_some, leave_group, join, wait_on,
}
use oops_os.Proc.Life.System.{Doing, at_large, waits, System, proc_of, Runs, with_table}
use oops_os.Proc.Life.Sound.{IsSound, Keeps, quiet, gone, Keeps-IsSound, slot-IsSound}
use oops_os.Proc.Life.Quiet.{tested-Keeps, sleep-IsSound}

-- The slot of a zombie may be freed.
pub freed-IsSound :
    (s : System) (i : ℕ)
    → is_zombie ((proc_of s i).state) ≡ true
    → IsSound s
    → IsSound (with_table s (set_proc s.table i (freed (proc_of s i))))
freed-IsSound s i z h = slot-IsSound s i _ (gone z refl) h

leave_group-IsSound :
    (s : System) (p : ℕ) → IsSound s → IsSound (with_table s (leave_group s.table p))
unfolding leave_group
leave_group-IsSound s p h =
    slot-IsSound s p _
      (quiet (record {
        free = refl;
        dead = refl;
        pid = λ u. refl;
        parent = refl;
        asleep = λ x d a. (a, refl);
      }))
      h

pub at_large-ne-waits : (d : Doing) → d ≡ at_large → (pid : ℤ) → d ≢ waits pid
at_large-ne-waits d e pid q = cc (e, q)

pub wait_on-IsSound :
    (s : System) (p : ℕ) (kids nohang : Bool)
    → IsSound s
    → Runs s p
    → s.doing p ≡ at_large
    → IsSound (with_table s (wait_on s.table p kids nohang).1)
unfolding wait_on
wait_on-IsSound s p kids nohang h r d = elim (Bool-cases (not kids || (proc_of s p).killed)) [
  | inl e ↦ rw e h
  | inr e ↦ elim (Bool-cases nohang) [
    | inl q ↦ rw (e, q) h
    | inr q ↦ rw (e, q) (sleep-IsSound s h p (p + 1) r (at_large-ne-waits (s.doing p) d))
  ]
]

pub join-IsSound :
    (s : System) (p : ℕ) (copied : Bool)
    → IsSound s
    → Runs s p
    → s.doing p ≡ at_large
    → IsSound (with_table s (join s.table p copied).1)
unfolding join
join-IsSound s p copied h r d =
    elim (Option-cases
      (first_from (λ i. is_thread s.table p i && is_zombie ((proc_of s i).state)) 0 n_proc)) [
        | inl e ↦ rw (join, e) (wait_on-IsSound s p _ false h r d)
        | inr (i, e) ↦
            let f =
              subst
                (IsFirst (λ i. is_thread s.table p i && is_zombie ((proc_of s i).state)) 0 n_proc) e
                (first_from-IsFirst (λ i. is_thread s.table p i && is_zombie ((proc_of s i).state))
                  0 n_proc) in
            let z : is_zombie ((proc_of s i).state) ≡ true = ground (arith, f.2) in
            elim (Bool-cases copied) [
              | inl q ↦
                  rw (join, e, q)
                    (leave_group-IsSound (with_table s (set_proc s.table i (freed (proc_of s i)))) p
                      (freed-IsSound s i z h))
              | inr q ↦ rw (join, e, q) h
            ]
      ]

end_state : State → State
end_state x = if is_sleeping x then runnable else x

end_state-free :
    (x : State)
    → is_zombie x ≡ false
    → (is_unused (end_state x) ≡ is_unused x)
      × (is_zombie (end_state x) ≡ is_zombie x)
      × (is_asleep (end_state x) ≡ true → is_asleep x ≡ true)
unfolding end_state
end_state-free unused z = (refl, refl, λ a. a)
end_state-free sleeping z = (refl, refl, λ a. refl)
end_state-free suspended_sleep z = (refl, refl, λ a. a)
end_state-free suspended z = (refl, refl, λ a. a)
end_state-free runnable z = (refl, refl, λ a. a)
end_state-free running z = (refl, refl, λ a. a)
end_state-free zombie z = absurd (cc z)

end_thread-Keeps : (d : Doing) (p : Proc) → Keeps d p (end_thread p)
unfolding end_thread end_state
end_thread-Keeps d p = elim (Bool-cases (is_zombie p.state)) [
  | inl z ↦ rw z (gone z refl)
  | inr z ↦
      let e = end_state-free p.state z in
      rw z (
        quiet (record {
          free = e.0;
          dead = e.1;
          pid = λ u. refl;
          parent = refl;
          asleep = λ x d a. (e.2 a, refl);
        }))
]

end_thread-running : (p : Proc) → p.state ≡ running → (end_thread p).state ≡ running
unfolding end_thread end_state
end_thread-running p e = elim (Bool-cases (is_zombie p.state)) [
  | inl z ↦ absurd (cc (ap is_zombie e, z))
  | inr z ↦ rw z (ap end_state e)
]

pub reap_round-IsSound :
    (s : System) (l : ℕ)
    → IsSound s
    → Runs s l
    → s.doing l ≡ at_large
    → IsSound (with_table s (reap_round s.table l).1)
unfolding reap_round end_threads
reap_round-IsSound s l h r d =
    elim (Bool-cases (
      not (is_some (first_from (is_thread s.table l) 0 n_proc))
      || not (ltb 1 ((proc_of regrouped l).group)))) [
        | inl e ↦ rw e sound
        | inr e ↦
            rw e (
              sleep-IsSound regrouped sound l (l + 1) (r.0, still)
                (at_large-ne-waits (s.doing l) d))
      ]
  where
    test : ℕ → Bool
    test i = ltb i n_proc && is_thread s.table l i

    ended : System
    ended = with_table s (end_threads s.table l)

    group : ℕ
    group = (proc_of ended l).group - zombie_threads s.table l

    regrouped : System
    regrouped = with_table s (set_proc ended.table l (record (proc_of ended l) { group = group }))

    ended_sound : IsSound ended
    ended_sound =
        Keeps-IsSound s _ refl (omega arith) (tested-Keeps s test end_thread end_thread-Keeps) h

    sound : IsSound regrouped
    sound =
        slot-IsSound ended l _
          (quiet (record {
            free = refl;
            dead = refl;
            pid = λ u. refl;
            parent = refl;
            asleep = λ x d a. (a, refl);
          }))
          ended_sound

    still_ended : (proc_of ended l).state ≡ running
    still_ended = elim (Bool-cases (test l)) [
      | inl e ↦ rw e (end_thread-running (proc_of s l) r.1)
      | inr e ↦ rw e r.1
    ]

    still : (proc_of regrouped l).state ≡ running
    still =
        ap (λ (x : Proc). x.state)
          (put_self ended.table.procs l (record (proc_of ended l) { group = group }))
        ∙ still_ended
