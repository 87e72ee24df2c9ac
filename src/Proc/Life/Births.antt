-- ===== src/Proc/Life/Births.antt =====
-- A slot that `allocproc` claims, and a process that is born in it, keep the invariant.
use oops_os.Prelude.{
  ℕ, ◌+◌, ◌<◌, ◌≡◌, ◌≢◌, refl, sym, ◌∙◌, ap, inl, inr, true, false, Option, none, some, arith,
  Option-cases, ℕ_discrete, subst,
}
use oops_os.Prelude.Arrays.{put, put_self, put_ne}
use oops_os.Prelude.Search.{first_from, IsFirst, first_from-IsFirst}
use oops_os.Proc.Sched.{
  State, unused, sleeping, suspended_sleep, suspended, runnable, running, zombie, is_unused,
}
use oops_os.Proc.Life.{
  n_proc, Proc, Table, is_zombie, is_asleep, freed, set_proc, Supply, no_frame, no_table, enough,
  claimed, set_up, count_pid, free_slot, allocproc,
}
use oops_os.Proc.Life.System.{at_large, System, proc_of, with_table}
use oops_os.Proc.Life.Sound.{
  is_alive, IsSound, Keeps, quiet, Keeps-IsSound, Keeps-slot, slot-IsSound,
}

-- A slot that is not used may be written to as long as it stays so and has no parent.
pub unused-Keeps :
    (s : System) (h : IsSound s) (i : ℕ) (q : Proc)
    → is_unused ((proc_of s i).state) ≡ true
    → q.state ≡ (proc_of s i).state
    → q.parent ≡ none
    → Keeps (s.doing i) (proc_of s i) q
unused-Keeps s h i q u e n = quiet (record {
  free = ap is_unused e;
  dead = ap is_zombie e;
  pid = λ v. absurd (cc (u, v));
  parent = n ∙ sym (h.free_alone i u);
  asleep = λ pid d a. absurd (cc (unused_awake ((proc_of s i).state) u, ap is_asleep e, a));
})
  where
    unused_awake : (x : State) → is_unused x ≡ true → is_asleep x ≡ false
    unused_awake unused z = refl
    unused_awake sleeping z = absurd (cc z)
    unused_awake suspended_sleep z = absurd (cc z)
    unused_awake suspended z = absurd (cc z)
    unused_awake runnable z = absurd (cc z)
    unused_awake running z = absurd (cc z)
    unused_awake zombie z = absurd (cc z)

-- A new process in a free slot.
pub birth-IsSound :
    (s : System) (i : ℕ) (q : Proc)
    → IsSound s
    → i < n_proc
    → is_unused ((proc_of s i).state) ≡ true
    → q.state ≡ runnable
    → q.pid < s.table.next_pid
    → ((k : ℕ) → is_unused ((proc_of s k).state) ≡ false → (proc_of s k).pid ≢ q.pid)
    → ((r : ℕ) → q.parent ≡ some r → is_alive ((proc_of s r).state) ≡ true)
    → IsSound (with_table s (set_proc s.table i q))
birth-IsSound s i q h below u run pid fresh par = record {
  init_below = h.init_below;
  init_alive = alive s.table.init h.init_alive;
  used_below = λ j v. elim (ℕ_discrete j i) [
    | yes e ↦ rw e below
    | no ne ↦ h.used_below j (rw (put_ne s.table.procs i q j ne) at v)
  ];
  free_alone = λ j v. elim (ℕ_discrete j i) [
    | yes e ↦ absurd (cc (rw (e, put_self s.table.procs i q, run) at v))
    | no ne ↦
        rw (put_ne s.table.procs i q j ne)
          (h.free_alone j (rw (put_ne s.table.procs i q j ne) at v))
  ];
  parent_alive = λ j r e. alive r (elim (ℕ_discrete j i) [
    | yes x ↦ par r (rw (x, put_self s.table.procs i q) at e)
    | no ne ↦ h.parent_alive j r (rw (put_ne s.table.procs i q j ne) at e)
  ]);
  idle = λ j a. elim (ℕ_discrete j i) [
    | yes e ↦ absurd (cc (rw (e, put_self s.table.procs i q, run) at a))
    | no ne ↦ h.idle j (rw (put_ne s.table.procs i q j ne) at a)
  ];
  noted = λ j x r d e. elim (ℕ_discrete j i) [
    | yes y ↦ absurd (cc (free_idle, rw y at d))
    | no ne ↦ h.noted j x r d (rw (put_ne s.table.procs i q j ne) at e)
  ];
  own_chan = λ j pid d a. elim (ℕ_discrete j i) [
    | yes y ↦ absurd (cc (free_idle, rw y at d))
    | no ne ↦
        rw (put_ne s.table.procs i q j ne)
          (h.own_chan j pid d (rw (put_ne s.table.procs i q j ne) at a))
  ];
  no_zombie = λ j pid k ne d a e f. elim (ℕ_discrete j i) [
    | yes y ↦ absurd (cc (free_idle, rw y at d))
    | no nj ↦ elim (ℕ_discrete k i) [
      | yes y ↦ rw (y, put_self s.table.procs i q, run) refl
      | no nk ↦ rw (put_ne s.table.procs i q k nk) (
          h.no_zombie j pid k ne d (rw (put_ne s.table.procs i q j nj) at a)
            (rw (put_ne s.table.procs i q k nk) at e) (rw (put_ne s.table.procs i q k nk) at f))
    ]
  ];
  pid_below = λ j v. elim (ℕ_discrete j i) [
    | yes e ↦ rw (e, put_self s.table.procs i q) pid
    | no ne ↦
        rw (put_ne s.table.procs i q j ne) (h.pid_below j (rw (put_ne s.table.procs i q j ne) at v))
  ];
  pid_apart = λ j k v w e. elim (ℕ_discrete j i) [
    | yes x ↦ elim (ℕ_discrete k i) [
      | yes y ↦ x ∙ sym y
      | no nk ↦ absurd (
          fresh k (rw (put_ne s.table.procs i q k nk) at w)
            (sym (rw (x, put_self s.table.procs i q, put_ne s.table.procs i q k nk) at e)))
    ]
    | no nj ↦ elim (ℕ_discrete k i) [
      | yes y ↦ absurd (
          fresh j (rw (put_ne s.table.procs i q j nj) at v)
            (rw (y, put_self s.table.procs i q, put_ne s.table.procs i q j nj) at e))
      | no nk ↦
          h.pid_apart j k (rw (put_ne s.table.procs i q j nj) at v)
            (rw (put_ne s.table.procs i q k nk) at w)
            (rw (put_ne s.table.procs i q j nj, put_ne s.table.procs i q k nk) at e)
    ]
  ];
}
  where
    free_idle : s.doing i ≡ at_large
    free_idle = h.idle i (rw u refl)

    alive :
        (r : ℕ)
        → is_alive ((proc_of s r).state) ≡ true
        → is_alive ((put s.table.procs i q r).state) ≡ true
    alive r a = elim (ℕ_discrete r i) [
      | yes e ↦ absurd (cc (rw (e, u) at a))
      | no ne ↦ rw (put_ne s.table.procs i q r ne) a
    ]

-- Slot `i` is free and holds a pid that nobody has.
pub record IsClaimed (t : Table) (i : ℕ) : Type 0 where
  pub below : i < n_proc
  pub free : is_unused ((t.procs i).state) ≡ true
  pub pid_below : (t.procs i).pid < t.next_pid
  pub fresh : (k : ℕ) → is_unused ((t.procs k).state) ≡ false → (t.procs k).pid ≢ (t.procs i).pid

-- What `allocproc` leaves, with its answer.
pub data IsAllocated (s : System) : Option ℕ × Table → Type 0 where
  nothing : (t : Table) → IsSound (with_table s t) → IsAllocated s (none, t)
  slot :
      (i : ℕ) (t : Table)
      → IsSound (with_table s t)
      → IsClaimed t i
      → t.procs i ≡ claimed (proc_of s i) s.table.next_pid
      → ((j : ℕ) → is_alive ((proc_of s j).state) ≡ true → (t.procs j ≡ proc_of s j))
      → IsAllocated s (some i, t)

claimed_pid :
    (p : Proc) (pid : ℕ)
    → ((claimed p pid).state ≡ p.state)
      × ((claimed p pid).parent ≡ p.parent)
      × ((claimed p pid).pid ≡ pid)
unfolding claimed
claimed_pid p pid = (refl, refl, refl)

counted-IsSound :
    (s : System) (i : ℕ) (q : Proc)
    → IsSound s
    → is_unused ((proc_of s i).state) ≡ true
    → q.state ≡ (proc_of s i).state
    → q.parent ≡ none
    → IsSound (with_table s (record (set_proc s.table i q) { next_pid = s.table.next_pid + 1 }))
counted-IsSound s i q h u e n =
    Keeps-IsSound s _ refl (omega arith) (Keeps-slot s i q (unused-Keeps s h i q u e n)) h

unused_state : (x : State) → is_unused x ≡ true → unused ≡ x
unused_state unused e = refl
unused_state sleeping e = absurd (cc e)
unused_state suspended_sleep e = absurd (cc e)
unused_state suspended e = absurd (cc e)
unused_state runnable e = absurd (cc e)
unused_state running e = absurd (cc e)
unused_state zombie e = absurd (cc e)

set_up-IsAllocated :
    (s : System) (i : ℕ) (supply : Supply)
    → IsSound s
    → i < n_proc
    → is_unused ((proc_of s i).state) ≡ true
    → IsAllocated s (count_pid (set_up s.table i supply))
unfolding set_up count_pid freed
set_up-IsAllocated s i no_frame h l u =
    let c = claimed_pid (proc_of s i) s.table.next_pid in
    nothing _ (counted-IsSound s i _ h u c.0 (c.1 ∙ h.free_alone i u))
set_up-IsAllocated s i no_table h l u =
    nothing _ (counted-IsSound s i _ h u (unused_state ((proc_of s i).state) u) refl)
set_up-IsAllocated s i enough h l u =
    let q = claimed (proc_of s i) s.table.next_pid in
    let c = claimed_pid (proc_of s i) s.table.next_pid in
    let here = put_self s.table.procs i q in
    slot i _ (counted-IsSound s i _ h u c.0 (c.1 ∙ h.free_alone i u))
      (record {
        below = l;
        free = rw (here, c.0) u;
        pid_below = rw (here, c.2) (omega arith);
        fresh = λ k v e. elim (ℕ_discrete k i) [
          | yes y ↦ cc (rw (y, here, c.0) at v, u)
          | no ne ↦
              let there = put_ne s.table.procs i q k ne in
              omega (arith, h.pid_below k (rw there at v), rw (there, here, c.2) at e)
        ];
      })
      here
      (λ j a. elim (ℕ_discrete j i) [
        | yes y ↦ absurd (cc (rw (y, u) at a))
        | no ne ↦ put_ne s.table.procs i q j ne
      ])

pub allocproc-IsAllocated :
    (s : System) (supply : Supply) → IsSound s → IsAllocated s (allocproc s.table supply)
unfolding allocproc free_slot
allocproc-IsAllocated s supply h =
    elim (Option-cases (first_from (λ i. is_unused ((proc_of s i).state)) 0 n_proc)) [
      | inl e ↦ rw (allocproc, free_slot, e) (nothing s.table h)
      | inr (i, e) ↦
          let f =
            subst (IsFirst (λ i. is_unused ((proc_of s i).state)) 0 n_proc) e
              (first_from-IsFirst (λ i. is_unused ((proc_of s i).state)) 0 n_proc) in
          rw (allocproc, free_slot, e) (set_up-IsAllocated s i supply h (omega (arith, f.1)) f.2)
    ]

-- A slot that has been claimed can be freed again.
pub unclaimed-IsSound :
    (s : System) (i : ℕ)
    → IsSound s
    → IsClaimed s.table i
    → IsSound (with_table s (set_proc s.table i (freed (proc_of s i))))
unfolding freed
unclaimed-IsSound s i h c =
    slot-IsSound s i _
      (unused-Keeps s h i _ c.free (unused_state ((proc_of s i).state) c.free) refl) h
