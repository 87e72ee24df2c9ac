-- ===== src/Proc/Life/Family.antt =====
-- `fork` and `clone` keep the invariant.
use oops_os.Prelude.{
  ℕ, ◌+◌, ◌<◌, ◌≡◌, ◌≢◌, refl, sym, ◌∙◌, ap, Bool, true, false, Option, none, some, ℕ_discrete,
  subst, some_inj,
}
use oops_os.Prelude.Arrays.{put_self, put_ne}
use oops_os.Proc.Sched.{is_unused}
use oops_os.Proc.Life.{
  Proc, Table, set_proc, Supply, allocproc, born, fork_with, fork, group_leader, join_group,
  spawned, clone_with, clone,
}
use oops_os.Proc.Life.System.{System, proc_of, Runs, with_table}
use oops_os.Proc.Life.Sound.{is_alive, IsSound, quiet, slot-IsSound}
use oops_os.Proc.Life.Births.{
  unused-Keeps, nothing, slot, IsClaimed, IsAllocated, birth-IsSound, allocproc-IsAllocated,
  unclaimed-IsSound,
}

born-IsSound :
    (s : System) (i p : ℕ)
    → IsSound s
    → IsClaimed s.table i
    → is_alive ((proc_of s p).state) ≡ true
    → IsSound (with_table s (born s.table p i))
unfolding born
born-IsSound s i p h c a =
    birth-IsSound s i _ h c.below c.free refl c.pid_below c.fresh
      (λ r e. subst (λ x. is_alive ((proc_of s x).state) ≡ true) (some_inj e) a)

spawned-IsSound :
    (s : System) (i l : ℕ)
    → IsSound s
    → IsClaimed s.table i
    → IsSound (with_table s (spawned s.table l i))
unfolding spawned join_group
spawned-IsSound s i l h c =
    birth-IsSound grouped i _ sound c.below free refl below fresh
      (λ r e. absurd (cc (sym orphan ∙ e)))
  where
    led : Proc
    led = record (proc_of s i) { leader = some l; parent = none }

    with_leader : System
    with_leader = with_table s (set_proc s.table i led)

    grouped : System
    grouped = with_table s (
        set_proc with_leader.table l
          (record (proc_of with_leader l) { group = (proc_of with_leader l).group + 1 }))

    led_state :
        (k : ℕ)
        → ((proc_of with_leader k).state ≡ (proc_of s k).state)
          × ((proc_of with_leader k).pid ≡ (proc_of s k).pid)
    led_state k = elim (ℕ_discrete k i) [
      | yes e ↦ rw (e, put_self s.table.procs i led) (refl, refl)
      | no ne ↦ rw (put_ne s.table.procs i led k ne) (refl, refl)
    ]

    same :
        (k : ℕ)
        → ((proc_of grouped k).state ≡ (proc_of with_leader k).state)
          × ((proc_of grouped k).pid ≡ (proc_of with_leader k).pid)
          × ((proc_of grouped k).parent ≡ (proc_of with_leader k).parent)
    same k = elim (ℕ_discrete k l) [
      | yes e ↦
          rw
            (
              e,
              put_self with_leader.table.procs l
                  (record (proc_of with_leader l) { group = (proc_of with_leader l).group + 1 }),
            )
            (refl, refl, refl)
      | no ne ↦
          rw
            (put_ne with_leader.table.procs l
              (record (proc_of with_leader l) { group = (proc_of with_leader l).group + 1 }) k ne)
            (refl, refl, refl)
    ]

    state : (k : ℕ) → (proc_of grouped k).state ≡ (proc_of s k).state
    state k = (same k).0 ∙ (led_state k).0

    pid : (k : ℕ) → (proc_of grouped k).pid ≡ (proc_of s k).pid
    pid k = (same k).1 ∙ (led_state k).1

    orphan : (proc_of grouped i).parent ≡ none
    orphan = (same i).2 ∙ ap (λ (x : Proc). x.parent) (put_self s.table.procs i led)

    sound : IsSound grouped
    sound =
        slot-IsSound with_leader l _
          (quiet (record {
            free = refl;
            dead = refl;
            pid = λ u. refl;
            parent = refl;
            asleep = λ x d a. (a, refl);
          }))
          (slot-IsSound s i led (unused-Keeps s h i led c.free refl refl) h)

    free : is_unused ((proc_of grouped i).state) ≡ true
    free = ap is_unused (state i) ∙ c.free

    below : (proc_of grouped i).pid < s.table.next_pid
    below = rw (pid i) c.pid_below

    fresh :
        (k : ℕ)
        → is_unused ((proc_of grouped k).state) ≡ false
        → (proc_of grouped k).pid ≢ (proc_of grouped i).pid
    fresh k u e = c.fresh k (sym (ap is_unused (state k)) ∙ u) (sym (pid k) ∙ (e ∙ pid i))

pub fork-IsSound :
    (s : System) (p : ℕ) (supply : Supply) (copied : Bool)
    → IsSound s
    → Runs s p
    → IsSound (with_table s (fork s.table p supply copied).1)
unfolding fork
fork-IsSound s p supply copied h r =
    go (allocproc s.table supply) (allocproc-IsAllocated s supply h) copied
  where
    go :
        (r : Option ℕ × Table)
        → IsAllocated s r
        → (copied : Bool) → IsSound (with_table s (fork_with p copied r).1)
    go _ (nothing t k) b = unfold fork_with in k
    go _ (slot i t k c e a) true =
        unfold fork_with in
        born-IsSound (with_table s t) i p k c
          (ap (λ (x : Proc). is_alive x.state) (a p (rw r.1 refl)) ∙ rw r.1 refl)
    go _ (slot i t k c e a) false = unfold fork_with in unclaimed-IsSound (with_table s t) i k c

pub clone-IsSound :
    (s : System) (p : ℕ) (supply : Supply) (ready : Bool)
    → IsSound s
    → IsSound (with_table s (clone s.table p supply ready).1)
unfolding clone
clone-IsSound s p supply ready h =
    go (allocproc s.table supply) (allocproc-IsAllocated s supply h) ready
  where
    go :
        (r : Option ℕ × Table)
        → IsAllocated s r
        → (ready : Bool) → IsSound (with_table s (clone_with (group_leader s.table p) ready r).1)
    go _ (nothing t k) b = unfold clone_with in k
    go _ (slot i t k c e a) true =
        unfold clone_with in spawned-IsSound (with_table s t) i (group_leader s.table p) k c
    go _ (slot i t k c e a) false = unfold clone_with in unclaimed-IsSound (with_table s t) i k c
