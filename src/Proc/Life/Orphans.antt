-- ===== src/Proc/Life/Orphans.antt =====
-- Children that are given to init, and a process that becomes a zombie, keep the invariant.
use oops_os.Prelude.{
  ℕ, ◌<◌, ◌≡◌, ◌≢◌, ◌↔◌, refl, sym, ◌∙◌, ap, ◌⊎◌, inl, inr, Bool, true, false, ◌&&◌, Option, none,
  some, arith, ltb, Bool-cases, ℕ_discrete, ℤ, some_inj,
}
use oops_os.Prelude.Arrays.{put, put_self, put_ne}
use oops_os.Proc.Sched.{zombie, is_unused}
use oops_os.Proc.Life.{n_proc, Proc, Table, is_asleep, points_to, reparent, become_zombie}
use oops_os.Proc.Life.System.{at_large, waits, System, proc_of, with_table}
use oops_os.Proc.Life.Sound.{IsSound}

-- All slots, once the children of `p` have been given to init.
pub record IsHandedOver (s : System) (p : ℕ) (t : Table) : Type 0 where
  pub init : t.init ≡ s.table.init
  pub next_pid : t.next_pid ≡ s.table.next_pid
  pub state : (i : ℕ) → (t.procs i).state ≡ (proc_of s i).state
  pub chan : (i : ℕ) → (t.procs i).chan ≡ (proc_of s i).chan
  pub pid : (i : ℕ) → (t.procs i).pid ≡ (proc_of s i).pid
  pub parent :
      (i : ℕ)
      → ((t.procs i).parent ≡ (proc_of s i).parent)
        ⊎ (((proc_of s i).parent ≢ none) × ((t.procs i).parent ≡ some s.table.init))
  pub left : (i : ℕ) → (t.procs i).parent ≢ some p

points_to-eq : (o : Option ℕ) (p : ℕ) → (points_to o p ≡ true) ↔ (o ≡ some p)
points_to-eq none p = ((λ e. cc e), λ e. cc e)
points_to-eq (some q) p = ((λ e. ap some (ground arith)), λ e. ground (arith, some_inj e))

pub reparent-IsHandedOver :
    (s : System) (p : ℕ) → IsSound s → p ≢ s.table.init → IsHandedOver s p (reparent s.table p)
unfolding reparent
reparent-IsHandedOver s p h ne = record {
  init = refl;
  next_pid = refl;
  state = λ i. split i (λ x. x.state ≡ (proc_of s i).state) (λ e. refl) (λ e. refl);
  chan = λ i. split i (λ x. x.chan ≡ (proc_of s i).chan) (λ e. refl) (λ e. refl);
  pid = λ i. split i (λ x. x.pid ≡ (proc_of s i).pid) (λ e. refl) (λ e. refl);
  parent = λ i.
      split i
        (λ x.
          (x.parent ≡ (proc_of s i).parent)
          ⊎ (((proc_of s i).parent ≢ none) × (x.parent ≡ some s.table.init)))
        (λ e. inr ((λ n. cc (moved i e, n)), refl)) (λ e. inl refl);
  left = λ i. split i (λ x. x.parent ≢ some p) (λ e q. ne (sym (some_inj q))) (λ e q. stays i e q);
}
  where
    test : ℕ → Bool
    test i = ltb i n_proc && points_to ((proc_of s i).parent) p

    split :
        (i : ℕ) (P : Proc → Type 0)
        → (test i ≡ true → P (record (proc_of s i) { parent = some s.table.init }))
        → (test i ≡ false → P (proc_of s i))
        → P ((reparent s.table p).procs i)
    split i P x y = elim (Bool-cases (test i)) [ inl e ↦ rw e (x e) | inr e ↦ rw e (y e) ]

    moved : (i : ℕ) → test i ≡ true → (proc_of s i).parent ≡ some p
    moved i e = (points_to-eq ((proc_of s i).parent) p).0 (ground (arith, e))

    stays : (i : ℕ) → test i ≡ false → (proc_of s i).parent ≡ some p → ⊥
    stays i e q = elim (Bool-cases (is_unused ((proc_of s i).state))) [
      | inl u ↦ cc (h.free_alone i u, q)
      | inr u ↦ ground (arith, e, h.used_below i u, (points_to-eq ((proc_of s i).parent) p).1 q)
    ]

pub reparent-IsSound :
    (s : System) (p : ℕ)
    → IsSound s
    → p ≢ s.table.init
    → IsSound (with_table s (reparent s.table p))
reparent-IsSound s p h ne = record {
  init_below = rw k.init h.init_below;
  init_alive = rw (k.init, k.state s.table.init) h.init_alive;
  used_below = λ i u. h.used_below i (rw (k.state i) at u);
  free_alone = λ i u. alone i (h.free_alone i (rw (k.state i) at u)) (k.parent i);
  parent_alive = λ i q e. rw (k.state q) (elim (k.parent i) [
    | inl x ↦ h.parent_alive i q (sym x ∙ e)
    | inr (x, y) ↦ rw (sym (some_inj (sym y ∙ e))) h.init_alive
  ]);
  idle = λ i u. h.idle i (rw (k.state i) at u);
  noted = λ i q r d e. rw k.init (elim (k.parent i) [
    | inl x ↦ h.noted i q r d (sym x ∙ e)
    | inr (x, y) ↦ inr (sym (some_inj (sym y ∙ e)))
  ]);
  own_chan = λ i pid d a. k.chan i ∙ h.own_chan i pid d (rw (k.state i) at a);
  no_zombie = λ i pid j ni d a e f. rw (k.state j) (elim (k.parent j) [
    | inl x ↦
        h.no_zombie i pid j (λ y. ni (y ∙ sym k.init)) d (rw (k.state i) at a) (sym x ∙ e)
          (rw (k.pid j) at f)
    | inr (x, y) ↦ absurd (ni (some_inj (sym e ∙ y) ∙ sym k.init))
  ]);
  pid_below = λ i u. rw (k.pid i, k.next_pid) (h.pid_below i (rw (k.state i) at u));
  pid_apart = λ i j u v e.
      h.pid_apart i j (rw (k.state i) at u) (rw (k.state j) at v) (sym (k.pid i) ∙ (e ∙ k.pid j));
}
  where
    k : IsHandedOver s p (reparent s.table p)
    k = reparent-IsHandedOver s p h ne

    alone :
        (i : ℕ)
        → (proc_of s i).parent ≡ none
        → (((reparent s.table p).procs i).parent ≡ (proc_of s i).parent)
          ⊎ (((proc_of s i).parent ≢ none)
              × (((reparent s.table p).procs i).parent ≡ some s.table.init))
        → ((reparent s.table p).procs i).parent ≡ none
    alone i n (inl x) = x ∙ n
    alone i n (inr (x, y)) = absurd (x n)

-- A process without children becomes a zombie, if nobody that waits for it is asleep.
pub zombie-IsSound :
    (s : System) (p : ℕ) (status : ℤ)
    → IsSound s
    → p < n_proc
    → is_unused ((proc_of s p).state) ≡ false
    → p ≢ s.table.init
    → s.doing p ≡ at_large
    → ((j : ℕ) → (proc_of s j).parent ≢ some p)
    → ((i : ℕ) (pid : ℤ)
        → (proc_of s p).parent ≡ some i
        → i ≢ s.table.init
        → s.doing i ≡ waits pid
        → is_asleep ((proc_of s i).state) ≡ false)
    → IsSound (with_table s (become_zombie s.table p status))
unfolding become_zombie
zombie-IsSound s p status h l used ne d childless woke = record {
  init_below = h.init_below;
  init_alive = rw (other s.table.init (λ e. ne (sym e))) h.init_alive;
  used_below =
      λ i u. elim (ℕ_discrete i p) [ yes e ↦ rw e l | no n ↦ h.used_below i (rw (other i n) at u) ];
  free_alone = λ i u. elim (ℕ_discrete i p) [
    | yes e ↦ absurd (cc (rw (e, here) at u))
    | no n ↦ rw (other i n) (h.free_alone i (rw (other i n) at u))
  ];
  parent_alive = λ i q e.
      rw (other q (λ x. childless i (parent i ∙ (e ∙ ap some x))))
        (h.parent_alive i q (parent i ∙ e));
  idle = λ i a. elim (ℕ_discrete i p) [ yes e ↦ rw e d | no n ↦ h.idle i (rw (other i n) at a) ];
  noted = λ i q r x e. h.noted i q r x (parent i ∙ e);
  own_chan = λ i pid x a. elim (ℕ_discrete i p) [
    | yes e ↦ absurd (cc (d, rw e at x))
    | no n ↦ rw (other i n) (h.own_chan i pid x (rw (other i n) at a))
  ];
  no_zombie = λ i pid j ni x a e f. elim (ℕ_discrete i p) [
    | yes y ↦ absurd (cc (d, rw y at x))
    | no n ↦ elim (ℕ_discrete j p) [
      | yes y ↦ absurd (cc (woke i pid (rw y at (parent j ∙ e)) ni x, rw (other i n) at a))
      | no m ↦
          rw (other j m)
            (h.no_zombie i pid j ni x (rw (other i n) at a) (parent j ∙ e) (rw (other j m) at f))
    ]
  ];
  pid_below = λ i u. elim (ℕ_discrete i p) [
    | yes e ↦ rw (e, here) (h.pid_below p used)
    | no n ↦ rw (other i n) (h.pid_below i (rw (other i n) at u))
  ];
  pid_apart =
      λ i j u v e. h.pid_apart i j (was_used i u) (was_used j v) (pid i ∙ (e ∙ sym (pid j)));
}
  where
    new : Proc
    new = record (proc_of s p) { xstate = status; state = zombie }

    here : put s.table.procs p new p ≡ new
    here = put_self s.table.procs p new

    other : (i : ℕ) → i ≢ p → put s.table.procs p new i ≡ proc_of s i
    other i n = put_ne s.table.procs p new i n

    parent : (i : ℕ) → (proc_of s i).parent ≡ (put s.table.procs p new i).parent
    parent i = elim (ℕ_discrete i p) [ yes e ↦ rw (e, here) refl | no n ↦ rw (other i n) refl ]

    pid : (i : ℕ) → (proc_of s i).pid ≡ (put s.table.procs p new i).pid
    pid i = elim (ℕ_discrete i p) [ yes e ↦ rw (e, here) refl | no n ↦ rw (other i n) refl ]

    was_used :
        (i : ℕ)
        → is_unused ((put s.table.procs p new i).state) ≡ false
        → is_unused ((proc_of s i).state) ≡ false
    was_used i u = elim (ℕ_discrete i p) [ yes e ↦ rw e used | no n ↦ rw (other i n) at u ]
