-- ===== src/Proc/Life/Sound.antt =====
-- What holds of the process table in every reachable state, and the steps that keep it slot by slot.
use oops_os.Prelude.{
  ℕ, ◌+◌, ◌≤◌, ◌<◌, ◌≡◌, ◌≢◌, refl, sym, ◌∙◌, ap, ◌⊎◌, inl, inr, Bool, true, false, not, ◌&&◌, none,
  some, arith, Bool-cases, ℕ_discrete, ℤ, subst,
}
use oops_os.Prelude.Arrays.{put, put_self, put_ne}
use oops_os.Proc.Sched.{
  State, unused, sleeping, suspended_sleep, suspended, runnable, running, zombie, is_unused,
}
use oops_os.Proc.Life.{n_proc, Proc, Table, is_zombie, is_asleep, freed, pid_fits, set_proc}
use oops_os.Proc.Life.System.{Doing, at_large, waits, exits, System, proc_of, IsBooted}

abbrev pub is_alive : State → Bool
is_alive s = not (is_unused s) && not (is_zombie s)

pub record IsSound (s : System) : Type 0 where
  pub init_below : s.table.init < n_proc
  pub init_alive : is_alive ((proc_of s s.table.init).state) ≡ true
  pub used_below : (i : ℕ) → is_unused ((proc_of s i).state) ≡ false → i < n_proc
  pub free_alone : (i : ℕ) → is_unused ((proc_of s i).state) ≡ true → (proc_of s i).parent ≡ none
  pub parent_alive :
      (i q : ℕ) → (proc_of s i).parent ≡ some q → is_alive ((proc_of s q).state) ≡ true
  pub idle : (i : ℕ) → is_alive ((proc_of s i).state) ≡ false → s.doing i ≡ at_large
  pub noted :
      (i q r : ℕ)
      → s.doing i ≡ exits q
      → (proc_of s i).parent ≡ some r
      → (r ≡ q) ⊎ (r ≡ s.table.init)
  pub own_chan :
      (i : ℕ) (pid : ℤ)
      → s.doing i ≡ waits pid
      → is_asleep ((proc_of s i).state) ≡ true
      → (proc_of s i).chan ≡ i + 1
  pub no_zombie :
      (i : ℕ) (pid : ℤ) (j : ℕ)
      → i ≢ s.table.init
      → s.doing i ≡ waits pid
      → is_asleep ((proc_of s i).state) ≡ true
      → (proc_of s j).parent ≡ some i
      → pid_fits pid ((proc_of s j).pid) ≡ true
      → is_zombie ((proc_of s j).state) ≡ false
  pub pid_below :
      (i : ℕ) → is_unused ((proc_of s i).state) ≡ false → (proc_of s i).pid < s.table.next_pid
  pub pid_apart :
      (i j : ℕ)
      → is_unused ((proc_of s i).state) ≡ false
      → is_unused ((proc_of s j).state) ≡ false
      → (proc_of s i).pid ≡ (proc_of s j).pid
      → i ≡ j

pub booted-IsSound : (s : System) → IsBooted s → IsSound s
booted-IsSound s b = record {
  init_below = b.init_below;
  init_alive = rw b.init_state refl;
  used_below = λ i u. elim (ℕ_discrete i s.table.init) [
    | yes e ↦ rw e b.init_below
    | no ne ↦ absurd (cc (rw (b.others i ne).0 at u))
  ];
  free_alone = λ i u. elim (ℕ_discrete i s.table.init) [
    | yes e ↦ rw e b.init_parent
    | no ne ↦ (b.others i ne).1
  ];
  parent_alive = λ i q e. absurd (cc (no_parent i, e));
  idle = λ i u. b.idle i;
  noted = λ i q r e p. absurd (cc (no_parent i, p));
  own_chan = λ i pid e a. absurd (cc (b.idle i, e));
  no_zombie = λ i pid j ne e a p f. absurd (cc (b.idle i, e));
  pid_below = λ i u. rw (only i u) b.init_pid;
  pid_apart = λ i j u v e. only i u ∙ sym (only j v);
}
  where
    no_parent : (i : ℕ) → (proc_of s i).parent ≡ none
    no_parent i = elim (ℕ_discrete i s.table.init) [
      | yes e ↦ rw e b.init_parent
      | no ne ↦ (b.others i ne).1
    ]

    only : (i : ℕ) → is_unused ((proc_of s i).state) ≡ false → i ≡ s.table.init
    only i u = elim (ℕ_discrete i s.table.init) [
      | yes e ↦ e
      | no ne ↦ absurd (cc (rw (b.others i ne).0 at u))
    ]

-- What a step may do to a slot whose process is doing `d`: change its state, but neither to nor from
-- the free states, and put no process that waits to sleep; or free the slot of a zombie.
pub record IsQuiet (d : Doing) (p q : Proc) : Type 0 where
  pub free : is_unused q.state ≡ is_unused p.state
  pub dead : is_zombie q.state ≡ is_zombie p.state
  pub pid : is_unused p.state ≡ false → q.pid ≡ p.pid
  pub parent : q.parent ≡ p.parent
  pub asleep :
      (pid : ℤ)
      → d ≡ waits pid
      → is_asleep q.state ≡ true
      → (is_asleep p.state ≡ true) × (q.chan ≡ p.chan)

pub data Keeps (d : Doing) (p q : Proc) : Type 0 where
  quiet : IsQuiet d p q → Keeps d p q
  gone : is_zombie p.state ≡ true → q ≡ freed p → Keeps d p q

pub same-IsQuiet : (d : Doing) (p : Proc) → IsQuiet d p p
same-IsQuiet d p = record {
  free = refl;
  dead = refl;
  pid = λ u. refl;
  parent = refl;
  asleep = λ pid e a. (a, refl);
}

-- What `Keeps` says of the new contents.
pub record IsLater (d : Doing) (p q : Proc) : Type 0 where
  pub used : is_unused q.state ≡ false → (is_unused p.state ≡ false) × (q.pid ≡ p.pid)
  pub alive : is_alive p.state ≡ true → is_alive q.state ≡ true
  pub not_alive : is_alive q.state ≡ false → is_alive p.state ≡ false
  pub child : (r : ℕ) → q.parent ≡ some r → p.parent ≡ some r
  pub orphan : p.parent ≡ none → q.parent ≡ none
  pub freed_alone : is_unused q.state ≡ true → (is_unused p.state ≡ true) ⊎ (q.parent ≡ none)
  pub dead : is_zombie q.state ≡ true → (is_zombie p.state ≡ true) × (q.pid ≡ p.pid)
  pub asleep :
      (pid : ℤ)
      → d ≡ waits pid
      → is_asleep q.state ≡ true
      → (is_asleep p.state ≡ true) × (q.chan ≡ p.chan)

pub zombie_used : (s : State) → is_zombie s ≡ true → is_unused s ≡ false
zombie_used zombie e = refl
zombie_used unused e = absurd (cc e)
zombie_used sleeping e = absurd (cc e)
zombie_used suspended_sleep e = absurd (cc e)
zombie_used suspended e = absurd (cc e)
zombie_used runnable e = absurd (cc e)
zombie_used running e = absurd (cc e)

Keeps-IsLater : (d : Doing) (p q : Proc) → Keeps d p q → IsLater d p q
unfolding freed
Keeps-IsLater d p q (quiet h) = record {
  used = λ u. (sym h.free ∙ u, h.pid (sym h.free ∙ u));
  alive = λ a. rw (h.free, h.dead) a;
  not_alive = λ a. rw (h.free, h.dead) at a;
  child = λ r e. sym h.parent ∙ e;
  orphan = λ e. h.parent ∙ e;
  freed_alone = λ u. inl (sym h.free ∙ u);
  dead = λ z. (sym h.dead ∙ z, h.pid (zombie_used p.state (sym h.dead ∙ z)));
  asleep = h.asleep;
}
Keeps-IsLater d p q (gone z e) = subst (IsLater d p) (sym e) (record {
  used = λ u. absurd (cc u);
  alive = λ a. absurd (cc (rw (z, zombie_used p.state z) at a));
  not_alive = λ a. rw (z, zombie_used p.state z) refl;
  child = λ r c. absurd (cc c);
  orphan = λ o. refl;
  freed_alone = λ u. inr refl;
  dead = λ y. absurd (cc y);
  asleep = λ pid w a. absurd (cc a);
})

-- A step of this kind keeps the invariant.
pub Keeps-IsSound :
    (s : System) (t : Table)
    → t.init ≡ s.table.init
    → s.table.next_pid ≤ t.next_pid
    → ((i : ℕ) → Keeps (s.doing i) (proc_of s i) (t.procs i))
    → IsSound s
    → IsSound (record s { table = t })
Keeps-IsSound s t same more keeps h = record {
  init_below = rw same h.init_below;
  init_alive = rw same ((later s.table.init).alive h.init_alive);
  used_below = λ i u. h.used_below i ((later i).used u).0;
  free_alone = λ i u. elim ((later i).freed_alone u) [
    | inl v ↦ (later i).orphan (h.free_alone i v)
    | inr e ↦ e
  ];
  parent_alive = λ i q e. (later q).alive (h.parent_alive i q ((later i).child q e));
  idle = λ i a. h.idle i ((later i).not_alive a);
  noted = λ i q r d e. rw same (h.noted i q r d ((later i).child r e));
  own_chan =
      λ i pid d a. let before = (later i).asleep pid d a in before.1 ∙ h.own_chan i pid d before.0;
  no_zombie = λ i pid j ne d a e f. elim (Bool-cases (is_zombie ((t.procs j).state))) [
    | inr z ↦ z
    | inl z ↦ absurd (zombie_before i pid j (λ x. ne (x ∙ sym same)) d a e f z)
  ];
  pid_below =
      λ i u. let before = (later i).used u in omega (arith, before.1, h.pid_below i before.0);
  pid_apart = λ i j u v e.
      let x = (later i).used u in
      let y = (later j).used v in h.pid_apart i j x.0 y.0 (sym x.1 ∙ (e ∙ y.1));
}
  where
    later : (i : ℕ) → IsLater (s.doing i) (proc_of s i) (t.procs i)
    later i = Keeps-IsLater (s.doing i) (proc_of s i) (t.procs i) (keeps i)

    zombie_before :
        (i : ℕ) (pid : ℤ) (j : ℕ)
        → i ≢ s.table.init
        → s.doing i ≡ waits pid
        → is_asleep ((t.procs i).state) ≡ true
        → (t.procs j).parent ≡ some i
        → pid_fits pid ((t.procs j).pid) ≡ true
        → is_zombie ((t.procs j).state) ≡ true
        → ⊥
    zombie_before i pid j ne d a e f z =
        let before = (later j).dead z in
        let quiet_before =
          h.no_zombie i pid j ne d ((later i).asleep pid d a).0 ((later j).child i e)
            (ap (pid_fits pid) (sym before.1) ∙ f) in
        cc (before.0, quiet_before)

-- A step that changes one slot.
pub Keeps-slot :
    (s : System) (i : ℕ) (q : Proc)
    → Keeps (s.doing i) (proc_of s i) q
    → (j : ℕ) → Keeps (s.doing j) (proc_of s j) ((set_proc s.table i q).procs j)
Keeps-slot s i q k j = elim (ℕ_discrete j i) [
  | yes e ↦
      subst (λ x. Keeps (s.doing x) (proc_of s x) (put s.table.procs i q x)) (sym e)
        (subst (Keeps (s.doing i) (proc_of s i)) (sym (put_self s.table.procs i q)) k)
  | no ne ↦
      subst (Keeps (s.doing j) (proc_of s j)) (sym (put_ne s.table.procs i q j ne))
        (quiet (same-IsQuiet (s.doing j) (proc_of s j)))
]

pub slot-IsSound :
    (s : System) (i : ℕ) (q : Proc)
    → Keeps (s.doing i) (proc_of s i) q
    → IsSound s
    → IsSound (record s { table = set_proc s.table i q })
slot-IsSound s i q k h =
    Keeps-IsSound s (set_proc s.table i q) refl (omega arith) (Keeps-slot s i q k) h
