-- ===== src/Sync/Deadlock/Detect.antt =====
-- `deadlock_detect` finds a chain of waiting processes that leads to the caller, however long it is.
use oops_os.Prelude.{
  ℕ, zero, suc, ◌≤◌, ◌<◌, ◌≡◌, ◌↔◌, refl, sym, ◌∙◌, inl, inr, true, false, leb, arith, ◌==◌,
  if◌then◌else◌, Bool-cases, ℕ_discrete, subst,
}
use oops_os.Proc.Sched.{is_unused}
use oops_os.Proc.Life.{Proc, n_proc}
use oops_os.Sync.Deadlock.{Locks, owner_of_chan, next_owner, chase, deadlock_detect}
use oops_os.Sync.Deadlock.Counting.{settled}
use oops_os.Sync.Deadlock.Chain.{
  WaitsFor, UniquePids, next_owner-some, chase_me, chase_next, chase_pos, chase-WaitsFor,
  WaitsFor-chase,
}

module _ (l : Locks) (procs : ℕ → Proc) (me s : ℕ) (in_table : s < n_proc)
    (is_me : (procs s).pid ≡ me) (live : is_unused (procs s).state ≡ false) (p_me : 0 < me) where
  chase_mono : (k p : ℕ) → chase l procs me k p ≡ true → chase l procs me (suc k) p ≡ true
  unfolding chase
  chase_mono zero p e = absurd (cc e)
  chase_mono (suc k) p e = elim (ℕ_discrete p me) [
    | yes q ↦
        subst (λ (x : ℕ). chase l procs me (suc (suc k)) x ≡ true) (sym q)
          (chase_me l procs me (suc k) p_me)
    | no ne ↦
        let z = chase_pos l procs me (suc k) p e in
        chase_next l procs me (suc k) p z ne
        ∙ chase_mono k (next_owner l procs p) (sym (chase_next l procs me k p z ne) ∙ e)
  ]

  -- Whether the search of `k` rounds from slot `i` succeeds.
  abbrev marks : ℕ → ℕ → ℕ
  marks k i =
      if is_unused (procs i).state then 0 else if chase l procs me k (procs i).pid then 1 else 0

  marks_one :
      (k i : ℕ)
      → is_unused (procs i).state ≡ false
      → chase l procs me k (procs i).pid ≡ true
      → marks k i ≡ 1
  marks_one k i u e = rw (u, e) refl

  marks-chase : (k i : ℕ) → marks k i ≡ 1 → chase l procs me k (procs i).pid ≡ true
  marks-chase k i e = ground arith

  marks_few : (k i : ℕ) → marks k i ≤ 1
  marks_few k i = ground arith

  marks_grow : (k i : ℕ) → marks k i ≤ marks (suc k) i
  marks_grow k i = elim (Bool-cases (is_unused (procs i).state)) [
    | inl u ↦ rw u (omega arith)
    | inr u ↦ elim (Bool-cases (chase l procs me k (procs i).pid)) [
      | inl e ↦ omega (arith, marks_one (suc k) i u (chase_mono k (procs i).pid e), marks_few k i)
      | inr e ↦ rw (u, e) (omega arith)
    ]
  ]

  IsClosed : ℕ → Type 0
  IsClosed k = (p : ℕ) → chase l procs me (suc k) p ≡ true → chase l procs me k p ≡ true

  -- What holds for the processes in the table holds for all pids.
  marks-IsClosed : (k : ℕ) → ((i : ℕ) → i < n_proc → marks (suc k) i ≡ marks k i) → IsClosed k
  unfolding IsClosed
  marks-IsClosed k h p e = elim (ℕ_discrete p me) [
    | yes q ↦ at s in_table (is_me ∙ sym q) live
    | no ne ↦
        let below = sym (chase_next l procs me k p (chase_pos l procs me (suc k) p e) ne) ∙ e in
        let (i, b, q, u, asleep, found) =
          next_owner-some l procs p (chase_pos l procs me k (next_owner l procs p) below) in
        at i b q u
  ]
    where
      at :
          (i : ℕ)
          → i < n_proc
          → (procs i).pid ≡ p
          → is_unused (procs i).state ≡ false
          → chase l procs me k p ≡ true
      at i b q u =
          let now =
            marks_one (suc k) i u
              (subst (λ (x : ℕ). chase l procs me (suc k) x ≡ true) (sym q) e) in
          subst (λ (x : ℕ). chase l procs me k x ≡ true) q (marks-chase k i (sym (h i b) ∙ now))

  IsClosed-suc : (k : ℕ) → IsClosed k → IsClosed (suc k)
  unfolding IsClosed
  IsClosed-suc k c p e = elim (ℕ_discrete p me) [
    | yes q ↦
        subst (λ (x : ℕ). chase l procs me (suc k) x ≡ true) (sym q) (chase_me l procs me k p_me)
    | no ne ↦
        let z = chase_pos l procs me (suc (suc k)) p e in
        chase_next l procs me k p z ne
        ∙ c (next_owner l procs p) (sym (chase_next l procs me (suc k) p z ne) ∙ e)
  ]

  closed_stays :
      (k : ℕ)
      → ((i : ℕ) → i < n_proc → marks (suc k) i ≡ marks k i)
      → (i : ℕ) → i < n_proc
      → marks (suc (suc k)) i ≡ marks (suc k) i
  unfolding IsClosed
  closed_stays k h i b = elim (Bool-cases (is_unused (procs i).state)) [
    | inl u ↦ rw u refl
    | inr u ↦ elim (Bool-cases (chase l procs me (suc (suc k)) (procs i).pid)) [
      | inl e ↦
          marks_one (suc (suc k)) i u e
          ∙ sym (marks_one (suc k) i u (IsClosed-suc k (marks-IsClosed k h) (procs i).pid e))
      | inr e ↦
          let gone : marks (suc (suc k)) i ≡ 0 = rw (u, e) refl in
          omega (arith, gone, marks_grow (suc k) i)
    ]
  ]

  settled_at : (k : ℕ) → n_proc ≤ k → IsClosed k
  settled_at zero h = absurd (omega (arith, h))
  settled_at (suc k) h = elim (ℕ_discrete n_proc (suc k)) [
    | yes e ↦
        subst IsClosed e
          (marks-IsClosed n_proc (settled n_proc marks marks_few marks_grow closed_stays))
    | no ne ↦ IsClosed-suc k (settled_at k (omega (arith, h, ne)))
  ]

  chase_le : (n k p : ℕ) → k ≤ n → chase l procs me k p ≡ true → chase l procs me n p ≡ true
  chase_le n k p h e = elim (ℕ_discrete k n) [
    | yes q ↦ subst (λ (x : ℕ). chase l procs me x p ≡ true) q e
    | no ne ↦ fewer n (omega (arith, h, ne))
  ]
    where
      fewer : (n : ℕ) → k < n → chase l procs me n p ≡ true
      fewer zero c = absurd (omega (arith, c))
      fewer (suc n) c = elim (ℕ_discrete k n) [
        | yes q ↦ chase_mono n p (subst (λ (x : ℕ). chase l procs me x p ≡ true) q e)
        | no nq ↦ chase_mono n p (fewer n (omega (arith, c, nq)))
      ]

  -- A search that succeeds at all succeeds in as many rounds as the table has slots.
  pub chase_enough : (k p : ℕ) → chase l procs me k p ≡ true → chase l procs me n_proc p ≡ true
  unfolding IsClosed
  chase_enough zero p e = chase_le n_proc 0 p (omega arith) e
  chase_enough (suc k) p e = elim (Bool-cases (leb n_proc k)) [
    | inl h ↦ chase_enough k p (settled_at k (ground (arith, h)) p e)
    | inr h ↦ chase_le n_proc (suc k) p (ground (arith, h)) e
  ]

-- `deadlock_detect`, called by a process that is in the table, where no two processes have one pid: it
-- answers 1 if and only if the process that owns the channel is the caller, or sleeps on something that,
-- directly or over other sleeping processes, the caller owns. The bound of its loop cuts off no chain.
pub deadlock_detect_iff :
    (l : Locks) (procs : ℕ → Proc) (s chan : ℕ)
    → UniquePids procs
    → s < n_proc
    → is_unused (procs s).state ≡ false
    → 0 < (procs s).pid
    → 0 < chan
    → (deadlock_detect l procs (procs s).pid chan ≡ true)
      ↔ WaitsFor l procs (procs s).pid (owner_of_chan l chan)
unfolding deadlock_detect
deadlock_detect_iff l procs s chan u b live p c =
    let some_chan : (chan == 0) ≡ false = ground arith in
    rw some_chan (
      chase-WaitsFor l procs (procs s).pid n_proc (owner_of_chan l chan),
      λ w.
          let (k, e) = WaitsFor-chase l procs (procs s).pid (owner_of_chan l chan) u p w in
          chase_enough l procs (procs s).pid s b refl live p k (owner_of_chan l chan) e,
    )
