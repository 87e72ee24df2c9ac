-- ===== src/Sync/Inherit/Recalc.antt =====
-- What a process keeps of the priorities that it has inherited.
use oops_os.Prelude.{
  ℕ, zero, suc, ◌+◌, ◌≤◌, ◌<◌, ◌≡◌, ◌≢◌, refl, sym, ◌∙◌, ◌⊎◌, inl, inr, Bool, true, false, not,
  ◌&&◌, some, ltb, ◌==◌, if◌then◌else◌, arith, Bool-cases, ℕ_discrete, subst,
}
use oops_os.Prelude.Arrays.{put_self, put_ne}
use oops_os.Prelude.Search.{first_from-some}
use oops_os.Proc.Sched.{is_unused}
use oops_os.Proc.Life.{n_proc}
use oops_os.Sync.Deadlock.{Locks, n_monitors}
use oops_os.Sync.Inherit.{
  Heir, find_heir, max_from, holds_monitor, holds_sleeplock, monitor_max_waiter,
  sleeplock_max_waiter, max_waiter, boost_to, pi_recalc,
}

-- `r` bounds the priorities of what is held, and is one of them or the least that was given.
pub record IsMax (held : ℕ → Bool) (prio : ℕ → ℕ) (i k max r : ℕ) : Type 0 where
  pub least : max ≤ r
  pub bound : (j : ℕ) → i ≤ j → j < i + k → held j ≡ true → prio j ≤ r
  pub reached : (r ≡ max) ⊎ ((j : ℕ) × (i ≤ j) × (j < i + k) × (held j ≡ true) × (prio j ≡ r))

pub max_from-IsMax :
    (held : ℕ → Bool) (prio : ℕ → ℕ) (i k max : ℕ)
    → IsMax held prio i k max (max_from held prio i k max)
unfolding max_from
max_from-IsMax held prio i zero max = record {
  least = omega arith;
  bound = λ j a b. absurd (omega (arith, a, b));
  reached = inl refl;
}
max_from-IsMax held prio i (suc k) max = elim (Bool-cases (held i && ltb max (prio i))) [
  | inl e ↦
      let rest = max_from-IsMax held prio (suc i) k (prio i) in
      rw e (record {
        least = ground (arith, rest.least);
        bound = λ j a b h. elim (ℕ_discrete j i) [
          | yes q ↦ rw q rest.least
          | no ne ↦ rest.bound j (omega (arith, a, ne)) (omega (arith, b)) h
        ];
        reached = inr (
            later (prio i) (ground arith) refl (max_from held prio (suc i) k (prio i))
              rest.reached);
      })
  | inr e ↦
      let rest = max_from-IsMax held prio (suc i) k max in
      rw e (record {
        least = rest.least;
        bound = λ j a b h. elim (ℕ_discrete j i) [
          | yes q ↦ passed (max_from held prio (suc i) k max) rest.least j q h e
          | no ne ↦ rest.bound j (omega (arith, a, ne)) (omega (arith, b)) h
        ];
        reached = elim rest.reached [
          | inl q ↦ inl q
          | inr (j, a, b, h, q) ↦ inr (j, omega (arith, a), omega (arith, b), h, q)
        ];
      })
]
  where
    later :
        (p : ℕ)
        → held i ≡ true
        → prio i ≡ p
        → (r : ℕ)
        → (r ≡ p) ⊎ ((j : ℕ) × (suc i ≤ j) × (j < suc i + k) × (held j ≡ true) × (prio j ≡ r))
        → (j : ℕ) × (i ≤ j) × (j < i + suc k) × (held j ≡ true) × (prio j ≡ r)
    later p h e r (inl q) = (i, omega arith, omega arith, h, e ∙ sym q)
    later p h e r (inr (j, a, b, g, q)) = (j, omega (arith, a), omega (arith, b), g, q)

    passed :
        (r : ℕ)
        → max ≤ r
        → (j : ℕ) → j ≡ i
        → held j ≡ true
        → (held i && ltb max (prio i)) ≡ false
        → prio j ≤ r
    passed r m j q h e =
        let g : held i ≡ true = subst (λ (x : ℕ). held x ≡ true) q h in
        subst (λ (x : ℕ). prio x ≤ r) (sym q) (ground (arith, rw g at e))

-- The boost of process `s` is the greatest `pi_waiter_max` that is recorded in a monitor or a sleep lock that it
-- holds, and 0 if there is none; the other processes are as they were.
pub record IsRecalculated (l : Locks) (procs : ℕ → Heir) (s : ℕ) (procs' : ℕ → Heir) : Type 0 where
  pub monitors :
      (i : ℕ)
      → i < n_monitors
      → holds_monitor l (procs s).pid i ≡ true
      → (l.monitors i).pi_waiter_max ≤ (procs' s).pi_boost
  pub sleeplocks :
      (i : ℕ)
      → i < l.sleeplock_count
      → holds_sleeplock l (procs s).pid i ≡ true
      → (l.sleeplocks i).pi_waiter_max ≤ (procs' s).pi_boost
  pub reached :
      ((procs' s).pi_boost ≡ 0)
      ⊎ ((i : ℕ) × (holds_monitor l (procs s).pid i ≡ true)
          × ((l.monitors i).pi_waiter_max ≡ (procs' s).pi_boost))
      ⊎ ((i : ℕ) × (holds_sleeplock l (procs s).pid i ≡ true)
          × ((l.sleeplocks i).pi_waiter_max ≡ (procs' s).pi_boost))
  pub self : procs' s ≡ record (procs s) { pi_boost = (procs' s).pi_boost }
  pub others : (j : ℕ) → j ≢ s → procs' j ≡ procs j

-- The one live process with a pid.
abbrev pub IsOnly : (ℕ → Heir) → ℕ → Type 0
IsOnly procs s =
    (is_unused (procs s).state ≡ false)
    × ((j : ℕ)
        → j < n_proc
        → is_unused (procs j).state ≡ false
        → (procs j).pid ≡ (procs s).pid
        → j ≡ s)

find_heir-only :
    (procs : ℕ → Heir) (s : ℕ)
    → s < n_proc
    → IsOnly procs s
    → find_heir procs (procs s).pid ≡ some s
find_heir-only procs s b o =
    first_from-some (λ i. (procs i).pid == (procs s).pid && not (is_unused (procs i).state)) 0
      n_proc s (omega arith, omega (arith, b), here, before)
  where
    here : ((procs s).pid == (procs s).pid && not (is_unused (procs s).state)) ≡ true
    here = rw (o.0) (ground arith)

    before :
        (j : ℕ)
        → 0 ≤ j
        → j < s
        → ((procs j).pid == (procs s).pid && not (is_unused (procs j).state)) ≡ false
    before j z m =
        elim (Bool-cases ((procs j).pid == (procs s).pid && not (is_unused (procs j).state))) [
          | inr f ↦ f
          | inl f ↦
              absurd (omega (arith, m, o.1 j (omega (arith, m, b)) (ground arith) (ground arith)))
        ]

-- The greater of the two maxima.
module _ (l : Locks) (pid : ℕ) where
  max_waiter_lem :
      ((i : ℕ)
        → i < n_monitors
        → holds_monitor l pid i ≡ true
        → (l.monitors i).pi_waiter_max ≤ max_waiter l pid)
      × ((i : ℕ)
          → i < l.sleeplock_count
          → holds_sleeplock l pid i ≡ true
          → (l.sleeplocks i).pi_waiter_max ≤ max_waiter l pid)
      × ((max_waiter l pid ≡ 0)
          ⊎ ((i : ℕ) × (holds_monitor l pid i ≡ true)
              × ((l.monitors i).pi_waiter_max ≡ max_waiter l pid))
          ⊎ ((i : ℕ) × (holds_sleeplock l pid i ≡ true)
              × ((l.sleeplocks i).pi_waiter_max ≡ max_waiter l pid)))
  unfolding max_waiter monitor_max_waiter sleeplock_max_waiter
  max_waiter_lem =
      greater (max_from (holds_monitor l pid) (λ i. (l.monitors i).pi_waiter_max) 0 n_monitors 0)
        (max_from (holds_sleeplock l pid) (λ i. (l.sleeplocks i).pi_waiter_max) 0 l.sleeplock_count
          0)
        (max_from-IsMax (holds_monitor l pid) (λ i. (l.monitors i).pi_waiter_max) 0 n_monitors 0)
        (max_from-IsMax (holds_sleeplock l pid) (λ i. (l.sleeplocks i).pi_waiter_max) 0
          l.sleeplock_count 0)
    where
      greater :
          (a b : ℕ)
          → IsMax (holds_monitor l pid) (λ i. (l.monitors i).pi_waiter_max) 0 n_monitors 0 a
          → IsMax
              (holds_sleeplock l pid)
              (λ i. (l.sleeplocks i).pi_waiter_max)
              0
              l.sleeplock_count
              0
              b
          → ((i : ℕ)
              → i < n_monitors
              → holds_monitor l pid i ≡ true
              → (l.monitors i).pi_waiter_max ≤ (if ltb a b then b else a))
            × ((i : ℕ)
                → i < l.sleeplock_count
                → holds_sleeplock l pid i ≡ true
                → (l.sleeplocks i).pi_waiter_max ≤ (if ltb a b then b else a))
            × (((if ltb a b then b else a) ≡ 0)
                ⊎ ((i : ℕ) × (holds_monitor l pid i ≡ true)
                    × ((l.monitors i).pi_waiter_max ≡ (if ltb a b then b else a)))
                ⊎ ((i : ℕ) × (holds_sleeplock l pid i ≡ true)
                    × ((l.sleeplocks i).pi_waiter_max ≡ (if ltb a b then b else a))))
      greater a b x y = elim (Bool-cases (ltb a b)) [
        | inl e ↦ rw e (
          λ i c h. ground (arith, e, x.bound i (omega arith) (omega (arith, c)) h),
          λ i c h. y.bound i (omega arith) (omega (arith, c)) h,
          elim y.reached [ inl q ↦ inl q | inr (j, c, d, h, q) ↦ inr (inr (j, h, q)) ],
        )
        | inr e ↦ rw e (
          λ i c h. x.bound i (omega arith) (omega (arith, c)) h,
          λ i c h. ground (arith, e, y.bound i (omega arith) (omega (arith, c)) h),
          elim x.reached [ inl q ↦ inl q | inr (j, c, d, h, q) ↦ inr (inl (j, h, q)) ],
        )
      ]

pub pi_recalc-IsRecalculated :
    (l : Locks) (procs : ℕ → Heir) (s : ℕ)
    → s < n_proc
    → 0 < (procs s).pid
    → IsOnly procs s
    → IsRecalculated l procs s (pi_recalc l procs (procs s).pid)
unfolding pi_recalc boost_to
pi_recalc-IsRecalculated l procs s b p o =
    let some_pid : ((procs s).pid == 0) ≡ false = ground arith in
    let m = max_waiter_lem l (procs s).pid in
    let now = put_self procs s (record (procs s) { pi_boost = max_waiter l (procs s).pid }) in
    rw (some_pid, find_heir-only procs s b o)
      (record {
        monitors = λ i c h. rw now (m.0 i c h);
        sleeplocks = λ i c h. rw now (m.1 i c h);
        reached = rw now (m.2);
        self = rw now refl;
        others = λ j ne. put_ne procs s _ j ne;
      })
