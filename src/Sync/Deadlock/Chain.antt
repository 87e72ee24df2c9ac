-- ===== src/Sync/Deadlock/Chain.antt =====
-- The chain of processes, each waiting for the next, that the search follows.
use oops_os.Prelude.{
  ℕ, zero, suc, ◌≤◌, ◌<◌, ◌≡◌, ◌≢◌, refl, sym, ◌∙◌, ap, inl, inr, true, false, Option, none, some,
  arith, ◌==◌, Bool-cases, ℕ_discrete, subst,
}
use oops_os.Prelude.Search.{first_from, IsFirst, first_from-IsFirst, first_from-some}
use oops_os.Proc.Sched.{State, sleeping, is_unused}
use oops_os.Proc.Life.{Proc, n_proc, is_sleeping}
use oops_os.Sync.Deadlock.{Locks, owner_of_chan, is_live, waits_for, next_owner, chase}

-- Process `p` is the caller, or it sleeps on something whose owner, in the same way, leads to the caller.
pub data WaitsFor (l : Locks) (procs : ℕ → Proc) (me : ℕ) : ℕ → Type 0 where
  itself : WaitsFor l procs me me
  blocked :
      (p i : ℕ)
      → i < n_proc
      → (procs i).pid ≡ p
      → 0 < p
      → (procs i).state ≡ sleeping
      → WaitsFor l procs me (owner_of_chan l (procs i).chan)
      → WaitsFor l procs me p

abbrev pub UniquePids : (ℕ → Proc) → Type 0
UniquePids procs =
    (i j : ℕ)
    → i < n_proc
    → j < n_proc
    → is_unused (procs i).state ≡ false
    → is_unused (procs j).state ≡ false
    → (procs i).pid ≡ (procs j).pid
    → i ≡ j

-- A pid that no process has leads nowhere.
pub next_owner-some :
    (l : Locks) (procs : ℕ → Proc) (p : ℕ)
    → 0 < next_owner l procs p
    → (i : ℕ) × (i < n_proc)
      × ((procs i).pid ≡ p)
      × (is_unused (procs i).state ≡ false)
      × ((procs i).state ≡ sleeping)
      × (next_owner l procs p ≡ owner_of_chan l (procs i).chan)
unfolding next_owner waits_for
next_owner-some l procs p h =
    found (first_from (λ i. is_live p (procs i)) 0 n_proc)
      (first_from-IsFirst (λ i. is_live p (procs i)) 0 n_proc) h
  where
    asleep : (s : State) → is_sleeping s ≡ true → s ≡ sleeping
    asleep sleeping e = refl
    asleep State.unused e = cc
    asleep State.suspended_sleep e = cc
    asleep State.suspended e = cc
    asleep State.runnable e = cc
    asleep State.running e = cc
    asleep State.zombie e = cc

    found :
        (r : Option ℕ)
        → IsFirst (λ i. is_live p (procs i)) 0 n_proc r
        → 0 < waits_for l procs r
        → (i : ℕ) × (i < n_proc)
          × ((procs i).pid ≡ p)
          × (is_unused (procs i).state ≡ false)
          × ((procs i).state ≡ sleeping)
          × (waits_for l procs r ≡ owner_of_chan l (procs i).chan)
    found none f h = absurd (omega (arith, h))
    found (some i) f h = elim (Bool-cases (is_sleeping (procs i).state)) [
      | inr e ↦ absurd (ground (arith, h))
      | inl e ↦
          (i, f.1, ground (arith, f.2), ground (arith, f.2), asleep (procs i).state e, rw e refl)
    ]

-- The search finds the one process with a pid.
pub next_owner-sleeping :
    (l : Locks) (procs : ℕ → Proc) (i : ℕ)
    → UniquePids procs
    → i < n_proc
    → (procs i).state ≡ sleeping
    → next_owner l procs (procs i).pid ≡ owner_of_chan l (procs i).chan
unfolding next_owner waits_for
next_owner-sleeping l procs i u b e =
    rw
      (
        first_from-some (λ j. is_live (procs i).pid (procs j)) 0 n_proc i
            (omega arith, omega (arith, b), here, before),
        e,
      )
      refl
  where
    here : is_live (procs i).pid (procs i) ≡ true
    here = rw e (ground arith)

    before : (j : ℕ) → 0 ≤ j → j < i → is_live (procs i).pid (procs j) ≡ false
    before j z m = elim (Bool-cases (is_live (procs i).pid (procs j))) [
      | inr f ↦ f
      | inl f ↦ absurd (
          omega (arith, m, u j i (omega (arith, m, b)) b (ground arith) (rw e refl) (ground arith)))
    ]

module _ (l : Locks) (procs : ℕ → Proc) (me : ℕ) where
  pub chase_me : (k : ℕ) → 0 < me → chase l procs me (suc k) me ≡ true
  unfolding chase
  chase_me k p = ground arith

  pub chase_next :
      (k p : ℕ)
      → 0 < p
      → p ≢ me
      → chase l procs me (suc k) p ≡ chase l procs me k (next_owner l procs p)
  unfolding chase
  chase_next k p n ne =
      let a : (p == 0) ≡ false = ground arith in
      let b : (p == me) ≡ false = ground arith in rw (a, b) refl

  pub chase_pos : (k p : ℕ) → chase l procs me k p ≡ true → 0 < p
  unfolding chase
  chase_pos zero p e = absurd (cc e)
  chase_pos (suc k) p e = elim (Bool-cases (p == 0)) [
    | inl z ↦ absurd (cc (rw z at e))
    | inr z ↦ ground arith
  ]

  pub chase-WaitsFor : (k p : ℕ) → chase l procs me k p ≡ true → WaitsFor l procs me p
  unfolding chase
  chase-WaitsFor zero p e = absurd (cc e)
  chase-WaitsFor (suc k) p e = elim (ℕ_discrete p me) [
    | yes q ↦ subst (WaitsFor l procs me) (sym q) itself
    | no ne ↦
        let below = sym (chase_next k p (chase_pos (suc k) p e) ne) ∙ e in
        let (i, b, q, a, s, f) =
          next_owner-some l procs p (chase_pos k (next_owner l procs p) below) in
        blocked p i b q (chase_pos (suc k) p e) s
          (subst (WaitsFor l procs me) f (chase-WaitsFor k (next_owner l procs p) below))
  ]

  pub WaitsFor-chase :
      (p : ℕ)
      → UniquePids procs
      → 0 < me
      → WaitsFor l procs me p
      → (k : ℕ) × (chase l procs me k p ≡ true)
  WaitsFor-chase _ u n itself = (1, chase_me 0 n)
  WaitsFor-chase _ u n (blocked p i b q z s w) =
      let (k, e) = WaitsFor-chase (owner_of_chan l (procs i).chan) u n w in
      elim (ℕ_discrete p me) [
        | yes m ↦ (1, subst (λ (x : ℕ). chase l procs me 1 x ≡ true) (sym m) (chase_me 0 n))
        | no ne ↦ (
          suc k,
          chase_next k p z ne
              ∙ (ap (chase l procs me k)
                    (ap (next_owner l procs) (sym q) ∙ next_owner-sleeping l procs i u b s)
                  ∙ e),
        )
      ]
