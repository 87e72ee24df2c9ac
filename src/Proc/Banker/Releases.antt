-- ===== src/Proc/Banker/Releases.antt =====
-- Giving resources back keeps a safe state safe; raising a claim may not.
use oops_os.Prelude.{
  ℕ, zero, ◌+◌, ◌≤◌, ◌<◌, ◌≡◌, refl, sym, true, false, arith, if◌then◌else◌, Bool-cases, inl, inr,
  Bool, ◌≢◌, subst, ℕ_discrete, ℤ, pos_part, lt→ltb, ap, fun_ext,
}
use oops_os.Prelude.Arrays.{put, put_self, put_ne, all_below, all_below-elim}
use oops_os.Proc.Banker.{
  Banker, Claim, add_alloc, start, bad_count, take_back, rel_ok, not_ready, release,
}
use oops_os.Proc.Banker.Safety.{CanFinish, done, next, IsSafe}
use oops_os.Proc.Banker.Conserved.{rel_ok-le, nres_of_ready}

add_alloc-lem :
    (c : Banker) (i : ℕ) (work : ℕ → ℕ) (r : ℕ)
    → r < c.nres
    → add_alloc c i work r ≡ work r + (c.procs i).alloc r
unfolding add_alloc
add_alloc-lem c i work r l = rw (lt→ltb r c.nres l)

-- What process `p` has still to give back in an order that has reached `finish`.
abbrev owed : ℕ → (ℕ → Bool) → ℕ → ℕ
owed p finish a = if finish p then 0 else a

module _ (b : Banker) (p : ℕ) (amount : ℕ → ℕ)
    (fits : (r : ℕ) → r < b.nres → amount r ≤ (b.procs p).alloc r) where
  abbrev after : Banker
  after = take_back b p b.nres amount

  after_ne : (i : ℕ) → i ≢ p → after.procs i ≡ b.procs i
  unfolding take_back
  after_ne i ne = put_ne b.procs p _ i ne

  after_self :
      (r : ℕ)
      → r < b.nres
      → ((after.procs p).max r ≡ (b.procs p).max r)
        × ((after.procs p).alloc r + amount r ≡ (b.procs p).alloc r)
  unfolding take_back
  after_self r l = rw (put_self b.procs p) (refl, rw (lt→ltb r b.nres l) (omega (arith, fits r l)))

  -- What was given back is free, until `p` finishes in the old order.
  abbrev IsAhead : (ℕ → ℕ) → (ℕ → ℕ) → (ℕ → Bool) → Type 0
  IsAhead work work' finish = (r : ℕ) → r < b.nres → work r + owed p finish (amount r) ≤ work' r

  finish-IsAhead :
      (i : ℕ) (work work' : ℕ → ℕ) (finish : ℕ → Bool)
      → finish i ≡ false
      → IsAhead work work' finish
      → IsAhead (add_alloc b i work) (add_alloc after i work') (put finish i true)
  unfolding take_back
  finish-IsAhead i work work' finish e h r l = elim (ℕ_discrete i p) [
    | yes eq ↦
        subst
          (λ (k : ℕ).
            add_alloc b k work r + owed p (put finish k true) (amount r)
            ≤ add_alloc after k work' r)
          (sym eq)
          (omega (
            arith,
            h r l,
            after_self r l,
            add_alloc-lem b p work r l,
            add_alloc-lem after p work' r l,
            ap (λ (c : Bool). if c then zero else amount r) (put_self finish p true),
            ap (λ (c : Bool). if c then zero else amount r)
                (subst (λ (k : ℕ). finish k ≡ false) eq e),
          ))
    | no ne ↦ omega (
      arith,
      h r l,
      add_alloc-lem b i work r l,
      add_alloc-lem after i work' r l,
      ap (λ (c : Claim). c.alloc r) (after_ne i ne),
      ap (λ (c : Bool). if c then zero else amount r) (put_ne finish i true p (λ q. ne (sym q))),
    )
  ]

  -- The old order still works: everybody finds at least as much as before.
  after-CanFinish :
      {work : ℕ → ℕ} {finish : ℕ → Bool} (work' : ℕ → ℕ)
      → CanFinish b work finish
      → IsAhead work work' finish
      → CanFinish after work' finish
  unfolding take_back
  after-CanFinish work' (done all) h = done all
  after-CanFinish {work} {finish} work' (next i l e need rest) h =
      next i l e enough
        (after-CanFinish (add_alloc after i work') rest (finish-IsAhead i work work' finish e h))
    where
      enough : (r : ℕ) → r < b.nres → (after.procs i).max r ≤ work' r + (after.procs i).alloc r
      enough r lr = elim (ℕ_discrete i p) [
        | yes eq ↦
            subst (λ (k : ℕ). (after.procs k).max r ≤ work' r + (after.procs k).alloc r) (sym eq)
              (omega (
                arith,
                h r lr,
                after_self r lr,
                subst (λ (k : ℕ). (b.procs k).max r ≤ work r + (b.procs k).alloc r) eq (need r lr),
                ap (λ (c : Bool). if c then zero else amount r)
                    (subst (λ (k : ℕ). finish k ≡ false) eq e),
              ))
        | no ne ↦ omega (
          arith,
          h r lr,
          need r lr,
          ap (λ (c : Claim). c.alloc r) (after_ne i ne),
          ap (λ (c : Claim). c.max r) (after_ne i ne),
        )
      ]

  after-finish : (start b).finish ≡ (start after).finish
  unfolding take_back start
  after-finish = fun_ext λ i. elim (ℕ_discrete i p) [
    | yes eq ↦ rw (eq, put_self b.procs p)
    | no ne ↦ rw (put_ne b.procs p _ i ne)
  ]

  after-IsSafe : IsSafe b → IsSafe after
  unfolding take_back
  after-IsSafe h =
      subst (CanFinish after after.avail) after-finish
        (after-CanFinish after.avail h (λ r l. rw (lt→ltb r b.nres l) (ground arith)))

-- `banker_release` keeps a safe state safe, whether it succeeds or not.
pub release-IsSafe :
    (b : Banker) (p : ℕ) (nres : ℤ) (rel : ℕ → ℤ) → IsSafe b → IsSafe (release b p nres rel).1
unfolding release
release-IsSafe b p nres rel v = elim (Bool-cases (bad_count nres)) [
  | inl e ↦ rw e v
  | inr e ↦ elim (Bool-cases (not_ready b p (pos_part nres))) [
    | inl f ↦ rw (e, f) v
    | inr f ↦ elim (Bool-cases (all_below (pos_part nres) (rel_ok b p rel))) [
      | inr g ↦ rw (e, f, g) v
      | inl g ↦ rw (e, f, g) (given (nres_of_ready b p (pos_part nres) f).0 g)
    ]
  ]
]
  where
    given :
        pos_part nres ≡ b.nres
        → all_below (pos_part nres) (rel_ok b p rel) ≡ true
        → IsSafe (take_back b p (pos_part nres) (λ r. pos_part (rel r)))
    given q g =
        subst (λ n. IsSafe (take_back b p n (λ r. pos_part (rel r)))) (sym q)
          (after-IsSafe b p (λ r. pos_part (rel r))
            (λ r l.
              rel_ok-le b p rel r
                (all_below-elim (pos_part nres) (rel_ok b p rel) g r (omega arith)))
            v)
