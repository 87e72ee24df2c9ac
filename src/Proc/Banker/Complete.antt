-- ===== src/Proc/Banker/Complete.antt =====
-- `banker_is_safe_locked` decides safety: it refuses a state only if no order lets all finish.
use oops_os.Prelude.{
  ℕ, zero, suc, ◌+◌, ◌≤◌, ◌<◌, ◌≡◌, refl, Bool, true, false, some, arith, if◌then◌else◌, Bool-cases,
  inl, inr, ◌⊎◌, sym, subst, ap, lt→ltb, ℕ_discrete,
}
use oops_os.Prelude.Arrays.{put, put_self, put_ne, all_below, all_below-intro}
use oops_os.Prelude.Sums.{sum_below, sum_below_change, sum_below_mono}
use oops_os.Proc.Banker.{
  Banker, nproc, need_ok, Search, add_alloc, visit, scan, sweep, rounds, start, all_finished,
  is_safe,
}
use oops_os.Proc.Banker.Safety.{
  CanFinish, done, next, IsSafe, need_ok-intro, rounds_cases, scan_progress, rounds_total,
  open_count-le, is_safe-IsSafe,
}

-- What a process holds, as long as it is not finished.
abbrev pub holds : Banker → (ℕ → Bool) → ℕ → ℕ → ℕ
holds b finish r i = if finish i then 0 else (b.procs i).alloc r

-- Free and held amounts together stay the same throughout the search.
abbrev pub IsBalanced : Banker → (ℕ → ℕ) → (ℕ → ℕ) → (ℕ → Bool) → Type 0
IsBalanced b sum work finish =
    (r : ℕ) → r < b.nres → work r + sum_below nproc (holds b finish r) ≡ sum r

finish-IsBalanced :
    (b : Banker) (sum work : ℕ → ℕ) (finish : ℕ → Bool) (i : ℕ)
    → i < nproc
    → finish i ≡ false
    → IsBalanced b sum work finish
    → IsBalanced b sum (add_alloc b i work) (put finish i true)
unfolding add_alloc
finish-IsBalanced b sum work finish i l e h r lr = rw (lt→ltb r b.nres lr) (
    omega (
      arith,
      h r lr,
      sum_below_change nproc (holds b (put finish i true) r) (holds b finish r) i l
          (λ j ne. rw (put_ne finish i true j ne)),
      ap (λ (c : Bool). if c then zero else (b.procs i).alloc r) (put_self finish i true),
      ap (λ (c : Bool). if c then zero else (b.procs i).alloc r) e,
    ))

-- The invariant of the search: amounts are kept, and so are the marks that it began with.
abbrev pub IsReached : Banker → (ℕ → ℕ) → (ℕ → Bool) → Search → Type 0
IsReached b sum first s =
    IsBalanced b sum s.work s.finish × ((j : ℕ) → first j ≡ true → s.finish j ≡ true)

put-keeps : (f : ℕ → Bool) (i j : ℕ) → f j ≡ true → put f i true j ≡ true
unfolding put
put-keeps f i j h = ground arith

visit-IsReached :
    (b : Banker) (sum : ℕ → ℕ) (first : ℕ → Bool) (i : ℕ) (s : Search)
    → i < nproc
    → IsReached b sum first s
    → IsReached b sum first (visit b i s)
unfolding visit
visit-IsReached b sum first i s l h = elim (Bool-cases (s.finish i)) [
  | inl e ↦ rw e h
  | inr e ↦ elim (Bool-cases (need_ok b i s.work)) [
    | inl n ↦
        rw (e, n)
          (
            finish-IsBalanced b sum s.work s.finish i l e h.0,
            λ j t. put-keeps s.finish i j (h.1 j t),
          )
    | inr n ↦ rw (e, n) h
  ]
]

scan-IsReached :
    (b : Banker) (sum : ℕ → ℕ) (first : ℕ → Bool) (k i : ℕ) (s : Search)
    → i + k ≤ nproc
    → IsReached b sum first s
    → IsReached b sum first (scan b k i s)
unfolding scan
scan-IsReached b sum first zero i s l h = h
scan-IsReached b sum first (suc k) i s l h =
    scan-IsReached b sum first k (suc i) (visit b i s) (omega arith)
      (visit-IsReached b sum first i s (omega arith) h)

sweep-IsReached :
    (b : Banker) (sum : ℕ → ℕ) (first : ℕ → Bool) (s : Search)
    → IsReached b sum first s
    → IsReached b sum first (sweep b s)
unfolding sweep
sweep-IsReached b sum first s h =
    scan-IsReached b sum first nproc 0 (record s { progress = false }) (omega arith) h

-- No process that is left can get its claim.
abbrev pub IsStuck : Banker → Search → Type 0
IsStuck b s = (i : ℕ) → i < nproc → (s.finish i ≡ true) ⊎ (need_ok b i s.work ≡ false)

visit_stuck :
    (b : Banker) (i : ℕ) (s : Search)
    → (visit b i s).progress ≡ false
    → (visit b i s ≡ s) × ((s.finish i ≡ true) ⊎ (need_ok b i s.work ≡ false))
unfolding visit
visit_stuck b i s h = elim (Bool-cases (s.finish i)) [
  | inl e ↦ (rw e, inl e)
  | inr e ↦ elim (Bool-cases (need_ok b i s.work)) [
    | inl n ↦ absurd (cc (rw (e, n) at h))
    | inr n ↦ (rw (e, n), inr n)
  ]
]

scan_stuck :
    (b : Banker) (k i : ℕ) (s : Search)
    → i + k ≤ nproc
    → (scan b k i s).progress ≡ false
    → (j : ℕ) → i ≤ j
    → j < i + k
    → (s.finish j ≡ true) ⊎ (need_ok b j s.work ≡ false)
unfolding scan
scan_stuck b zero i s l h j lo hi = absurd (omega arith)
scan_stuck b (suc k) i s l h j lo hi =
    elim (scan_progress b k (suc i) (visit b i s) (omega arith)) [
      | inr q ↦ absurd (cc)
      | inl e ↦
          let v = visit_stuck b i s (cc) in
          elim (ℕ_discrete j i) [
            | yes eq ↦ subst (λ t. (s.finish t ≡ true) ⊎ (need_ok b t s.work ≡ false)) (sym eq) v.1
            | no ne ↦
                subst (λ (t : Search). (t.finish j ≡ true) ⊎ (need_ok b j t.work ≡ false)) v.0
                  (scan_stuck b k (suc i) (visit b i s) (omega arith) h j (omega arith)
                    (omega arith))
          ]
    ]

-- The state in which the outer loop ends.
abbrev pub IsFinal : Banker → (ℕ → ℕ) → (ℕ → Bool) → Search → Type 0
IsFinal b sum first s = IsStuck b s × IsReached b sum first s

sweep-IsStuck : (b : Banker) (s : Search) → (sweep b s).progress ≡ false → IsStuck b (sweep b s)
unfolding sweep
sweep-IsStuck b s p = elim (scan_progress b nproc 0 (record s { progress = false }) (omega arith)) [
  | inr q ↦ absurd (cc)
  | inl e ↦ subst (IsStuck b) (sym e) (λ i l.
      scan_stuck b nproc 0 (record s { progress = false }) (omega arith) p i (omega arith)
        (omega arith))
]

rounds-IsFinal :
    (b : Banker) (sum : ℕ → ℕ) (first : ℕ → Bool) (fuel : ℕ) (s s' : Search)
    → IsReached b sum first s
    → rounds b fuel s ≡ some s'
    → IsFinal b sum first s'
unfolding rounds
rounds-IsFinal b sum first zero s s' h e = absurd (ground arith)
rounds-IsFinal b sum first (suc fuel) s s' h e = elim (rounds_cases b fuel s s' e) [
  | inl p ↦ rounds-IsFinal b sum first fuel (sweep b s) s' (sweep-IsReached b sum first s h) p.1
  | inr p ↦ subst (IsFinal b sum first) p.1 (sweep-IsStuck b s p.0, sweep-IsReached b sum first s h)
]

-- Whatever an order of completion finishes, the search has finished too.
CanFinish-finished :
    (b : Banker) (sum : ℕ → ℕ) (s : Search)
    → IsStuck b s
    → IsBalanced b sum s.work s.finish
    → {work : ℕ → ℕ} {finish : ℕ → Bool} → CanFinish b work finish
    → IsBalanced b sum work finish
    → ((j : ℕ) → j < nproc → finish j ≡ true → s.finish j ≡ true)
    → (i : ℕ) → i < nproc
    → s.finish i ≡ true
CanFinish-finished b sum s f fb (done all) bal sub i l = sub i l (all i l)
CanFinish-finished b sum s f fb {work} {finish} (next k lk e need rest) bal sub i l =
    CanFinish-finished b sum s f fb rest (finish-IsBalanced b sum work finish k lk e bal) sub' i l
  where
    holds-mono : (r j : ℕ) → j < nproc → holds b s.finish r j ≤ holds b finish r j
    holds-mono r j lj = elim (Bool-cases (finish j)) [
      | inl t ↦ rw (t, sub j lj t) (omega arith)
      | inr u ↦ rw u (ground arith)
    ]

    covered : (r : ℕ) → r < b.nres → (b.procs k).max r ≤ s.work r + (b.procs k).alloc r
    covered r lr = omega (
      arith,
      need r lr,
      bal r lr,
      fb r lr,
      sum_below_mono nproc (holds b s.finish r) (holds b finish r) (holds-mono r),
    )

    this : s.finish k ≡ true
    this = elim (f k lk) [ inl t ↦ t | inr n ↦ absurd (cc (need_ok-intro b k s.work covered)) ]

    sub' : (j : ℕ) → j < nproc → put finish k true j ≡ true → s.finish j ≡ true
    sub' j lj e' = elim (ℕ_discrete j k) [
      | yes eq ↦ subst (λ t. s.finish t ≡ true) (sym eq) this
      | no ne ↦ sub j lj (rw (put_ne finish k true j ne) at e')
    ]

is_safe_of_IsSafe : (b : Banker) → IsSafe b → is_safe b ≡ some true
unfolding is_safe start all_finished
is_safe_of_IsSafe b safe =
    let (s, e) = rounds_total b (suc nproc) (start b) (omega (arith, open_count-le (start b))) in
    let sum = λ (r : ℕ). b.avail r + sum_below nproc (holds b (start b).finish r) in
    let final =
      rounds-IsFinal b sum (start b).finish (suc nproc) (start b) s (λ r l. refl, λ j t. t) e in
    let all =
      CanFinish-finished b sum s final.0 final.1.0 safe (λ r l. refl) (λ j l t. final.1.1 j t) in
    rw (e, all_below-intro nproc s.finish all)

-- `banker_is_safe_locked` ends within its fuel and decides safety: it returns 1 exactly if there
-- is an order in which all active processes can get their claims and end.
pub is_safe_decides :
    (b : Banker) → ((is_safe b ≡ some true) × IsSafe b) ⊎ ((is_safe b ≡ some false) × (¬ IsSafe b))
unfolding is_safe all_finished
is_safe_decides b = go (all_below nproc s.finish) refl
  where
    run : (s : Search) × (rounds b (suc nproc) (start b) ≡ some s)
    run = rounds_total b (suc nproc) (start b) (omega (arith, open_count-le (start b)))

    s : Search
    s = run.0

    result : is_safe b ≡ some (all_below nproc s.finish)
    result = rw run.1

    go :
        (c : Bool)
        → all_below nproc s.finish ≡ c
        → ((is_safe b ≡ some true) × IsSafe b) ⊎ ((is_safe b ≡ some false) × (¬ IsSafe b))
    go true e = let safe = rw e at result in inl (safe, is_safe-IsSafe b safe)
    go false e =
        let unsafe = rw e at result in inr (unsafe, λ h. cc (is_safe_of_IsSafe b h, unsafe))
