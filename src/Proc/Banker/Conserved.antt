-- ===== src/Proc/Banker/Conserved.antt =====
-- What every operation of the banker keeps: resources are neither made nor lost, a process that
-- takes no part holds nothing, and nobody holds more than it claimed.
use oops_os.Prelude.{
  ℕ, ◌+◌, ◌-◌, ◌≤◌, ◌<◌, ◌≡◌, refl, sym, ap, true, false, arith, ltb, lt→ltb, if◌then◌else◌,
  Bool-cases, inl, inr, subst, ℕ_discrete, ℤ, pos, pos_part, ltb_ℤ, not, ◌==◌, ◌&&◌, ◌||◌,
}
use oops_os.Prelude.Arrays.{put, put_self, put_ne, all_below, all_below-elim}
use oops_os.Prelude.Sums.{sum_below, sum_below_change, sum_below_zero}
use oops_os.Proc.Banker.{
  Banker, Claim, nproc, bad_count, cleared, any_alloc, init, max_ok, claim, set_max, grant,
  take_back, rel_ok, not_ready, release, release_proc,
}

abbrev pub held : (ℕ → Claim) → ℕ → ℕ
held procs r = sum_below nproc (λ i. (procs i).alloc r)

pub record IsConsistent (b : Banker) : Type 0 where
  pub kept : (r : ℕ) → r < b.nres → b.avail r + held b.procs r ≡ b.total r
  pub idle : (i r : ℕ) → (b.procs i).active ≡ false → r < b.nres → (b.procs i).alloc r ≡ 0
  pub within : (i r : ℕ) → r < b.nres → (b.procs i).alloc r ≤ (b.procs i).max r

pub held-put :
    (procs : ℕ → Claim) (p : ℕ) (c : Claim) (r : ℕ)
    → p < nproc
    → held (put procs p c) r + (procs p).alloc r ≡ held procs r + c.alloc r
held-put procs p c r l = omega (
  arith,
  sum_below_change nproc (λ i. (put procs p c i).alloc r) (λ i. (procs i).alloc r) p l
      (λ j ne. ap (λ (d : Claim). d.alloc r) (put_ne procs p c j ne)),
  ap (λ (d : Claim). d.alloc r) (put_self procs p c),
)

-- An update of one process and of the free amounts is consistent if the two agree.
pub put-IsConsistent :
    (b : Banker) (p : ℕ) (c : Claim) (avail : ℕ → ℕ)
    → p < nproc
    → IsConsistent b
    → ((r : ℕ) → r < b.nres → avail r + c.alloc r ≡ b.avail r + (b.procs p).alloc r)
    → ((r : ℕ) → c.active ≡ false → r < b.nres → c.alloc r ≡ 0)
    → ((r : ℕ) → r < b.nres → c.alloc r ≤ c.max r)
    → IsConsistent (record b { avail = avail; procs = put b.procs p c })
put-IsConsistent b p c avail l v same none_held below = record {
  kept = λ r lr. omega (arith, v.kept r lr, held-put b.procs p c r l, same r lr);
  idle = λ i r e lr. elim (ℕ_discrete i p) [
    | yes eq ↦ rw (eq, put_self b.procs p c) (none_held r (rw (eq, put_self b.procs p c) at e) lr)
    | no ne ↦ rw (put_ne b.procs p c i ne) (v.idle i r (rw (put_ne b.procs p c i ne) at e) lr)
  ];
  within = λ i r lr. elim (ℕ_discrete i p) [
    | yes eq ↦ rw (eq, put_self b.procs p c) (below r lr)
    | no ne ↦ rw (put_ne b.procs p c i ne) (v.within i r lr)
  ];
}

pub grant-IsConsistent :
    (b : Banker) (p : ℕ) (amount : ℕ → ℕ)
    → p < nproc
    → IsConsistent b
    → (b.procs p).active ≡ true
    → ((r : ℕ)
        → r < b.nres
        → (amount r ≤ b.avail r) × ((b.procs p).alloc r + amount r ≤ (b.procs p).max r))
    → IsConsistent (grant b p b.nres amount)
unfolding grant
grant-IsConsistent b p amount l v act fits =
    put-IsConsistent b p
      (record (b.procs p) {
        alloc = λ r. if ltb r b.nres then (b.procs p).alloc r + amount r else (b.procs p).alloc r;
      })
      (λ r. if ltb r b.nres then b.avail r - amount r else b.avail r) l v
      (λ r lr. rw (lt→ltb r b.nres lr) (omega (arith, fits r lr))) (λ r e lr. absurd (cc))
      (λ r lr. rw (lt→ltb r b.nres lr) (omega (arith, fits r lr)))

pub take_back-IsConsistent :
    (b : Banker) (p : ℕ) (amount : ℕ → ℕ)
    → p < nproc
    → IsConsistent b
    → (b.procs p).active ≡ true
    → ((r : ℕ) → r < b.nres → amount r ≤ (b.procs p).alloc r)
    → IsConsistent (take_back b p b.nres amount)
unfolding take_back
take_back-IsConsistent b p amount l v act fits =
    put-IsConsistent b p
      (record (b.procs p) {
        alloc = λ r. if ltb r b.nres then (b.procs p).alloc r - amount r else (b.procs p).alloc r;
      })
      (λ r. if ltb r b.nres then b.avail r + amount r else b.avail r) l v
      (λ r lr. rw (lt→ltb r b.nres lr) (omega (arith, fits r lr))) (λ r e lr. absurd (cc))
      (λ r lr. rw (lt→ltb r b.nres lr) (omega (arith, fits r lr, v.within p r lr)))

fresh-IsConsistent :
    (procs : ℕ → Claim) (n : ℕ) (total : ℕ → ℕ)
    → IsConsistent (record {
      inited = true;
      nres = n;
      total = total;
      avail = total;
      procs = λ i. cleared (procs i);
    })
unfolding cleared
fresh-IsConsistent procs n total = record {
  kept = λ r lr. omega (arith, sum_below_zero nproc (λ i. 0) (λ i l. refl));
  idle = λ i r e lr. refl;
  within = λ i r lr. omega arith;
}

-- `banker_init` keeps a consistent state consistent, whether it succeeds or not.
pub init-IsConsistent :
    (b : Banker) (nres : ℤ) (total : ℕ → ℤ) → IsConsistent b → IsConsistent (init b nres total).1
unfolding init
init-IsConsistent b nres total v = elim (Bool-cases (bad_count nres)) [
  | inl e ↦ rw e v
  | inr e ↦
      elim (Bool-cases (not (all_below (pos_part nres) (λ r. not (ltb_ℤ (total r) (pos 0)))))) [
        | inl f ↦ rw (e, f) v
        | inr f ↦ elim (Bool-cases (b.inited && any_alloc b)) [
          | inl g ↦ rw (e, f, g) v
          | inr g ↦ rw (e, f, g) (fresh-IsConsistent b.procs (pos_part nres) _)
        ]
      ]
]

-- The guards that every operation on a claim passes before its checks of the amounts.
pub nres_of_ready :
    (b : Banker) (p n : ℕ) → not_ready b p n ≡ false → (n ≡ b.nres) × ((b.procs p).active ≡ true)
unfolding not_ready
nres_of_ready b p n h = ground arith

pub rel_ok-le :
    (b : Banker) (p : ℕ) (rel : ℕ → ℤ) (r : ℕ)
    → rel_ok b p rel r ≡ true
    → pos_part (rel r) ≤ (b.procs p).alloc r
unfolding rel_ok
rel_ok-le b p rel r h = ground arith

-- `banker_release` keeps a consistent state consistent.
pub release-IsConsistent :
    (b : Banker) (p : ℕ) (nres : ℤ) (rel : ℕ → ℤ)
    → p < nproc
    → IsConsistent b
    → IsConsistent (release b p nres rel).1
unfolding release
release-IsConsistent b p nres rel l v = elim (Bool-cases (bad_count nres)) [
  | inl e ↦ rw e v
  | inr e ↦ elim (Bool-cases (not_ready b p (pos_part nres))) [
    | inl f ↦ rw (e, f) v
    | inr f ↦ elim (Bool-cases (all_below (pos_part nres) (rel_ok b p rel))) [
      | inr g ↦ rw (e, f, g) v
      | inl g ↦ rw (e, f, g) (done (nres_of_ready b p (pos_part nres) f) g)
    ]
  ]
]
  where
    fits :
        (n : ℕ)
        → all_below n (rel_ok b p rel) ≡ true
        → (r : ℕ) → r < n
        → pos_part (rel r) ≤ (b.procs p).alloc r
    fits n g r lr = rel_ok-le b p rel r (all_below-elim n (rel_ok b p rel) g r lr)

    done :
        (pos_part nres ≡ b.nres) × ((b.procs p).active ≡ true)
        → all_below (pos_part nres) (rel_ok b p rel) ≡ true
        → IsConsistent (take_back b p (pos_part nres) (λ r. pos_part (rel r)))
    done q g =
        subst (λ n. IsConsistent (take_back b p n (λ r. pos_part (rel r)))) (sym q.0)
          (take_back-IsConsistent b p (λ r. pos_part (rel r)) l v q.1
            (fits b.nres (subst (λ n. all_below n (rel_ok b p rel) ≡ true) q.0 g)))

-- `banker_release_proc` keeps a consistent state consistent.
pub release_proc-IsConsistent :
    (b : Banker) (p : ℕ) → p < nproc → IsConsistent b → IsConsistent (release_proc b p)
unfolding release_proc
release_proc-IsConsistent b p l v = elim (Bool-cases (not b.inited || not (b.procs p).active)) [
  | inl e ↦ rw e v
  | inr e ↦ rw e (
      put-IsConsistent b p _
        (λ r. if ltb r b.nres then b.avail r + (b.procs p).alloc r else b.avail r) l v
        (λ r lr. rw (lt→ltb r b.nres lr) (omega arith)) (λ r _ lr. rw (lt→ltb r b.nres lr))
        (λ r lr. rw (lt→ltb r b.nres lr) (omega arith)))
]

max_ok-le :
    (b : Banker) (p : ℕ) (max : ℕ → ℤ) (r : ℕ)
    → max_ok b p max r ≡ true
    → (b.procs p).alloc r ≤ pos_part (max r)
unfolding max_ok
max_ok-le b p max r h = ground arith

-- `banker_set_max` keeps a consistent state consistent.
pub set_max-IsConsistent :
    (b : Banker) (p : ℕ) (nres : ℤ) (max : ℕ → ℤ)
    → p < nproc
    → IsConsistent b
    → IsConsistent (set_max b p nres max).1
unfolding set_max claim
set_max-IsConsistent b p nres max l v = elim (Bool-cases (bad_count nres)) [
  | inl e ↦ rw e v
  | inr e ↦ elim (Bool-cases (not b.inited || not (pos_part nres == b.nres))) [
    | inl f ↦ rw (e, f) v
    | inr f ↦ elim (Bool-cases (all_below (pos_part nres) (max_ok b p max))) [
      | inr g ↦ rw (e, f, g) v
      | inl g ↦ rw (e, f, g) (done (ground arith) g)
    ]
  ]
]
  where
    alloc_same :
        (r : ℕ)
        → r < b.nres
        → ◌≡◌ {A = ℕ}
            ((if (b.procs p).active then (b.procs p).alloc else (λ _. 0)) r)
            ((b.procs p).alloc r)
    alloc_same r lr = elim (Bool-cases (b.procs p).active) [
      | inl a ↦ rw a
      | inr a ↦ rw (a, v.idle p r a lr)
    ]

    done :
        pos_part nres ≡ b.nres
        → all_below (pos_part nres) (max_ok b p max) ≡ true
        → IsConsistent (record b { procs = put b.procs p (claim (b.procs p) (pos_part nres) max) })
    done q g =
        put-IsConsistent b p (claim (b.procs p) (pos_part nres) max) b.avail l v
          (λ r lr. omega (arith, alloc_same r lr)) (λ r e lr. absurd (cc))
          (λ r lr. rw (lt→ltb r (pos_part nres) (omega arith)) (
            omega (
              arith,
              alloc_same r lr,
              max_ok-le b p max r (all_below-elim _ (max_ok b p max) g r (omega arith)),
            )))
