-- ===== src/Mm/Share/Loops.antt =====
-- The loops of `shmaddcount` and `shmrelease` over the keys.
use oops_os.Prelude.{
  ℕ, zero, suc, ◌+◌, ◌≤◌, ◌<◌, ◌≡◌, refl, sym, ◌∙◌, ap, inl, inr, Bool, true, false, some, arith,
  ltb, if◌then◌else◌, Bool-cases, ℕ_discrete, subst, some_inj, ℤ, pos, negsuc, suc_ℤ, pred_ℤ,
}
use oops_os.Prelude.Arrays.{put, put_self, put_ne}
use oops_os.Prelude.Options.{>>=-eq-some}
use oops_os.Mm.Alloc.{is_nil}
use oops_os.Mm.Share.{
  Segment, n_segments, shmkeyused, count_up, add_counts, shmrm, reads_nothing, drop_count,
  drop_counts,
}

-- A loop over the keys from `key` on changes the counts of those in the mask by `f`.
pub record IsLooped (f : ℤ → ℤ) (mask : ℕ → Bool) (key n : ℕ) (table table' : ℕ → Segment)
    : Type 0 where
  pub before : (j : ℕ) → j < key → (table' j).refcount ≡ (table j).refcount
  pub after : (j : ℕ) → key + n ≤ j → (table' j).refcount ≡ (table j).refcount
  pub inside :
      (j : ℕ)
      → key ≤ j
      → j < key + n
      → (table' j).refcount ≡ (if mask j then f (table j).refcount else (table j).refcount)

nothing-IsLooped :
    (f : ℤ → ℤ) (mask : ℕ → Bool) (key : ℕ) (table : ℕ → Segment)
    → IsLooped f mask key 0 table table
nothing-IsLooped f mask key table = record {
  before = λ j l. refl;
  after = λ j l. refl;
  inside = λ j l m. absurd (omega (arith, l, m));
}

next-IsLooped :
    (f : ℤ → ℤ) (mask : ℕ → Bool) (key n : ℕ) (table t1 table' : ℕ → Segment)
    → IsLooped f mask key 1 table t1
    → IsLooped f mask (suc key) n t1 table'
    → IsLooped f mask key (suc n) table table'
next-IsLooped f mask key n table t1 table' one rest = record {
  before = λ j l. rest.before j (omega (arith, l)) ∙ one.before j l;
  after = λ j l. rest.after j (omega (arith, l)) ∙ one.after j (omega (arith, l));
  inside = λ j l m. elim (ℕ_discrete j key) [
    | yes e ↦ rest.before j (omega (arith, e)) ∙ one.inside j l (omega (arith, e))
    | no ne ↦
        subst (λ (r : ℤ). (table' j).refcount ≡ (if mask j then f r else r))
          (one.after j (omega (arith, l, ne)))
          (rest.inside j (omega (arith, l, ne)) (omega (arith, m)))
  ];
}

-- One round: the entry of `key` alone changes.
put-IsLooped :
    (f : ℤ → ℤ) (mask : ℕ → Bool) (key : ℕ) (table : ℕ → Segment) (seg : Segment)
    → mask key ≡ true
    → seg.refcount ≡ f (table key).refcount
    → IsLooped f mask key 1 table (put table key seg)
put-IsLooped f mask key table seg m e = record {
  before =
      λ j l. ap (λ (x : Segment). x.refcount) (put_ne table key seg j (λ q. omega (arith, l, q)));
  after =
      λ j l. ap (λ (x : Segment). x.refcount) (put_ne table key seg j (λ q. omega (arith, l, q)));
  inside = λ j l b.
      let same : key ≡ j = omega (arith, l, b) in
      subst
        (λ (x : ℕ).
          (put table key seg x).refcount
          ≡ (if mask x then f (table x).refcount else (table x).refcount))
        same (rw m (ap (λ (x : Segment). x.refcount) (put_self table key seg) ∙ e));
}

skip-IsLooped :
    (f : ℤ → ℤ) (mask : ℕ → Bool) (key : ℕ) (table : ℕ → Segment)
    → mask key ≡ false
    → IsLooped f mask key 1 table table
skip-IsLooped f mask key table m = record {
  before = λ j l. refl;
  after = λ j l. refl;
  inside = λ j l b.
      let same : key ≡ j = omega (arith, l, b) in
      subst
        (λ (x : ℕ).
          (table x).refcount ≡ (if mask x then f (table x).refcount else (table x).refcount))
        same (rw m refl);
}

shmkeyused-below : (key : ℕ) (mask : ℕ → Bool) → key < n_segments → shmkeyused key mask ≡ mask key
unfolding shmkeyused
shmkeyused-below key mask l = let small : ltb 8 key ≡ false = ground arith in rw small refl

pub add_counts-IsLooped :
    (mask : ℕ → Bool) (key n : ℕ) (table : ℕ → Segment)
    → key + n ≤ n_segments
    → IsLooped suc_ℤ mask key n table (add_counts mask key n table)
unfolding add_counts count_up
add_counts-IsLooped mask key zero table l = nothing-IsLooped suc_ℤ mask key table
add_counts-IsLooped mask key (suc n) table l =
    let used = shmkeyused-below key mask (omega (arith, l)) in
    let counted = put table key (record (table key) { refcount = suc_ℤ (table key).refcount }) in
    elim (Bool-cases (mask key)) [
      | inl m ↦
          rw (used, m)
            (next-IsLooped suc_ℤ mask key n table counted (add_counts mask (suc key) n counted)
              (put-IsLooped suc_ℤ mask key table _ m refl)
              (add_counts-IsLooped mask (suc key) n counted (omega (arith, l))))
      | inr m ↦
          rw (used, m)
            (next-IsLooped suc_ℤ mask key n table table (add_counts mask (suc key) n table)
              (skip-IsLooped suc_ℤ mask key table m)
              (add_counts-IsLooped mask (suc key) n table (omega (arith, l))))
    ]

shmrm-refcount : (seg seg' : Segment) → shmrm seg ≡ some seg' → seg'.refcount ≡ pos 0
unfolding shmrm
shmrm-refcount seg seg' e = elim (Bool-cases (reads_nothing seg.physaddr 0 seg.pagenum)) [
  | inl r ↦ ap (λ (x : Segment). x.refcount) (sym (some_inj (rw r at e)))
  | inr r ↦ absurd (cc (rw r at e))
]

pub is_nil-eq : (z : ℤ) → is_nil z ≡ true → z ≡ pos 0
is_nil-eq (pos n) e = ap pos (ground arith)
is_nil-eq (negsuc n) e = absurd (cc e)

drop_count-IsLooped :
    (mask : ℕ → Bool) (key : ℕ) (table table' : ℕ → Segment)
    → mask key ≡ true
    → drop_count table key ≡ some table'
    → IsLooped pred_ℤ mask key 1 table table'
unfolding drop_count
drop_count-IsLooped mask key table table' m e =
    elim (Bool-cases (is_nil (pred_ℤ (table key).refcount))) [
      | inl z ↦
          let (seg, r, q) =
            >>=-eq-some (shmrm (record (table key) { refcount = pred_ℤ (table key).refcount })) _
              (rw z at e) in
          subst (IsLooped pred_ℤ mask key 1 table) (some_inj q) (
            put-IsLooped pred_ℤ mask key table seg m (shmrm-refcount _ seg r ∙ sym (is_nil-eq _ z)))
      | inr z ↦
          subst (IsLooped pred_ℤ mask key 1 table) (some_inj (rw z at e))
            (put-IsLooped pred_ℤ mask key table _ m refl)
    ]

pub drop_counts-IsLooped :
    (mask : ℕ → Bool) (key n : ℕ) (table table' : ℕ → Segment)
    → key + n ≤ n_segments
    → drop_counts mask key n table ≡ some table'
    → IsLooped pred_ℤ mask key n table table'
unfolding drop_counts
drop_counts-IsLooped mask key zero table table' l e =
    subst (IsLooped pred_ℤ mask key 0 table) (some_inj e) (nothing-IsLooped pred_ℤ mask key table)
drop_counts-IsLooped mask key (suc n) table table' l e =
    let used = shmkeyused-below key mask (omega (arith, l)) in
    let (t1, r, q) =
      >>=-eq-some (if shmkeyused key mask then drop_count table key else some table) _ e in
    let rest = drop_counts-IsLooped mask (suc key) n t1 table' (omega (arith, l)) q in
    next-IsLooped pred_ℤ mask key n table t1 table'
      (elim (Bool-cases (mask key)) [
        | inl m ↦ drop_count-IsLooped mask key table t1 m (rw (used, m) at r)
        | inr m ↦
            subst (IsLooped pred_ℤ mask key 1 table) (some_inj (rw (used, m) at r))
              (skip-IsLooped pred_ℤ mask key table m)
      ])
      rest
