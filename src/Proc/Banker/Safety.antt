-- ===== src/Proc/Banker/Safety.antt =====
-- `banker_is_safe_locked` terminates, and what it calls safe is safe.
use oops_os.Prelude.{
  ℕ, zero, suc, ◌+◌, ◌≤◌, ◌<◌, ◌≡◌, refl, Bool, true, false, Option, none, some, arith, leb,
  if◌then◌else◌, Bool-cases, inl, inr, ◌⊎◌, leb→le, sym, subst, ap, if_cases, some_inj,
}
use oops_os.Prelude.Arrays.{put, put_self, put_ne, all_below, all_below-elim, all_below-intro}
use oops_os.Prelude.Sums.{sum_below, sum_below_change, sum_below_le}
use oops_os.Proc.Banker.{
  Banker, nproc, need_ok, Search, add_alloc, visit, scan, sweep, rounds, start, all_finished,
  is_safe,
}

-- Some order lets every process that is not finished run to its end: the next one's remaining
-- claim is covered by what is free, and it then gives back what it holds.
pub data CanFinish (b : Banker) : (ℕ → ℕ) → (ℕ → Bool) → Type 0 where
  done :
      {work : ℕ → ℕ} {finish : ℕ → Bool}
      → ((i : ℕ) → i < nproc → finish i ≡ true)
      → CanFinish b work finish
  next :
      {work : ℕ → ℕ} {finish : ℕ → Bool} (i : ℕ)
      → i < nproc
      → finish i ≡ false
      → ((r : ℕ) → r < b.nres → (b.procs i).max r ≤ work r + (b.procs i).alloc r)
      → CanFinish b (add_alloc b i work) (put finish i true)
      → CanFinish b work finish

abbrev pub IsSafe : Banker → Type 0
IsSafe b = CanFinish b b.avail (start b).finish

pub need_ok-elim :
    (b : Banker) (i : ℕ) (work : ℕ → ℕ)
    → need_ok b i work ≡ true
    → (r : ℕ) → r < b.nres
    → (b.procs i).max r ≤ work r + (b.procs i).alloc r
unfolding need_ok
need_ok-elim b i work h r l =
    leb→le _ _
      (all_below-elim b.nres (λ r. leb ((b.procs i).max r) (work r + (b.procs i).alloc r)) h r l)

le→leb : (a b : ℕ) → a ≤ b → leb a b ≡ true
le→leb a b h = ground arith

pub need_ok-intro :
    (b : Banker) (i : ℕ) (work : ℕ → ℕ)
    → ((r : ℕ) → r < b.nres → (b.procs i).max r ≤ work r + (b.procs i).alloc r)
    → need_ok b i work ≡ true
unfolding need_ok
need_ok-intro b i work h = all_below-intro b.nres _ (λ r l. le→leb _ _ (h r l))

visit-CanFinish :
    (b : Banker) (i : ℕ) (s : Search)
    → i < nproc
    → CanFinish b (visit b i s).work (visit b i s).finish
    → CanFinish b s.work s.finish
unfolding visit
visit-CanFinish b i s l h = elim (Bool-cases (s.finish i)) [
  | inl e ↦ rw e at h
  | inr e ↦ elim (Bool-cases (need_ok b i s.work)) [
    | inl n ↦ next i l e (need_ok-elim b i s.work n) (rw (e, n) at h)
    | inr n ↦ rw (e, n) at h
  ]
]

scan-CanFinish :
    (b : Banker) (k i : ℕ) (s : Search)
    → i + k ≤ nproc
    → CanFinish b (scan b k i s).work (scan b k i s).finish
    → CanFinish b s.work s.finish
unfolding scan
scan-CanFinish b zero i s l h = h
scan-CanFinish b (suc k) i s l h =
    visit-CanFinish b i s (omega arith) (scan-CanFinish b k (suc i) (visit b i s) (omega arith) h)

sweep-CanFinish :
    (b : Banker) (s : Search)
    → CanFinish b (sweep b s).work (sweep b s).finish
    → CanFinish b s.work s.finish
unfolding sweep
sweep-CanFinish b s h = scan-CanFinish b nproc 0 (record s { progress = false }) (omega arith) h

-- What a run of the outer loop that ends tells of its first round.
pub rounds_cases :
    (b : Banker) (fuel : ℕ) (s s' : Search)
    → rounds b (suc fuel) s ≡ some s'
    → ((sweep b s).progress ≡ true) × (rounds b fuel (sweep b s) ≡ some s')
      ⊎ ((sweep b s).progress ≡ false) × (sweep b s ≡ s')
unfolding rounds
rounds_cases b fuel s s' e = elim (if_cases (sweep b s).progress e) [
  | inl p ↦ inl p
  | inr p ↦ inr (p.0, some_inj p.1)
]

rounds-CanFinish :
    (b : Banker) (fuel : ℕ) (s s' : Search)
    → rounds b fuel s ≡ some s'
    → CanFinish b s'.work s'.finish
    → CanFinish b s.work s.finish
unfolding rounds
rounds-CanFinish b zero s s' e h = absurd (ground arith)
rounds-CanFinish b (suc fuel) s s' e h = elim (rounds_cases b fuel s s' e) [
  | inl p ↦ sweep-CanFinish b s (rounds-CanFinish b fuel (sweep b s) s' p.1 h)
  | inr p ↦ sweep-CanFinish b s (subst (λ (t : Search). CanFinish b t.work t.finish) (sym p.1) h)
]

all_finished-elim :
    (o : Option Search)
    → all_finished o ≡ some true
    → (s : Search) × (o ≡ some s) × (all_below nproc s.finish ≡ true)
unfolding all_finished
all_finished-elim none h = absurd (ground arith)
all_finished-elim (some s) h = (s, refl, some_inj h)

-- What `banker_is_safe_locked` accepts is safe: there is an order in which every active process
-- gets its whole claim and ends.
pub is_safe-IsSafe : (b : Banker) → is_safe b ≡ some true → IsSafe b
unfolding is_safe start
is_safe-IsSafe b h =
    let (s, e, f) = all_finished-elim (rounds b (suc nproc) (start b)) h in
    rounds-CanFinish b (suc nproc) (start b) s e (done (all_below-elim nproc s.finish f))

-- The number of processes that the search has not marked.
abbrev pub flag : (ℕ → Bool) → ℕ → ℕ
flag finish i = if finish i then 0 else 1

unfoldable pub open_count : Search → ℕ
open_count s = sum_below nproc (flag s.finish)

open_count-put :
    (finish : ℕ → Bool) (i : ℕ)
    → i < nproc
    → finish i ≡ false
    → suc (sum_below nproc (flag (put finish i true))) ≡ sum_below nproc (flag finish)
open_count-put finish i l e = omega (
  arith,
  sum_below_change nproc (flag (put finish i true)) (flag finish) i l
      (λ j ne. rw (put_ne finish i true j ne)),
  ap (λ (c : Bool). if c then zero else 1) (put_self finish i true),
  ap (λ (c : Bool). if c then zero else 1) e,
)

visit_progress :
    (b : Banker) (i : ℕ) (s : Search)
    → i < nproc
    → (visit b i s ≡ s)
      ⊎ ((visit b i s).progress ≡ true) × (suc (open_count (visit b i s)) ≡ open_count s)
unfolding visit open_count
visit_progress b i s l = elim (Bool-cases (s.finish i)) [
  | inl e ↦ inl (rw e)
  | inr e ↦ elim (Bool-cases (need_ok b i s.work)) [
    | inr n ↦ inl (rw (e, n))
    | inl n ↦ inr (rw (e, n) (refl, open_count-put s.finish i l e))
  ]
]

-- A scan either marks a process and says so, or changes nothing.
abbrev pub Advances : Search → Search → Type 0
Advances s t = (t ≡ s) ⊎ (t.progress ≡ true) × (suc (open_count t) ≤ open_count s)

pub scan_progress : (b : Banker) (k i : ℕ) (s : Search) → i + k ≤ nproc → Advances s (scan b k i s)
unfolding scan
scan_progress b zero i s l = inl refl
scan_progress b (suc k) i s l = elim (visit_progress b i s (omega arith)) [
  | inl e ↦
      subst (λ t. Advances s (scan b k (suc i) t)) (sym e)
        (scan_progress b k (suc i) s (omega arith))
  | inr p ↦ elim (scan_progress b k (suc i) (visit b i s) (omega arith)) [
    | inl e ↦ subst (Advances s) (sym e) (inr (p.0, omega (arith, p.1)))
    | inr q ↦ inr (q.0, omega (arith, p.1, q.1))
  ]
]

-- With more fuel than processes left open the outer loop ends.
pub rounds_total :
    (b : Banker) (fuel : ℕ) (s : Search)
    → open_count s < fuel
    → (s' : Search) × (rounds b fuel s ≡ some s')
unfolding rounds sweep open_count
rounds_total b zero s l = absurd (omega arith)
rounds_total b (suc fuel) s l = elim (Bool-cases (sweep b s).progress) [
  | inr p ↦ (sweep b s, rw p)
  | inl p ↦ elim (scan_progress b nproc 0 (record s { progress = false }) (omega arith)) [
    | inl e ↦ absurd (cc)
    | inr q ↦ let (s', e) = rounds_total b fuel (sweep b s) (omega (arith, q.1)) in (s', simp p e)
  ]
]

pub open_count-le : (s : Search) → open_count s ≤ nproc
unfolding open_count
open_count-le s = sum_below_le nproc (flag s.finish) (λ i. flag-le s.finish i)
  where
    flag-le : (f : ℕ → Bool) (i : ℕ) → flag f i ≤ 1
    flag-le f i = ground arith
