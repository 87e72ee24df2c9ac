-- ===== src/Mm/Alloc/Pages.antt =====
-- A page is on one list at most, and on none while it has references.
use oops_os.Prelude.{
  ℕ, ◌+◌, ◌%◌, ◌≤◌, ◌<◌, ◌≡◌, ◌≢◌, refl, ◌∙◌, List, ◌∷◌, arith, ap, subst, count, ℤ, pos,
}
use oops_os.Prelude.Arrays.{put, put_self, put_ne}
use oops_os.Prelude.Sums.{sum_below, sum_below_change, sum_below_entry}
use oops_os.Mm.Alloc.{ncpu, pgsize, Memory, page_of, take_page}

-- How often a page is on the lists of all CPUs.
unfoldable pub on_lists : Memory → ℕ → ℕ
on_lists m pa = sum_below ncpu (λ i. count pa (m.freelist i))

pub record IsValid (m : Memory) : Type 0 where
  pub once : (pa : ℕ) → on_lists m pa ≤ 1
  pub unused : (pa : ℕ) → 0 < on_lists m pa → m.cnt (page_of pa) ≡ pos 0
  pub aligned : (pa : ℕ) → 0 < on_lists m pa → pa % pgsize ≡ 0

pub change_list :
    (m : Memory) (cpu : ℕ) (xs : List ℕ) (cnt : ℕ → ℤ) (pa : ℕ)
    → cpu < ncpu
    → on_lists (record m { cnt = cnt; freelist = put m.freelist cpu xs }) pa
        + count pa (m.freelist cpu)
      ≡ on_lists m pa + count pa xs
unfolding on_lists
change_list m cpu xs cnt pa l = omega (
  arith,
  sum_below_change ncpu (λ i. count pa (put m.freelist cpu xs i)) (λ i. count pa (m.freelist i)) cpu
      l (λ j ne. ap (count pa) (put_ne m.freelist cpu xs j ne)),
  ap (count pa) (put_self m.freelist cpu xs),
)

on_lists-entry : (m : Memory) (cpu pa : ℕ) → cpu < ncpu → count pa (m.freelist cpu) ≤ on_lists m pa
unfolding on_lists
on_lists-entry m cpu pa l = sum_below_entry ncpu (λ i. count pa (m.freelist i)) cpu l

pub on_lists-cnt :
    (m : Memory) (cnt : ℕ → ℤ) (pa : ℕ) → on_lists (record m { cnt = cnt }) pa ≡ on_lists m pa
unfolding on_lists
on_lists-cnt m cnt pa = refl

pub same_page : (pa qa : ℕ) → pa % pgsize ≡ 0 → qa % pgsize ≡ 0 → page_of qa ≡ page_of pa → qa ≡ pa
same_page pa qa h g e = omega arith

-- The page `pa` was free, and now has one reference and is on no list; nothing else has changed.
pub record IsGiven (m : Memory) (pa : ℕ) (m' : Memory) : Type 0 where
  pub was_free : on_lists m pa ≡ 1
  pub on_none : on_lists m' pa ≡ 0
  pub one_ref : m'.cnt (page_of pa) ≡ pos 1
  pub lists : (qa : ℕ) → qa ≢ pa → on_lists m' qa ≡ on_lists m qa
  pub counts : (page : ℕ) → page ≢ page_of pa → m'.cnt page ≡ m.cnt page
  pub kernel_end : m'.kernel_end ≡ m.kernel_end
  pub valid : IsValid m'

pub take_page-IsGiven :
    (m : Memory) (cpu pa : ℕ) (rest : List ℕ)
    → IsValid m
    → cpu < ncpu
    → m.freelist cpu ≡ pa ∷ rest
    → IsGiven m pa (take_page m cpu pa rest)
unfolding take_page
take_page-IsGiven m cpu pa rest v l e = record {
  was_free = omega (arith, v.once pa, listed);
  on_none = omega (arith, v.once pa, moved pa, self);
  one_ref = put_self m.cnt (page_of pa) (pos 1);
  lists = λ qa ne. omega (arith, moved qa, other qa ne);
  counts = λ page ne. put_ne m.cnt (page_of pa) (pos 1) page ne;
  kernel_end = refl;
  valid = record {
    once = λ qa. omega (arith, moved qa, v.once qa);
    unused = λ qa h.
        put_ne m.cnt (page_of pa) (pos 1) (page_of qa) (apart qa h) ∙ v.unused qa (before qa h);
    aligned = λ qa h. v.aligned qa (before qa h);
  };
}
  where
    moved :
        (qa : ℕ)
        → on_lists (take_page m cpu pa rest) qa + count qa (pa ∷ rest)
          ≡ on_lists m qa + count qa rest
    moved qa =
        subst
          (λ (x : List ℕ).
            on_lists (take_page m cpu pa rest) qa + count qa x ≡ on_lists m qa + count qa rest)
          e (change_list m cpu rest (put m.cnt (page_of pa) (pos 1)) qa l)

    self : count pa (pa ∷ rest) ≡ 1 + count pa rest
    self = ground arith

    other : (qa : ℕ) → qa ≢ pa → count qa (pa ∷ rest) ≡ count qa rest
    other qa ne = ground arith

    listed : 0 < on_lists m pa
    listed = omega (arith, on_lists-entry m cpu pa l, ap (count pa) e, self)

    before : (qa : ℕ) → 0 < on_lists (take_page m cpu pa rest) qa → 0 < on_lists m qa
    before qa h = omega (arith, moved qa, step qa)
      where
        step : (qa : ℕ) → count qa rest ≤ count qa (pa ∷ rest)
        step qa = omega arith

    apart : (qa : ℕ) → 0 < on_lists (take_page m cpu pa rest) qa → page_of qa ≢ page_of pa
    apart qa h q =
        let s = same_page pa qa (v.aligned pa listed) (v.aligned qa (before qa h)) q in
        absurd (
          omega (
            arith,
            v.once pa,
            moved pa,
            self,
            subst (λ (x : ℕ). 0 < on_lists (take_page m cpu pa rest) x) s h,
          ))
