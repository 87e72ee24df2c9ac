-- ===== src/Mm/Alloc.antt =====
-- kernel/mm/kalloc.c: pages with reference counts, and a list of free pages for each CPU. A page is its
-- physical address. Each call is taken as one step on the CPU that runs it. What the pages hold, and
-- the loop of `kalloc` around `kalloc_try` that swaps pages out, stand in Mm.Paging.
pub mod Pages
pub mod Give
pub mod Release
mod Examples
use oops_os.Prelude.{
  ℕ, zero, suc, ◌+◌, ◌*◌, ◌%◌, ◌/◌, Bool, true, false, not, ◌||◌, Option, none, some, List, [], ◌∷◌,
  ltb, leb, ◌==◌, if◌then◌else◌, ℤ, pos, negsuc, suc_ℤ, pred_ℤ, length, Status, ok, err,
}
use oops_os.Prelude.Arrays.{put}
use oops_os.Prelude.Sums.{sum_below}

abbrev pub ncpu : ℕ
ncpu = 8

abbrev pub pgsize : ℕ
pgsize = 4096

abbrev pub phystop : ℕ
phystop = 2281701376

-- `kernel_end` is the linker's `end`; `cnt` is `ref.cnt`, by page number.
pub record Memory : Type 0 where
  pub kernel_end : ℕ
  pub cnt : ℕ → ℤ
  pub freelist : ℕ → List ℕ

abbrev pub is_nil : ℤ → Bool
is_nil (pos n) = n == 0
is_nil (negsuc n) = false

abbrev pub page_of : ℕ → ℕ
page_of pa = pa / pgsize

unfoldable pub is_bad : Memory → ℕ → Bool
is_bad m pa = not (pa % pgsize == 0) || ltb pa m.kernel_end || leb phystop pa

-- `none` is a panic.
unfoldable pub kfree : Memory → ℕ → ℕ → Option Memory
kfree m cpu pa =
    if is_bad m pa
    then none
    else (let cnt = put m.cnt (page_of pa) (pred_ℤ (m.cnt (page_of pa))) in
        if is_nil (pred_ℤ (m.cnt (page_of pa)))
        then some (record m { cnt = cnt; freelist = put m.freelist cpu (pa ∷ m.freelist cpu) })
        else some (record m { cnt = cnt }))

-- A page leaves the list of a CPU, of which the rest remains.
unfoldable pub take_page : Memory → ℕ → ℕ → List ℕ → Memory
take_page m cpu pa rest = record m {
  cnt = put m.cnt (page_of pa) (pos 1);
  freelist = put m.freelist cpu rest;
}

-- The loop over the other CPUs' lists, from `i` on with `k` to go.
unfoldable pub steal : Memory → ℕ → ℕ → ℕ → Option ℕ × Memory
steal m cpu i zero = (none, m)
steal m cpu i (suc k) = elim (i == cpu) [
  | true ↦ steal m cpu (suc i) k
  | false ↦ elim (m.freelist i) [
    | [] ↦ steal m cpu (suc i) k
    | pa ∷ rest ↦ (some pa, take_page m i pa rest)
  ]
]

unfoldable pub kalloc_try : Memory → ℕ → Option ℕ × Memory
kalloc_try m cpu = elim (m.freelist cpu) [
  | pa ∷ rest ↦ (some pa, take_page m cpu pa rest)
  | [] ↦ steal m cpu 0 ncpu
]

unfoldable pub freebytes : Memory → ℕ
freebytes m = sum_below ncpu (λ i. length (m.freelist i) * pgsize)

unfoldable pub krefcnt : Memory → ℕ → ℤ
krefcnt m pa = m.cnt (page_of pa)

unfoldable pub kaddrefcnt : Memory → ℕ → Status × Memory
kaddrefcnt m pa =
    if is_bad m pa
    then (err, m)
    else (ok, record m { cnt = put m.cnt (page_of pa) (suc_ℤ (m.cnt (page_of pa))) })

-- `freerange` over `k` pages from `pa` on: each is counted once and freed.
unfoldable pub freerange : Memory → ℕ → ℕ → ℕ → Option Memory
freerange m cpu pa zero = some m
freerange m cpu pa (suc k) =
    elim (kfree (record m { cnt = put m.cnt (page_of pa) (pos 1) }) cpu pa) [
      | none ↦ none
      | some m' ↦ freerange m' cpu (pa + pgsize) k
    ]
