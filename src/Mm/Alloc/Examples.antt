-- ===== src/Mm/Alloc/Examples.antt =====
-- One free page and one that two use, just below the end of memory.
use oops_os.Prelude.{ℕ, ◌≡◌, ◌<◌, ◌⊎◌, [], ◌∷◌, ◌==◌, none, some, pos, if◌then◌else◌, refl, arith}
use oops_os.Prelude.Sums.{sum_below}
use oops_os.Mm.Alloc.{Memory, kfree, kalloc_try, ncpu, is_bad}
use oops_os.Mm.Alloc.Pages.{on_lists, IsValid, IsGiven}
use oops_os.Mm.Alloc.Give.{kalloc_try_lem}
use oops_os.Mm.Alloc.Release.{IsReleased, kfree_lem}

-- The free page is on the list of CPU 2.
abbrev two_pages : Memory
two_pages = record {
  kernel_end = 2147491840;
  cnt = λ page. if page == 557055 then pos 2 else pos 0;
  freelist = λ i. if i == 2 then 2281693184 ∷ [] else [];
}

on_lists_two : (pa : ℕ) → on_lists two_pages pa ≡ (if 2281693184 == pa then 1 else 0)
unfolding on_lists sum_below
on_lists_two pa = ground arith

two_pages-IsValid : IsValid two_pages
two_pages-IsValid = record {
  once = λ pa. ground (arith, on_lists_two pa);
  unused = λ pa h. ground (arith, on_lists_two pa);
  aligned = λ pa h. ground (arith, on_lists_two pa);
}

-- CPU 0 takes the page from CPU 2.
kalloc_try_lem_example :
    ((kalloc_try two_pages 0 ≡ (none, two_pages))
      × ((i : ℕ) → i < ncpu → two_pages.freelist i ≡ []))
    ⊎ ((pa : ℕ) × (m' : Memory) × (kalloc_try two_pages 0 ≡ (some pa, m'))
        × IsGiven two_pages pa m')
kalloc_try_lem_example = kalloc_try_lem two_pages 0 two_pages-IsValid (omega arith)

kfree_lem_example :
    (m' : Memory) × (kfree two_pages 1 2281697280 ≡ some m') × IsReleased two_pages 2281697280 1 m'
unfolding is_bad
kfree_lem_example = kfree_lem two_pages 1 2281697280 1 two_pages-IsValid (omega arith) refl refl
