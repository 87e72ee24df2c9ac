-- ===== src/Mm/Share/Examples.antt =====
-- A process that asks for a page of a key, forks and releases the key.
use oops_os.Prelude.{
  ℕ, ◌≡◌, ◌==◌, [], ◌∷◌, none, some, pos, if◌then◌else◌, refl, arith, true, false, Option,
}
use oops_os.Prelude.Arrays.{put}
use oops_os.Mm.Alloc.{Memory, kalloc_try, take_page}
use oops_os.Mm.Paging.{
  no_pte, mappages, map_from, map_page, next_if_ok, walk, walk_tables, step_down, second_step,
  last_step, link_table, set_pte, write_mapping,
}
use oops_os.Mm.Share.{
  Share, shmgetat, get_segment, allocshm, alloc_from, alloc_segment, mapped_segment, get_end,
  shmadd, fork_shm, as_int,
}
use oops_os.Mm.Share.Counted.{IsCounted}
use oops_os.Mm.Share.Steps.{start, get, fork, count_is_holders, zero_pages}

abbrev three_pages : Memory
three_pages = record {
  kernel_end = 2147491840;
  cnt = λ page. pos 0;
  freelist = λ i. if i == 0 then 2281689088 ∷ 2281693184 ∷ 2281684992 ∷ [] else [];
}

abbrev nobody : Share
nobody = record {
  world = record { memory = three_pages; cpu = 0; tables = λ t i. no_pte; bytes = λ pa j. 0 };
  table = λ k. record { refcount = pos 0; pagenum = 0; physaddr = λ i. 0 };
  procs = λ p. record {
    pagetable = 2147495936;
    sz = 8192;
    shm = 2147483648;
    mask = λ k. false;
    shmva = λ k. 0;
  };
}

abbrev state_of : Option (Option ℕ × Share) → Share
state_of none = nobody
state_of (some (r, s)) = s

abbrev one_page : Share
one_page = state_of (shmgetat nobody 1 3 1)

one_page_got : shmgetat nobody 1 3 1 ≡ some (some 2147479552, one_page)
unfolding shmgetat get_segment allocshm alloc_from alloc_segment mapped_segment get_end shmadd
    kalloc_try take_page mappages map_from map_page next_if_ok walk walk_tables step_down
    second_step last_step link_table set_pte write_mapping put
one_page_got = refl

other_empty : (k : ℕ) → (one_page.procs 2).mask k ≡ false
unfolding shmgetat get_segment allocshm alloc_from alloc_segment mapped_segment get_end shmadd
    kalloc_try take_page mappages map_from map_page next_if_ok walk walk_tables step_down
    second_step last_step link_table set_pte write_mapping put
other_empty k = refl

count_is_holders_example : IsCounted (fork_shm one_page 1 2)
count_is_holders_example = count_is_holders (fork_shm one_page 1 2) (
    fork one_page 1 2
      (get nobody one_page 1 3 1 (some 2147479552) (start nobody (λ k. refl) (λ p k. refl))
        (omega arith) (omega arith) one_page_got)
      (omega arith) other_empty)

zero_pages_example :
    (s' : Share) × (shmgetat nobody 1 3 0 ≡ some (some (as_int 2147483648), s'))
    × ((s'.procs 1).mask 3 ≡ true)
    × ((s'.table 3).refcount ≡ pos 0)
zero_pages_example =
    zero_pages nobody 1 3 (omega arith) refl refl refl (omega arith) (omega arith) (omega arith)
