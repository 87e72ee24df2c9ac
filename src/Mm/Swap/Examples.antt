-- ===== src/Mm/Swap/Examples.antt =====
-- A swap area with no slot in use, and one whose buffer holds the page of a slot that has been freed.
use oops_os.Prelude.{◌≡◌, true, false, some, ◌==◌, if◌then◌else◌, refl, arith}
use oops_os.Prelude.Search.{first_from}
use oops_os.Mm.Swap.{Swap, Pte, World, swap_alloc, swapfree, pbuf_put, find_entry, pbuf_get}
use oops_os.Mm.Swap.Stale.{swapfree_stale}

abbrev unused : Swap
unused = record {
  swapmap = λ i. false;
  hint = 0;
  pbuf = record {
    entry = λ i. record { valid = false; slot = 0; pa = 0 };
    hand = 0;
    cached = 0;
    hits = 0;
    misses = 0;
  };
  swapstart = 900;
  disk = λ b j. 0;
}

abbrev entry : Pte
entry = record { present = true; swapped = false; flags = 20; target = 5 }

abbrev process : World
process = record { swap = unused; page = λ pa j. pa; pte = λ va. some entry }

-- The page at 77 was swapped to slot 6, which its process has given back.
abbrev leftover : Swap
leftover = record unused {
  hint = 6;
  pbuf = record unused.pbuf {
    entry = λ i.
        if i == 0
        then (record { valid = true; slot = 6; pa = 77 })
        else (record { valid = false; slot = 0; pa = 0 });
    hand = 1;
    cached = 1;
  };
}

swapfree_stale_example :
    ((swap_alloc (swapfree leftover 6)).0 ≡ some 6)
    × ((pbuf_get (pbuf_put (swap_alloc (swapfree leftover 6)).1.pbuf 6 88).1 6).0 ≡ some 77)
unfolding find_entry first_from
swapfree_stale_example = swapfree_stale leftover 6 88 0 (omega arith) refl refl (omega arith)
