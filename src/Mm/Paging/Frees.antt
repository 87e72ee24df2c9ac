-- ===== src/Mm/Paging/Frees.antt =====
-- walkaddr, uvmunmap, uvmdealloc and uvmalloc (kernel/mm/vm.c).
use oops_os.Prelude.{
  ℕ, zero, suc, ◌+◌, ◌-◌, ◌/◌, ◌%◌, Bool, true, false, not, ◌&&◌, ◌||◌, Option, none, some, ltb,
  leb, ◌==◌, if◌then◌else◌, Status, ok, err,
}
use oops_os.Prelude.Arrays.{put}
use oops_os.Prelude.Options.{◌>>=◌}
use oops_os.Mm.Alloc.{Memory, pgsize, kalloc_try, kfree}
use oops_os.Mm.Paging.Tables.{
  max_va, Flags, Pte, no_pte, World, page_up, set_pte, walk_tables, walk, mappages,
}

-- The entry of an address; an address with no table has an empty one.
unfoldable pub entry_at : World → Option (ℕ × ℕ) → Pte
entry_at w none = no_pte
entry_at w (some (t, i)) = w.tables t i

unfoldable pub entry : World → ℕ → ℕ → Pte
entry w root va = entry_at w (walk_tables w false root va).0

-- `walkaddr`: the physical page of a user address, or 0.
unfoldable pub walkaddr : World → ℕ → ℕ → ℕ
walkaddr w root va =
    let e = entry w root va in
    if leb max_va va then 0 else if e.valid && e.flags.user then e.target else 0

-- One round of `uvmunmap`; an entry with no bit but PTE_V leads to a table.
abbrev pub is_table : Flags → Bool
is_table f = not (f.readable || f.writable || f.executable || f.user || f.cow)

unfoldable pub free_page : Bool → World → ℕ → Option World
free_page do_free w pa =
    if do_free then kfree w.memory w.cpu pa >>= (λ m. some (record w { memory = m })) else some w

unfoldable pub clear_mapping : Bool → Option (ℕ × ℕ) × World → Option World
clear_mapping do_free (none, w) = some w
clear_mapping do_free (some (t, i), w) =
    if not ((w.tables t i).valid)
    then some (set_pte w t i no_pte)
    else if is_table ((w.tables t i).flags)
    then none
    else free_page do_free w ((w.tables t i).target) >>= (λ w'. some (set_pte w' t i no_pte))

unfoldable pub unmap_page : World → ℕ → ℕ → Bool → Option World
unmap_page w root va do_free = walk w false root va >>= clear_mapping do_free

unfoldable pub unmap_from : World → ℕ → ℕ → ℕ → Bool → Option World
unmap_from w root a zero do_free = some w
unmap_from w root a (suc k) do_free =
    unmap_page w root a do_free >>= (λ w'. unmap_from w' root (a + pgsize) k do_free)

unfoldable pub uvmunmap : World → ℕ → ℕ → ℕ → Bool → Option World
uvmunmap w root va npages do_free =
    if not (va % pgsize == 0) then none else unmap_from w root va npages do_free

unfoldable pub uvmdealloc : World → ℕ → ℕ → ℕ → Option (ℕ × World)
uvmdealloc w root oldsz newsz =
    if leb oldsz newsz
    then some (oldsz, w)
    else if ltb (page_up newsz) (page_up oldsz)
    then uvmunmap w root (page_up newsz) ((page_up oldsz - page_up newsz) / pgsize) true
      >>= (λ w'. some (newsz, w'))
    else some (newsz, w)

abbrev pub all_flags : Flags
all_flags = record { readable = true; writable = true; executable = true; user = true; cow = false }

abbrev pub zero_page : ℕ → ℕ
zero_page j = 0

-- The rounds of `uvmalloc` from `a` on; a failure gives back what was allocated, and answers 0.
unfoldable pub give_back : ℕ → ℕ → ℕ → World → Option (ℕ × World)
give_back root a oldsz w = uvmdealloc w root a oldsz >>= (λ r. some (0, r.1))

unfoldable pub grow_mapped :
    ℕ → ℕ → ℕ → ℕ → (World → Option (ℕ × World)) → Status × World → Option (ℕ × World)
grow_mapped root a oldsz mem more (ok, w) = more w
grow_mapped root a oldsz mem more (err, w) =
    kfree w.memory w.cpu mem >>= (λ m. give_back root a oldsz (record w { memory = m }))

unfoldable pub grow_page :
    ℕ → ℕ → ℕ → (World → Option (ℕ × World)) → World → Option ℕ × Memory → Option (ℕ × World)
grow_page root a oldsz more w (none, m) = give_back root a oldsz (record w { memory = m })
grow_page root a oldsz more w (some mem, m) =
    mappages (record w { memory = m; bytes = put w.bytes mem zero_page }) root a pgsize mem
      all_flags
    >>= grow_mapped root a oldsz mem more

unfoldable pub grow_from : ℕ → ℕ → ℕ → ℕ → ℕ → World → Option (ℕ × World)
grow_from root a oldsz newsz zero w = some (newsz, w)
grow_from root a oldsz newsz (suc k) w =
    grow_page root a oldsz (grow_from root (a + pgsize) oldsz newsz k) w (kalloc_try w.memory w.cpu)

unfoldable pub uvmalloc : World → ℕ → ℕ → ℕ → Option (ℕ × World)
uvmalloc w root oldsz newsz =
    if ltb newsz oldsz
    then some (oldsz, w)
    else grow_from root (page_up oldsz) (page_up oldsz) newsz
        ((newsz + (pgsize - 1) - page_up oldsz) / pgsize) w
