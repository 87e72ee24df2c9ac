-- ===== src/Mm/Paging/Shares.antt =====
-- uvmcopy, uvmshare and the copy on write (kernel/mm/vm.c, kernel/mm/kalloc.c).
use oops_os.Prelude.{
  ℕ, zero, suc, ◌+◌, ◌-◌, ◌/◌, ◌%◌, Bool, true, false, not, ◌&&◌, Option, none, some, leb, ◌==◌,
  if◌then◌else◌, Status, ok, err, ℤ, pos,
}
use oops_os.Prelude.Arrays.{put}
use oops_os.Prelude.Options.{◌>>=◌}
use oops_os.Mm.Alloc.{Memory, pgsize, kalloc_try, kfree, kaddrefcnt, krefcnt}
use oops_os.Mm.Paging.Tables.{max_va, Flags, World, set_pte, walk_tables, walk, map_page}
use oops_os.Mm.Paging.Frees.{entry, walkaddr, uvmunmap}

-- `uvmcopy` and `uvmshare`: the entry that both tables have for a page that the parent can write.
unfoldable pub shared_flags : Flags → Flags
shared_flags f = if f.writable then (record f { writable = false; cow = true }) else f

unfoldable pub undo_copy : ℕ → ℕ → World → Option (Status × World)
undo_copy new i w = uvmunmap w new 0 (i / pgsize) true >>= (λ w'. some (err, w'))

unfoldable pub count_copy :
    ℕ → ℕ → ℕ → (World → Option (Status × World)) → Status × World → Option (Status × World)
count_copy new i pa more (err, w) = undo_copy new i w
count_copy new i pa more (ok, w) = more (record w { memory = (kaddrefcnt w.memory pa).1 })

unfoldable pub copy_entry :
    Bool
    → ℕ
    → ℕ
    → (World → Option (Status × World))
    → Option (ℕ × ℕ) × World
    → Option (Status × World)
copy_entry cow new i more (none, w) = more w
copy_entry cow new i more (some (t, j), w) =
    let e = w.tables t j in
    let flags = if cow then shared_flags e.flags else e.flags in
    if not e.valid
    then more w
    else (map_page (if cow then set_pte w t j (record e { flags = flags }) else w) new i e.target
          flags
        >>= count_copy new i e.target more)

unfoldable pub copy_from : Bool → ℕ → ℕ → ℕ → ℕ → World → Option (Status × World)
copy_from cow old new i zero w = some (ok, w)
copy_from cow old new i (suc k) w =
    walk w false old i >>= copy_entry cow new i (copy_from cow old new (i + pgsize) k)

unfoldable pub uvmcopy : World → ℕ → ℕ → ℕ → Option (Status × World)
uvmcopy w old new sz = copy_from true old new 0 ((sz + (pgsize - 1)) / pgsize) w

unfoldable pub uvmshare : World → ℕ → ℕ → ℕ → Option (Status × World)
uvmshare w old new sz = copy_from false old new 0 ((sz + (pgsize - 1)) / pgsize) w

unfoldable pub cowpage : World → ℕ → ℕ → Bool
cowpage w root va =
    let e = entry w root va in if leb max_va va then false else e.valid && e.flags.cow

-- The loop of `kalloc` where mid-term scheduling is off, with a bound on its rounds: `held` is `noff > 0`, and
-- `swapout` what a successful swapout leaves.
unfoldable pub kalloc_round :
    Bool
    → (World → Option World)
    → (World → Option ℕ × World)
    → World
    → Option ℕ × Memory
    → Option ℕ × World
kalloc_round held swapout more w (some mem, m) = (some mem, record w { memory = m })
kalloc_round held swapout more w (none, m) =
    if held then (none, record w { memory = m }) else elim (swapout (record w { memory = m })) [
      | none ↦ (none, record w { memory = m })
      | some w' ↦ more w'
    ]

unfoldable pub kalloc : Bool → (World → Option World) → ℕ → World → Option ℕ × World
kalloc held swapout zero w = (none, w)
kalloc held swapout (suc rounds) w =
    kalloc_round held swapout (kalloc held swapout rounds) w (kalloc_try w.memory w.cpu)

-- `cowalloc`: the physical page that can be written now, or 0.
abbrev pub own_flags : Flags → Flags
own_flags f = record f { writable = true; cow = false }

unfoldable pub mapped_copy : ℕ → ℕ → ℕ → ℕ → Status × World → Option (ℕ × World)
mapped_copy t i pa mem (ok, w) =
    kfree w.memory w.cpu pa >>= (λ m. some (mem, record w { memory = m }))
mapped_copy t i pa mem (err, w) = kfree w.memory w.cpu mem >>= (λ m.
    some (0, set_pte (record w { memory = m }) t i (record (w.tables t i) { valid = true })))

abbrev pub is_one : ℤ → Bool
is_one (pos n) = n == 1
is_one _ = false

unfoldable pub copy_page : ℕ → ℕ → ℕ → ℕ → ℕ → Option ℕ × World → Option (ℕ × World)
copy_page root va t i pa (none, w) = some (0, w)
copy_page root va t i pa (some mem, w) =
    let e = w.tables t i in
    let w' = record w { bytes = put w.bytes mem (w.bytes pa) } in
    map_page (set_pte w' t i (record e { valid = false })) root va mem (own_flags e.flags)
    >>= mapped_copy t i pa mem

unfoldable pub cow_entry :
    (World → Option ℕ × World) → World → ℕ → ℕ → ℕ → Option (ℕ × ℕ) → Option (ℕ × World)
cow_entry alloc w root va pa none = some (0, w)
cow_entry alloc w root va pa (some (t, i)) =
    let e = w.tables t i in
    if is_one (krefcnt w.memory pa)
    then some (pa, set_pte w t i (record e { flags = own_flags e.flags }))
    else copy_page root va t i pa (alloc w)

unfoldable pub cowalloc : Bool → (World → Option World) → ℕ → World → ℕ → ℕ → Option (ℕ × World)
cowalloc held swapout rounds w root va =
    if not (va % pgsize == 0)
    then some (0, w)
    else if walkaddr w root va == 0
    then some (0, w)
    else cow_entry (kalloc held swapout rounds) w root va (walkaddr w root va)
        (walk_tables w false root va).0
