-- ===== src/Mm/Share.antt =====
-- Shared memory (kernel/mm/sharemem.c): the table of segments, and the part of processes that holds them.
-- A set of keys is a test on keys. `none` is a panic or a fault of the kernel.
pub mod Loops
pub mod Counted
pub mod Steps
mod Examples
use oops_os.Prelude.{
  ℕ, zero, suc, ◌+◌, ◌-◌, ◌*◌, ◌/◌, ◌%◌, ◌^◌, Bool, true, false, not, ◌&&◌, ◌||◌, Option, none,
  some, ltb, leb, ◌==◌, if◌then◌else◌, Status, ok, err, ℤ, pos, negsuc, suc_ℤ, pred_ℤ,
}
use oops_os.Prelude.Arrays.{put}
use oops_os.Prelude.Options.{◌>>=◌}
use oops_os.Mm.Alloc.{Memory, pgsize, kalloc_try, kfree, is_nil}
use oops_os.Mm.Paging.{World, Flags, Pte, no_pte, zero_page, page_down, set_pte, walk, mappages}

abbrev pub max_pages : ℕ
max_pages = 4

abbrev pub n_segments : ℕ
n_segments = 8

abbrev pub kernbase : ℕ
kernbase = 2147483648

pub record Segment : Type 0 where
  pub refcount : ℤ
  pub pagenum : ℕ
  pub physaddr : ℕ → ℕ

pub record Holder : Type 0 where
  pub pagetable : ℕ
  pub sz : ℕ
  pub shm : ℕ
  pub mask : ℕ → Bool
  pub shmva : ℕ → ℕ

pub record Share : Type 0 where
  pub world : World
  pub table : ℕ → Segment
  pub procs : ℕ → Holder

abbrev pub share_flags : Flags
share_flags = record {
  readable = false;
  writable = true;
  executable = false;
  user = true;
  cow = false;
}

-- `shmkeyused`; key 8 passes its test.
unfoldable pub shmkeyused : ℕ → (ℕ → Bool) → Bool
shmkeyused key mask = if ltb 8 key then false else mask key

-- `shm - num * PGSIZE` on 64 bits, and the conversion of an address through `int`.
abbrev pub below_shm : ℕ → ℕ → ℕ
below_shm shm num = (shm + (2 ^ 64 - num * pgsize)) % 2 ^ 64

abbrev pub as_int : ℕ → ℕ
as_int a = if ltb (a % 2 ^ 32) (2 ^ 31) then a % 2 ^ 32 else a % 2 ^ 32 + (2 ^ 64 - 2 ^ 32)

abbrev pub bad_range : ℕ → ℕ → ℕ → Bool
bad_range oldshm newshm sz =
    not (oldshm % pgsize == 0) || not (newshm % pgsize == 0) || ltb kernbase oldshm || ltb newshm sz

-- One page of `deallocshm`.
unfoldable pub drop_page : Option (ℕ × ℕ) × World → Option World
drop_page (none, w) = some w
drop_page (some (t, i), w) =
    if not ((w.tables t i).valid)
    then some w
    else if (w.tables t i).target == 0
    then none
    else kfree w.memory w.cpu ((w.tables t i).target)
      >>= (λ m. some (set_pte (record w { memory = m }) t i no_pte))

-- The rounds from page `a` downwards, of which there are `k`.
unfoldable pub drop_from : World → ℕ → ℕ → ℕ → Option World
drop_from w root a zero = some w
drop_from w root a (suc k) =
    walk w false root a >>= drop_page >>= (λ w'. drop_from w' root (a - pgsize) k)

unfoldable pub deallocshm : World → ℕ → ℕ → ℕ → Option World
deallocshm w root oldshm newshm =
    let a = page_down (newshm - pgsize) in
    if leb newshm oldshm
    then some w
    else if ltb a oldshm
    then some w
    else drop_from w root a ((a - oldshm) / pgsize + 1)

-- The answer of `allocshm` and `mapshm`, 0 on failure, with the pages.
abbrev pub Shared : Type 0
Shared = ℕ × (ℕ → ℕ) × World

unfoldable pub clean_up : ℕ → ℕ → ℕ → (ℕ → ℕ) → World → Option Shared
clean_up root newshm oldshm phys w = deallocshm w root newshm oldshm >>= (λ w'. some (0, phys, w'))

unfoldable pub mapped_segment :
    ℕ → ℕ → ℕ → (ℕ → ℕ) → ℕ → (World → Option Shared) → Status × World → Option Shared
mapped_segment root newshm oldshm phys mem more (ok, w) = more w
mapped_segment root newshm oldshm phys mem more (err, w) =
    kfree w.memory w.cpu mem >>= (λ m. clean_up root newshm oldshm phys (record w { memory = m }))

unfoldable pub alloc_segment :
    ℕ
    → ℕ
    → ℕ
    → ℕ
    → (ℕ → ℕ)
    → (ℕ → World → Option Shared)
    → World
    → Option ℕ × Memory
    → Option Shared
alloc_segment root a newshm oldshm phys more w (none, m) =
    clean_up root newshm oldshm phys (record w { memory = m })
alloc_segment root a newshm oldshm phys more w (some mem, m) =
    mappages (record w { memory = m; bytes = put w.bytes mem zero_page }) root a pgsize mem
      share_flags
    >>= mapped_segment root newshm oldshm phys mem (more mem)

unfoldable pub alloc_from : ℕ → ℕ → ℕ → ℕ → ℕ → (ℕ → ℕ) → ℕ → World → Option Shared
alloc_from root a newshm oldshm i phys zero w = some (as_int newshm, phys, w)
alloc_from root a newshm oldshm i phys (suc k) w =
    alloc_segment root a newshm oldshm phys
      (λ mem. alloc_from root (a + pgsize) newshm oldshm (suc i) (put phys i mem) k) w
      (kalloc_try w.memory w.cpu)

unfoldable pub allocshm : World → ℕ → ℕ → ℕ → ℕ → (ℕ → ℕ) → Option Shared
allocshm w root oldshm newshm sz phys =
    if bad_range oldshm newshm sz
    then some (0, phys, w)
    else alloc_from root newshm newshm oldshm 0 phys ((oldshm - newshm) / pgsize) w

unfoldable pub mapped_next : (ℕ → ℕ) → (World → Option Shared) → Status × World → Option Shared
mapped_next phys more (ok, w) = more w
mapped_next phys more (err, w) = some (0, phys, w)

unfoldable pub mapshm_from : ℕ → ℕ → ℕ → ℕ → (ℕ → ℕ) → ℕ → World → Option Shared
mapshm_from root a newshm i phys zero w = some (as_int newshm, phys, w)
mapshm_from root a newshm i phys (suc k) w =
    mappages w root a pgsize (phys i) share_flags
    >>= mapped_next phys (mapshm_from root (a + pgsize) newshm (suc i) phys k)

unfoldable pub mapshm : World → ℕ → ℕ → ℕ → ℕ → (ℕ → ℕ) → Option Shared
mapshm w root oldshm newshm sz phys =
    if bad_range oldshm newshm sz
    then some (0, phys, w)
    else mapshm_from root newshm newshm 0 phys ((oldshm - newshm) / pgsize) w

unfoldable pub shmadd : (ℕ → Segment) → ℕ → ℕ → (ℕ → ℕ) → ℕ → Segment
shmadd table key num phys =
    if leb n_segments key || num == 0 || ltb max_pages num
    then table
    else put table key (record { refcount = pos 1; pagenum = num; physaddr = phys })

unfoldable pub count_up : (ℕ → Segment) → ℕ → ℕ → Segment
count_up table key = put table key (record (table key) { refcount = suc_ℤ ((table key).refcount) })

-- `shmgetat` after the pages are there: the process holds the key. The field `shm` has 32 bits. No address
-- is an error.
abbrev pub holding : Holder → ℕ → ℕ → Holder
holding h key shm = record h {
  shm = shm % 2 ^ 32;
  mask = put h.mask key true;
  shmva = put h.shmva key shm;
}

unfoldable pub get_end : Share → ℕ → ℕ → ((ℕ → ℕ) → ℕ → Segment) → Shared → Option ℕ × Share
get_end s p key table (shm, phys, w) = if shm == 0 then (none, record s { world = w }) else (
  some shm,
  record s { world = w; table = table phys; procs = put s.procs p (holding (s.procs p) key shm) },
)

unfoldable pub get_segment : Share → ℕ → ℕ → ℕ → Option (Option ℕ × Share)
get_segment s p key num =
    let h = s.procs p in
    let seg = s.table key in
    if is_nil seg.refcount
    then allocshm s.world h.pagetable h.shm (below_shm h.shm num) h.sz (λ i. 0)
      >>= (λ r. some (get_end s p key (shmadd s.table key num) r))
    else mapshm s.world h.pagetable h.shm (below_shm h.shm seg.pagenum) h.sz seg.physaddr
      >>= (λ r. some (get_end s p key (λ phys. count_up s.table key) r))

unfoldable pub shmgetat : Share → ℕ → ℕ → ℕ → Option (Option ℕ × Share)
shmgetat s p key num =
    if leb n_segments key || ltb max_pages num
    then some (none, s)
    else if (s.procs p).mask key
    then some (some ((s.procs p).shmva key), s)
    else get_segment s p key num

-- The loop of `shmaddcount`, for the keys from `key` on with `k` to go.
unfoldable pub add_counts : (ℕ → Bool) → ℕ → ℕ → (ℕ → Segment) → ℕ → Segment
add_counts mask key zero table = table
add_counts mask key (suc k) table =
    add_counts mask (suc key) k (if shmkeyused key mask then count_up table key else table)

unfoldable pub shmaddcount : (ℕ → Bool) → (ℕ → Segment) → ℕ → Segment
shmaddcount mask table = add_counts mask 0 n_segments table

-- What `fork` does for shared memory.
abbrev pub inherited : Holder → Holder → Holder
inherited parent child = record child {
  shm = parent.shm;
  mask = parent.mask;
  shmva = λ k. if shmkeyused k parent.mask then parent.shmva k else child.shmva k;
}

unfoldable pub fork_shm : Share → ℕ → ℕ → Share
fork_shm s p q = record s {
  table = shmaddcount ((s.procs p).mask) s.table;
  procs = put s.procs q (inherited (s.procs p) (s.procs q));
}

-- The loop of `shmrm` reads at the address PA2PTE(pa) of each page, which the kernel maps nowhere; it
-- passes over a page whose PA2PTE is 0.
unfoldable pub reads_nothing : (ℕ → ℕ) → ℕ → ℕ → Bool
reads_nothing phys i zero = true
reads_nothing phys i (suc k) = phys i / pgsize * 1024 == 0 && reads_nothing phys (suc i) k

unfoldable pub shmrm : Segment → Option Segment
shmrm seg =
    if reads_nothing seg.physaddr 0 seg.pagenum
    then some (record seg { refcount = pos 0 })
    else none

unfoldable pub drop_count : (ℕ → Segment) → ℕ → Option (ℕ → Segment)
drop_count table k =
    let seg = record (table k) { refcount = pred_ℤ ((table k).refcount) } in
    if is_nil seg.refcount
    then shmrm seg >>= (λ seg'. some (put table k seg'))
    else some (put table k seg)

unfoldable pub drop_counts : (ℕ → Bool) → ℕ → ℕ → (ℕ → Segment) → Option (ℕ → Segment)
drop_counts mask key zero table = some table
drop_counts mask key (suc k) table =
    (if shmkeyused key mask then drop_count table key else some table)
    >>= drop_counts mask (suc key) k

-- `shmrelease` as `exec` calls it, with what it sets afterwards.
unfoldable pub release_shm : Share → ℕ → ℕ → Option Share
release_shm s p root = deallocshm s.world root ((s.procs p).shm) kernbase >>= (λ w.
    drop_counts ((s.procs p).mask) 0 n_segments s.table >>= (λ table. some (record s {
      world = w;
      table = table;
      procs = put s.procs p (record (s.procs p) { shm = kernbase; mask = λ k. false });
    })))

unfoldable pub shmrefcount : Share → ℕ → ℤ
shmrefcount s key = if leb n_segments key then negsuc 0 else (s.table key).refcount
