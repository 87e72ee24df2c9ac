-- ===== src/Mm/Swap.antt =====
-- kernel/mm/swap.c: the slots of the swap area, the copies of pages on disk, and the buffer of swapped
-- pages that are still in memory. The page table is a map from addresses to entries, which stands for
-- `walk`; a page is a function from offsets to bytes. The scan for a page to swap out, and the pages
-- of shared file mappings, are left out.
pub mod Slots
pub mod Back
pub mod Reread
pub mod Pages
pub mod Stale
mod Examples
use oops_os.Prelude.{
  ℕ, zero, suc, ◌+◌, ◌-◌, ◌*◌, ◌%◌, Bool, true, false, not, ◌&&◌, Option, none, some, ltb, leb,
  ◌==◌, if◌then◌else◌, ℤ, pos, negsuc,
}
use oops_os.Prelude.Arrays.{put}
use oops_os.Prelude.Search.{first_from}

abbrev pub swap_pages : ℕ
swap_pages = 512

abbrev pub pbuf_size : ℕ
pbuf_size = 64

abbrev pub bsize : ℕ
bsize = 1024

abbrev pub blocks_per_page : ℕ
blocks_per_page = 4

-- `struct swap_pbuf_entry`
pub record PbufEntry : Type 0 where
  pub valid : Bool
  pub slot : ℕ
  pub pa : ℕ

pub record Pbuf : Type 0 where
  pub entry : ℕ → PbufEntry
  pub hand : ℕ
  pub cached : ℕ
  pub hits : ℕ
  pub misses : ℕ

-- `swapmap` with its hint, the buffer, and the disk's blocks from `swapstart` on.
pub record Swap : Type 0 where
  pub swapmap : ℕ → Bool
  pub hint : ℕ
  pub pbuf : Pbuf
  pub swapstart : ℕ
  pub disk : ℕ → ℕ → ℕ

unfoldable pub probe : Swap → ℕ → ℕ
probe s i = (s.hint + i) % swap_pages

unfoldable pub take_slot : Swap → ℕ → Swap
take_slot s slot = record s { swapmap = put s.swapmap slot true; hint = (slot + 1) % swap_pages }

-- `none` is -1.
unfoldable pub swap_alloc : Swap → Option ℕ × Swap
swap_alloc s = elim (first_from (λ i. not (s.swapmap (probe s i))) 0 swap_pages) [
  | none ↦ (none, s)
  | some i ↦ (some (probe s i), take_slot s (probe s i))
]

unfoldable pub swapfree : Swap → ℕ → Swap
swapfree s slot =
    if leb swap_pages slot then s else (record s { swapmap = put s.swapmap slot false })

-- `memmove(bp->data, src + i * BSIZE, BSIZE)` and `memmove(dst + i * BSIZE, bp->data, BSIZE)`.
abbrev pub block_in : (ℕ → ℕ) → ℕ → (ℕ → ℕ) → ℕ → ℕ
block_in src i old j = if ltb j bsize then src (i * bsize + j) else old j

abbrev pub block_out : (ℕ → ℕ) → ℕ → (ℕ → ℕ) → ℕ → ℕ
block_out block i dst j =
    if leb (i * bsize) j && ltb j (i * bsize + bsize) then block (j - i * bsize) else dst j

-- The loops of `swap_write` and `swap_read` over the page's blocks, with `k` to go.
unfoldable pub write_blocks : (ℕ → ℕ → ℕ) → ℕ → (ℕ → ℕ) → ℕ → ℕ → ℕ → ℕ → ℕ
write_blocks disk first src i zero = disk
write_blocks disk first src i (suc k) =
    write_blocks (put disk (first + i) (block_in src i (disk (first + i)))) first src (suc i) k

unfoldable pub read_blocks : (ℕ → ℕ → ℕ) → ℕ → (ℕ → ℕ) → ℕ → ℕ → ℕ → ℕ
read_blocks disk first dst i zero = dst
read_blocks disk first dst i (suc k) =
    read_blocks disk first (block_out (disk (first + i)) i dst) (suc i) k

abbrev pub first_block : Swap → ℕ → ℕ
first_block s slot = s.swapstart + slot * blocks_per_page

unfoldable pub swap_write : Swap → ℕ → (ℕ → ℕ) → Swap
swap_write s slot src = record s {
  disk = write_blocks s.disk (first_block s slot) src 0 blocks_per_page;
}

unfoldable pub swap_read : Swap → ℕ → (ℕ → ℕ) → ℕ → ℕ
swap_read s slot dst = read_blocks s.disk (first_block s slot) dst 0 blocks_per_page

-- The page that `swap_pbuf_put` gives to `kfree`, if any, and the buffer.
unfoldable pub pbuf_put : Pbuf → ℕ → ℕ → Option ℕ × Pbuf
pbuf_put p slot pa =
    let old = p.entry p.hand in
    (
      (if old.valid then some old.pa else none),
      record p {
        entry = put p.entry p.hand (record { valid = true; slot = slot; pa = pa });
        hand = (p.hand + 1) % pbuf_size;
        cached = (if old.valid && ltb 0 p.cached then p.cached - 1 else p.cached) + 1;
      },
    )

unfoldable pub find_entry : Pbuf → ℕ → Option ℕ
find_entry p slot = first_from (λ i. (p.entry i).valid && (p.entry i).slot == slot) 0 pbuf_size

-- `swap_pbuf_get`; a page's address is not 0.
unfoldable pub pbuf_get : Pbuf → ℕ → Option ℕ × Pbuf
pbuf_get p slot = elim (find_entry p slot) [
  | none ↦ (none, record p { misses = p.misses + 1 })
  | some i ↦ (
    some (p.entry i).pa,
    record p {
      entry = put p.entry i (record (p.entry i) { valid = false });
      cached = if ltb 0 p.cached then p.cached - 1 else p.cached;
      hits = p.hits + 1;
    },
  )
]

unfoldable pub pbuf_stats : Pbuf → ℕ × ℕ × ℕ
pbuf_stats p = (p.hits, p.misses, p.cached)

-- A page table entry: the bits PTE_V and PTE_S, the other flags, and the page or the slot.
pub record Pte : Type 0 where
  pub present : Bool
  pub swapped : Bool
  pub flags : ℕ
  pub target : ℕ

-- The swap area, the memory's pages by address, and a page table.
pub record World : Type 0 where
  pub swap : Swap
  pub page : ℕ → ℕ → ℕ
  pub pte : ℕ → Option Pte

-- The part of `swapout` on the page `pa` of the entry `e` once a slot is found.
unfoldable pub move_out : World → ℕ → Pte → ℕ → Swap → Option ℕ × World
move_out w va e slot s =
    let s' = swap_write s slot (w.page e.target) in
    let p = pbuf_put s'.pbuf slot e.target in
    (
      p.0,
      record w {
        swap = record s' { pbuf = p.1 };
        pte = put w.pte va (some (record e { present = false; swapped = true; target = slot }));
      },
    )

-- `none` is -1; otherwise the page for `kfree`, if any.
unfoldable pub swap_page : World → ℕ → Pte → Option (Option ℕ × World)
swap_page w va e =
    let r = swap_alloc w.swap in
    elim (r.0) [ none ↦ none | some slot ↦ some (move_out w va e slot (r.1)) ]

-- `swapin` once it has a page: the slot is freed and the entry points to the page.
unfoldable pub map_in : World → ℕ → Pte → Swap → ℕ → (ℕ → ℕ) → World
map_in w va e s mem content = record {
  swap = swapfree s e.target;
  page = put w.page mem content;
  pte = put w.pte va (some (record e { present = true; swapped = false; target = mem }));
}

-- The page from the buffer, or one that `kalloc` gives (`fresh`), read from the disk.
unfoldable pub fetch_page : World → ℕ → Pte → Option ℕ → Option ℕ × Pbuf → ℤ × World
fetch_page w va e fresh (some mem, p) =
    (pos 0, map_in w va e (record (w.swap) { pbuf = p }) mem (w.page mem))
fetch_page w va e none (none, p) = (negsuc 0, record w { swap = record (w.swap) { pbuf = p } })
fetch_page w va e (some mem) (none, p) = (
  pos 0,
  map_in w va e (record (w.swap) { pbuf = p }) mem (swap_read w.swap e.target (w.page mem)),
)

unfoldable pub load_entry : World → ℕ → Option ℕ → Option Pte → ℤ × World
load_entry w va fresh none = (pos 1, w)
load_entry w va fresh (some e) =
    if not e.swapped then (pos 1, w) else fetch_page w va e fresh (pbuf_get w.swap.pbuf e.target)

unfoldable pub swapin : World → ℕ → Option ℕ → ℤ × World
swapin w va fresh = load_entry w va fresh (w.pte va)

-- `swap_throttle`, with the tick after the sleep: the window's start, the events, whether it sleeps.
unfoldable pub swap_throttle : ℕ → ℕ → ℕ → ℕ → ℕ × ℕ × Bool
swap_throttle start events now later =
    let over = leb 20 ((now + 4294967296 - start) % 4294967296) in
    let count = (if over then 0 else events) + 1 in
    if leb 256 count then (later, 0, true) else ((if over then now else start), count, false)
