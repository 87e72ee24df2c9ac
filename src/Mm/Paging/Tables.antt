-- ===== src/Mm/Paging/Tables.antt =====
-- Page table entries, walk and mappages (kernel/mm/vm.c).
use oops_os.Prelude.{
  ℕ, zero, suc, ◌+◌, ◌-◌, ◌*◌, ◌/◌, ◌%◌, Bool, true, false, Option, none, some, leb, if◌then◌else◌,
  Status, ok, err,
}
use oops_os.Prelude.Arrays.{put}
use oops_os.Prelude.Options.{◌>>=◌}
use oops_os.Mm.Alloc.{Memory, pgsize, kalloc_try}

abbrev pub max_va : ℕ
max_va = 274877906944

abbrev pub n_entries : ℕ
n_entries = 512

-- `cow` is PTE_F.
pub record Flags : Type 0 where
  pub readable : Bool
  pub writable : Bool
  pub executable : Bool
  pub user : Bool
  pub cow : Bool

pub record Pte : Type 0 where
  pub valid : Bool
  pub target : ℕ
  pub flags : Flags

abbrev pub no_flags : Flags
no_flags = record {
  readable = false;
  writable = false;
  executable = false;
  user = false;
  cow = false;
}

abbrev pub no_pte : Pte
no_pte = record { valid = false; target = 0; flags = no_flags }

-- The allocator, the CPU that runs, the entries by the address of their table, and what pages hold.
pub record World : Type 0 where
  pub memory : Memory
  pub cpu : ℕ
  pub tables : ℕ → ℕ → Pte
  pub bytes : ℕ → ℕ → ℕ

-- PX(level, va)
abbrev pub px2 : ℕ → ℕ
px2 va = va / 1073741824 % n_entries

abbrev pub px1 : ℕ → ℕ
px1 va = va / 2097152 % n_entries

abbrev pub px0 : ℕ → ℕ
px0 va = va / 4096 % n_entries

abbrev pub page_down : ℕ → ℕ
page_down a = a / pgsize * pgsize

abbrev pub page_up : ℕ → ℕ
page_up a = (a + (pgsize - 1)) / pgsize * pgsize

unfoldable pub set_pte : World → ℕ → ℕ → Pte → World
set_pte w t i pte = record w { tables = put w.tables t (put (w.tables t) i pte) }

abbrev pub table_pte : ℕ → Pte
table_pte pa = record { valid = true; target = pa; flags = no_flags }

-- A fresh table of zeros, and the entry that leads to it.
unfoldable pub link_table : World → ℕ → ℕ → Option ℕ × Memory → Option ℕ × World
link_table w t i (none, m) = (none, record w { memory = m })
link_table w t i (some pa, m) = (
  some pa,
  set_pte (record w { memory = m; tables = put w.tables pa (λ j. no_pte) }) t i (table_pte pa),
)

-- One round of the loop of `walk`, from table `t`.
unfoldable pub step_down : World → Bool → ℕ → ℕ → Option ℕ × World
step_down w alloc t i =
    if (w.tables t i).valid
    then (some (w.tables t i).target, w)
    else if alloc
    then link_table w t i (kalloc_try w.memory w.cpu)
    else (none, w)

unfoldable pub last_step : ℕ → Option ℕ × World → Option (ℕ × ℕ) × World
last_step va (none, w) = (none, w)
last_step va (some t, w) = (some (t, px0 va), w)

unfoldable pub second_step : Bool → ℕ → Option ℕ × World → Option (ℕ × ℕ) × World
second_step alloc va (none, w) = (none, w)
second_step alloc va (some t, w) = last_step va (step_down w alloc t (px1 va))

-- `walk` below MAXVA: the table and the index of the entry, or 0.
unfoldable pub walk_tables : World → Bool → ℕ → ℕ → Option (ℕ × ℕ) × World
walk_tables w alloc root va = second_step alloc va (step_down w alloc root (px2 va))

unfoldable pub walk : World → Bool → ℕ → ℕ → Option (Option (ℕ × ℕ) × World)
walk w alloc root va = if leb max_va va then none else some (walk_tables w alloc root va)

-- One round of the loop of `mappages`.
unfoldable pub write_mapping : ℕ → Flags → Option (ℕ × ℕ) × World → Option (Status × World)
write_mapping pa flags (none, w) = some (err, w)
write_mapping pa flags (some (t, i), w) =
    if (w.tables t i).valid
    then none
    else some (ok, set_pte w t i (record { valid = true; target = pa; flags = flags }))

unfoldable pub map_page : World → ℕ → ℕ → ℕ → Flags → Option (Status × World)
map_page w root va pa flags = walk w true root va >>= write_mapping pa flags

unfoldable pub next_if_ok :
    (World → Option (Status × World)) → Status × World → Option (Status × World)
next_if_ok f (err, w) = some (err, w)
next_if_ok f (ok, w) = f w

-- `k` rounds, which end at the last page.
unfoldable pub map_from : World → ℕ → ℕ → ℕ → Flags → ℕ → Option (Status × World)
map_from w root a pa flags zero = some (ok, w)
map_from w root a pa flags (suc k) =
    map_page w root a pa flags
    >>= next_if_ok (λ w'. map_from w' root (a + pgsize) (pa + pgsize) flags k)

-- For a size of 1 at least.
unfoldable pub mappages : World → ℕ → ℕ → ℕ → ℕ → Flags → Option (Status × World)
mappages w root va size pa flags =
    map_from w root (page_down va) pa flags
      ((page_down (va + size - 1) - page_down va) / pgsize + 1)
