-- ===== src/Mm/Paging.antt =====
-- Page tables (kernel/mm/vm.c): walk, mappages, uvmunmap, uvmalloc, uvmdealloc, uvmcopy, uvmshare and the
-- copy on write. A table is a page of 512 entries, an entry a record of its bits with the address that
-- it holds. Pages come from Mm.Alloc, for tables and new memory by `kalloc_try`, as `kalloc` gives them while a
-- lock is held. Entries of swapped pages, with PTE_S, are left out. `none` is a panic.
pub mod Tables
pub mod Frees
pub mod Shares
pub mod Tree
pub mod Grow
pub mod Walked
pub mod Leaf
pub mod Maps
pub mod Found
pub mod Ranges
pub mod Owned
pub mod Copies
pub mod Cow
mod Examples
unfoldable pub use Tables.*
unfoldable pub use Frees.*
unfoldable pub use Shares.*
