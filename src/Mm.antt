-- ===== src/Mm.antt =====
-- Parts of kernel/mm.
pub mod Alloc
pub mod Paging
pub mod Share
pub mod Swap
