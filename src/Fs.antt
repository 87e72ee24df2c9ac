-- ===== src/Fs.antt =====
-- Parts of kernel/filesystem.
pub mod Blocks
pub mod Cache
pub mod Directory
pub mod Log
pub mod Map
pub mod Trunc
pub mod Xattr
