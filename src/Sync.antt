-- ===== src/Sync.antt =====
-- Synchronisation between processes: monitors and file locks.
pub mod Monitor
pub mod Flock
pub mod Sem
pub mod Deadlock
pub mod Inherit
