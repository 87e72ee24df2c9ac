-- ===== src/Proc.antt =====
-- Parts of kernel/proc, and the print spooler of kernel/driver.
pub mod Banker
pub mod Life
pub mod Message
pub mod Mail
pub mod Pipe
pub mod Sched
pub mod Spool
