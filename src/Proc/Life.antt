-- ===== src/Proc/Life.antt =====
-- The life of a process (kernel/proc/proc.c): allocproc, fork, clone, exit, wait, waitpid, join, kill,
-- sleep, wakeup and the suspension of processes, on the fields of `struct proc` that they share. Slots
-- of the table are numbers below `n_proc`; the address of slot `i`, as a channel, is `i + 1`, and 0 is
-- no channel. `nextpid` is taken not to overflow. What memory is to be had, and whether a copy to user
-- space succeeds, are inputs. The scheduling fields are those of Proc.Sched.
pub mod Slots
pub mod Wakes
pub mod Ends
pub mod Suspends
pub mod System
pub mod Sound
pub mod Quiet
pub mod Births
pub mod Family
pub mod Threads
pub mod Waits
pub mod Orphans
pub mod Exits
pub mod Lost
mod Examples
unfoldable pub use Slots.*
unfoldable pub use Wakes.*
unfoldable pub use Ends.*
unfoldable pub use Suspends.*
