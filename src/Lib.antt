-- ===== src/Lib.antt =====
-- A model of parts of the kernel of Oops-OS, an xv6 for RISC-V, with proofs about it. A call that runs
-- under a spinlock is one step from the time it takes the lock to the time it returns or sleeps;
-- interleavings are sequences of such steps. Wake-ups need no state: a step that models the code
-- after a sleep may happen at any time.
--
-- Prelude: library names that the models share, and lemmas on lists, arrays and sums.
--
-- Proc.Banker (kernel/proc/proc.c, banker_*): the deadlock avoidance. A process's claim and
--   allocation are `Claim`, the banker's counts `Banker`; `is_safe` is banker_is_safe_locked with the
--   `while(progress)` loop on fuel. Each of its rounds but the last finishes a process, so one round
--   more than there are processes is enough. `set_max`, `request`, `release`, `release_proc` are the
--   calls. Children: Safety and Complete (the search), Conserved (counts), Requests, Releases.
-- Proc.Life (kernel/proc/proc.c, allocproc to join): the table of processes, from birth to the wait of
--   the parent. Children: Slots (the table, births), Wakes, Ends and Suspends (the operations); System
--   (the steps), Sound (the invariant), Quiet, Births, Family, Threads, Waits, Orphans and Exits (that
--   the steps keep it), Lost (two faults). `is_descendant` follows a given number of parents.
-- Proc.Pipe (kernel/proc/pipe.c): the ring of a pipe with its wrapping counters. `write_from` and
--   `read_from` are the loops of pipewrite and piperead; copyin and copyout are parameters.
-- Proc.Sched (kernel/proc/proc.c, rt_*, setPriority, mlfq_*): the real-time class, whose catch-up
--   loop has `now + 1` rounds at most because a period is positive, and the feedback queue.
-- Proc.Mail (kernel/sysproc.c, sys_dmsgsend, sys_dmsgrcv; dmsg_close of kernel/proc/proc.c): the mailbox of a
--   process as a linked list. Children: Chain, Link (one letter), Delivery (many).
-- Proc.Message (kernel/proc/messagequeue.c): a queue's page is the list of its messages. Proc.Spool
--   (kernel/driver/spool.c): the ring of the print spooler.
-- Fs.Log (kernel/filesystem/log.c): the write-ahead log. The routines are lists of disk writes, so
--   that a crash is a prefix of the list. The buffer cache is the contents that bread returns.
--   Children: Install, Recovery, Commit (crashes), Reserve (the admission of operations).
-- Fs.Cache (kernel/filesystem/bio.c): the buffer cache, hash buckets and a clock. The loop of the clock
--   has twice as many rounds as there are buffers, as in the source. Children: Clock, Lookup.
-- Fs.Blocks (kernel/filesystem/fs.c, balloc, bfree, bref_*): the bitmap and the reference counts.
-- Fs.Map (kernel/filesystem/fs.c, bmap*): from a file's blocks to disk blocks, through one and two
--   levels of indirect blocks; it allocates by Fs.Blocks.
-- Fs.Trunc (kernel/filesystem/fs.c, itrunc): the blocks of a file given back to Fs.Blocks. Children: Lists (a
--   file's blocks as a list), Parts (the loops), Freed.
-- Fs.Directory (kernel/filesystem/fs.c, namecmp, dirlookup, dirlink, skipelem): a directory as an
--   array of entries. Children: Names, Link, Grown, Search; Paths and Elements (path names).
-- Fs.Xattr (kernel/filesystem/xattr.c): extended attributes; names are compared and copied by Strings.
-- Mm.Alloc (kernel/mm/kalloc.c): the free lists of the CPUs and the reference counts of pages.
-- Mm.Swap (kernel/mm/swap.c): the slots of the swap area, the buffer of pages, and the way of one page
--   out and in. Children: Slots, Back and Reread (from the buffer, from the disk), Pages, Stale (the buffer of a freed slot).
-- Mm.Paging (kernel/mm/vm.c; cowpage and cowalloc in kernel/mm/kalloc.c): the page tables of one machine,
--   an entry by its table and index; pages come from Mm.Alloc. Children: Tables, Frees and Shares (the
--   operations; `kalloc` there has a bound on its rounds, and one is enough where it need not swap), Tree (the shape of a table), Grow and Walked (walk makes tables), Leaf, Maps and Ranges (mappages), Found, Owned, Copies and
--   Cow (cowalloc). The entries of swapped pages are left out.
-- Mm.Share (kernel/mm/sharemem.c): shared memory over Mm.Paging, with the parts of fork and exec that
--   touch it; a set of keys is a test on keys. Children: Loops, Counted, Steps (the calls as a system).
-- Strings (kernel/lib/string.c): memory as a function from addresses to bytes.
-- Sync.Sem (kernel/sysproc.c, sys_sem_*, sys_semset_*): semaphores and their sets. A P operation is cut
--   at its sleeps; each round of the loop on several semaphores is one step. Children: Sort, Shuffle, Multi (a
--   round), Call (with the checks).
-- Sync.Monitor (kernel/sysproc.c, sys_mon_*, sys_cond_*): one monitor and its condition variables;
--   the answer of deadlock_detect is an input. Sync.Flock (kernel/filesystem/file.c, fileflock): the locks of the
--   files on one inode.
-- Sync.Deadlock (kernel/proc/proc.c, owner_of_chan, deadlock_detect): the search along waiting processes,
--   over the tables of Sync.Sem, Sync.Monitor and Proc.Life as they are at one moment. Children: Chain (what
--   it follows), Counting, Detect (why 64 rounds are enough). Sync.Inherit (kernel/proc/proc.c, pi_donate,
--   pi_recalc; kernel/lock/sleeplock.c): priority inheritance and the sleep locks.
--
-- Not modelled: which page to swap out, freewalk and the copies between user and kernel
-- memory, inodes, the walk along a path, the other file systems, the other drivers, the network,
-- traps and system call dispatch, user programs and mkfs.
pub mod Fs
pub mod Mm
pub mod Prelude
pub mod Proc
pub mod Strings
pub mod Sync
