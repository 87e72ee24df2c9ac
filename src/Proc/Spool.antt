-- ===== src/Proc/Spool.antt =====
-- kernel/driver/spool.c: the ring of the print spooler. A call runs under the spooler's lock until it
-- returns or sleeps; a call that wakes goes on with the index it has reached.
pub mod Overrun
mod Examples
use oops_os.Prelude.{
  ℕ, zero, suc, ◌+◌, ◌%◌, Bool, true, false, Option, none, some, ◌==◌, if◌then◌else◌,
}
use oops_os.Prelude.Arrays.{put}

abbrev pub spool_buf : ℕ
spool_buf = 4096

-- `uint` counters wrap at 2^32.
abbrev pub counter : ℕ → ℕ
counter n = n % 4294967296

pub record Spool : Type 0 where
  pub buf : ℕ → ℕ
  pub r : ℕ
  pub w : ℕ

-- How a call leaves the lock: it returns a count, returns -1, or sleeps at an index.
pub data Left : Type 0 where
  gives : ℕ → Left
  fails : Left
  waits : ℕ → Left

unfoldable pub spool_full : Spool → Bool
spool_full s = counter (s.w + 1) % spool_buf == s.r

unfoldable pub spool_put : Spool → ℕ → Spool
spool_put s c = record s { buf = put s.buf (s.w % spool_buf) c; w = counter (s.w + 1) }

-- The loop of `spoolwrite` from index `i` on, with `k` bytes to go. `source` is what
-- `either_copyin` gives at each offset.
unfoldable pub spool_write : Spool → Bool → (ℕ → Option ℕ) → ℕ → ℕ → Left × Spool
spool_write s killed source i zero = (gives i, s)
spool_write s killed source i (suc k) = elim (spool_full s) [
  | true ↦ ((if killed then fails else waits i), s)
  | false ↦ elim (source i) [
    | none ↦ (gives i, s)
    | some c ↦ spool_write (spool_put s c) killed source (i + 1) k
  ]
]

-- The loop of `spoolread` after `i` bytes, with `k` to go. `accepts` says whether `either_copyout`
-- succeeds at each offset.
unfoldable pub spool_read : Spool → Bool → (ℕ → Bool) → ℕ → ℕ → Left × Spool
spool_read s killed accepts i zero = (gives i, s)
spool_read s killed accepts i (suc k) = elim (s.r == s.w) [
  | true ↦ ((if killed then fails else if i == 0 then waits 0 else gives i), s)
  | false ↦ elim (accepts i) [
    | false ↦ (gives i, record s { r = counter (s.r + 1) })
    | true ↦ spool_read (record s { r = counter (s.r + 1) }) killed accepts (i + 1) k
  ]
]
