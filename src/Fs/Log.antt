-- ===== src/Fs/Log.antt =====
-- kernel/filesystem/log.c. The disk is its header block of the log and the contents of all other
-- blocks; the buffer cache is what `bread` returns for a block. Each routine is the sequence of its
-- disk writes, so that a crash can stop it between any two.
pub mod Install
pub mod Recovery
pub mod Commit
pub mod Reserve
mod Examples
use oops_os.Prelude.{
  ℕ, zero, suc, ◌+◌, ◌-◌, ◌*◌, Bool, true, false, ◌||◌, not, Option, none, some, List, [], ◌∷◌,
  ◌++◌, ltb, leb, ◌==◌, if◌then◌else◌,
}
use oops_os.Prelude.Arrays.{put}

abbrev pub max_op_blocks : ℕ
max_op_blocks = 10

abbrev pub log_size : ℕ
log_size = 30

-- `struct logheader`
pub record Header : Type 0 where
  pub n : ℕ
  pub block : ℕ → ℕ

pub record Disk : Type 0 where
  pub head : Header
  pub data_of : ℕ → ℕ

-- One disk write: a buffer's contents to its block, a block copied to another, or the header.
pub data Write : Type 0 where
  store : ℕ → ℕ → Write
  copy : ℕ → ℕ → Write
  header : Header → Write

-- `write_head` sets the count, and of the block numbers only those below it.
unfoldable pub set_header : Header → Header → Header
set_header new old = record {
  n = new.n;
  block = λ i. if ltb i new.n then new.block i else old.block i;
}

unfoldable pub write_one : Disk → Write → Disk
write_one d (store b v) = record d { data_of = put d.data_of b v }
write_one d (copy from to) = record d { data_of = put d.data_of to (d.data_of from) }
write_one d (header h) = record d { head = set_header h d.head }

unfoldable pub write_all : Disk → List Write → Disk
write_all d [] = d
write_all d (w ∷ ws) = write_all (write_one d w) ws

-- The loop of `install_trans` from `tail` on, over `k` blocks; `start` is the header's block.
unfoldable pub install : ℕ → Header → ℕ → ℕ → List Write
install start h tail zero = []
install start h tail (suc k) = copy (start + tail + 1) (h.block tail) ∷ install start h (suc tail) k

-- The loop of `write_log`; `cache` is what `bread` returns.
unfoldable pub write_log : ℕ → (ℕ → ℕ) → Header → ℕ → ℕ → List Write
write_log start cache h tail zero = []
write_log start cache h tail (suc k) =
    store (start + tail + 1) (cache (h.block tail)) ∷ write_log start cache h (suc tail) k

abbrev pub no_blocks : Header → Header
no_blocks h = record h { n = 0 }

-- `read_head`: of the block numbers only those below the count are copied into memory.
unfoldable pub read_head : Header → Disk → Header
read_head memory d = set_header d.head memory

-- `recover_from_log`, after `read_head` has given `h`.
unfoldable pub recover_writes : ℕ → Header → List Write
recover_writes start h = install start h 0 h.n ++ header (no_blocks h) ∷ []

unfoldable pub recover : ℕ → Header → Disk → Disk
recover start memory d = write_all d (recover_writes start (read_head memory d))

-- `commit`
unfoldable pub commit_writes : ℕ → (ℕ → ℕ) → Header → List Write
commit_writes start cache h =
    if ltb 0 h.n
    then write_log start cache h 0 h.n
      ++ (header h ∷ (install start h 0 h.n ++ (header (no_blocks h) ∷ [])))
    else []

-- The state that `log.lock` guards.
pub record Log : Type 0 where
  pub size : ℕ
  pub outstanding : ℕ
  pub committing : Bool
  pub lh : Header

-- `begin_op` goes on (`some`) or sleeps with the log as it is (`none`).
unfoldable pub begin_op : Log → Option Log
begin_op l =
    if l.committing
    then none
    else if ltb log_size (l.lh.n + (l.outstanding + 1) * max_op_blocks)
    then none
    else some (record l { outstanding = l.outstanding + 1 })

-- What `end_op` does under the lock: it panics, leaves, or goes on to commit. Every `end_op`
-- follows its `begin_op`, so the count is positive when it is lowered.
pub data Ended : Type 0 where
  panicked : Ended
  left : Log → Ended
  commits : Log → Ended

unfoldable pub end_op : Log → Ended
end_op l =
    if l.committing
    then panicked
    else if l.outstanding == 1
    then commits (record l { outstanding = l.outstanding - 1; committing = true })
    else left (record l { outstanding = l.outstanding - 1 })

-- The rest of `end_op` after `commit()`, which has cleared a log that was not empty.
unfoldable pub committed : Log → Log
committed l = record l { committing = false; lh = if ltb 0 l.lh.n then no_blocks l.lh else l.lh }

-- The loop of `log_write`: the index of the block, or the count if it is not there yet.
unfoldable pub absorb : Header → ℕ → ℕ → ℕ → ℕ
absorb h b i zero = i
absorb h b i (suc k) = let later = absorb h b (suc i) k in if h.block i == b then i else later

-- `none` is a panic.
unfoldable pub log_write : Log → ℕ → Option Log
log_write l b =
    if leb log_size l.lh.n || leb (l.size - 1) l.lh.n
    then none
    else if ltb l.outstanding 1
    then none
    else (let i = absorb l.lh b 0 l.lh.n in
        some (record l {
          lh = record {
            n = if i == l.lh.n then l.lh.n + 1 else l.lh.n;
            block = put l.lh.block i b;
          };
        }))
