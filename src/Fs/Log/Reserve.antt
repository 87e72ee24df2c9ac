-- ===== src/Fs/Log/Reserve.antt =====
-- `begin_op`, `log_write` and `end_op` by several processes: the space that each operation has
-- reserved. The lock is held through each call, so calls happen one at a time.
use oops_os.Prelude.{ℕ, suc, ◌+◌, ◌≤◌, ◌≡◌, true, false, some, List, [], ◌∷◌, length}
use oops_os.Fs.Log.{
  Log, log_size, max_op_blocks, begin_op, left, commits, end_op, committed, log_write,
}

-- The log with, for each operation that is under way, the blocks that it may still write.
pub record Session : Type 0 where
  pub log : Log
  pub budgets : List ℕ

-- One operation with blocks left writes one of them.
pub data Spend : List ℕ → List ℕ → Type 0 where
  here : {k : ℕ} {bs : List ℕ} → Spend (suc k ∷ bs) (k ∷ bs)
  later : {k : ℕ} {bs cs : List ℕ} → Spend bs cs → Spend (k ∷ bs) (k ∷ cs)

-- One operation ends, with what it has left.
pub data Leave : List ℕ → List ℕ → Type 0 where
  here : {k : ℕ} {bs : List ℕ} → Leave (k ∷ bs) bs
  later : {k : ℕ} {bs cs : List ℕ} → Leave bs cs → Leave (k ∷ bs) (k ∷ cs)

pub data Step (s : Session) : Session → Type 0 where
  begins :
      {l : Log}
      → begin_op s.log ≡ some l
      → Step s (record { log = l; budgets = max_op_blocks ∷ s.budgets })
  writes :
      {l : Log} {bs : List ℕ} (b : ℕ)
      → Spend s.budgets bs
      → log_write s.log b ≡ some l
      → Step s (record { log = l; budgets = bs })
  ends :
      {l : Log} {bs : List ℕ}
      → Leave s.budgets bs
      → end_op s.log ≡ left l
      → Step s (record { log = l; budgets = bs })
  ends_last :
      {l : Log} {bs : List ℕ}
      → Leave s.budgets bs
      → end_op s.log ≡ commits l
      → Step s (record { log = l; budgets = bs })
  finishes : s.log.committing ≡ true → Step s (record s { log = committed s.log })

-- A log of `size` blocks after `initlog`.
abbrev pub fresh : ℕ → (ℕ → ℕ) → Session
fresh size block = record {
  log = record {
    size = size;
    outstanding = 0;
    committing = false;
    lh = record { n = 0; block = block };
  };
  budgets = [];
}

pub data Reach (size : ℕ) (block : ℕ → ℕ) : Session → Type 0 where
  start : Reach size block (fresh size block)
  next : {s t : Session} → Reach size block s → Step s t → Reach size block t

abbrev pub sum : List ℕ → ℕ
sum [] = 0
sum (k ∷ ks) = k + sum ks

-- No operation has more left than it may write in all.
abbrev pub IsWithin : List ℕ → Type 0
IsWithin [] = Unit
IsWithin (k ∷ ks) = (k ≤ max_op_blocks) × IsWithin ks

pub record IsReserved (size : ℕ) (s : Session) : Type 0 where
  pub counted : s.log.outstanding ≡ length s.budgets
  pub fits : s.log.lh.n + sum s.budgets ≤ log_size
  pub within : IsWithin s.budgets
  pub alone : s.log.committing ≡ true → s.log.outstanding ≡ 0
  pub size_same : s.log.size ≡ size
