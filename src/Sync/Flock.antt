-- ===== src/Sync/Flock.antt =====
-- `fileflock` of kernel/filesystem/file.c: shared and exclusive locks of open files on one inode. Each
-- stretch under `flock_lock`, up to the return or a sleep, is one step.
pub mod Held
pub mod Holders
mod Examples
use oops_os.Prelude.{ℕ, suc, ◌+◌, ◌-◌, Bool, true, false, ◌&&◌, ◌||◌, not, ◌==◌, if◌then◌else◌}

-- LOCK_SH, LOCK_EX and no lock (0), for the inode's `flock_type` and a file's `flock_held`.
pub data Kind : Type 0 where
  unlocked shared exclusive : Kind

-- The operation without LOCK_NB: one of these two locks, LOCK_UN, or another number.
pub data Op : Type 0 where
  lock_sh lock_ex lock_un other : Op

abbrev pub same_kind : Kind → Kind → Bool
same_kind unlocked unlocked = true
same_kind shared shared = true
same_kind exclusive exclusive = true
same_kind _ _ = false

-- The inode's fields.
pub record Lock : Type 0 where
  pub kind : Kind
  pub count : ℕ

pub data Outcome : Type 0 where
  done failed sleeps : Outcome

-- What a file that holds a lock gives back, by the inode's kind. A shared lock counts at least 1, so
-- the `int` count is never lowered from 0.
unfoldable pub drop_by : Kind → Lock → Lock
drop_by shared l = record {
  kind = if l.count - 1 == 0 then unlocked else l.kind;
  count = l.count - 1;
}
drop_by exclusive l = record { kind = unlocked; count = 0 }
drop_by unlocked l = l

unfoldable pub unlock : Lock → Kind → Outcome × Lock × Kind
unlock l held =
    if same_kind held unlocked then (done, l, held) else (done, drop_by l.kind l, unlocked)

-- `flock_held != op` for the two locks.
abbrev pub is_op : Kind → Op → Bool
is_op shared lock_sh = true
is_op exclusive lock_ex = true
is_op _ _ = false

-- The first part of a call that locks: a lock of the other kind is given back.
unfoldable pub convert : Lock → Kind → Op → Lock × Kind
convert l held op =
    if not (same_kind held unlocked) && not (is_op held op)
    then (drop_by l.kind l, unlocked)
    else (l, held)

-- The loop and what follows it: a wait that LOCK_NB turns into a failure, or the lock.
unfoldable pub acquire : Lock → Kind → Op → Bool → Outcome × Lock × Kind
acquire l held lock_sh nonblock =
    if same_kind l.kind exclusive
    then ((if nonblock then failed else sleeps), l, held)
    else (done, record { kind = shared; count = l.count + 1 }, shared)
acquire l held lock_ex nonblock =
    if not (same_kind l.kind unlocked)
    then ((if nonblock then failed else sleeps), l, held)
    else (done, record { kind = exclusive; count = 1 }, exclusive)
acquire l held lock_un nonblock = (failed, l, held)
acquire l held other nonblock = (failed, l, held)

unfoldable pub flock : Lock → Kind → Op → Bool → Outcome × Lock × Kind
flock l held lock_un nonblock = unlock l held
flock l held lock_sh nonblock = let c = convert l held lock_sh in acquire c.0 c.1 lock_sh nonblock
flock l held lock_ex nonblock = let c = convert l held lock_ex in acquire c.0 c.1 lock_ex nonblock
flock l held other nonblock = let c = convert l held other in acquire c.0 c.1 other nonblock
