-- ===== src/Sync/Flock/Examples.antt =====
-- Locks of one inode by two files, on concrete states.
use oops_os.Prelude.{ℕ, ◌≡◌, ◌≢◌, ◌≤◌, true, arith}
use oops_os.Prelude.Arrays.{put}
use oops_os.Prelude.Sums.{sum_below}
use oops_os.Sync.Flock.{unlocked, shared, exclusive, lock_sh, lock_ex, lock_un, Lock, flock}
use oops_os.Sync.Flock.Held.{is_shared}
use oops_os.Sync.Flock.Holders.{
  Inode, Reach, start, next, calls, flock_exclusive, flock_twice_leaks,
}

abbrev idle : Lock
idle = record { kind = unlocked; count = 0 }

-- File 0 has taken the lock exclusively.
abbrev locked : Inode
locked = record {
  lock = (flock idle unlocked lock_ex true).1;
  held = put (λ f. unlocked) 0 (flock idle unlocked lock_ex true).2;
}

locked-Reach : Reach 2 locked
locked-Reach = next start (calls 0 lock_ex true (omega arith))

flock_exclusive_example :
    (locked.held 0 ≡ exclusive
      → (locked.lock.kind ≡ exclusive) × (locked.held 1 ≢ unlocked → ◌≡◌ {A = ℕ} 0 1))
    × (locked.held 0 ≡ shared
        → (locked.lock.kind ≡ shared)
          × (sum_below 2 (λ i. is_shared (locked.held i)) ≤ locked.lock.count))
flock_exclusive_example = flock_exclusive 2 0 1 locked-Reach (omega arith) (omega arith)

flock_twice_leaks_example :
    let one = flock idle unlocked lock_sh true in
    let two = flock one.1 one.2 lock_sh true in
    let back = flock two.1 two.2 lock_un true in
    (back.2 ≡ unlocked) × (back.1.kind ≡ shared) × (back.1.count ≡ 1)
flock_twice_leaks_example = flock_twice_leaks idle true (λ q. cc q)
