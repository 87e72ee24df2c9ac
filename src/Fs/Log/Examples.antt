-- ===== src/Fs/Log/Examples.antt =====
-- A transaction of two blocks in a log of four, and the theorems there.
use oops_os.Prelude.{ℕ, ◌+◌, ◌≡◌, refl, false, arith, inr, ◌⊎◌, ◌==◌, if◌then◌else◌}
use oops_os.Prelude.Arrays.{put}
use oops_os.Fs.Log.{
  Header, Disk, Log, log_size, write_all, write_one, commit_writes, write_log, install, recover,
}
use oops_os.Fs.Log.Install.{IsHeader}
use oops_os.Fs.Log.Recovery.{IsClean}
use oops_os.Fs.Log.Commit.{updated, commit_atomic, crashed_again}

-- The log is at blocks 2 to 5; blocks 10 and 11 are written.
abbrev transaction : Header
transaction = record { n = 2; block = λ i. if i == 0 then 10 else 11 }

abbrev disk : Disk
disk = record { head = record { n = 0; block = λ i. 0 }; data_of = λ b. b }

abbrev cached : ℕ → ℕ
cached b = b + 100

installed : (write_all disk (commit_writes 2 cached transaction)).data_of 11 ≡ 111
unfolding write_all write_one commit_writes write_log install put
installed = refl

transaction-IsHeader : IsHeader 2 4 transaction
transaction-IsHeader = record { few = omega arith; homes = λ i l. inr (ground arith) }

disk-IsClean : IsClean 2 4 disk.data_of disk
disk-IsClean = record { room = omega arith; empty = refl; in_place = λ b h. refl }

-- The commit stops after the header is written, the recovery after one copy.
commit_atomic_example :
    IsClean 2 4 disk.data_of
      (recover 2 transaction (crashed_again 2 cached transaction disk 3 transaction 1))
    ⊎ IsClean 2 4
        (updated transaction cached disk.data_of)
        (recover 2 transaction (crashed_again 2 cached transaction disk 3 transaction 1))
commit_atomic_example =
    commit_atomic 2 4 cached disk.data_of transaction disk 3 1 transaction transaction
      transaction-IsHeader disk-IsClean

abbrev one_op : Log
one_op = record {
  size = log_size;
  outstanding = 1;
  committing = false;
  lh = record { n = 0; block = λ i. 0 };
}
