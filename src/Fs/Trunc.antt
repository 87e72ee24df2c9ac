-- ===== src/Fs/Trunc.antt =====
-- `itrunc` of kernel/filesystem/fs.c: all blocks of a file are freed, the direct ones, those of the
-- indirect block, then those below the double indirect block. What buffers hold is read when the code
-- reads it. The inode's size and its copy on disk are left out.
pub mod Lists
pub mod Parts
pub mod Freed
mod Examples
use oops_os.Prelude.{ℕ, zero, suc, ◌+◌, Bool, true, false, Option, none, some, ◌==◌, if◌then◌else◌}
use oops_os.Prelude.Arrays.{put}
use oops_os.Prelude.Options.{◌>>=◌}
use oops_os.Fs.Blocks.{Blocks, bfree}
use oops_os.Fs.Map.{File, n_direct, n_indirect}

-- `if(a[j]) bfree(ip->dev, a[j]);` over the entries from `j` on with `k` to go.
unfoldable pub free_words : (ℕ → ℕ) → ℕ → ℕ → Blocks → Option Blocks
free_words a j zero s = some s
free_words a j (suc k) s = (if a j == 0 then some s else bfree s (a j)) >>= free_words a (suc j) k

-- The direct blocks; each freed entry is cleared.
unfoldable pub free_direct : ℕ → ℕ → File → Option File
free_direct i zero f = some f
free_direct i (suc k) f =
    (if f.addrs i == 0
      then some f
      else bfree f.blocks (f.addrs i)
        >>= (λ s. some (record f { blocks = s; addrs = put f.addrs i 0 })))
    >>= free_direct (suc i) k

-- A block of numbers: the blocks that it names, then itself.
unfoldable pub free_table : ℕ → Blocks → Option Blocks
free_table b s = free_words (s.words b) 0 n_indirect s >>= (λ s'. bfree s' b)

-- The loop over the entries `a` of the double indirect block.
unfoldable pub free_tables : (ℕ → ℕ) → ℕ → ℕ → Blocks → Option Blocks
free_tables a i zero s = some s
free_tables a i (suc k) s =
    (if a i == 0 then some s else free_table (a i) s) >>= free_tables a (suc i) k

unfoldable pub free_indirect : File → Option File
free_indirect f =
    if f.addrs n_direct == 0
    then some f
    else free_table (f.addrs n_direct) f.blocks
      >>= (λ s. some (record f { blocks = s; addrs = put f.addrs n_direct 0 }))

unfoldable pub free_double : File → Option File
free_double f =
    if f.addrs (n_direct + 1) == 0
    then some f
    else free_tables (f.blocks.words (f.addrs (n_direct + 1))) 0 n_indirect f.blocks
      >>= (λ s. bfree s (f.addrs (n_direct + 1)))
      >>= (λ s. some (record f { blocks = s; addrs = put f.addrs (n_direct + 1) 0 }))

unfoldable pub itrunc : File → Option File
itrunc f = free_direct 0 n_direct f >>= free_indirect >>= free_double
