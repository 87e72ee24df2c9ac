-- ===== src/Fs/Cache/Examples.antt =====
-- The first block that is read after the cache has been initialised.
use oops_os.Prelude.{ℕ, ◌≡◌, ◌≢◌, ◌<◌, ◌⊎◌, false, none, some, arith, ◌+◌}
use oops_os.Fs.Cache.{Cache, n_buf, find_cached, clock, bget, binit}
use oops_os.Fs.Cache.Clock.{IsKept, clock_lem}
use oops_os.Fs.Cache.Lookup.{IsServed, bget_lem}

clock_lem_example :
    ((c' : Cache) × (clock binit (n_buf + n_buf) ≡ (none, c'))
      × ((i : ℕ) → i < n_buf → (binit.buf i).refcnt ≢ 0)
      × ((i : ℕ) → IsKept (binit.buf i) (c'.buf i)))
    ⊎ ((v : ℕ) × (c' : Cache) × (clock binit (n_buf + n_buf) ≡ (some v, c'))
        × (v < n_buf)
        × ((binit.buf v).refcnt ≡ 0)
        × ((c'.buf v).refcnt ≡ 1)
        × ((i : ℕ) → i ≢ v → IsKept (binit.buf i) (c'.buf i)))
unfolding binit
clock_lem_example = clock_lem binit (omega arith)

bget_lem_example :
    (((bget binit 1 33).0 ≡ none)
      × (find_cached binit 1 33 ≡ none)
      × ((i : ℕ) → i < n_buf → (binit.buf i).refcnt ≢ 0))
    ⊎ ((i : ℕ) × (c' : Cache) × (bget binit 1 33 ≡ (some i, c'))
        × IsServed binit 1 33 i c'
        × (find_cached binit 1 33 ≡ none → ((binit.buf i).refcnt ≡ 0) × ((c'.buf i).valid ≡ false)))
unfolding binit
bget_lem_example = bget_lem binit 1 33 (omega arith)
