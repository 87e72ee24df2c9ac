-- ===== src/Fs/Cache.antt =====
-- The buffer cache, kernel/filesystem/bio.c: buffers in hash buckets, replaced by a clock. A bucket is
-- the list of its buffers from the head on. The part of `bget_common` that holds `evict_lock` is taken
-- as one step, and so is each other part under a bucket's lock; a buffer's sleep lock and its bytes
-- are left out, and with them what `virtio_disk_rw` does but for `valid`.
pub mod Clock
pub mod Lookup
mod Examples
use oops_os.Prelude.{
  ℕ, zero, suc, ◌+◌, ◌-◌, ◌%◌, Bool, true, false, not, ◌&&◌, Option, none, some, List, [], ◌∷◌, leb,
  ◌==◌, if◌then◌else◌,
}
use oops_os.Prelude.Arrays.{put}

abbrev pub n_buf : ℕ
n_buf = 30

abbrev pub n_bucket : ℕ
n_bucket = 13

-- `struct buf`
pub record Buf : Type 0 where
  pub dev : ℕ
  pub blockno : ℕ
  pub refcnt : ℕ
  pub refbit : Bool
  pub valid : Bool

-- `bcache`
pub record Cache : Type 0 where
  pub buf : ℕ → Buf
  pub buckets : ℕ → List ℕ
  pub clock_hand : ℕ
  pub ra_dev : ℕ
  pub ra_blockno : ℕ

abbrev pub hash : ℕ → ℕ
hash blockno = blockno % n_bucket

unfoldable pub holds : ℕ → ℕ → Buf → Bool
holds dev blockno b = b.dev == dev && b.blockno == blockno

-- The loop over a bucket.
unfoldable pub find_buf : (ℕ → Buf) → ℕ → ℕ → List ℕ → Option ℕ
find_buf buf dev blockno [] = none
find_buf buf dev blockno (i ∷ is) =
    let rest = find_buf buf dev blockno is in if holds dev blockno (buf i) then some i else rest

unfoldable pub find_cached : Cache → ℕ → ℕ → Option ℕ
find_cached c dev blockno = find_buf c.buf dev blockno (c.buckets (hash blockno))

unfoldable pub buf_cached : Cache → ℕ → ℕ → Bool
buf_cached c dev blockno = elim (find_cached c dev blockno) [ none ↦ false | some i ↦ true ]

-- One more user of a buffer that is found.
unfoldable pub hit : Cache → ℕ → Cache
hit c i = record c {
  buf = put c.buf i (record (c.buf i) { refcnt = (c.buf i).refcnt + 1; refbit = true });
}

-- `b->next->prev = b->prev; b->prev->next = b->next;`
unfoldable pub unlink : ℕ → List ℕ → List ℕ
unlink i [] = []
unlink i (j ∷ js) = if j == i then js else j ∷ unlink i js

unfoldable pub pass : Cache → Cache
pass c =
    let h = c.clock_hand in
    record c {
      clock_hand = (h + 1) % n_buf;
      buf =
          if (c.buf h).refcnt == 0
          then put c.buf h (record (c.buf h) { refbit = false })
          else c.buf;
    }

unfoldable pub evict : Cache → Cache
evict c =
    let h = c.clock_hand in
    record c {
      clock_hand = (h + 1) % n_buf;
      buf = put c.buf h (record (c.buf h) { refcnt = 1 });
      buckets =
          put c.buckets (hash ((c.buf h).blockno))
            (unlink h (c.buckets (hash ((c.buf h).blockno))));
    }

-- The loop that looks for a victim, with `k` rounds to go.
unfoldable pub clock : Cache → ℕ → Option ℕ × Cache
clock c zero = (none, c)
clock c (suc k) =
    let rest = clock (pass c) k in
    if (c.buf c.clock_hand).refcnt == 0 && not ((c.buf c.clock_hand).refbit)
    then (some c.clock_hand, evict c)
    else rest

-- The victim becomes the block's buffer, at the head of the block's bucket.
unfoldable pub claim : Cache → ℕ → ℕ → ℕ → Cache
claim c v dev blockno = record c {
  buf =
      put c.buf v (record (c.buf v) { dev = dev; blockno = blockno; valid = false; refbit = true });
  buckets = put c.buckets (hash blockno) (v ∷ c.buckets (hash blockno));
}

unfoldable pub claim_victim : ℕ → ℕ → Option ℕ × Cache → Option ℕ × Cache
claim_victim dev blockno (none, c) = (none, c)
claim_victim dev blockno (some v, c) = (some v, claim c v dev blockno)

-- `bget_common` from `evict_lock` on: the second look, and the clock. `none` is a panic for `bget`
-- and no buffer for `bget_ra`.
unfoldable pub bget_evict : Cache → ℕ → ℕ → Option ℕ × Cache
bget_evict c dev blockno = elim (find_cached c dev blockno) [
  | some i ↦ (some i, hit c i)
  | none ↦ claim_victim dev blockno (clock c (n_buf + n_buf))
]

unfoldable pub bget : Cache → ℕ → ℕ → Option ℕ × Cache
bget c dev blockno = elim (find_cached c dev blockno) [
  | some i ↦ (some i, hit c i)
  | none ↦ bget_evict c dev blockno
]

-- `brelse` and `bunpin` lower the count of a buffer that has users; `bpin` raises it.
unfoldable pub brelse : Cache → ℕ → Cache
brelse c i = record c { buf = put c.buf i (record (c.buf i) { refcnt = (c.buf i).refcnt - 1 }) }

unfoldable pub bpin : Cache → ℕ → Cache
bpin c i = record c { buf = put c.buf i (record (c.buf i) { refcnt = (c.buf i).refcnt + 1 }) }

unfoldable pub should_readahead : Cache → ℕ → ℕ → Bool × Cache
should_readahead c dev blockno = (
  c.ra_dev == dev && (c.ra_blockno + 1) % 4294967296 == blockno,
  record c { ra_dev = dev; ra_blockno = blockno },
)

-- `virtio_disk_rw(b, 0)` where the buffer is not valid.
unfoldable pub fetch : Cache → ℕ → Cache
fetch c i = record c { buf = put c.buf i (record (c.buf i) { valid = true }) }

abbrev pub fs_size : ℕ
fs_size = 100000

unfoldable pub clear_refbit : Cache → ℕ → Cache
clear_refbit c i = record c { buf = put c.buf i (record (c.buf i) { refbit = false }) }

unfoldable pub ahead : Option ℕ × Cache → Cache
ahead (none, c) = c
ahead (some i, c) = brelse (clear_refbit (fetch c i) i) i

unfoldable pub readahead : Cache → ℕ → ℕ → Cache
readahead c dev blockno =
    if leb fs_size blockno
    then c
    else if buf_cached c dev blockno
    then c
    else ahead (bget c dev blockno)

unfoldable pub bread_buf : ℕ → ℕ → Option ℕ × Cache → Option (ℕ × Cache)
bread_buf dev blockno (none, c) = none
bread_buf dev blockno (some i, c) =
    let (seq, c') = should_readahead (fetch c i) dev blockno in
    some (i, (if seq then readahead c' dev ((blockno + 1) % 4294967296) else c'))

unfoldable pub bread : Cache → ℕ → ℕ → Option (ℕ × Cache)
bread c dev blockno = bread_buf dev blockno (bget c dev blockno)

unfoldable pub count_up : ℕ → ℕ → List ℕ
count_up i zero = i ∷ []
count_up i (suc k) = (i + suc k) ∷ count_up i k

-- `binit`: every buffer is put at the head of bucket 0 in turn; `ra_dev` is `(uint)-1`.
unfoldable pub binit : Cache
binit = record {
  buf = λ i. record { dev = 0; blockno = 0; refcnt = 0; refbit = false; valid = false };
  buckets = λ b. if b == 0 then count_up 0 29 else [];
  clock_hand = 0;
  ra_dev = 4294967295;
  ra_blockno = 0;
}
