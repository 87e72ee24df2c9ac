-- ===== src/Fs/Blocks.antt =====
-- The blocks of a file system (kernel/filesystem/fs.c): the bitmap of used blocks, the reference
-- counts that clones share blocks by, and the words that a block holds. `none` is a panic. The
-- buffer cache is the contents themselves; `log_write` records a block and changes none.
pub mod Free
mod Examples
use oops_os.Prelude.{
  ℕ, zero, suc, ◌+◌, ◌-◌, Bool, true, false, not, Option, none, some, ltb, leb, ◌==◌, if◌then◌else◌,
}
use oops_os.Prelude.Arrays.{put}

-- `size` is `sb.size`, `used` the bitmap, `hint` is `balloc_state.hint`; `words b i` is the `i`th
-- `uint` of block `b`.
pub record Blocks : Type 0 where
  pub size : ℕ
  pub used : ℕ → Bool
  pub ref : ℕ → ℕ
  pub hint : ℕ
  pub words : ℕ → ℕ → ℕ

-- The first block that is not used among the `k` from `b` on. The two loops of `balloc`, over the
-- bitmap's blocks and the bits of each, visit the block numbers in this order.
unfoldable pub free_from : (ℕ → Bool) → ℕ → ℕ → Option ℕ
free_from used b zero = none
free_from used b (suc k) = let later = free_from used (suc b) k in if used b then later else some b

unfoldable pub search_start : Blocks → ℕ
search_start s = if leb s.size s.hint then 0 else s.hint

-- The second loop, from 0 to the hint, where the first has found nothing.
unfoldable pub wrap_around : Blocks → Option ℕ → Option ℕ
wrap_around s (some b) = some b
wrap_around s none = if search_start s == 0 then none else free_from s.used 0 (search_start s)

-- From the hint to the end, then from 0 to the hint.
unfoldable pub find_free : Blocks → Option ℕ
find_free s = wrap_around s (free_from s.used (search_start s) (s.size - search_start s))

-- The block is marked, zeroed (`bzero`) and referenced once more.
unfoldable pub take_block : Blocks → ℕ → Blocks
take_block s b = record s {
  used = put s.used b true;
  words = put s.words b (λ i. 0);
  ref = put s.ref b (s.ref b + 1);
  hint = b + 1;
}

unfoldable pub balloc : Blocks → Option (ℕ × Blocks)
balloc s = elim (find_free s) [ none ↦ none | some b ↦ some (b, take_block s b) ]

unfoldable pub bref_inc : Blocks → ℕ → Option Blocks
bref_inc s b = if leb s.size b then none else some (record s { ref = put s.ref b (s.ref b + 1) })

unfoldable pub bref_dec : Blocks → ℕ → Option (ℕ × Blocks)
bref_dec s b =
    if leb s.size b
    then none
    else if ltb (s.ref b) 1
    then none
    else some (s.ref b - 1, record s { ref = put s.ref b (s.ref b - 1) })

unfoldable pub bref_get : Blocks → ℕ → Option ℕ
bref_get s b = if leb s.size b then none else some (s.ref b)

-- `bfree` once the reference is given back: the last one frees the block.
unfoldable pub drop_block : ℕ × Blocks → ℕ → Option Blocks
drop_block (left, s) b =
    if ltb 0 left
    then some s
    else if not (s.used b)
    then none
    else some (record s { used = put s.used b false })

unfoldable pub bfree : Blocks → ℕ → Option Blocks
unfolding bref_dec drop_block
bfree s b = elim (bref_dec s b) [ none ↦ none | some r ↦ drop_block r b ]
