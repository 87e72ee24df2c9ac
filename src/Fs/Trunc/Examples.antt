-- ===== src/Fs/Trunc/Examples.antt =====
-- A file with two references to block 50, and block 51 by its indirect block 60.
use oops_os.Prelude.{
  ℕ, ◌+◌, ◌≤◌, ◌<◌, ◌≡◌, List, [], ◌∷◌, count, ◌||◌, some, ◌==◌, if◌then◌else◌, ltb, refl, arith,
  subst, sym,
}
use oops_os.Fs.Blocks.{Blocks}
use oops_os.Fs.Blocks.Free.{IsCounted}
use oops_os.Fs.Map.{File, n_direct}
use oops_os.Fs.Trunc.{itrunc}
use oops_os.Fs.Trunc.Lists.{nonzero, table_blocks, indirect_blocks, double_blocks, file_blocks}
use oops_os.Fs.Trunc.Freed.{itrunc_lem}

abbrev some_blocks : Blocks
some_blocks = record {
  size = 100;
  used = λ b. ltb b 40 || b == 50 || b == 51 || b == 60;
  ref = λ b. if b == 50 then 2 else if b == 51 then 1 else if b == 60 then 1 else 0;
  hint = 0;
  words = λ b i. if b == 60 then (if i == 0 then 51 else 0) else 0;
}

abbrev some_file : File
some_file = record {
  blocks = some_blocks;
  addrs = λ i. if i == 0 then 50 else if i == 1 then 50 else if i == 11 then 60 else 0;
}

some_blocks-IsCounted : IsCounted 40 some_blocks
some_blocks-IsCounted = record {
  system = λ b l. ground (arith, l);
  unused = λ b e. ground (arith, e);
  shared = λ b l m e. ground (arith, l, m, e);
}

some_file_blocks : file_blocks some_file ≡ 50 ∷ 50 ∷ 51 ∷ 60 ∷ []
unfolding file_blocks nonzero indirect_blocks table_blocks double_blocks
some_file_blocks = refl

referenced :
    (b : ℕ)
    → 0 < count b (50 ∷ 50 ∷ 51 ∷ 60 ∷ [])
    → (40 ≤ b) × (b < 100) × (count b (50 ∷ 50 ∷ 51 ∷ 60 ∷ []) ≤ some_blocks.ref b)
referenced b h = ground (arith, h)

itrunc_lem_example :
    (f' : File) × (itrunc some_file ≡ some f')
    × ((i : ℕ) → i < n_direct + 2 → f'.addrs i ≡ 0)
    × ((b : ℕ) → f'.blocks.ref b + count b (file_blocks some_file) ≡ some_blocks.ref b)
    × (f'.blocks.words ≡ some_blocks.words)
    × IsCounted 40 f'.blocks
itrunc_lem_example = itrunc_lem 40 some_file some_blocks-IsCounted (
    subst
      (λ (xs : List ℕ).
        (b : ℕ) → 0 < count b xs → (40 ≤ b) × (b < 100) × (count b xs ≤ some_blocks.ref b))
      (sym some_file_blocks) referenced)
