-- ===== src/Fs/Blocks/Examples.antt =====
-- A file system of eight blocks, the first three of them its own.
use oops_os.Prelude.{
  ℕ, ◌≡◌, ◌≢◌, ◌<◌, ◌+◌, refl, true, false, none, some, ltb, ◌==◌, if◌then◌else◌, arith, ◌⊎◌, ◌↔◌,
}
use oops_os.Fs.Blocks.{Blocks, balloc, bfree}
use oops_os.Fs.Blocks.Free.{IsCounted, IsTaken, balloc_total, bfree_lem}

-- Block 3 is in use and shared by two.
abbrev small : Blocks
small = record {
  size = 8;
  used = λ i. ltb i 4;
  ref = λ i. if i == 3 then 2 else 0;
  hint = 6;
  words = λ b i. 0;
}

small-IsCounted : IsCounted 3 small
small-IsCounted = record {
  system = λ b l. ground arith;
  unused = λ b e. ground arith;
  shared = λ b l m e. ground arith;
}

balloc_total_example :
    ((balloc small ≡ none) × ((b : ℕ) → b < 8 → ltb b 4 ≡ true))
    ⊎ ((b : ℕ) × (t : Blocks) × (balloc small ≡ some (b, t)) × IsTaken 3 small b t)
balloc_total_example = balloc_total 3 small small-IsCounted

bfree_lem_example :
    (t : Blocks) × (bfree small 3 ≡ some t)
    × (t.ref 3 + 1 ≡ 2)
    × ((t.used 3 ≡ false) ↔ (◌≡◌ {A = ℕ} 2 1))
    × (t.words ≡ small.words)
    × ((c : ℕ) → c ≢ 3 → (t.used c ≡ small.used c) × (t.ref c ≡ small.ref c))
    × IsCounted 3 t
bfree_lem_example = bfree_lem 3 small 3 small-IsCounted (omega arith) (omega arith) refl
