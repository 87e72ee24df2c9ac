-- ===== src/Fs/Trunc/Freed.antt =====
-- `itrunc` gives back each reference that a file has to a block, once.
use oops_os.Prelude.{
  ℕ, ◌+◌, ◌≤◌, ◌<◌, ◌≡◌, sym, ◌∙◌, ap, some, List, ◌++◌, count, arith, ℕ_discrete, subst,
}
use oops_os.Prelude.Options.{◌>>=◌}
use oops_os.Fs.Blocks.{Blocks}
use oops_os.Fs.Blocks.Free.{IsCounted}
use oops_os.Fs.Map.{File, n_direct}
use oops_os.Fs.Trunc.{free_indirect, free_double, itrunc}
use oops_os.Fs.Trunc.Lists.{
  nonzero, indirect_blocks, double_blocks, file_blocks, free_all, free_all-append, free_all-words,
  free_all_lem,
}
use oops_os.Fs.Trunc.Parts.{free_direct-all, free_indirect-all, free_double-all}

tables-all :
    (words : ℕ → ℕ → ℕ) (f : File) (t : Blocks)
    → f.blocks.words ≡ words
    → free_all
        (indirect_blocks words (f.addrs n_direct) ++ double_blocks words (f.addrs (n_direct + 1)))
        f.blocks
      ≡ some t
    → (f' : File) × ((free_indirect f >>= free_double) ≡ some f')
      × (f'.blocks ≡ t)
      × (f'.addrs n_direct ≡ 0)
      × (f'.addrs (n_direct + 1) ≡ 0)
      × ((j : ℕ) → j < n_direct → f'.addrs j ≡ f.addrs j)
tables-all words f t w e =
    let one = indirect_blocks words (f.addrs n_direct) in
    let two = double_blocks words (f.addrs (n_direct + 1)) in
    let (s1, a, b) = free_all-append one two f.blocks t e in
    let (f1, q1, e1, z1, o1) = free_indirect-all words f s1 w a in
    let w1 = ap (λ (x : Blocks). x.words) e1 ∙ (free_all-words one f.blocks s1 a ∙ w) in
    let moved = subst (λ (x : Blocks). free_all two x ≡ some t) (sym e1) b in
    let here =
      subst (λ (n : ℕ). free_all (double_blocks words n) f1.blocks ≡ some t)
        (sym (o1 (n_direct + 1) (λ x. omega (arith, x)))) moved in
    let (f2, q2, e2, z2, o2) = free_double-all words f1 t w1 here in
    (
      f2,
      rw q1 q2,
      e2,
      o2 n_direct (λ x. omega (arith, x)) ∙ z1,
      z2,
      λ j l. o2 j (λ x. omega (arith, l, x)) ∙ o1 j (λ x. omega (arith, l, x)),
    )

itrunc-all :
    (f : File) (t : Blocks)
    → free_all (file_blocks f) f.blocks ≡ some t
    → (f' : File) × (itrunc f ≡ some f')
      × (f'.blocks ≡ t)
      × ((i : ℕ) → i < n_direct + 2 → f'.addrs i ≡ 0)
unfolding itrunc file_blocks
itrunc-all f t e =
    let words = f.blocks.words in
    let tables = λ (x y : ℕ). indirect_blocks words x ++ double_blocks words y in
    let direct = nonzero f.addrs 0 n_direct in
    let (s1, a, b) =
      free_all-append direct (tables (f.addrs n_direct) (f.addrs (n_direct + 1))) f.blocks t e in
    let (f1, q1, e1, z1, low, high) = free_direct-all 0 n_direct f s1 a in
    let w1 = ap (λ (x : Blocks). x.words) e1 ∙ free_all-words direct f.blocks s1 a in
    let same =
      ap (λ (x : ℕ). tables x (f1.addrs (n_direct + 1))) (high n_direct (omega arith))
      ∙ ap (tables (f.addrs n_direct)) (high (n_direct + 1) (omega arith)) in
    let moved =
      subst
        (λ (x : Blocks). free_all (tables (f.addrs n_direct) (f.addrs (n_direct + 1))) x ≡ some t)
        (sym e1) b in
    let here = subst (λ (xs : List ℕ). free_all xs f1.blocks ≡ some t) (sym same) moved in
    let (f2, q2, e2, z2, y2, o2) = tables-all words f1 t w1 here in
    (f2, rw q1 q2, e2, cleared f2 z2 y2 (λ j l. o2 j l ∙ z1 j (omega arith) (omega (arith, l))))
  where
    cleared :
        (f' : File)
        → f'.addrs n_direct ≡ 0
        → f'.addrs (n_direct + 1) ≡ 0
        → ((j : ℕ) → j < n_direct → f'.addrs j ≡ 0)
        → (i : ℕ) → i < n_direct + 2
        → f'.addrs i ≡ 0
    cleared f' a b c i l = elim (ℕ_discrete i n_direct) [
      | yes e ↦ ap f'.addrs e ∙ a
      | no n ↦ elim (ℕ_discrete i (n_direct + 1)) [
        | yes e ↦ ap f'.addrs e ∙ b
        | no m ↦ c i (omega (arith, l, n, m))
      ]
    ]

-- `itrunc` in a file system whose counts are in step with its bitmap, of a file all of whose blocks lie
-- behind the file system's own and have as many references at least as the file has to them. It returns,
-- the inode has no block any more, each block has lost exactly the references that the file had to it, and
-- so is free if there were no others; what blocks hold is as it was.
pub itrunc_lem :
    (start : ℕ) (f : File)
    → IsCounted start f.blocks
    → ((b : ℕ)
        → 0 < count b (file_blocks f)
        → (start ≤ b) × (b < f.blocks.size) × (count b (file_blocks f) ≤ f.blocks.ref b))
    → (f' : File) × (itrunc f ≡ some f')
      × ((i : ℕ) → i < n_direct + 2 → f'.addrs i ≡ 0)
      × ((b : ℕ) → f'.blocks.ref b + count b (file_blocks f) ≡ f.blocks.ref b)
      × (f'.blocks.words ≡ f.blocks.words)
      × IsCounted start f'.blocks
itrunc_lem start f v h =
    let (t, e, refs, vt) = free_all_lem start (file_blocks f) f.blocks v h in
    let (f', q, b, z) = itrunc-all f t e in
    (
      f',
      q,
      z,
      λ c. ap (λ (x : Blocks). x.ref c + count c (file_blocks f)) b ∙ refs c,
      ap (λ (x : Blocks). x.words) b ∙ free_all-words (file_blocks f) f.blocks t e,
      subst (IsCounted start) (sym b) vt,
    )
