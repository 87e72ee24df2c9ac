-- ===== src/Fs/Trunc/Lists.antt =====
-- The blocks of a file as a list, and what freeing a list does.
use oops_os.Prelude.{
  ℕ, zero, suc, ◌+◌, ◌≤◌, ◌<◌, ◌≡◌, ◌≢◌, refl, sym, ◌∙◌, ap, inl, inr, true, false, Option, some,
  List, [], ◌∷◌, ◌++◌, count, arith, ◌==◌, if◌then◌else◌, Bool-cases, ℕ_discrete, some_inj,
}
use oops_os.Prelude.Options.{◌>>=◌, >>=-eq-some}
use oops_os.Fs.Blocks.{Blocks, bfree, bref_dec, drop_block}
use oops_os.Fs.Blocks.Free.{IsCounted, bfree_lem}
use oops_os.Fs.Map.{File, n_direct, n_indirect}

-- The blocks that a file refers to, with repetitions, in the order in which they are freed.
unfoldable pub nonzero : (ℕ → ℕ) → ℕ → ℕ → List ℕ
nonzero a j zero = []
nonzero a j (suc k) = if a j == 0 then nonzero a (suc j) k else a j ∷ nonzero a (suc j) k

unfoldable pub table_blocks : (ℕ → ℕ → ℕ) → ℕ → List ℕ
table_blocks words b = nonzero (words b) 0 n_indirect ++ (b ∷ [])

unfoldable pub tables_blocks : (ℕ → ℕ → ℕ) → (ℕ → ℕ) → ℕ → ℕ → List ℕ
tables_blocks words a i zero = []
tables_blocks words a i (suc k) =
    let rest = tables_blocks words a (suc i) k in
    if a i == 0 then rest else table_blocks words (a i) ++ rest

unfoldable pub indirect_blocks : (ℕ → ℕ → ℕ) → ℕ → List ℕ
indirect_blocks words b = if b == 0 then [] else table_blocks words b

unfoldable pub double_blocks : (ℕ → ℕ → ℕ) → ℕ → List ℕ
double_blocks words b =
    if b == 0 then [] else tables_blocks words (words b) 0 n_indirect ++ (b ∷ [])

unfoldable pub file_blocks : File → List ℕ
file_blocks f =
    nonzero f.addrs 0 n_direct
    ++ (indirect_blocks f.blocks.words (f.addrs n_direct)
        ++ double_blocks f.blocks.words (f.addrs (n_direct + 1)))

unfoldable pub free_all : List ℕ → Blocks → Option Blocks
free_all [] s = some s
free_all (b ∷ bs) s = bfree s b >>= free_all bs

pub free_all-append :
    (xs ys : List ℕ) (s t : Blocks)
    → free_all (xs ++ ys) s ≡ some t
    → (s1 : Blocks) × (free_all xs s ≡ some s1) × (free_all ys s1 ≡ some t)
unfolding free_all
free_all-append [] ys s t e = (s, refl, e)
free_all-append (x ∷ xs) ys s t e =
    let (s1, b, r) = >>=-eq-some (bfree s x) (free_all (xs ++ ys)) e in
    let (s2, c, q) = free_all-append xs ys s1 t r in (s2, rw (b, free_all) c, q)

pub bfree-same :
    (s t : Blocks) (b : ℕ) → bfree s b ≡ some t → (t.words ≡ s.words) × (t.size ≡ s.size)
unfolding bfree bref_dec drop_block
bfree-same s t b e = ground arith

pub free_all-words : (xs : List ℕ) (s t : Blocks) → free_all xs s ≡ some t → t.words ≡ s.words
unfolding free_all
free_all-words [] s t e = ap (λ (x : Blocks). x.words) (sym (some_inj e))
free_all-words (x ∷ xs) s t e =
    let (s1, b, r) = >>=-eq-some (bfree s x) (free_all xs) e in
    free_all-words xs s1 t r ∙ (bfree-same s s1 x b).0

-- Freeing a list of blocks succeeds if each has the references for it.
pub free_all_lem :
    (start : ℕ) (xs : List ℕ) (s : Blocks)
    → IsCounted start s
    → ((b : ℕ) → 0 < count b xs → (start ≤ b) × (b < s.size) × (count b xs ≤ s.ref b))
    → (t : Blocks) × (free_all xs s ≡ some t)
      × ((b : ℕ) → t.ref b + count b xs ≡ s.ref b)
      × IsCounted start t
unfolding free_all
free_all_lem start [] s v h = (s, refl, λ b. omega arith, v)
free_all_lem start (x ∷ xs) s v h =
    let self : count x (x ∷ xs) ≡ 1 + count x xs = ground arith in
    let (low, high, enough) = h x (omega (arith, self)) in
    let (s1, e, one, last, words, others, v1) =
      bfree_lem start s x v low high (in_use low enough) in
    let left = after s1 e one (λ c ne. (others c ne).1) in
    let (t, q, refs, vt) = free_all_lem start xs s1 v1 left in
    (t, rw e q, λ b. counted s1 t one (λ c ne. (others c ne).1) refs b, vt)
  where
    in_use : start ≤ x → count x (x ∷ xs) ≤ s.ref x → s.used x ≡ true
    in_use low enough = elim (Bool-cases (s.used x)) [
      | inl u ↦ u
      | inr u ↦ absurd (ground (arith, enough, v.unused x u))
    ]

    left :
        (s1 : Blocks)
        → s1.ref x + 1 ≡ s.ref x
        → ((c : ℕ) → c ≢ x → s1.ref c ≡ s.ref c)
        → (b : ℕ) → count b (x ∷ xs) ≤ s.ref b
        → count b xs ≤ s1.ref b
    left s1 one others b m = elim (ℕ_discrete b x) [
      | yes e ↦ rw e (ground (arith, rw e at m, one))
      | no ne ↦
          let apart : (x == b) ≡ false = ground arith in omega (arith, rw apart at m, others b ne)
    ]

    after :
        (s1 : Blocks)
        → bfree s x ≡ some s1
        → s1.ref x + 1 ≡ s.ref x
        → ((c : ℕ) → c ≢ x → s1.ref c ≡ s.ref c)
        → (b : ℕ) → 0 < count b xs
        → (start ≤ b) × (b < s1.size) × (count b xs ≤ s1.ref b)
    after s1 e one others b c =
        let more : count b xs ≤ count b (x ∷ xs) = omega arith in
        let all = h b (omega (arith, c, more)) in
        let size = (bfree-same s s1 x e).1 in
        (all.0, omega (arith, all.1, size), left s1 one others b all.2)

    counted :
        (s1 t : Blocks)
        → s1.ref x + 1 ≡ s.ref x
        → ((c : ℕ) → c ≢ x → s1.ref c ≡ s.ref c)
        → ((b : ℕ) → t.ref b + count b xs ≡ s1.ref b)
        → (b : ℕ) → t.ref b + count b (x ∷ xs) ≡ s.ref b
    counted s1 t one others refs b = elim (ℕ_discrete b x) [
      | yes e ↦ rw e (ground (arith, refs x, one))
      | no ne ↦
          let apart : (x == b) ≡ false = ground arith in
          rw apart (omega (arith, refs b, others b ne))
    ]
