-- ===== src/Fs/Blocks/Free.antt =====
-- What `balloc` and `bfree` promise: a free block where there is one, and the counts in step with
-- the bitmap.
use oops_os.Prelude.{
  ℕ, zero, suc, ◌+◌, ◌-◌, ◌≤◌, ◌<◌, ◌≡◌, ◌≢◌, refl, sym, ◌∙◌, Bool, true, false, Option, none, some,
  arith, ltb, ◌==◌, Bool-cases, Option-cases, inl, inr, ◌⊎◌, ℕ_discrete, ap, subst, ◌↔◌,
}
use oops_os.Prelude.Arrays.{put, put_self, put_ne}
use oops_os.Fs.Blocks.{
  Blocks, free_from, search_start, wrap_around, find_free, take_block, balloc, bref_dec, drop_block,
  bfree,
}

-- The search returns a free block of the range, or there is none.
abbrev pub Found : (ℕ → Bool) → ℕ → ℕ → Option ℕ → Type 0
Found used b k none = (i : ℕ) → b ≤ i → i < b + k → used i ≡ true
Found used b k (some i) = (b ≤ i) × (i < b + k) × (used i ≡ false)

here : (used : ℕ → Bool) (b k : ℕ) → used b ≡ false → free_from used b (suc k) ≡ some b
unfolding free_from
here used b k e = simp e

free_from-Found : (used : ℕ → Bool) (b k : ℕ) → Found used b k (free_from used b k)
unfolding free_from
free_from-Found used b zero = λ i l m. absurd (omega arith)
free_from-Found used b (suc k) = elim (Bool-cases (used b)) [
  | inr e ↦ subst (Found used b (suc k)) (sym (here used b k e)) (omega arith, omega arith, e)
  | inl e ↦ simp e (later (free_from used (suc b) k) (free_from-Found used (suc b) k) e)
]
  where
    later : (r : Option ℕ) → Found used (suc b) k r → used b ≡ true → Found used b (suc k) r
    later none h e =
        λ i l m. elim (ℕ_discrete i b) [ yes q ↦ rw q e | no ne ↦ h i (omega arith) (omega arith) ]
    later (some i) h e = (omega (arith, h.0), omega (arith, h.1), h.2)

search_start-le : (s : Blocks) → search_start s ≤ s.size
unfolding search_start
search_start-le s = ground arith

-- The two loops together look at every block.
join_ranges :
    (used : ℕ → Bool) (start size : ℕ) (r : Option ℕ)
    → start ≤ size
    → ((i : ℕ) → start ≤ i → i < size → used i ≡ true)
    → Found used 0 start r
    → Found used 0 size r
join_ranges used start size (some i) l h g = (omega arith, omega (arith, g.1, l), g.2)
join_ranges used start size none l h g = λ i p m. elim (Bool-cases (ltb i start)) [
  | inl q ↦ g i p (ground arith)
  | inr q ↦ h i (ground arith) (ground arith)
]

wrap_around-Found :
    (s : Blocks) (r : Option ℕ)
    → Found s.used (search_start s) (s.size - search_start s) r
    → Found s.used 0 s.size (wrap_around s r)
unfolding wrap_around
wrap_around-Found s (some i) h = (omega arith, omega (arith, h.1, search_start-le s), h.2)
wrap_around-Found s none h = elim (Bool-cases (search_start s == 0)) [
  | inl e ↦ simp e (λ i l m. h i (ground arith) (omega (arith, m, search_start-le s)))
  | inr e ↦ simp e (
      join_ranges s.used (search_start s) s.size (free_from s.used 0 (search_start s))
        (search_start-le s) (λ i l m. h i l (omega arith))
        (free_from-Found s.used 0 (search_start s)))
]

pub find_free-Found : (s : Blocks) → Found s.used 0 s.size (find_free s)
unfolding find_free
find_free-Found s =
    wrap_around-Found s _ (free_from-Found s.used (search_start s) (s.size - search_start s))

-- Every block in use below the size has a reference or is one of the blocks below `start`, which
-- hold the file system itself, and no other block has one.
pub record IsCounted (start : ℕ) (s : Blocks) : Type 0 where
  pub system : (b : ℕ) → b < start → s.used b ≡ true
  pub unused : (b : ℕ) → s.used b ≡ false → s.ref b ≡ 0
  pub shared : (b : ℕ) → start ≤ b → b < s.size → s.used b ≡ true → 1 ≤ s.ref b

take_block-IsCounted :
    (start : ℕ) (s : Blocks) (b : ℕ) → IsCounted start s → IsCounted start (take_block s b)
unfolding take_block put
take_block-IsCounted start s b v = record {
  system = λ c l. ground (arith, v.system c l);
  unused = λ c e. ground (arith, v.unused c);
  shared = λ c l m e. ground (arith, v.shared c l m);
}

-- `b` has been taken: it was free and outside the file system's own blocks, is in use with one
-- reference and all zero, and nothing else has changed.
pub record IsTaken (start : ℕ) (s : Blocks) (b : ℕ) (t : Blocks) : Type 0 where
  pub outside : start ≤ b
  pub within : b < s.size
  pub was_free : s.used b ≡ false
  pub in_use : t.used b ≡ true
  pub referenced : t.ref b ≡ 1
  pub zeroed : (i : ℕ) → t.words b i ≡ 0
  pub same_size : t.size ≡ s.size
  pub others :
      (c : ℕ) → c ≢ b → (t.used c ≡ s.used c) × (t.ref c ≡ s.ref c) × (t.words c ≡ s.words c)
  pub counted : IsCounted start t

take_block-IsTaken :
    (start : ℕ) (s : Blocks) (b : ℕ)
    → IsCounted start s
    → b < s.size
    → s.used b ≡ false
    → IsTaken start s b (take_block s b)
unfolding take_block
take_block-IsTaken start s b v l e = record {
  outside = outside (Bool-cases (ltb b start));
  within = l;
  was_free = e;
  in_use = put_self s.used b true;
  referenced = put_self s.ref b (s.ref b + 1) ∙ omega (arith, v.unused b e);
  zeroed = λ i. ap (λ (f : ℕ → ℕ). f i) (put_self s.words b (λ i. 0));
  same_size = refl;
  others = λ c ne. (
    put_ne s.used b true c ne,
    put_ne s.ref b (s.ref b + 1) c ne,
    put_ne s.words b (λ i. 0) c ne,
  );
  counted = take_block-IsCounted start s b v;
}
  where
    outside : ((ltb b start) ≡ true) ⊎ ((ltb b start) ≡ false) → start ≤ b
    outside (inl q) = absurd (cc (v.system b (ground arith), e))
    outside (inr q) = ground arith

-- Where the counts are in step with the bitmap, `balloc` panics exactly if every block below the
-- size is in use. Otherwise it returns a block that was free, outside the file system's own blocks,
-- and is now in use with one reference and all zero; the bits, counts and words of all other blocks
-- are as they were, and the counts are in step with the bitmap again.
pub balloc_total :
    (start : ℕ) (s : Blocks)
    → IsCounted start s
    → ((balloc s ≡ none) × ((b : ℕ) → b < s.size → s.used b ≡ true))
      ⊎ ((b : ℕ) × (t : Blocks) × (balloc s ≡ some (b, t)) × IsTaken start s b t)
unfolding balloc
balloc_total start s v = elim (Option-cases (find_free s)) [
  | inl e ↦ inl (
    rw (balloc, e),
    λ b l. (subst (Found s.used 0 s.size) e (find_free-Found s)) b (omega arith) (omega arith),
  )
  | inr (b, e) ↦
      let f = subst (Found s.used 0 s.size) e (find_free-Found s) in
      inr
        (b, take_block s b, rw (balloc, e), take_block-IsTaken start s b v (omega (arith, f.1)) f.2)
]

bref_dec-IsCounted_shared :
    (start : ℕ) (s : Blocks) (b : ℕ)
    → IsCounted start s
    → 1 < s.ref b
    → IsCounted start (record s { ref = put s.ref b (s.ref b - 1) })
unfolding put
bref_dec-IsCounted_shared start s b v l = record {
  system = λ c m. v.system c m;
  unused = λ c e. ground (arith, v.unused c e);
  shared = λ c m n e. ground (arith, v.shared c m n e);
}

bfree-IsCounted_last :
    (start : ℕ) (s : Blocks) (b : ℕ)
    → IsCounted start s
    → start ≤ b
    → s.ref b ≡ 1
    → IsCounted start (record s { ref = put s.ref b (s.ref b - 1); used = put s.used b false })
unfolding put
bfree-IsCounted_last start s b v l e = record {
  system = λ c m. ground (arith, v.system c m);
  unused = λ c q. ground (arith, v.unused c);
  shared = λ c m n q. ground (arith, v.shared c m n);
}

-- `bfree` of a block that is in use, outside the file system's own blocks, does not panic. It takes
-- one reference away; the block is free afterwards exactly if that was the last one. Its words
-- and the other blocks stay as they were, and the counts in step with the bitmap.
pub bfree_lem :
    (start : ℕ) (s : Blocks) (b : ℕ)
    → IsCounted start s
    → start ≤ b
    → b < s.size
    → s.used b ≡ true
    → (t : Blocks) × (bfree s b ≡ some t)
      × (t.ref b + 1 ≡ s.ref b)
      × ((t.used b ≡ false) ↔ (s.ref b ≡ 1))
      × (t.words ≡ s.words)
      × ((c : ℕ) → c ≢ b → (t.used c ≡ s.used c) × (t.ref c ≡ s.ref c))
      × IsCounted start t
unfolding bfree bref_dec drop_block
bfree_lem start s b v l m e = elim (Bool-cases (ltb 0 (s.ref b - 1))) [
  | inl q ↦ (
    record s { ref = put s.ref b (s.ref b - 1) },
    ground (arith, v.shared b l m e),
    omega (arith, put_self s.ref b (s.ref b - 1), v.shared b l m e),
    ((λ u. cc u), (λ r. ground arith)),
    refl,
    (λ c ne. (refl, put_ne s.ref b (s.ref b - 1) c ne)),
    bref_dec-IsCounted_shared start s b v (ground arith),
  )
  | inr q ↦ (
    record s { ref = put s.ref b (s.ref b - 1); used = put s.used b false },
    ground (arith, v.shared b l m e),
    omega (arith, put_self s.ref b (s.ref b - 1), v.shared b l m e),
    ((λ u. ground (arith, v.shared b l m e)), (λ r. put_self s.used b false)),
    refl,
    (λ c ne. (put_ne s.used b false c ne, put_ne s.ref b (s.ref b - 1) c ne)),
    bfree-IsCounted_last start s b v l (ground (arith, v.shared b l m e)),
  )
]
