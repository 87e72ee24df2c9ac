-- ===== src/Fs/Trunc/Parts.antt =====
-- Each loop of `itrunc` frees the blocks of one part of a file.
use oops_os.Prelude.{
  ℕ, zero, suc, ◌+◌, ◌≤◌, ◌<◌, ◌≡◌, ◌≢◌, refl, sym, ◌∙◌, ap, inl, inr, Option, none, some, List, [],
  ◌∷◌, ◌++◌, arith, ◌==◌, Bool-cases, ℕ_discrete, subst, some_inj,
}
use oops_os.Prelude.Arrays.{put, put_self, put_ne}
use oops_os.Prelude.Options.{◌>>=◌, >>=-eq-some}
use oops_os.Fs.Blocks.{Blocks, bfree}
use oops_os.Fs.Map.{File, n_direct, n_indirect}
use oops_os.Fs.Trunc.{free_words, free_direct, free_table, free_tables, free_indirect, free_double}
use oops_os.Fs.Trunc.Lists.{
  nonzero, table_blocks, tables_blocks, indirect_blocks, double_blocks, free_all, free_all-append,
  free_all-words,
}

-- The loops of `itrunc` free these lists.
free_words-all :
    (a : ℕ → ℕ) (j k : ℕ) (s : Blocks) → free_words a j k s ≡ free_all (nonzero a j k) s
unfolding free_words free_all nonzero
free_words-all a j zero s = refl
free_words-all a j (suc k) s = elim (Bool-cases (a j == 0)) [
  | inl z ↦ rw z (free_words-all a (suc j) k s)
  | inr z ↦ rw z (more (bfree s (a j)) (free_words-all a (suc j) k))
]
  where
    more :
        (m : Option Blocks)
        → ((s' : Blocks) → free_words a (suc j) k s' ≡ free_all (nonzero a (suc j) k) s')
        → (m >>= free_words a (suc j) k) ≡ (m >>= free_all (nonzero a (suc j) k))
    more none h = refl
    more (some s') h = h s'

free_all-one : (b : ℕ) (s t : Blocks) → free_all (b ∷ []) s ≡ some t → bfree s b ≡ some t
unfolding free_all
free_all-one b s t e =
    let (s1, q, r) = >>=-eq-some (bfree s b) (free_all []) e in q ∙ ap some (some_inj r)

free_table-all :
    (words : ℕ → ℕ → ℕ) (b : ℕ) (s t : Blocks)
    → s.words ≡ words
    → free_all (table_blocks words b) s ≡ some t
    → free_table b s ≡ some t
unfolding free_table table_blocks
free_table-all words b s t w e =
    let here = subst (λ (ws : ℕ → ℕ → ℕ). free_all (table_blocks ws b) s ≡ some t) (sym w) e in
    let (s1, q, r) = free_all-append (nonzero (s.words b) 0 n_indirect) (b ∷ []) s t here in
    rw (free_words-all (s.words b) 0 n_indirect s ∙ q) (free_all-one b s1 t r)

free_tables-all :
    (words : ℕ → ℕ → ℕ) (a : ℕ → ℕ) (i k : ℕ) (s t : Blocks)
    → s.words ≡ words
    → free_all (tables_blocks words a i k) s ≡ some t
    → free_tables a i k s ≡ some t
unfolding free_tables tables_blocks free_all
free_tables-all words a i zero s t w e = e
free_tables-all words a i (suc k) s t w e = elim (Bool-cases (a i == 0)) [
  | inl z ↦ rw z (free_tables-all words a (suc i) k s t w (rw z at e))
  | inr z ↦
      let (s1, q, r) =
        free_all-append (table_blocks words (a i)) (tables_blocks words a (suc i) k) s t
          (rw z at e) in
      rw (z, free_table-all words (a i) s s1 w q)
        (free_tables-all words a (suc i) k s1 t
          (free_all-words (table_blocks words (a i)) s s1 q ∙ w) r)
]

-- A write below the range is not seen in it.
nonzero-put : (a : ℕ → ℕ) (i j k : ℕ) → i < j → nonzero (put a i 0) j k ≡ nonzero a j k
unfolding nonzero
nonzero-put a i j zero l = refl
nonzero-put a i j (suc k) l =
    rw (put_ne a i 0 j (λ e. omega (arith, l, e)), nonzero-put a i (suc j) k (omega (arith, l)))
      refl

pub free_direct-all :
    (i k : ℕ) (f : File) (t : Blocks)
    → free_all (nonzero f.addrs i k) f.blocks ≡ some t
    → (f' : File) × (free_direct i k f ≡ some f')
      × (f'.blocks ≡ t)
      × ((j : ℕ) → i ≤ j → j < i + k → f'.addrs j ≡ 0)
      × ((j : ℕ) → j < i → f'.addrs j ≡ f.addrs j)
      × ((j : ℕ) → i + k ≤ j → f'.addrs j ≡ f.addrs j)
unfolding free_direct free_all nonzero
free_direct-all i zero f t e =
    (f, refl, some_inj e, λ j l m. absurd (omega (arith, l, m)), λ j l. refl, λ j l. refl)
free_direct-all i (suc k) f t e = elim (Bool-cases (f.addrs i == 0)) [
  | inl z ↦
      let (f', q, b, now, low, high) = free_direct-all (suc i) k f t (rw z at e) in
      (
        f',
        rw z q,
        b,
        cleared f' (low i (omega arith) ∙ ground arith) now,
        λ j l. low j (omega (arith, l)),
        λ j l. high j (omega (arith, l)),
      )
  | inr z ↦
      let (s1, p, r) =
        >>=-eq-some (bfree f.blocks (f.addrs i)) (free_all (nonzero f.addrs (suc i) k))
          (rw z at e) in
      let f1 : File = record f { blocks = s1; addrs = put f.addrs i 0 } in
      let rest =
        subst (λ (xs : List ℕ). free_all xs s1 ≡ some t)
          (sym (nonzero-put f.addrs i (suc i) k (omega arith))) r in
      let (f', q, b, now, low, high) = free_direct-all (suc i) k f1 t rest in
      (
        f',
        rw (z, p) q,
        b,
        cleared f' (low i (omega arith) ∙ put_self f.addrs i 0) now,
        λ j l. low j (omega (arith, l)) ∙ put_ne f.addrs i 0 j (λ x. omega (arith, l, x)),
        λ j l. high j (omega (arith, l)) ∙ put_ne f.addrs i 0 j (λ x. omega (arith, l, x)),
      )
]
  where
    cleared :
        (f' : File)
        → f'.addrs i ≡ 0
        → ((j : ℕ) → suc i ≤ j → j < suc i + k → f'.addrs j ≡ 0)
        → (j : ℕ) → i ≤ j
        → j < i + suc k
        → f'.addrs j ≡ 0
    cleared f' z now j l m = elim (ℕ_discrete j i) [
      | yes e ↦ ap f'.addrs e ∙ z
      | no ne ↦ now j (omega (arith, l, ne)) (omega (arith, m))
    ]

-- The last two parts clear the entry of their block, and no other.
abbrev Clears : File → ℕ → Blocks → Option File → Type 0
Clears f i t res =
    (f' : File) × (res ≡ some f')
    × (f'.blocks ≡ t)
    × (f'.addrs i ≡ 0)
    × ((j : ℕ) → j ≢ i → f'.addrs j ≡ f.addrs j)

pub free_indirect-all :
    (words : ℕ → ℕ → ℕ) (f : File) (t : Blocks)
    → f.blocks.words ≡ words
    → free_all (indirect_blocks words (f.addrs n_direct)) f.blocks ≡ some t
    → Clears f n_direct t (free_indirect f)
unfolding free_indirect indirect_blocks free_all
free_indirect-all words f t w e = elim (Bool-cases (f.addrs n_direct == 0)) [
  | inl z ↦ (f, rw z refl, some_inj (rw z at e), ground arith, λ j ne. refl)
  | inr z ↦ (
    record f { blocks = t; addrs = put f.addrs n_direct 0 },
    rw (z, free_table-all words (f.addrs n_direct) f.blocks t w (rw z at e)) refl,
    refl,
    put_self f.addrs n_direct 0,
    λ j ne. put_ne f.addrs n_direct 0 j ne,
  )
]

pub free_double-all :
    (words : ℕ → ℕ → ℕ) (f : File) (t : Blocks)
    → f.blocks.words ≡ words
    → free_all (double_blocks words (f.addrs (n_direct + 1))) f.blocks ≡ some t
    → Clears f (n_direct + 1) t (free_double f)
unfolding free_double double_blocks free_all
free_double-all words f t w e = elim (Bool-cases (f.addrs (n_direct + 1) == 0)) [
  | inl z ↦ (f, rw z refl, some_inj (rw z at e), ground arith, λ j ne. refl)
  | inr z ↦
      let b = f.addrs (n_direct + 1) in
      let here =
        subst
          (λ (ws : ℕ → ℕ → ℕ).
            free_all (tables_blocks ws (ws b) 0 n_indirect ++ (b ∷ [])) f.blocks ≡ some t)
          (sym w) (rw z at e) in
      let (s1, q, r) =
        free_all-append (tables_blocks f.blocks.words (f.blocks.words b) 0 n_indirect) (b ∷ [])
          f.blocks t here in
      (
        record f { blocks = t; addrs = put f.addrs (n_direct + 1) 0 },
        rw
            (
              z,
              free_tables-all f.blocks.words (f.blocks.words b) 0 n_indirect f.blocks s1 refl q,
              free_all-one b s1 t r,
            )
            refl,
        refl,
        put_self f.addrs (n_direct + 1) 0,
        λ j ne. put_ne f.addrs (n_direct + 1) 0 j ne,
      )
]
