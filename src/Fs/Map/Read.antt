-- ===== src/Fs/Map/Read.antt =====
-- What `bmap_nalloc` finds after `bmap_set_existing`.
use oops_os.Prelude.{
  ℕ, ◌+◌, ◌-◌, ◌≤◌, ◌<◌, ◌≡◌, ◌≢◌, refl, sym, ◌∙◌, some, arith, ◌==◌, Bool-cases, Option-cases, inl,
  inr, ◌⊎◌, ℕ_discrete, ap, subst, some_inj,
}
use oops_os.Prelude.Arrays.{put, put_self, put_ne}
use oops_os.Fs.Map.{
  File, Place, in_inode, in_block, n_direct, n_indirect, read_place, write_place, find_place,
  bmap_nalloc, missing, bmap_set_existing,
}
use oops_os.Fs.Map.Found.{
  max_file, direct, single, double, beyond, range, high, low, find_direct, find_single, find_double,
  find_beyond, nalloc_found, nalloc_missing,
}

-- The inode's indirect blocks are different blocks.
pub record IsApart (f : File) : Type 0 where
  pub single_double : f.addrs n_direct ≢ 0 → f.addrs n_direct ≢ f.addrs (n_direct + 1)
  pub level_double :
      (i : ℕ)
      → f.blocks.words (f.addrs (n_direct + 1)) i ≢ 0
      → f.blocks.words (f.addrs (n_direct + 1)) i ≢ f.addrs (n_direct + 1)
  pub level_single :
      (i : ℕ)
      → f.blocks.words (f.addrs (n_direct + 1)) i ≢ 0
      → f.blocks.words (f.addrs (n_direct + 1)) i ≢ f.addrs n_direct
  pub level_level :
      (i j : ℕ)
      → i ≢ j
      → f.blocks.words (f.addrs (n_direct + 1)) i ≢ 0
      → f.blocks.words (f.addrs (n_direct + 1)) i ≢ f.blocks.words (f.addrs (n_direct + 1)) j

-- Where the block number of a file's block stands, for each kind.
pub data Stands (f : File) (bn : ℕ) : Place → Type 0 where
  at_direct : bn < n_direct → Stands f bn (in_inode bn)
  at_single :
      n_direct ≤ bn
      → bn < n_direct + n_indirect
      → f.addrs n_direct ≢ 0
      → Stands f bn (in_block (f.addrs n_direct) (bn - n_direct))
  at_double :
      n_direct + n_indirect ≤ bn
      → bn < max_file
      → f.addrs (n_direct + 1) ≢ 0
      → f.blocks.words (f.addrs (n_direct + 1)) (high bn) ≢ 0
      → Stands f bn (in_block (f.blocks.words (f.addrs (n_direct + 1)) (high bn)) (low bn))

pub find_place-Stands : (f : File) (bn : ℕ) (p : Place) → find_place f bn ≡ some p → Stands f bn p
find_place-Stands f bn p e = elim (range bn) [
  | direct l ↦ subst (Stands f bn) (some_inj (sym (find_direct f bn l) ∙ e)) (at_direct l)
  | beyond l ↦ absurd (cc (find_beyond f bn l, e))
  | single l m ↦
      let h = sym (find_single f bn l m) ∙ e in
      elim (Bool-cases (f.addrs n_direct == 0)) [
        | inl z ↦ absurd (cc (rw z at h))
        | inr z ↦ subst (Stands f bn) (some_inj (rw z at h)) (at_single l m (λ u. ground arith))
      ]
  | double l m ↦
      let h = sym (find_double f bn l m) ∙ e in
      elim (Bool-cases (f.addrs (n_direct + 1) == 0)) [
        | inl z ↦ absurd (cc (rw z at h))
        | inr z ↦ elim (Bool-cases (f.blocks.words (f.addrs (n_direct + 1)) (high bn) == 0)) [
          | inl y ↦ absurd (cc (rw (z, y) at h))
          | inr y ↦
              subst (Stands f bn) (some_inj (rw (z, y) at h))
                (at_double l m (λ u. ground arith) (λ u. ground arith))
        ]
      ]
]

pub Stands-find_place : (f : File) (bn : ℕ) {p : Place} → Stands f bn p → find_place f bn ≡ some p
Stands-find_place f bn (at_direct l) = find_direct f bn l
Stands-find_place f bn (at_single l m n) = find_single f bn l m ∙ ground arith
Stands-find_place f bn (at_double l m n k) = find_double f bn l m ∙ ground arith

-- The same way to every file's block.
record SameWay (f f' : File) : Type 0 where
  single : f'.addrs n_direct ≡ f.addrs n_direct
  double : f'.addrs (n_direct + 1) ≡ f.addrs (n_direct + 1)
  level : f'.blocks.words (f.addrs (n_direct + 1)) ≡ f.blocks.words (f.addrs (n_direct + 1))

find_place-SameWay : (f f' : File) (bn : ℕ) → SameWay f f' → find_place f' bn ≡ find_place f bn
find_place-SameWay f f' bn w = elim (range bn) [
  | direct l ↦ find_direct f' bn l ∙ sym (find_direct f bn l)
  | beyond l ↦ find_beyond f' bn l ∙ sym (find_beyond f bn l)
  | single l m ↦ find_single f' bn l m ∙ rw w.single (sym (find_single f bn l m))
  | double l m ↦ find_double f' bn l m ∙ rw (w.double, w.level) (sym (find_double f bn l m))
]

-- Writing a block number at its place leaves the way to every block as it was.
write_place-SameWay :
    (f : File) (bn addr : ℕ) {p : Place}
    → IsApart f
    → Stands f bn p
    → SameWay f (write_place f p addr)
unfolding write_place
write_place-SameWay f bn addr v (at_direct l) = record {
  single = put_ne f.addrs bn addr n_direct (λ e. omega arith);
  double = put_ne f.addrs bn addr (n_direct + 1) (λ e. omega arith);
  level = refl;
}
write_place-SameWay f bn addr v (at_single l m n) = record {
  single = refl;
  double = refl;
  level = put_ne f.blocks.words _ _ _ (λ e. v.single_double n (sym e));
}
write_place-SameWay f bn addr v (at_double l m n k) = record {
  single = refl;
  double = refl;
  level = put_ne f.blocks.words _ _ _ (λ e. v.level_double (high bn) k (sym e));
}

pub read-write_self : (f : File) (p : Place) (addr : ℕ) → read_place (write_place f p addr) p ≡ addr
unfolding read_place write_place put
read-write_self f (in_inode i) addr = ground arith
read-write_self f (in_block b i) addr = ground arith

-- Different blocks of a file have their numbers at different places.
Stands-read_ne :
    (f : File) (bn bn' addr : ℕ) {p p' : Place}
    → IsApart f
    → bn ≢ bn'
    → Stands f bn p
    → Stands f bn' p'
    → read_place (write_place f p addr) p' ≡ read_place f p'
unfolding read_place write_place
Stands-read_ne f bn bn' addr v ne (at_direct l) (at_direct l') =
    put_ne f.addrs bn addr bn' (λ e. ne (sym e))
Stands-read_ne f bn bn' addr v ne (at_direct l) (at_single l' m' n') = refl
Stands-read_ne f bn bn' addr v ne (at_direct l) (at_double l' m' n' k') = refl
Stands-read_ne f bn bn' addr v ne (at_single l m n) (at_direct l') = refl
Stands-read_ne f bn bn' addr v ne (at_single l m n) (at_single l' m' n') =
    ap (λ (g : ℕ → ℕ). g (bn' - n_direct)) (put_self f.blocks.words _ _)
    ∙ put_ne _ _ addr _ (λ e. ne (omega arith))
Stands-read_ne f bn bn' addr v ne (at_single l m n) (at_double l' m' n' k') =
    ap (λ (g : ℕ → ℕ). g (low bn')) (put_ne f.blocks.words _ _ _ (v.level_single (high bn') k'))
Stands-read_ne f bn bn' addr v ne (at_double l m n k) (at_direct l') = refl
Stands-read_ne f bn bn' addr v ne (at_double l m n k) (at_single l' m' n') =
    ap (λ (g : ℕ → ℕ). g (bn' - n_direct))
      (put_ne f.blocks.words _ _ _ (λ e. v.level_single (high bn) k (sym e)))
Stands-read_ne f bn bn' addr v ne (at_double l m n k) (at_double l' m' n' k') =
    elim (ℕ_discrete (high bn) (high bn')) [
      | yes q ↦ rw (← q) (
          ap (λ (g : ℕ → ℕ). g (low bn')) (put_self f.blocks.words _ _)
          ∙ put_ne _ (low bn) addr (low bn') (λ e. ne (omega arith)))
      | no nq ↦
          ap (λ (g : ℕ → ℕ). g (low bn'))
            (put_ne f.blocks.words _ _ _ (v.level_level (high bn') (high bn) (λ e. nq (sym e)) k'))
    ]

-- `bmap_set_existing` on an inode whose indirect blocks are different blocks: if an indirect block is
-- missing on the way, or the number is out of range, it says so and changes nothing. Otherwise
-- `bmap_nalloc` finds the new block for `bn` and the old ones for all other blocks of the file.
pub bmap_set_existing_lem :
    (f : File) (bn addr : ℕ)
    → IsApart f
    → (bmap_set_existing f bn addr ≡ (missing, f))
      ⊎ ((bmap_nalloc (bmap_set_existing f bn addr).1 bn ≡ addr)
          × ((other : ℕ)
              → bn ≢ other
              → bmap_nalloc (bmap_set_existing f bn addr).1 other ≡ bmap_nalloc f other))
unfolding bmap_set_existing
bmap_set_existing_lem f bn addr v = elim (Option-cases (find_place f bn)) [
  | inl e ↦ inl (rw (bmap_set_existing, e))
  | inr (p, e) ↦ inr (rw (bmap_set_existing, e) (written p e))
]
  where
    written :
        (p : Place)
        → find_place f bn ≡ some p
        → (bmap_nalloc (write_place f p addr) bn ≡ addr)
          × ((other : ℕ)
              → bn ≢ other
              → bmap_nalloc (write_place f p addr) other ≡ bmap_nalloc f other)
    written p e =
        let st : Stands f bn p = find_place-Stands f bn p e in
        let w : SameWay f (write_place f p addr) = write_place-SameWay f bn addr v st in
        (
          nalloc_found _ bn p (find_place-SameWay f _ bn w ∙ e) ∙ read-write_self f p addr,
          λ other ne. elim (Option-cases (find_place f other)) [
            | inl q ↦
                nalloc_missing _ other (find_place-SameWay f _ other w ∙ q)
                ∙ sym (nalloc_missing f other q)
            | inr (p', q) ↦
                nalloc_found _ other p' (find_place-SameWay f _ other w ∙ q)
                ∙ Stands-read_ne f bn other addr v ne st (find_place-Stands f other p' q)
                ∙ sym (nalloc_found f other p' q)
          ],
        )
