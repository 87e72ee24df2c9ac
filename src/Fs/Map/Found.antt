-- ===== src/Fs/Map/Found.antt =====
-- Where the blocks of a file stand, and `bmap` of one that is there.
use oops_os.Prelude.{
  ℕ, ◌+◌, ◌-◌, ◌/◌, ◌%◌, ◌≤◌, ◌<◌, ◌≡◌, ◌≢◌, ◌∙◌, false, none, some, arith, ltb, ◌==◌,
  if◌then◌else◌, Bool-cases, Option-cases, inl, inr,
}
use oops_os.Fs.Map.{
  File, Place, in_inode, in_block, n_direct, n_indirect, read_place, fill, locate, settle, bmap,
  find_place, bmap_nalloc,
}

abbrev pub max_file : ℕ
max_file = 65803

-- Which of the three kinds of block numbers has the file's block `bn`.
pub data Range (bn : ℕ) : Type 0 where
  direct : bn < n_direct → Range bn
  single : n_direct ≤ bn → bn < n_direct + n_indirect → Range bn
  double : n_direct + n_indirect ≤ bn → bn < max_file → Range bn
  beyond : max_file ≤ bn → Range bn

pub range : (bn : ℕ) → Range bn
range bn = elim (Bool-cases (ltb bn n_direct)) [
  | inl e ↦ direct (ground arith)
  | inr e ↦ elim (Bool-cases (ltb bn (n_direct + n_indirect))) [
    | inl g ↦ single (ground arith) (ground arith)
    | inr g ↦ elim (Bool-cases (ltb bn max_file)) [
      | inl h ↦ double (ground arith) (ground arith)
      | inr h ↦ beyond (ground arith)
    ]
  ]
]

abbrev pub high : ℕ → ℕ
high bn = (bn - n_direct - n_indirect) / 256

abbrev pub low : ℕ → ℕ
low bn = (bn - n_direct - n_indirect) % 256

pub find_direct : (f : File) (bn : ℕ) → bn < n_direct → find_place f bn ≡ some (in_inode bn)
unfolding find_place
find_direct f bn l = ground arith

pub find_single :
    (f : File) (bn : ℕ)
    → n_direct ≤ bn
    → bn < n_direct + n_indirect
    → find_place f bn
      ≡ (if f.addrs n_direct == 0 then none else some (in_block (f.addrs n_direct) (bn - n_direct)))
unfolding find_place
find_single f bn l m = ground arith

pub find_double :
    (f : File) (bn : ℕ)
    → n_direct + n_indirect ≤ bn
    → bn < max_file
    → find_place f bn ≡ (
        if f.addrs (n_direct + 1) == 0
        then none
        else if f.blocks.words (f.addrs (n_direct + 1)) (high bn) == 0
        then none
        else some (in_block (f.blocks.words (f.addrs (n_direct + 1)) (high bn)) (low bn)))
unfolding find_place
find_double f bn l m = ground arith

pub find_beyond : (f : File) (bn : ℕ) → max_file ≤ bn → find_place f bn ≡ none
unfolding find_place
find_beyond f bn l = ground arith

pub fill_full : (f : File) (p : Place) → read_place f p ≢ 0 → fill f p ≡ some (read_place f p, f)
unfolding fill
fill_full f p h = ground arith

-- No indirect block is missing on the way: `locate` takes the same way and changes nothing.
locate_found :
    (f : File) (bn : ℕ) (p : Place) → find_place f bn ≡ some p → locate f bn ≡ some (p, f)
unfolding locate find_place read_place
locate_found f bn p e = ground arith

pub nalloc_found :
    (f : File) (bn : ℕ) (p : Place) → find_place f bn ≡ some p → bmap_nalloc f bn ≡ read_place f p
unfolding bmap_nalloc
nalloc_found f bn p e = rw (bmap_nalloc, e)

pub nalloc_missing : (f : File) (bn : ℕ) → find_place f bn ≡ none → bmap_nalloc f bn ≡ 0
unfolding bmap_nalloc
nalloc_missing f bn e = rw (bmap_nalloc, e)

-- `bmap` that only reads a block which is mapped returns the block that `bmap_nalloc` finds, and
-- changes nothing.
pub bmap_mapped :
    (f : File) (bn : ℕ) → bmap_nalloc f bn ≢ 0 → bmap f bn false ≡ some (bmap_nalloc f bn, f)
unfolding bmap settle
bmap_mapped f bn h = elim (Option-cases (find_place f bn)) [
  | inl e ↦ absurd (h (nalloc_missing f bn e))
  | inr (p, e) ↦
      rw (locate_found f bn p e, nalloc_found f bn p e)
        (rw (fill_full f p (λ z. h (nalloc_found f bn p e ∙ z))))
]
