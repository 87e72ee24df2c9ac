-- ===== src/Fs/Map.antt =====
-- Which disk block holds a file's block (kernel/filesystem/fs.c, bmap and its kin): direct block
-- numbers in the inode, then those in one indirect block, then those in the blocks of a double
-- indirect block. 0 stands for no block; `none` is a panic.
pub mod Found
pub mod Read
mod Examples
use oops_os.Prelude.{
  ℕ, zero, suc, ◌+◌, ◌-◌, ◌*◌, ◌/◌, ◌%◌, Bool, true, false, not, ◌&&◌, ◌||◌, Option, none, some,
  ltb, leb, ◌==◌, if◌then◌else◌,
}
use oops_os.Prelude.Arrays.{put}
use oops_os.Prelude.Options.{◌>>=◌}
use oops_os.Fs.Blocks.{Blocks, balloc, bref_get, bfree}

abbrev pub n_direct : ℕ
n_direct = 11

abbrev pub n_indirect : ℕ
n_indirect = 256

abbrev pub n_double : ℕ
n_double = 65536

-- The file system's blocks and the inode's `addrs`, whose entries `n_direct` and `n_direct + 1` are
-- the indirect and the double indirect block.
pub record File : Type 0 where
  pub blocks : Blocks
  pub addrs : ℕ → ℕ

-- Where a block number stands: in the inode, or at a place of an indirect block.
pub data Place : Type 0 where
  in_inode : ℕ → Place
  in_block : ℕ → ℕ → Place

unfoldable pub read_place : File → Place → ℕ
read_place f (in_inode i) = f.addrs i
read_place f (in_block b i) = f.blocks.words b i

unfoldable pub write_place : File → Place → ℕ → File
write_place f (in_inode i) addr = record f { addrs = put f.addrs i addr }
write_place f (in_block b i) addr = record f {
  blocks = record f.blocks { words = put f.blocks.words b (put (f.blocks.words b) i addr) };
}

-- `if((addr = *p) == 0) *p = addr = balloc(dev);`
unfoldable pub fill : File → Place → Option (ℕ × File)
unfolding read_place
fill f p =
    if read_place f p == 0
    then balloc f.blocks >>= (λ r. some (r.0, write_place (record f { blocks = r.1 }) p r.0))
    else some (read_place f p, f)

-- The first part of `bmap`: the place for the block, with the indirect blocks on the way there.
unfoldable pub locate : File → ℕ → Option (Place × File)
unfolding fill
locate f bn =
    if ltb bn n_direct
    then some (in_inode bn, f)
    else if ltb (bn - n_direct) n_indirect
    then fill f (in_inode n_direct) >>= (λ r. some (in_block r.0 (bn - n_direct), r.1))
    else if ltb (bn - n_direct - n_indirect) n_double
    then fill f (in_inode (n_direct + 1)) >>= (λ r.
      fill r.1 (in_block r.0 ((bn - n_direct - n_indirect) / 256))
      >>= (λ q. some (in_block q.0 ((bn - n_direct - n_indirect) % 256), q.1)))
    else none

-- A block that others share is copied before it is written.
unfoldable pub unshare : File → Place → ℕ → Option (ℕ × File)
unfolding write_place
unshare f p addr = balloc f.blocks >>= (λ r.
    let copied = record (r.1) { words = put r.1.words r.0 (r.1.words addr) } in
    let f' = write_place (record f { blocks = copied }) p r.0 in
    bfree f'.blocks addr >>= (λ b. some (r.0, record f' { blocks = b })))

-- The last part of `bmap`, once the place holds a block.
unfoldable pub settle : Bool → Place → ℕ × File → Option (ℕ × File)
unfolding unshare
settle for_write p r =
    if for_write && not (r.0 == 0)
    then bref_get r.1.blocks r.0 >>= (λ n. if ltb 1 n then unshare r.1 p r.0 else some r)
    else some r

unfoldable pub bmap : File → ℕ → Bool → Option (ℕ × File)
unfolding locate settle
bmap f bn for_write = locate f bn >>= (λ l. fill l.1 l.0 >>= (λ r. settle for_write l.0 r))

-- The place for the block, where no indirect block on the way is missing.
unfoldable pub find_place : File → ℕ → Option Place
find_place f bn =
    if ltb bn n_direct
    then some (in_inode bn)
    else if ltb (bn - n_direct) n_indirect
    then (if f.addrs n_direct == 0
        then none
        else some (in_block (f.addrs n_direct) (bn - n_direct)))
    else if ltb (bn - n_direct - n_indirect) n_double
    then (if f.addrs (n_direct + 1) == 0
        then none
        else (let one =
              f.blocks.words (f.addrs (n_direct + 1)) ((bn - n_direct - n_indirect) / 256) in
            if one == 0 then none else some (in_block one ((bn - n_direct - n_indirect) % 256))))
    else none

unfoldable pub bmap_nalloc : File → ℕ → ℕ
unfolding find_place read_place
bmap_nalloc f bn = elim (find_place f bn) [ none ↦ 0 | some p ↦ read_place f p ]

-- The return values 1, 0 and -1 of the two functions below.
pub data Mapped : Type 0 where
  needs_update unchanged missing : Mapped

abbrev pub place_result : Place → Mapped
place_result (in_inode i) = needs_update
place_result (in_block b i) = unchanged

unfoldable pub bmap_set_existing : File → ℕ → ℕ → Mapped × File
unfolding find_place write_place
bmap_set_existing f bn addr = elim (find_place f bn) [
  | none ↦ (missing, f)
  | some p ↦ (place_result p, write_place f p addr)
]

-- Whether a fill has changed the inode.
abbrev pub update_if : Bool → Mapped
update_if b = if b then needs_update else unchanged

unfoldable pub bmap_ensure : File → ℕ → Option (Mapped × File)
unfolding fill
bmap_ensure f bn =
    if ltb bn n_direct
    then some (unchanged, f)
    else if ltb (bn - n_direct) n_indirect
    then fill f (in_inode n_direct) >>= (λ r. some (update_if (f.addrs n_direct == 0), r.1))
    else if ltb (bn - n_direct - n_indirect) n_double
    then fill f (in_inode (n_direct + 1)) >>= (λ r.
      fill r.1 (in_block r.0 ((bn - n_direct - n_indirect) / 256))
      >>= (λ q. some (update_if (f.addrs (n_direct + 1) == 0), q.1)))
    else some (missing, f)
