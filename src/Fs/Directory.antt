-- ===== src/Fs/Directory.antt =====
-- The directories of kernel/filesystem/fs.c: namecmp, dirlookup, dirlink. A directory's bytes are its
-- entries, 16 bytes each, and `size` counts bytes: `readi` of an entry is short exactly if the entry
-- does not lie within the size. An inode is its number, which `iget` is called with.
pub mod Names
pub mod Link
pub mod Grown
pub mod Search
pub mod Paths
pub mod Elements
mod Examples
use oops_os.Prelude.{
  ℕ, zero, suc, ◌+◌, ◌-◌, ◌*◌, ◌/◌, ◌%◌, ◌^◌, Bool, true, false, not, ◌&&◌, ◌||◌, Option, none,
  some, ltb, leb, ◌==◌, if◌then◌else◌, ℤ, pos,
}
use oops_os.Prelude.Arrays.{put}
use oops_os.Prelude.Search.{first_from}
use oops_os.Strings.{strncmp, strncpy}
use oops_os.Fs.Map.{n_direct, n_indirect, n_double}
use oops_os.Fs.Xattr.{is_zero}

abbrev pub dir_siz : ℕ
dir_siz = 14

-- `sizeof(de)`
abbrev pub entry_size : ℕ
entry_size = 16

-- `MAXFILE*BSIZE`
abbrev pub max_bytes : ℕ
max_bytes = (n_direct + n_indirect + n_double) * 1024

-- `struct dirent`
pub record Dirent : Type 0 where
  pub inum : ℕ
  pub name : ℕ → ℕ

pub record Dir : Type 0 where
  pub is_dir : Bool
  pub size : ℕ
  pub entries : ℕ → Dirent

-- How many entries are whole, and whether a part of one follows.
abbrev pub whole : Dir → ℕ
whole d = d.size / entry_size

abbrev pub is_ragged : Dir → Bool
is_ragged d = not (d.size % entry_size == 0)

unfoldable pub namecmp : (ℕ → ℕ) → (ℕ → ℕ) → ℤ
namecmp s t = strncmp s t dir_siz

pub data Lookup : Type 0 where
  lookup_panic missing : Lookup
  found : (inum off : ℕ) → Lookup

unfoldable pub matches : (ℕ → ℕ) → Dirent → Bool
matches name de = not (de.inum == 0) && is_zero (namecmp name de.name)

-- The loop stops at the first entry that matches; if there is none, it gets to a part of an entry.
unfoldable pub dirlookup : Dir → (ℕ → ℕ) → Lookup
dirlookup d name =
    if not d.is_dir
    then lookup_panic
    else elim (first_from (λ k. matches name (d.entries k)) 0 (whole d)) [
      | some k ↦ found ((d.entries k).inum) (k * entry_size)
      | none ↦ if is_ragged d then lookup_panic else missing
    ]

abbrev pub grown : Dir → ℕ → Dirent → Dir
grown d k de = record d {
  size = if ltb d.size (k * entry_size + entry_size) then k * entry_size + entry_size else d.size;
  entries = put d.entries k de;
}

-- `writei` of one entry; `room` is whether the disk has a block for it, if it needs one.
unfoldable pub write_entry : Bool → Dir → ℕ → Dirent → Option Dir
write_entry room d k de =
    if ltb d.size (k * entry_size) || ltb max_bytes (k * entry_size + entry_size) || not room
    then none
    else some (grown d k de)

pub data Linked : Type 0 where
  link_panic exists : Linked
  linked : Dir → Linked

-- `de` of `dirlink` after its loop; `junk` is what is on the stack before.
unfoldable pub last_read : Dirent → Dir → ℕ → Dirent
last_read junk d k =
    if ltb k (whole d) then d.entries k else if k == 0 then junk else d.entries (whole d - 1)

-- The first entry with no inode, or the place after all.
unfoldable pub free_entry : Dir → ℕ
free_entry d = elim (first_from (λ k. (d.entries k).inum == 0) 0 (whole d)) [
  | some k ↦ k
  | none ↦ whole d
]

-- An inode number is cut to the 16 bits of a `ushort`.
unfoldable pub new_dirent : Dirent → (ℕ → ℕ) → ℕ → Dirent
new_dirent de name inum = record { inum = inum % 2 ^ 16; name = strncpy de.name name dir_siz }

unfoldable pub link_at : Dirent → Bool → Dir → (ℕ → ℕ) → ℕ → ℕ → Linked
link_at junk room d name inum k =
    elim (write_entry room d k (new_dirent (last_read junk d k) name inum)) [
      | none ↦ link_panic
      | some d' ↦ linked d'
    ]

unfoldable pub dirlink : Dirent → Bool → Dir → (ℕ → ℕ) → ℕ → Linked
dirlink junk room d name inum = elim (dirlookup d name) [
  | lookup_panic ↦ link_panic
  | found i off ↦ exists
  | missing ↦ link_at junk room d name inum (free_entry d)
]
