-- ===== src/Fs/Xattr.antt =====
-- kernel/filesystem/xattr.c: the extended attributes of files, a table in memory. Each call runs under
-- the table's lock. Buffers and names are functions from offsets to bytes.
pub mod Access
pub mod Stored
mod Examples
use oops_os.Prelude.{
  ℕ, zero, suc, ◌+◌, ◌-◌, Bool, true, false, not, ◌&&◌, ◌||◌, Option, none, some, ltb, leb, ◌==◌,
  if◌then◌else◌, ℤ, pos, negsuc, pos_part, ltb_ℤ, Status, ok, err,
}
use oops_os.Prelude.Arrays.{put}
use oops_os.Prelude.Search.{first_from}
use oops_os.Strings.{strncmp, strncpy, strlen_from}

abbrev pub name_max : ℕ
name_max = 64

abbrev pub value_max : ℕ
value_max = 256

abbrev pub max_attrs : ℕ
max_attrs = 8

abbrev pub table_size : ℕ
table_size = 64

-- `struct xattr_entry`
pub record Entry : Type 0 where
  pub name : ℕ → ℕ
  pub value : ℕ → ℕ
  pub value_len : ℕ
  pub used : Bool

-- `struct xattr_inode`
pub record Attrs : Type 0 where
  pub dev : ℕ
  pub inum : ℕ
  pub attrs : ℕ → Entry
  pub used : Bool

abbrev pub Table : Type 0
Table = ℕ → Attrs

unfoldable pub is_inode : ℕ → ℕ → Attrs → Bool
is_inode dev inum a = a.used && a.dev == dev && a.inum == inum

unfoldable pub new_attrs : ℕ → ℕ → Attrs → Attrs
new_attrs dev inum a = record {
  dev = dev;
  inum = inum;
  used = true;
  attrs = λ j. if ltb j max_attrs then (record (a.attrs j) { used = false }) else a.attrs j;
}

-- `xattr_find_or_create` without and with `create`: the index of the inode's entry.
unfoldable pub find_inode : Table → ℕ → ℕ → Option ℕ
find_inode t dev inum = first_from (λ i. is_inode dev inum (t i)) 0 table_size

unfoldable pub find_empty : Table → Option ℕ
find_empty t = first_from (λ i. not ((t i).used)) 0 table_size

unfoldable pub find_or_create : Table → ℕ → ℕ → Option (ℕ × Table)
find_or_create t dev inum = elim (find_inode t dev inum) [
  | some i ↦ some (i, t)
  | none ↦ elim (find_empty t) [
    | some i ↦ some (i, put t i (new_attrs dev inum (t i)))
    | none ↦ none
  ]
]

abbrev pub is_zero : ℤ → Bool
is_zero (pos n) = n == 0
is_zero (negsuc n) = false

-- The entry is in use under the name.
unfoldable pub has_name : (ℕ → ℕ) → Entry → Bool
has_name name e = e.used && is_zero (strncmp e.name name name_max)

unfoldable pub find_name : Attrs → (ℕ → ℕ) → Option ℕ
find_name a name = first_from (λ i. has_name name (a.attrs i)) 0 max_attrs

unfoldable pub find_slot : Attrs → Option ℕ
find_slot a = first_from (λ i. not ((a.attrs i).used)) 0 max_attrs

-- `memmove(dst, src, n)` of different buffers.
unfoldable pub copied : (ℕ → ℕ) → (ℕ → ℕ) → ℕ → ℕ → ℕ
copied dst src n i = if ltb i n then src i else dst i

unfoldable pub update_value : Entry → (ℕ → ℕ) → ℕ → Entry
update_value e value size = record e { value = copied e.value value size; value_len = size }

unfoldable pub new_entry : Entry → (ℕ → ℕ) → (ℕ → ℕ) → ℕ → Entry
new_entry e name value size = record {
  name = strncpy e.name name name_max;
  value = copied e.value value size;
  value_len = size;
  used = true;
}

-- The two loops of `xattr_set` on the attributes of the inode; `none` when all are taken.
unfoldable pub set_attr : Attrs → (ℕ → ℕ) → (ℕ → ℕ) → ℕ → Option Attrs
set_attr a name value size = elim (find_name a name) [
  | some i ↦ some (record a { attrs = put a.attrs i (update_value (a.attrs i) value size) })
  | none ↦ elim (find_slot a) [
    | some i ↦ some (record a { attrs = put a.attrs i (new_entry (a.attrs i) name value size) })
    | none ↦ none
  ]
]

-- `namelen != 0 && namelen < XATTR_NAME_MAX`
unfoldable pub name_fits : (ℕ → ℕ) → Bool
name_fits name = elim (strlen_from name 0 name_max) [ none ↦ false | some n ↦ not (n == 0) ]

abbrev pub size_fits : ℤ → Bool
size_fits size = not (ltb_ℤ size (pos 0)) && not (ltb_ℤ (pos value_max) size)

unfoldable pub store_attrs : Table → Option (ℕ × Table) → (ℕ → ℕ) → (ℕ → ℕ) → ℕ → Status × Table
store_attrs t none name value size = (err, t)
store_attrs t (some (i, t')) name value size = elim (set_attr (t' i) name value size) [
  | none ↦ (err, t')
  | some a ↦ (ok, put t' i a)
]

unfoldable pub xattr_set : Table → ℕ → ℕ → (ℕ → ℕ) → (ℕ → ℕ) → ℤ → Status × Table
xattr_set t dev inum name value size =
    if not (name_fits name)
    then (err, t)
    else if not (size_fits size)
    then (err, t)
    else store_attrs t (find_or_create t dev inum) name value (pos_part size)

-- The length and the caller's buffer, or -1 (`none`).
unfoldable pub read_value : Entry → ℤ → (ℕ → ℕ) → Option (ℕ × (ℕ → ℕ))
read_value e size buffer =
    if is_zero size
    then some (e.value_len, buffer)
    else if ltb_ℤ size (pos e.value_len)
    then none
    else some (e.value_len, copied buffer e.value e.value_len)

unfoldable pub get_attr : Attrs → (ℕ → ℕ) → ℤ → (ℕ → ℕ) → Option (ℕ × (ℕ → ℕ))
get_attr a name size buffer = elim (find_name a name) [
  | none ↦ none
  | some i ↦ read_value (a.attrs i) size buffer
]

unfoldable pub xattr_get : Table → ℕ → ℕ → (ℕ → ℕ) → ℤ → (ℕ → ℕ) → Option (ℕ × (ℕ → ℕ))
xattr_get t dev inum name size buffer = elim (find_inode t dev inum) [
  | none ↦ none
  | some i ↦ get_attr (t i) name size buffer
]

unfoldable pub xattr_clear : Table → ℕ → ℕ → Table
xattr_clear t dev inum = elim (find_inode t dev inum) [
  | none ↦ t
  | some i ↦ put t i (record (t i) { used = false })
]

-- `strlen(xe->name)`; a stored name ends within its buffer.
unfoldable pub length_of : Entry → ℕ
length_of e = elim (strlen_from e.name 0 name_max) [ none ↦ name_max | some n ↦ n ]

-- The first loop of `xattr_list`, over `k` entries from `i` on.
unfoldable pub list_total : Attrs → ℕ → ℕ → ℕ
list_total a i zero = 0
list_total a i (suc k) =
    (if (a.attrs i).used then length_of (a.attrs i) + 1 else 0) + list_total a (suc i) k

-- `memmove(list + offset, name, len)`
unfoldable pub put_name : (ℕ → ℕ) → ℕ → (ℕ → ℕ) → ℕ → ℕ → ℕ
put_name buffer offset name len j =
    if leb offset j && ltb j (offset + len) then name (j - offset) else buffer j

-- Its second loop.
unfoldable pub list_names : Attrs → ℕ → ℕ → ℕ → (ℕ → ℕ) → ℕ → ℕ
list_names a i zero offset buffer = buffer
list_names a i (suc k) offset buffer =
    if (a.attrs i).used
    then list_names a (suc i) k (offset + (length_of (a.attrs i) + 1))
        (put_name buffer offset ((a.attrs i).name) (length_of (a.attrs i) + 1))
    else list_names a (suc i) k offset buffer

unfoldable pub list_attrs : Attrs → ℤ → (ℕ → ℕ) → Option (ℕ × (ℕ → ℕ))
list_attrs a size buffer =
    let total = list_total a 0 max_attrs in
    if is_zero size
    then some (total, buffer)
    else if ltb_ℤ size (pos total)
    then none
    else some (total, list_names a 0 max_attrs 0 buffer)

unfoldable pub xattr_list : Table → ℕ → ℕ → ℤ → (ℕ → ℕ) → Option (ℕ × (ℕ → ℕ))
xattr_list t dev inum size buffer = elim (find_inode t dev inum) [
  | none ↦ some (0, buffer)
  | some i ↦ list_attrs (t i) size buffer
]

-- The inode's entry is freed with its last attribute.
unfoldable pub drop_attr : Attrs → ℕ → Attrs
drop_attr a i =
    let attrs = put a.attrs i (record (a.attrs i) { used = false }) in
    let any_used = first_from (λ j. (attrs j).used) 0 max_attrs in
    record a { attrs = attrs; used = elim any_used [ none ↦ false | some j ↦ a.used ] }

unfoldable pub remove_attr : Table → ℕ → (ℕ → ℕ) → Status × Table
remove_attr t k name = elim (find_name (t k) name) [
  | none ↦ (err, t)
  | some i ↦ (ok, put t k (drop_attr (t k) i))
]

unfoldable pub xattr_remove : Table → ℕ → ℕ → (ℕ → ℕ) → Status × Table
xattr_remove t dev inum name = elim (find_inode t dev inum) [
  | none ↦ (err, t)
  | some k ↦ remove_attr t k name
]
