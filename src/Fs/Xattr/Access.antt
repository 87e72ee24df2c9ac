-- ===== src/Fs/Xattr/Access.antt =====
-- What `xattr_get` reads after `xattr_set`.
use oops_os.Prelude.{
  ℕ, ◌≤◌, ◌<◌, ◌≡◌, ◌≢◌, refl, sym, ◌∙◌, true, false, not, none, some, arith, ltb, Bool-cases,
  Option-cases, inl, inr, ◌⊎◌, ℕ_discrete, ap, subst, fun_ext, ℤ, pos,
}
use oops_os.Prelude.Arrays.{put, put_self, put_ne}
use oops_os.Prelude.Search.{IsFirst, first_from-IsFirst, first_from-some, first_from_ext}
use oops_os.Strings.Text.{strncmp-strncpy}
use oops_os.Fs.Xattr.{
  name_max, max_attrs, table_size, Entry, Attrs, Table, is_inode, new_attrs, find_inode, find_empty,
  has_name, find_name, find_slot, copied, update_value, new_entry, set_attr, read_value, get_attr,
  xattr_get,
}

-- `a'` is `a` with a value of the size `n` under the name, as `find_name` sees it.
pub record HasSet (a : Attrs) (name value : ℕ → ℕ) (n : ℕ) (a' : Attrs) : Type 0 where
  pub at : ℕ
  pub named : find_name a' name ≡ some at
  pub length : (a'.attrs at).value_len ≡ n
  pub bytes : (i : ℕ) → i < n → (a'.attrs at).value i ≡ value i
  pub same_dev : a'.dev ≡ a.dev
  pub same_inum : a'.inum ≡ a.inum
  pub same_used : a'.used ≡ a.used

update_value-HasSet :
    (a : Attrs) (name value : ℕ → ℕ) (n k : ℕ)
    → find_name a name ≡ some k
    → HasSet a name value n (record a { attrs = put a.attrs k (update_value (a.attrs k) value n) })
unfolding find_name has_name update_value copied
update_value-HasSet a name value n k e = record {
  at = k;
  named =
      first_from_ext _ _ 0 max_attrs (λ j l m. elim (ℕ_discrete j k) [
        | yes q ↦ rw (q, put_self a.attrs k (update_value (a.attrs k) value n))
        | no ne ↦ rw (put_ne a.attrs k (update_value (a.attrs k) value n) j ne)
      ])
      ∙ e;
  length = ap (λ (x : Entry). x.value_len) (put_self a.attrs k (update_value (a.attrs k) value n));
  bytes = λ i l.
      ap (λ (x : Entry). x.value i) (put_self a.attrs k (update_value (a.attrs k) value n))
      ∙ ground arith;
  same_dev = refl;
  same_inum = refl;
  same_used = refl;
}

new_entry_named :
    (e : Entry) (name value : ℕ → ℕ) (n : ℕ) → has_name name (new_entry e name value n) ≡ true
unfolding has_name new_entry
new_entry_named e name value n = rw ((strncmp-strncpy e.name name name_max).0)

new_entry-HasSet :
    (a : Attrs) (name value : ℕ → ℕ) (n k : ℕ)
    → find_name a name ≡ none
    → find_slot a ≡ some k
    → HasSet a name value n
        (record a { attrs = put a.attrs k (new_entry (a.attrs k) name value n) })
unfolding find_name find_slot new_entry copied
new_entry-HasSet a name value n k e s = record {
  at = k;
  named = first_from-some _ 0 max_attrs k (
    slot.0,
    slot.1,
    ap (has_name name) (put_self a.attrs k (new_entry (a.attrs k) name value n))
        ∙ new_entry_named (a.attrs k) name value n,
    λ j l m.
        ap (has_name name)
          (put_ne a.attrs k (new_entry (a.attrs k) name value n) j (λ q. omega arith))
        ∙ before j l (omega (arith, m, slot.1)),
  );
  length =
      ap (λ (x : Entry). x.value_len) (put_self a.attrs k (new_entry (a.attrs k) name value n));
  bytes = λ i l.
      ap (λ (x : Entry). x.value i) (put_self a.attrs k (new_entry (a.attrs k) name value n))
      ∙ ground arith;
  same_dev = refl;
  same_inum = refl;
  same_used = refl;
}
  where
    slot : IsFirst (λ i. not ((a.attrs i).used)) 0 max_attrs (some k)
    slot =
        subst (IsFirst (λ i. not ((a.attrs i).used)) 0 max_attrs) s
          (first_from-IsFirst (λ i. not ((a.attrs i).used)) 0 max_attrs)

    before : IsFirst (λ i. has_name name (a.attrs i)) 0 max_attrs none
    before =
        subst (IsFirst (λ i. has_name name (a.attrs i)) 0 max_attrs) e
          (first_from-IsFirst (λ i. has_name name (a.attrs i)) 0 max_attrs)

-- The loops of `xattr_set` store the value, or no entry has the name and none is free.
pub set_attr-HasSet :
    (a : Attrs) (name value : ℕ → ℕ) (n : ℕ)
    → ((set_attr a name value n ≡ none) × (find_name a name ≡ none) × (find_slot a ≡ none))
      ⊎ ((a' : Attrs) × (set_attr a name value n ≡ some a') × HasSet a name value n a')
unfolding set_attr
set_attr-HasSet a name value n = elim (Option-cases (find_name a name)) [
  | inr (k, e) ↦ inr (_, rw (set_attr, e), update_value-HasSet a name value n k e)
  | inl e ↦ elim (Option-cases (find_slot a)) [
    | inr (k, s) ↦ inr (_, rw (set_attr, e, s), new_entry-HasSet a name value n k e s)
    | inl s ↦ inl (rw (set_attr, e, s), e, s)
  ]
]

copied_same :
    (buffer v w : ℕ → ℕ) (n : ℕ)
    → ((i : ℕ) → i < n → v i ≡ w i)
    → copied buffer v n ≡ copied buffer w n
unfolding copied
copied_same buffer v w n h =
    fun_ext λ i. elim (Bool-cases (ltb i n)) [ inl e ↦ rw e (h i (ground arith)) | inr e ↦ rw e ]

read_value_fits :
    (e : Entry) (room : ℕ) (buffer : ℕ → ℕ)
    → 0 < room
    → e.value_len ≤ room
    → read_value e (pos room) buffer ≡ some (e.value_len, copied buffer e.value e.value_len)
unfolding read_value
read_value_fits e room buffer p l = ground arith

pub get_attr-HasSet :
    (a a' : Attrs) (name value buffer : ℕ → ℕ) (n room : ℕ)
    → HasSet a name value n a'
    → 0 < room
    → n ≤ room
    → get_attr a' name (pos room) buffer ≡ some (n, copied buffer value n)
unfolding get_attr
get_attr-HasSet a a' name value buffer n room h p l =
    rw (get_attr, h.named)
      (read_value_fits (a'.attrs h.at) room buffer p (omega (arith, h.length))
        ∙ rw h.length (ap (λ (c : ℕ → ℕ). some (n, c)) (copied_same buffer _ value n h.bytes)))

-- The index that `xattr_find_or_create` returns is found again.
pub create_found :
    (t : Table) (dev inum e : ℕ)
    → find_inode t dev inum ≡ none
    → find_empty t ≡ some e
    → find_inode (put t e (new_attrs dev inum (t e))) dev inum ≡ some e
unfolding find_inode find_empty
create_found t dev inum e q s = first_from-some _ 0 table_size e (
  slot.0,
  slot.1,
  ap (is_inode dev inum) (put_self t e (new_attrs dev inum (t e))) ∙ fresh,
  λ j l m.
      ap (is_inode dev inum) (put_ne t e (new_attrs dev inum (t e)) j (λ r. omega arith))
      ∙ before j l (omega (arith, m, slot.1)),
)
  where
    fresh : is_inode dev inum (new_attrs dev inum (t e)) ≡ true
    fresh = unfold is_inode new_attrs in (ground arith)

    slot : IsFirst (λ i. not ((t i).used)) 0 table_size (some e)
    slot =
        subst (IsFirst (λ i. not ((t i).used)) 0 table_size) s
          (first_from-IsFirst (λ i. not ((t i).used)) 0 table_size)

    before : IsFirst (λ i. is_inode dev inum (t i)) 0 table_size none
    before =
        subst (IsFirst (λ i. is_inode dev inum (t i)) 0 table_size) q
          (first_from-IsFirst (λ i. is_inode dev inum (t i)) 0 table_size)

-- What stands at an index that is found.
pub find_inode_at :
    (t : Table) (dev inum i : ℕ) → find_inode t dev inum ≡ some i → is_inode dev inum (t i) ≡ true
unfolding find_inode
find_inode_at t dev inum i e =
    let f = first_from-IsFirst (λ i. is_inode dev inum (t i)) 0 table_size in
    (subst (IsFirst (λ i. is_inode dev inum (t i)) 0 table_size) e f).2

pub find_empty_at : (t : Table) (i : ℕ) → find_empty t ≡ some i → (t i).used ≡ false
unfolding find_empty
find_empty_at t i e =
    let f = first_from-IsFirst (λ i. not ((t i).used)) 0 table_size in
    let g = (subst (IsFirst (λ i. not ((t i).used)) 0 table_size) e f).2 in ground arith

-- The indices at which an inode is found depend on the headers of the entries only.
pub find_inode-put :
    (t : Table) (dev inum i : ℕ) (a : Attrs)
    → is_inode dev inum a ≡ is_inode dev inum (t i)
    → find_inode (put t i a) dev inum ≡ find_inode t dev inum
unfolding find_inode
find_inode-put t dev inum i a e = first_from_ext _ _ 0 table_size λ j l m. elim (ℕ_discrete j i) [
  | yes q ↦ rw (q, put_self t i a) e
  | no ne ↦ rw (put_ne t i a j ne)
]

pub same_inode :
    (dev inum : ℕ) (a a' : Attrs)
    → a'.dev ≡ a.dev
    → a'.inum ≡ a.inum
    → a'.used ≡ a.used
    → is_inode dev inum a' ≡ is_inode dev inum a
unfolding is_inode
same_inode dev inum a a' p q r = rw (p, q, r)

-- Another inode's attributes are read as before.
abbrev pub Others : ℕ → ℕ → Table → Table → Type 0
Others dev inum t t' =
    (dev' inum' : ℕ) (name : ℕ → ℕ) (size : ℤ) (buffer : ℕ → ℕ)
    → (dev' ≢ dev) ⊎ (inum' ≢ inum)
    → xattr_get t' dev' inum' name size buffer ≡ xattr_get t dev' inum' name size buffer

pub other_inode :
    (dev inum dev' inum' : ℕ) (a : Attrs)
    → (dev' ≢ dev) ⊎ (inum' ≢ inum)
    → is_inode dev inum a ≡ true
    → is_inode dev' inum' a ≡ false
unfolding is_inode
other_inode dev inum dev' inum' a (inl n) e = ground arith
other_inode dev inum dev' inum' a (inr n) e = ground arith

-- An entry that is not the inode's, before and after, does not matter to it.
pub put-Others :
    (t : Table) (i dev' inum' : ℕ) (a : Attrs) (name : ℕ → ℕ) (size : ℤ) (buffer : ℕ → ℕ)
    → is_inode dev' inum' (t i) ≡ false
    → is_inode dev' inum' a ≡ false
    → xattr_get (put t i a) dev' inum' name size buffer ≡ xattr_get t dev' inum' name size buffer
unfolding xattr_get
put-Others t i dev' inum' a name size buffer p q =
    let same = find_inode-put t dev' inum' i a (q ∙ sym p) in
    elim (Option-cases (find_inode t dev' inum')) [
      | inl e ↦ rw (xattr_get, same, e)
      | inr (k, e) ↦
          rw (xattr_get, same, e)
            (ap (λ (x : Attrs). get_attr x name size buffer)
              (put_ne t i a k (λ r. absurd (
                cc (
                  find_inode_at t dev' inum' k e,
                  ap (λ (x : ℕ). is_inode dev' inum' (t x)) r,
                  p,
                )))))
    ]
