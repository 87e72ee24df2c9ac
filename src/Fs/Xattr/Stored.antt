-- ===== src/Fs/Xattr/Stored.antt =====
-- `xattr_get` after `xattr_set`, for the same file and for others.
use oops_os.Prelude.{
  ℕ, ◌≤◌, ◌<◌, ◌≡◌, refl, ◌∙◌, true, false, none, some, arith, Option-cases, inl, inr, ◌⊎◌, ap, pos,
  ok, err,
}
use oops_os.Prelude.Arrays.{put, put_self}
use oops_os.Prelude.Search.{first_from}
use oops_os.Fs.Xattr.{
  value_max, Attrs, Table, is_inode, new_attrs, find_inode, find_empty, find_or_create, find_name,
  find_slot, copied, set_attr, name_fits, store_attrs, xattr_set, xattr_get,
}
use oops_os.Fs.Xattr.Access.{
  HasSet, set_attr-HasSet, get_attr-HasSet, create_found, find_inode_at, find_empty_at,
  find_inode-put, same_inode, Others, other_inode, put-Others,
}

-- No room for another attribute: no entry for the file, or none for the name.
pub data IsFull (t : Table) (dev inum : ℕ) (name : ℕ → ℕ) : Type 0 where
  no_entry : find_inode t dev inum ≡ none → find_empty t ≡ none → IsFull t dev inum name
  no_slot :
      (i : ℕ)
      → find_inode t dev inum ≡ some i
      → find_name (t i) name ≡ none
      → find_slot (t i) ≡ none
      → IsFull t dev inum name

module _ (dev inum : ℕ) (name value buffer : ℕ → ℕ) (n room : ℕ) (p : 0 < room) (l : n ≤ room) where
  -- The attributes at an index that is found are replaced.
  replaced :
      (t : Table) (i : ℕ) (a : Attrs)
      → find_inode t dev inum ≡ some i
      → HasSet (t i) name value n a
      → (xattr_get (put t i a) dev inum name (pos room) buffer ≡ some (n, copied buffer value n))
        × Others dev inum t (put t i a)
  unfolding xattr_get
  replaced t i a e h =
      let header = same_inode dev inum (t i) a h.same_dev h.same_inum h.same_used in
      (
        rw (xattr_get, find_inode-put t dev inum i a header, e, put_self t i a)
            (get_attr-HasSet (t i) a name value buffer n room h p l),
        λ dev' inum' name' size buffer' ne.
            let was = other_inode dev inum dev' inum' (t i) ne (find_inode_at t dev inum i e) in
            put-Others t i dev' inum' a name' size buffer' was
              (same_inode dev' inum' (t i) a h.same_dev h.same_inum h.same_used ∙ was),
      )

  unused_inode : (a : Attrs) (d i : ℕ) → a.used ≡ false → is_inode d i a ≡ false
  unfolding is_inode
  unused_inode a d i e = rw e

  new_inode : (a : Attrs) → is_inode dev inum (new_attrs dev inum a) ≡ true
  unfolding is_inode new_attrs
  new_inode a = ground arith

  -- A new entry has room for an attribute.
  new_slot : (a : Attrs) → find_slot (new_attrs dev inum a) ≡ some 0
  unfolding find_slot first_from new_attrs
  new_slot a = refl

  created :
      (t : Table) (e : ℕ)
      → find_inode t dev inum ≡ none
      → find_empty t ≡ some e
      → Others dev inum t (put t e (new_attrs dev inum (t e)))
  created t e q s dev' inum' name' size buffer' ne =
      put-Others t e dev' inum' (new_attrs dev inum (t e)) name' size buffer'
        (unused_inode (t e) dev' inum' (find_empty_at t e s))
        (other_inode dev inum dev' inum' (new_attrs dev inum (t e)) ne (new_inode (t e)))

  stores :
      (t t₁ : Table) (i : ℕ) (a : Attrs)
      → set_attr (t₁ i) name value n ≡ some a
      → store_attrs t (some (i, t₁)) name value n ≡ (ok, put t₁ i a)
  unfolding store_attrs
  stores t t₁ i a e = rw (store_attrs, e)

  -- What `xattr_set` does once its arguments have passed the checks.
  set_or_IsFull :
      (t : Table)
      → ((store_attrs t (find_or_create t dev inum) name value n ≡ (err, t))
          × IsFull t dev inum name)
        ⊎ ((t' : Table) × (store_attrs t (find_or_create t dev inum) name value n ≡ (ok, t'))
            × (xattr_get t' dev inum name (pos room) buffer ≡ some (n, copied buffer value n))
            × Others dev inum t t')
  unfolding find_or_create store_attrs
  set_or_IsFull t = elim (Option-cases (find_inode t dev inum)) [
    | inr (i, e) ↦ elim (set_attr-HasSet (t i) name value n) [
      | inl (z, q, s) ↦ inl (rw (find_or_create, e) (rw (store_attrs, z)), no_slot i e q s)
      | inr (a, z, h) ↦ inr (
        put t i a,
        rw (find_or_create, e) (stores t t i a z),
        (replaced t i a e h).0,
        (replaced t i a e h).1,
      )
    ]
    | inl e ↦ elim (Option-cases (find_empty t)) [
      | inl s ↦ inl (rw (find_or_create, e, s), no_entry e s)
      | inr (k, s) ↦ elim (set_attr-HasSet (put t k (new_attrs dev inum (t k)) k) name value n) [
        | inl (z, q, f) ↦
            absurd (cc (f, ap find_slot (put_self t k (new_attrs dev inum (t k))), new_slot (t k)))
        | inr (a, z, h) ↦
            let t₁ : Table = put t k (new_attrs dev inum (t k)) in
            let r = replaced t₁ k a (create_found t dev inum k e s) h in
            inr (
              put t₁ k a,
              rw (find_or_create, e, s) (stores t t₁ k a z),
              r.0,
              λ d i m size b ne. r.1 d i m size b ne ∙ created t k e s d i m size b ne,
            )
      ]
    ]
  ]

accepted :
    (t : Table) (dev inum : ℕ) (name value : ℕ → ℕ) (n : ℕ)
    → name_fits name ≡ true
    → n ≤ value_max
    → xattr_set t dev inum name value (pos n)
      ≡ store_attrs t (find_or_create t dev inum) name value n
unfolding xattr_set
accepted t dev inum name value n f m = rw f (ground arith)

-- `xattr_set` with a name and a size that it accepts either answers -1, leaves the table alone, and
-- the table has no room for another attribute of this name; or it answers 0, `xattr_get` with a
-- buffer that is large enough then returns the length and the bytes stored, and what it reads of
-- every other file is as before.
pub xattr_get-xattr_set :
    (t : Table) (dev inum : ℕ) (name value buffer : ℕ → ℕ) (n room : ℕ)
    → name_fits name ≡ true
    → n ≤ value_max
    → 0 < room
    → n ≤ room
    → ((xattr_set t dev inum name value (pos n) ≡ (err, t)) × IsFull t dev inum name)
      ⊎ ((t' : Table) × (xattr_set t dev inum name value (pos n) ≡ (ok, t'))
          × (xattr_get t' dev inum name (pos room) buffer ≡ some (n, copied buffer value n))
          × Others dev inum t t')
xattr_get-xattr_set t dev inum name value buffer n room f m p l =
    rw (accepted t dev inum name value n f m)
      (set_or_IsFull dev inum name value buffer n room p l t)
