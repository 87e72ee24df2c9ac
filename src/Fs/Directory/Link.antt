-- ===== src/Fs/Directory/Link.antt =====
-- What `dirlink` writes, and the search of `dirlookup`.
use oops_os.Prelude.{
  ℕ, ◌+◌, ◌*◌, ◌≤◌, ◌<◌, ◌≡◌, ◌≢◌, ◌↔◌, refl, sym, Bool, true, false, not, ◌||◌, none, some, arith,
  ltb, ◌==◌, Bool-cases, Option-cases, inl, inr, ◌⊎◌, ap, subst, ℤ, pos, negsuc,
}
use oops_os.Prelude.Search.{first_from, IsFirst, first_from-IsFirst}
use oops_os.Fs.Xattr.{is_zero}
use oops_os.Fs.Directory.{
  entry_size, max_bytes, Dirent, Dir, whole, is_ragged, namecmp, Lookup, lookup_panic, missing,
  found, matches, dirlookup, grown, write_entry, Linked, link_panic, exists, linked, last_read,
  free_entry, new_dirent, link_at, dirlink,
}
use oops_os.Fs.Directory.Names.{IsSameName}

pub free_entry_lem :
    (d : Dir)
    → (free_entry d ≤ whole d) × (free_entry d < whole d → (d.entries (free_entry d)).inum ≡ 0)
unfolding free_entry
free_entry_lem d = elim (Option-cases (first_from (λ k. (d.entries k).inum == 0) 0 (whole d))) [
  | inl e ↦ rw (free_entry, e) (omega arith, λ l. absurd (omega arith))
  | inr (k, e) ↦
      let f =
        subst (IsFirst (λ k. (d.entries k).inum == 0) 0 (whole d)) e
          (first_from-IsFirst (λ k. (d.entries k).inum == 0) 0 (whole d)) in
      rw (free_entry, e) (omega (arith, f.1), λ l. ground (arith, f.2))
]

-- The directory has whole entries only, and none of the name.
pub record IsOpen (d : Dir) (name : ℕ → ℕ) : Type 0 where
  pub is_dir : d.is_dir ≡ true
  pub even : is_ragged d ≡ false
  pub absent : first_from (λ k. matches name (d.entries k)) 0 (whole d) ≡ none

pub missing-IsOpen : (d : Dir) (name : ℕ → ℕ) → dirlookup d name ≡ missing → IsOpen d name
unfolding dirlookup
missing-IsOpen d name e = elim (Bool-cases d.is_dir) [
  | inr q ↦ absurd (cc (rw q at e))
  | inl q ↦ elim (Option-cases (first_from (λ k. matches name (d.entries k)) 0 (whole d))) [
    | inr (k, f) ↦ absurd (cc (rw (q, f) at e))
    | inl f ↦ elim (Bool-cases (is_ragged d)) [
      | inl r ↦ absurd (cc (rw (q, f, r) at e))
      | inr r ↦ record { is_dir = q; even = r; absent = f }
    ]
  ]
]

pub Lookup-cases :
    (l : Lookup)
    → (l ≡ missing) ⊎ ((l ≡ lookup_panic) ⊎ ((inum : ℕ) × (off : ℕ) × (l ≡ found inum off)))
Lookup-cases missing = inl refl
Lookup-cases lookup_panic = inr (inl refl)
Lookup-cases (found inum off) = inr (inr (inum, off, refl))

linked-inj : (d d' : Dir) → linked d ≡ linked d' → d ≡ d'
linked-inj d d' = ap λ (l : Linked). elim l [ link_panic ↦ d | exists ↦ d | linked x ↦ x ]

pub write_entry-grown :
    (room : Bool) (d : Dir) (k : ℕ) (de : Dirent)
    → (write_entry room d k de ≡ none) ⊎ (write_entry room d k de ≡ some (grown d k de))
unfolding write_entry
write_entry-grown room d k de =
    elim (Bool-cases
      (ltb d.size (k * entry_size) || ltb max_bytes (k * entry_size + entry_size) || not room)) [
        | inl q ↦ inl (rw q)
        | inr q ↦ inr (rw q)
      ]

link_at-linked :
    (junk : Dirent) (room : Bool) (d d' : Dir) (name : ℕ → ℕ) (inum k : ℕ)
    → link_at junk room d name inum k ≡ linked d'
    → d' ≡ grown d k (new_dirent (last_read junk d k) name inum)
unfolding link_at
link_at-linked junk room d d' name inum k e =
    elim (write_entry-grown room d k (new_dirent (last_read junk d k) name inum)) [
      | inl q ↦ absurd (cc (rw (link_at, q) at e))
      | inr q ↦ sym (linked-inj _ d' (rw (link_at, q) at e))
    ]

pub linked-IsOpen :
    (junk : Dirent) (room : Bool) (d d' : Dir) (name : ℕ → ℕ) (inum : ℕ)
    → dirlink junk room d name inum ≡ linked d'
    → IsOpen d name
      × (d' ≡ grown d (free_entry d) (new_dirent (last_read junk d (free_entry d)) name inum))
unfolding dirlink
linked-IsOpen junk room d d' name inum e = elim (Lookup-cases (dirlookup d name)) [
  | inl q ↦ (
    missing-IsOpen d name q,
    link_at-linked junk room d d' name inum (free_entry d) (rw (dirlink, q) at e),
  )
  | inr (inl q) ↦ absurd (cc (rw (dirlink, q) at e))
  | inr (inr (i, off, q)) ↦ absurd (cc (rw (dirlink, q) at e))
]

is_zero-≡ : (c : ℤ) → (is_zero c ≡ true) ↔ (c ≡ pos 0)
is_zero-≡ (pos n) = ((λ e. ap pos (ground arith)), ap is_zero)
is_zero-≡ (negsuc n) = ((λ e. absurd (cc e)), ap is_zero)

pub matches-used :
    (name : ℕ → ℕ) (de : Dirent)
    → (matches name de ≡ true) ↔ ((de.inum ≢ 0) × IsSameName name de.name)
unfolding matches
matches-used name de = (
  (λ e. ((λ z. ground (arith, e)), (is_zero-≡ (namecmp name de.name)).0 (ground (arith, e)))),
  λ (z, s). ground (arith, z, (is_zero-≡ (namecmp name de.name)).1 s),
)

-- The directory after a new entry at a free place.
pub grown-whole :
    (d : Dir) (k : ℕ) (de : Dirent)
    → is_ragged d ≡ false
    → k ≤ whole d
    → (is_ragged (grown d k de) ≡ false)
      × (k < whole (grown d k de))
      × (whole d ≤ whole (grown d k de))
      × ((j : ℕ) → j ≢ k → j < whole (grown d k de) → j < whole d)
grown-whole d k de e l = elim (Bool-cases (ltb d.size (k * entry_size + entry_size))) [
  | inl q ↦ rw q (ground arith, omega arith, ground arith, λ j ne m. ground arith)
  | inr q ↦ rw q (e, ground arith, omega arith, λ j ne m. m)
]

-- `dirlookup` of a directory with whole entries is the search.
pub dirlookup-found :
    (d : Dir) (name : ℕ → ℕ) (k : ℕ)
    → d.is_dir ≡ true
    → first_from (λ j. matches name (d.entries j)) 0 (whole d) ≡ some k
    → dirlookup d name ≡ found ((d.entries k).inum) (k * entry_size)
unfolding dirlookup
dirlookup-found d name k q e = rw (dirlookup, q, e) refl

pub dirlookup-missing :
    (d : Dir) (name : ℕ → ℕ)
    → d.is_dir ≡ true
    → is_ragged d ≡ false
    → first_from (λ j. matches name (d.entries j)) 0 (whole d) ≡ none
    → dirlookup d name ≡ missing
unfolding dirlookup
dirlookup-missing d name q r e = rw (dirlookup, q, e, r) refl
