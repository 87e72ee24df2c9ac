-- ===== src/Fs/Directory/Search.antt =====
-- What `dirlookup` finds in a directory after `dirlink`.
use oops_os.Prelude.{
  ℕ, ◌+◌, ◌*◌, ◌≤◌, ◌<◌, ◌≡◌, ◌≢◌, ◌∙◌, refl, sym, Bool, true, false, none, some, arith, Bool-cases,
  Option-cases, inl, inr, ◌⊎◌, ap, subst,
}
use oops_os.Prelude.Arrays.{put_self, put_ne}
use oops_os.Prelude.Search.{first_from}
use oops_os.Fs.Directory.{
  entry_size, max_bytes, Dirent, Dir, whole, is_ragged, lookup_panic, missing, found, matches,
  dirlookup, grown, write_entry, exists, linked, last_read, free_entry, new_dirent, link_at,
  dirlink,
}
use oops_os.Fs.Directory.Names.{IsSameName, IsSameName-trans, IsSameName-strncpy}
use oops_os.Fs.Directory.Link.{
  free_entry_lem, IsOpen, linked-IsOpen, matches-used, grown-whole, dirlookup-found,
  dirlookup-missing, Lookup-cases,
}
use oops_os.Fs.Directory.Grown.{search-grown-same, search-grown-other}

-- What `dirlookup` answers for each name once `dirlink` has added `name`.
pub record IsAdded (d d' : Dir) (name : ℕ → ℕ) (inum : ℕ) : Type 0 where
  pub even : is_ragged d' ≡ false
  pub same :
      (other : ℕ → ℕ)
      → IsSameName other name
      → (off : ℕ) × (off < d'.size) × (dirlookup d' other ≡ found inum off)
  pub others : (other : ℕ → ℕ) → ¬ IsSameName other name → dirlookup d' other ≡ dirlookup d other

lookup-grown-other :
    (d : Dir) (k : ℕ) (de : Dirent) (name other : ℕ → ℕ)
    → IsOpen d name
    → k ≤ whole d
    → (k < whole d → (d.entries k).inum ≡ 0)
    → matches other de ≡ false
    → dirlookup (grown d k de) other ≡ dirlookup d other
lookup-grown-other d k de name other o l z m =
    elim (Option-cases (first_from (λ j. matches other (d.entries j)) 0 (whole d))) [
      | inl e ↦
          let s = search-grown-other d k de other none o.even l z m e in
          dirlookup-missing (grown d k de) other o.is_dir (grown-whole d k de o.even l).0 s.0
          ∙ sym (dirlookup-missing d other o.is_dir o.even e)
      | inr (i, e) ↦
          let s = search-grown-other d k de other (some i) o.even l z m e in
          dirlookup-found (grown d k de) other i o.is_dir s.0
          ∙ (ap (λ (x : Dirent). found x.inum (i * entry_size))
                (put_ne d.entries k de i (λ q. s.1 (ap some q)))
              ∙ sym (dirlookup-found d other i o.is_dir e))
    ]

new_dirent_lem :
    (de : Dirent) (name : ℕ → ℕ) (inum : ℕ)
    → inum < 65536
    → ((new_dirent de name inum).inum ≡ inum) × IsSameName (new_dirent de name inum).name name
unfolding new_dirent
new_dirent_lem de name inum l = (omega arith, IsSameName-strncpy de.name name)

-- After `dirlink` has added a name with an inode number from 1 to 65535, `dirlookup` of the same name,
-- up to 14 bytes, finds that number, at an offset within the directory; `dirlookup` of any other name
-- answers what it answered before, and the directory still has whole entries only.
pub dirlookup-dirlink :
    (junk : Dirent) (room : Bool) (d d' : Dir) (name : ℕ → ℕ) (inum : ℕ)
    → 1 ≤ inum
    → inum < 65536
    → dirlink junk room d name inum ≡ linked d'
    → IsAdded d d' name inum
dirlookup-dirlink junk room d d' name inum pos_inum small e =
    subst (λ x. IsAdded d x name inum) (sym got.1)
      (record {
        even = (grown-whole d k de got.0.even free.0).0;
        same = λ other h. (
          k * entry_size,
          ground (arith, (grown-whole d k de got.0.even free.0).1),
          dirlookup-found (grown d k de) other k got.0.is_dir (
                search-grown-same d k de name other got.0 free.0 (λ z. omega (arith, number, z))
                  copy h)
              ∙ ap (λ (x : ℕ). found x (k * entry_size))
                  (ap (λ (x : Dirent). x.inum) (put_self d.entries k de) ∙ number),
        );
        others = λ other ne.
            lookup-grown-other d k de name other got.0 free.0 free.1 (no_match other ne);
      })
  where
    got :
        IsOpen d name
        × (d' ≡ grown d (free_entry d) (new_dirent (last_read junk d (free_entry d)) name inum))
    got = linked-IsOpen junk room d d' name inum e

    free : (free_entry d ≤ whole d) × (free_entry d < whole d → (d.entries (free_entry d)).inum ≡ 0)
    free = free_entry_lem d

    k : ℕ
    k = free_entry d

    de : Dirent
    de = new_dirent (last_read junk d (free_entry d)) name inum

    number : de.inum ≡ inum
    number = (new_dirent_lem (last_read junk d (free_entry d)) name inum small).0

    copy : IsSameName de.name name
    copy = (new_dirent_lem (last_read junk d (free_entry d)) name inum small).1

    no_match : (other : ℕ → ℕ) → ¬ IsSameName other name → matches other de ≡ false
    no_match other ne = elim (Bool-cases (matches other de)) [
      | inr q ↦ q
      | inl q ↦
          absurd (ne (IsSameName-trans other de.name name ((matches-used other de).0 q).1 copy))
    ]

write_entry-fits :
    (d : Dir) (k : ℕ) (de : Dirent)
    → d.size + entry_size ≤ max_bytes
    → k ≤ whole d
    → write_entry true d k de ≡ some (grown d k de)
unfolding write_entry
write_entry-fits d k de m l = ground arith

dirlink-missing :
    (junk : Dirent) (d : Dir) (name : ℕ → ℕ) (inum : ℕ)
    → d.size + entry_size ≤ max_bytes
    → dirlookup d name ≡ missing
    → dirlink junk true d name inum
      ≡ linked (grown d (free_entry d) (new_dirent (last_read junk d (free_entry d)) name inum))
unfolding dirlink link_at
dirlink-missing junk d name inum m e =
    rw
      (
        dirlink,
        e,
        link_at,
        write_entry-fits d (free_entry d) (new_dirent (last_read junk d (free_entry d)) name inum) m
            (free_entry_lem d).0,
      )
      refl

dirlink-found :
    (junk : Dirent) (d : Dir) (name : ℕ → ℕ) (inum i off : ℕ)
    → dirlookup d name ≡ found i off
    → dirlink junk true d name inum ≡ exists
unfolding dirlink
dirlink-found junk d name inum i off e = rw (dirlink, e) refl

dirlookup_even :
    (d : Dir) (name : ℕ → ℕ)
    → d.is_dir ≡ true
    → is_ragged d ≡ false
    → dirlookup d name ≢ lookup_panic
dirlookup_even d name q r e =
    elim (Option-cases (first_from (λ j. matches name (d.entries j)) 0 (whole d))) [
      | inl s ↦ cc (sym (dirlookup-missing d name q r s) ∙ e)
      | inr (k, s) ↦ cc (sym (dirlookup-found d name k q s) ∙ e)
    ]

-- On a directory of whole entries that can still grow by one, with room on the disk and an inode
-- number from 1 to 65535, `dirlink` returns: it fails exactly for a name that `dirlookup` finds, and
-- otherwise adds it. `dirlookup` of the same name, up to 14 bytes, then finds the number at an offset
-- within the directory; `dirlookup` of any other name answers what it answered before; and the
-- directory still has whole entries only.
pub dirlink_lem :
    (junk : Dirent) (d : Dir) (name : ℕ → ℕ) (inum : ℕ)
    → d.is_dir ≡ true
    → is_ragged d ≡ false
    → d.size + entry_size ≤ max_bytes
    → 1 ≤ inum
    → inum < 65536
    → ((i : ℕ) × (off : ℕ) × (dirlookup d name ≡ found i off)
        × (dirlink junk true d name inum ≡ exists))
      ⊎ ((d' : Dir) × (dirlookup d name ≡ missing)
          × (dirlink junk true d name inum ≡ linked d')
          × IsAdded d d' name inum)
dirlink_lem junk d name inum q r m l s = elim (Lookup-cases (dirlookup d name)) [
  | inl e ↦
      let added = dirlink-missing junk d name inum m e in
      inr (_, e, added, dirlookup-dirlink junk true d _ name inum l s added)
  | inr (inl e) ↦ absurd (dirlookup_even d name q r e)
  | inr (inr (i, off, e)) ↦ inl (i, off, e, dirlink-found junk d name inum i off e)
]
