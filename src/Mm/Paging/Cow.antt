-- ===== src/Mm/Paging/Cow.antt =====
-- `cowalloc`: a process gets a page of its own for one that it shares.
use oops_os.Prelude.{
  ℕ, zero, suc, ◌%◌, ◌≤◌, ◌<◌, ◌≡◌, ◌≢◌, refl, sym, ◌∙◌, ap, ◌⊎◌, inl, inr, Bool, true, false,
  Option, some, arith, ◌==◌, Bool-cases, ℕ_discrete, leb, pos, none,
}
use oops_os.Mm.Alloc.{Memory, kfree, krefcnt, is_bad, page_of, pgsize, kalloc_try}
use oops_os.Mm.Alloc.Pages.{on_lists, IsValid, IsGiven}
use oops_os.Mm.Alloc.Give.{kalloc_try_lem}
use oops_os.Mm.Alloc.Release.{IsReleased, kfree_lem}
use oops_os.Mm.Paging.{
  World, px0, max_va, entry, own_flags, kalloc_round, kalloc, cowalloc, cow_entry, copy_page,
  mapped_copy, is_one, walkaddr,
}
use oops_os.Mm.Paging.Tree.{Role, IsTree}
use oops_os.Mm.Paging.Walked.{NoneFree}
use oops_os.Mm.Paging.Maps.{mapping}
use oops_os.Mm.Paging.Found.{IsPath, walk_tables-path, valid-IsPath, path-entry}
use oops_os.Mm.Paging.Owned.{IsOwned, owner-IsOwned}
use oops_os.Mm.Paging.Copies.{moved_by, moved_end, moved-IsOwned}

walkaddr-user :
    (w : World) (r va : ℕ)
    → va < max_va
    → (entry w r va).valid ≡ true
    → (entry w r va).flags.user ≡ true
    → walkaddr w r va ≡ (entry w r va).target
unfolding walkaddr
walkaddr-user w r va l v u = elim (Bool-cases (leb max_va va)) [
  | inl q ↦ absurd (ground arith)
  | inr q ↦ rw (q, v, u) refl
]

-- `cowalloc` of a page with an entry `x`.
cowalloc-entry :
    (held : Bool) (swapout : World → Option World) (rounds : ℕ) (w : World) (r va t x : ℕ)
    → va < max_va
    → va % 4096 ≡ 0
    → (entry w r va).valid ≡ true
    → (entry w r va).flags.user ≡ true
    → 0 < (entry w r va).target
    → IsPath w r va t x
    → cowalloc held swapout rounds w r va
      ≡ cow_entry (kalloc held swapout rounds) w r va (entry w r va).target (some (x, px0 va))
unfolding cowalloc
cowalloc-entry held swapout rounds w r va t x l z v u n p =
    let aligned : (va % pgsize == 0) ≡ true = ground arith in
    let there : ((entry w r va).target == 0) ≡ false = ground arith in
    rw (aligned, walkaddr-user w r va l v u, there, walk_tables-path w false r va t x p) refl

kalloc_given :
    (held : Bool) (swapout : World → Option World) (rounds : ℕ) (w : World) (mem : ℕ) (m : Memory)
    → kalloc_try w.memory w.cpu ≡ (some mem, m)
    → kalloc held swapout (suc rounds) w ≡ (some mem, record w { memory = m })
unfolding kalloc kalloc_round
kalloc_given held swapout rounds w mem m e = rw e refl

kalloc-none :
    (held : Bool) (swapout : World → Option World) (rounds : ℕ) (w : World)
    → kalloc_try w.memory w.cpu ≡ (none, w.memory)
    → (held ≡ false → swapout w ≡ none)
    → kalloc held swapout (suc rounds) w ≡ (none, w)
unfolding kalloc kalloc_round
kalloc-none held swapout rounds w e h = elim (Bool-cases held) [
  | inl y ↦ rw (e, y) refl
  | inr n ↦ rw (e, n, h n) refl
]

-- How `cowalloc` ends on a page that `n` others use too: no page is free, or the process is the only
-- owner, or it gets a copy and there is one reference less to the old page.
abbrev pub CowEnds : World → ℕ → ℕ → ℕ → (ℕ → Role) → Option (ℕ × World) → Type 0
CowEnds w r va n role res =
    (0 < n) × NoneFree w × (res ≡ some (0, w))
    ⊎ (n ≡ 0)
      × ((w' : World) × (res ≡ some ((entry w r va).target, w'))
          × IsOwned w r va (entry w r va).target role w')
    ⊎ (0 < n)
      × ((mem : ℕ) × (w' : World) × (res ≡ some (mem, w'))
          × (on_lists w.memory mem ≡ 1)
          × (krefcnt w'.memory (entry w r va).target ≡ pos n)
          × IsOwned w r va mem role w')

owner_lem :
    (alloc : World → Option ℕ × World) (w : World) (r va t x : ℕ) (role : ℕ → Role)
    → IsTree w r role
    → IsPath w r va t x
    → va < max_va
    → (entry w r va).valid ≡ true
    → krefcnt w.memory (entry w r va).target ≡ pos 1
    → CowEnds w r va 0 role (cow_entry alloc w r va (entry w r va).target (some (x, px0 va)))
unfolding cow_entry
owner_lem alloc w r va t x role h p l v c =
    let same : record (w.tables x (px0 va)) { flags = own_flags (w.tables x (px0 va)).flags }
        ≡ mapping (entry w r va).target (own_flags (entry w r va).flags) =
      rw (path-entry w r va t x p) (
        ap
          (λ (b : Bool). record (w.tables x (px0 va)) {
            valid = b;
            flags = own_flags (w.tables x (px0 va)).flags;
          })
          (rw (sym (path-entry w r va t x p)) v)) in
    inr (inl (refl, (_, rw (c, same) refl, owner-IsOwned w r va t x role h p l v c)))

is_bad-end : (m m' : Memory) (pa : ℕ) → m'.kernel_end ≡ m.kernel_end → is_bad m' pa ≡ is_bad m pa
unfolding is_bad
is_bad-end m m' pa e = rw e refl

released-fewer :
    (m m' : Memory) (pa n : ℕ) → IsReleased m pa (suc n) m' → (y : ℕ) → on_lists m' y ≤ on_lists m y
released-fewer m m' pa n rel y = elim (ℕ_discrete y pa) [
  | yes e ↦ rw e (omega (arith, none))
  | no ne ↦ omega (arith, rel.lists y ne)
]
  where
    none : on_lists m' pa ≡ 0
    none = ground (arith, rel.free)

-- A page with references is not one that was free.
counts_apart :
    (m m' : Memory) (mem pa n : ℕ)
    → IsValid m
    → IsGiven m mem m'
    → m.cnt (page_of pa) ≡ pos (suc n)
    → page_of pa ≢ page_of mem
counts_apart m m' mem pa n v g c q =
    cc (sym c ∙ ap m.cnt q, v.unused mem (omega (arith, g.was_free)))

copied_lem :
    (alloc : World → Option ℕ × World) (w : World) (r va t x n : ℕ) (role : ℕ → Role)
    → IsTree w r role
    → IsPath w r va t x
    → va < max_va
    → (mem : ℕ) (m : Memory)
    → cow_entry alloc w r va (entry w r va).target (some (x, px0 va))
      ≡ copy_page r va x (px0 va) (entry w r va).target (some mem, record w { memory = m })
    → IsGiven w.memory mem m
    → page_of (entry w r va).target ≢ page_of mem
    → (m' : Memory) × (kfree m w.cpu (entry w r va).target ≡ some m')
      × IsReleased m (entry w r va).target (suc n) m'
    → CowEnds w r va (suc n) role (cow_entry alloc w r va (entry w r va).target (some (x, px0 va)))
unfolding copy_page krefcnt
copied_lem alloc w r va t x n role h p l mem m e g apart (m', k, rel) =
    let one = rel.counts (page_of mem) (λ q. apart (sym q)) ∙ g.one_ref in
    let fewer = released-fewer m m' (entry w r va).target n rel in
    let by = moved_by w r va t x role h p mem m m' g fewer rel.valid l in
    let end = moved_end w r va t x role h p mem m m' g fewer rel.valid k in
    let own = moved-IsOwned w r va t x role h p mem m m' g fewer rel.valid l one in
    inr (inr (omega arith, (mem, _, e ∙ rw by end, g.was_free, rel.refs, own)))

copier_lem :
    (held : Bool) (swapout : World → Option World) (rounds : ℕ) (w : World) (r va t x n : ℕ)
    (role : ℕ → Role)
    → IsTree w r role
    → IsPath w r va t x
    → va < max_va
    → is_bad w.memory (entry w r va).target ≡ false
    → krefcnt w.memory (entry w r va).target ≡ pos (suc (suc n))
    → (held ≡ false → NoneFree w → swapout w ≡ none)
    → CowEnds w r va (suc n) role (
        cow_entry
          (kalloc held swapout (suc rounds))
          w
          r
          va
          (entry w r va).target
          (some (x, px0 va)))
unfolding cow_entry copy_page mapped_copy krefcnt
copier_lem held swapout rounds w r va t x n role h p l b c stays =
    let many : is_one (pos (suc (suc n))) ≡ false = ground arith in
    elim (kalloc_try_lem w.memory w.cpu h.memory h.cpu) [
      | inl (e, none_free) ↦
          let got = kalloc-none held swapout rounds w e (λ q. stays q none_free) in
          inl (omega arith, none_free, rw (c, many, got) refl)
      | inr (mem, m, e, g) ↦
          let pa = (entry w r va).target in
          let got = kalloc_given held swapout rounds w mem m e in
          copied_lem (kalloc held swapout (suc rounds)) w r va t x n role h p l mem m
            (rw (c, many, got) refl) g (counts_apart w.memory m mem pa (suc n) h.memory g c)
            (kfree_lem m w.cpu pa (suc n) g.valid h.cpu (is_bad-end w.memory m pa g.kernel_end ∙ b)
              (g.counts (page_of pa) (counts_apart w.memory m mem pa (suc n) h.memory g c) ∙ c))
    ]

-- `cowalloc` of a page below MAXVA that is mapped for the user in a tree of tables, to a page that has
-- `n + 1` references, where `kalloc` does not go on to swap a page out: a lock is held, a page is free or
-- `swapout` fails. If `n` is 0, the entry becomes writable and loses its copy-on-write mark. Otherwise
-- it answers 0 and changes nothing if no CPU has a free page; or the entry leads, writable and without the mark, to
-- a page that was free, has one reference now and holds what the old one holds, and the old page has `n`
-- references. No entry of another page changes, nor what a page in use holds, and the tables are still a tree.
pub cowalloc_lem :
    (held : Bool) (swapout : World → Option World) (rounds : ℕ) (w : World) (r va n : ℕ)
    (role : ℕ → Role)
    → IsTree w r role
    → va < max_va
    → va % 4096 ≡ 0
    → (entry w r va).valid ≡ true
    → (entry w r va).flags.user ≡ true
    → 0 < (entry w r va).target
    → is_bad w.memory (entry w r va).target ≡ false
    → krefcnt w.memory (entry w r va).target ≡ pos (suc n)
    → (held ≡ false → NoneFree w → swapout w ≡ none)
    → CowEnds w r va n role (cowalloc held swapout (suc rounds) w r va)
cowalloc_lem held swapout rounds w r va n role h l z v u k b c stays =
    let (t, x, p) = valid-IsPath w r va v in
    rw (cowalloc-entry held swapout (suc rounds) w r va t x l z v u k p) (finish t x p n c)
  where
    finish :
        (t x : ℕ)
        → IsPath w r va t x
        → (n : ℕ) → krefcnt w.memory (entry w r va).target ≡ pos (suc n)
        → CowEnds w r va n role (
            cow_entry
              (kalloc held swapout (suc rounds))
              w
              r
              va
              (entry w r va).target
              (some (x, px0 va)))
    finish t x p zero c = owner_lem (kalloc held swapout (suc rounds)) w r va t x role h p l v c
    finish t x p (suc n) c = copier_lem held swapout rounds w r va t x n role h p l b c stays
