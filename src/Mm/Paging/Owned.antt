-- ===== src/Mm/Paging/Owned.antt =====
-- What `cowalloc` promises, and the writes to the entry of one page.
use oops_os.Prelude.{ℕ, ◌/◌, ◌<◌, ◌≡◌, ◌≢◌, refl, sym, true, false, some, ok, pos}
use oops_os.Mm.Alloc.{krefcnt}
use oops_os.Mm.Alloc.Pages.{on_lists}
use oops_os.Mm.Paging.{
  Flags, Pte, World, px2, px1, px0, max_va, set_pte, write_mapping, map_page, entry, own_flags,
}
use oops_os.Mm.Paging.Tree.{Role, other, IsTree}
use oops_os.Mm.Paging.Leaf.{set_pte-at, root_kept, middle_kept, leaf_other, leaf-IsTree, leaf_self}
use oops_os.Mm.Paging.Maps.{mapping, walk-below}
use oops_os.Mm.Paging.Found.{IsPath, walk_tables-path, path-entry, path-middle, path-bottom}

-- Page `va` is on page `mem` alone now, can be written and holds what it held; no other entry changed.
pub record IsOwned (w : World) (r va mem : ℕ) (role : ℕ → Role) (w' : World) : Type 0 where
  pub tree : IsTree w' r role
  pub at :
      entry w' r va ≡ mapping mem (record ((entry w r va).flags) { writable = true; cow = false })
  pub others : (vb : ℕ) → vb < max_va → vb / 4096 ≢ va / 4096 → entry w' r vb ≡ entry w r vb
  pub contents : w'.bytes mem ≡ w.bytes (entry w r va).target
  pub kept : (x : ℕ) → on_lists w.memory x ≡ 0 → w'.bytes x ≡ w.bytes x
  pub one_ref : krefcnt w'.memory mem ≡ pos 1

-- The path stays when its last entry is written.
module _ (w : World) (r va t x : ℕ) (role : ℕ → Role) (h : IsTree w r role) (p : IsPath w r va t x)
    (pte : Pte) where
  pub written-IsPath : IsPath (set_pte w x (px0 va) pte) r va t x
  written-IsPath =
      let place = path-bottom w r va t x role h p in
      let up = root_kept w r role h x va pte place (px2 va) in
      let down =
        middle_kept w r role h x va pte place t (px2 va) (px1 va)
          (path-middle w r va t x role h p) in
      record {
        second_valid = rw up p.second_valid;
        second_target = rw up p.second_target;
        third_valid = rw down p.third_valid;
        third_target = rw down p.third_target;
      }

  pub written-entry : entry (set_pte w x (px0 va) pte) r va ≡ pte
  written-entry =
      leaf_self w r role h x va pte (path-bottom w r va t x role h p) t p.second_valid
        p.second_target (path-middle w r va t x role h p) p.third_valid p.third_target

  -- Mapping a page again whose entry has been taken away needs no table.
  pub remapped :
      (pa : ℕ) (flags : Flags)
      → va < max_va
      → pte.valid ≡ false
      → map_page (set_pte w x (px0 va) pte) r va pa flags
        ≡ some (ok, set_pte (set_pte w x (px0 va) pte) x (px0 va) (mapping pa flags))
  unfolding map_page write_mapping
  remapped pa flags l v =
      rw
        (
          walk-below (set_pte w x (px0 va) pte) true r va l,
          walk_tables-path (set_pte w x (px0 va) pte) true r va t x written-IsPath,
          set_pte-at w x (px0 va) pte,
          v,
        )
        refl

-- The only owner writes to the page itself.
pub owner-IsOwned :
    (w : World) (r va t x : ℕ) (role : ℕ → Role) (h : IsTree w r role) (p : IsPath w r va t x)
    → va < max_va
    → (entry w r va).valid ≡ true
    → krefcnt w.memory (entry w r va).target ≡ pos 1
    → IsOwned w r va
        (entry w r va).target
        role
        (set_pte w x (px0 va) (mapping (entry w r va).target (own_flags (entry w r va).flags)))
unfolding set_pte
owner-IsOwned w r va t x role h p l v c =
    let place = path-bottom w r va t x role h p in
    let e = path-entry w r va t x p in
    let user = h.fourth x (px2 va) (px1 va) (px0 va) place (rw (sym e) v) in
    let spare : (role (entry w r va).target ≡ other)
        × (on_lists w.memory (entry w r va).target ≡ 0) =
      rw e user in
    record {
      tree =
          leaf-IsTree w r role h x va
            (mapping (entry w r va).target (own_flags (entry w r va).flags)) place (λ q. spare);
      at =
          written-entry w r va t x role h p
            (mapping (entry w r va).target (own_flags (entry w r va).flags));
      others = λ vb m ne.
          leaf_other w r role h x va
            (mapping (entry w r va).target (own_flags (entry w r va).flags)) place vb l m ne;
      contents = refl;
      kept = λ y n. refl;
      one_ref = c;
    }
