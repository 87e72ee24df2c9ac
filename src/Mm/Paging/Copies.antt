-- ===== src/Mm/Paging/Copies.antt =====
-- `cowalloc` when the page is copied: the world after the copy is mapped and the old page given back.
use oops_os.Prelude.{ℕ, ◌/◌, ◌≤◌, ◌<◌, ◌≡◌, ◌≢◌, refl, sym, ◌∙◌, ap, false, some, arith, ok, pos}
use oops_os.Prelude.Arrays.{put, put_self, put_ne}
use oops_os.Mm.Alloc.{Memory, kfree, krefcnt}
use oops_os.Mm.Alloc.Pages.{on_lists, IsValid, IsGiven}
use oops_os.Mm.Paging.{Pte, World, px0, max_va, set_pte, map_page, entry, own_flags, mapped_copy}
use oops_os.Mm.Paging.Tree.{Role, IsTree}
use oops_os.Mm.Paging.Leaf.{leaf_other, leaf-IsTree}
use oops_os.Mm.Paging.Maps.{mapping}
use oops_os.Mm.Paging.Found.{
  IsPath, path-entry, path-bottom, memory-IsTree, memory-entry, given-fewer,
}
use oops_os.Mm.Paging.Owned.{IsOwned, written-IsPath, written-entry, remapped}

-- The world when the copy is mapped and the old page given back.
module _ (w : World) (r va t x : ℕ) (role : ℕ → Role) (h : IsTree w r role) (p : IsPath w r va t x)
    (mem : ℕ) (m m' : Memory) (g : IsGiven w.memory mem m)
    (q : (y : ℕ) → on_lists m' y ≤ on_lists m y) (v' : IsValid m') where
  abbrev pub copied : World
  copied = record w { memory = m; bytes = put w.bytes mem (w.bytes (entry w r va).target) }

  abbrev pub away : Pte
  away = record (w.tables x (px0 va)) { valid = false }

  abbrev pub new : Pte
  new = mapping mem (own_flags (w.tables x (px0 va)).flags)

  abbrev pub moved : World
  moved = set_pte (set_pte copied x (px0 va) away) x (px0 va) new

  copied-IsTree : IsTree copied r role
  copied-IsTree =
      memory-IsTree w m (put w.bytes mem (w.bytes (entry w r va).target)) r role h g.valid
        (given-fewer w.memory m mem g)

  copied-IsPath : IsPath copied r va t x
  copied-IsPath = record {
    second_valid = p.second_valid;
    second_target = p.second_target;
    third_valid = p.third_valid;
    third_target = p.third_target;
  }

  away-IsTree : IsTree (set_pte copied x (px0 va) away) r role
  away-IsTree =
      leaf-IsTree copied r role copied-IsTree x va away
        (path-bottom copied r va t x role copied-IsTree copied-IsPath) (λ z. absurd (cc z))

  moved-IsTree : IsTree moved r role
  unfolding set_pte
  moved-IsTree =
      leaf-IsTree (set_pte copied x (px0 va) away) r role away-IsTree x va new
        (path-bottom w r va t x role h p) (λ z. (h.free mem (omega (arith, g.was_free)), g.on_none))

  away-IsPath : IsPath (set_pte copied x (px0 va) away) r va t x
  away-IsPath = written-IsPath copied r va t x role copied-IsTree copied-IsPath away

  moved-entry : entry moved r va ≡ new
  moved-entry =
      written-entry (set_pte copied x (px0 va) away) r va t x role away-IsTree away-IsPath new

  moved-others :
      (vb : ℕ) → va < max_va → vb < max_va → vb / 4096 ≢ va / 4096 → entry moved r vb ≡ entry w r vb
  moved-others vb l b ne =
      let place = path-bottom w r va t x role h p in
      leaf_other (set_pte copied x (px0 va) away) r role away-IsTree x va new place vb l b ne
      ∙ (leaf_other copied r role copied-IsTree x va away place vb l b ne
          ∙ memory-entry w m (put w.bytes mem (w.bytes (entry w r va).target)) r vb)

  pub moved_by :
      va < max_va
      → map_page (set_pte copied x (px0 va) away) r va mem (own_flags (w.tables x (px0 va)).flags)
        ≡ some (ok, moved)
  moved_by l =
      remapped copied r va t x role copied-IsTree copied-IsPath away mem
        (own_flags (w.tables x (px0 va)).flags) l refl

  pub moved_end :
      kfree m w.cpu (entry w r va).target ≡ some m'
      → mapped_copy x (px0 va) (entry w r va).target mem (ok, moved)
        ≡ some (mem, record moved { memory = m' })
  unfolding mapped_copy set_pte
  moved_end k = rw k refl

  pub moved-IsOwned :
      va < max_va → krefcnt m' mem ≡ pos 1 → IsOwned w r va mem role (record moved { memory = m' })
  unfolding set_pte
  moved-IsOwned l c = record {
    tree = memory-IsTree moved m' moved.bytes r role moved-IsTree v' q;
    at =
        memory-entry moved m' moved.bytes r va
        ∙ (moved-entry
            ∙ ap (λ (e : Pte). mapping mem (own_flags e.flags)) (sym (path-entry w r va t x p)));
    others = λ vb b ne. memory-entry moved m' moved.bytes r vb ∙ moved-others vb l b ne;
    contents = put_self w.bytes mem (w.bytes (entry w r va).target);
    kept = λ y n.
        put_ne w.bytes mem (w.bytes (entry w r va).target) y
          (λ e. omega (arith, n, g.was_free, ap (on_lists w.memory) e));
    one_ref = c;
  }
