-- ===== src/Mm/Paging/Maps.antt =====
-- `mappages`: the entry of the page that is mapped, and of all others.
use oops_os.Prelude.{
  ℕ, ◌/◌, ◌<◌, ◌≡◌, ◌≢◌, refl, sym, ◌∙◌, ◌⊎◌, inl, inr, Bool, true, false, Option, none, some,
  arith, Bool-cases, subst, Status, ok, err,
}
use oops_os.Mm.Alloc.Pages.{on_lists}
use oops_os.Mm.Paging.{
  Flags, Pte, World, px2, px0, max_va, set_pte, walk_tables, walk, write_mapping, map_page, entry,
}
use oops_os.Mm.Paging.Tree.{Role, other, middle, IsTree, entry-found}
use oops_os.Mm.Paging.Walked.{IsExtended, NoneFree, IsWalked, walk_tables_lem}
use oops_os.Mm.Paging.Leaf.{leaf_other, leaf-IsTree, leaf_self}

abbrev pub mapping : ℕ → Flags → Pte
mapping pa flags = record { valid = true; target = pa; flags = flags }

-- Page `va` is mapped as asked, and no other entry changed.
pub record IsMapped (w : World) (r va pa : ℕ) (flags : Flags) (role : ℕ → Role) (w' : World)
    (role' : ℕ → Role) : Type 0 where
  pub tree : IsTree w' r role'
  pub at : entry w' r va ≡ mapping pa flags
  pub others : (vb : ℕ) → vb < max_va → vb / 4096 ≢ va / 4096 → entry w' r vb ≡ entry w r vb
  pub user :
      (x : ℕ)
      → role x ≡ other
      → on_lists w.memory x ≡ 0
      → (role' x ≡ other) × (on_lists w'.memory x ≡ 0)
  pub bytes : w'.bytes ≡ w.bytes

-- How mapping a page ends: a panic on one that is mapped, no page free for a table, or the mapping.
abbrev pub MapEnds : World → ℕ → ℕ → ℕ → Flags → (ℕ → Role) → Option (Status × World) → Type 0
MapEnds w r va pa flags role res =
    ((entry w r va).valid ≡ true) × (res ≡ none)
    ⊎ ((w' : World) × (role' : ℕ → Role) × (res ≡ some (err, w'))
        × IsExtended w w' r role role'
        × NoneFree w')
    ⊎ (((entry w r va).valid ≡ false)
        × ((w' : World) × (role' : ℕ → Role) × (res ≡ some (ok, w'))
            × IsMapped w r va pa flags role w' role'))

pub walk-below :
    (w : World) (alloc : Bool) (r va : ℕ)
    → va < max_va
    → walk w alloc r va ≡ some (walk_tables w alloc r va)
unfolding walk
walk-below w alloc r va l = ground arith

entry-walked :
    (w w' : World) (r va x : ℕ) (role role' : ℕ → Role)
    → IsWalked w r va role x w' role'
    → w'.tables x (px0 va) ≡ entry w r va
entry-walked w w' r va x role role' k =
    sym (entry-found w' r va k.t x k.second_valid k.second_target k.third_valid k.third_target)
    ∙ k.extended.same va

walked-middle :
    (w w' : World) (r va x : ℕ) (role role' : ℕ → Role)
    → (k : IsWalked w r va role x w' role') → role' k.t ≡ middle (px2 va)
walked-middle w w' r va x role role' k =
    subst (λ t. role' t ≡ middle (px2 va)) k.second_target
      (k.extended.tree.second (px2 va) k.second_valid)

write_mapping-IsMapped :
    (w w' : World) (r va pa x : ℕ) (flags : Flags) (role role' : ℕ → Role)
    → va < max_va
    → role pa ≡ other
    → on_lists w.memory pa ≡ 0
    → IsWalked w r va role x w' role'
    → IsMapped w r va pa flags role (set_pte w' x (px0 va) (mapping pa flags)) role'
unfolding set_pte
write_mapping-IsMapped w w' r va pa x flags role role' l o n k = record {
  tree =
      leaf-IsTree w' r role' k.extended.tree x va (mapping pa flags) k.place
        (λ v. k.extended.user pa o n);
  at =
      leaf_self w' r role' k.extended.tree x va (mapping pa flags) k.place k.t k.second_valid
        k.second_target (walked-middle w w' r va x role role' k) k.third_valid k.third_target;
  others = λ vb m ne.
      leaf_other w' r role' k.extended.tree x va (mapping pa flags) k.place vb l m ne
      ∙ k.extended.same vb;
  user = k.extended.user;
  bytes = k.extended.bytes;
}

pub map_page_lem :
    (w : World) (r va pa : ℕ) (flags : Flags) (role : ℕ → Role)
    → IsTree w r role
    → va < max_va
    → role pa ≡ other
    → on_lists w.memory pa ≡ 0
    → MapEnds w r va pa flags role (map_page w r va pa flags)
unfolding map_page write_mapping
map_page_lem w r va pa flags role h l o n = elim (walk_tables_lem w r va role h) [
  | inl (w', role', e, x, none_free) ↦
      inr (inl (w', role', rw (walk-below w true r va l, e) refl, x, none_free))
  | inr (x, w', role', e, k) ↦ elim (Bool-cases ((entry w r va).valid)) [
    | inl v ↦
        inl (v, rw (walk-below w true r va l, e, entry-walked w w' r va x role role' k, v) refl)
    | inr v ↦
        let done : map_page w r va pa flags ≡ some (ok, set_pte w' x (px0 va) (mapping pa flags)) =
          rw (walk-below w true r va l, e, entry-walked w w' r va x role role' k, v) refl in
        inr (
          inr (v, (_, role', done, write_mapping-IsMapped w w' r va pa x flags role role' l o n k)))
  ]
]
