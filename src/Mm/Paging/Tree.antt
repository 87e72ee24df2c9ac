-- ===== src/Mm/Paging/Tree.antt =====
-- The shape of a page table: each page of it has one place in the tree, and none is on a free list.
use oops_os.Prelude.{
  ℕ, ◌<◌, ◌≡◌, ◌≢◌, refl, sym, ◌∙◌, ap, inl, inr, true, false, some, Bool-cases, ℕ_discrete, subst,
}
use oops_os.Prelude.Arrays.{put, put_self, put_ne}
use oops_os.Mm.Alloc.{Memory, ncpu}
use oops_os.Mm.Alloc.Pages.{on_lists, IsValid, IsGiven}
use oops_os.Mm.Paging.{
  Pte, no_pte, World, px2, px1, px0, set_pte, table_pte, link_table, step_down, last_step,
  second_step, walk_tables, entry_at, entry,
}

-- The places of pages: the root, the table for an index of the root, the table for two indices, and all
-- other pages.
pub data Role : Type 0 where
  root other : Role
  middle : ℕ → Role
  bottom : ℕ → ℕ → Role

pub record IsTree (w : World) (r : ℕ) (role : ℕ → Role) : Type 0 where
  pub top : role r ≡ root
  pub second : (i : ℕ) → (w.tables r i).valid ≡ true → role (w.tables r i).target ≡ middle i
  pub third :
      (t i j : ℕ)
      → role t ≡ middle i
      → (w.tables t j).valid ≡ true
      → role (w.tables t j).target ≡ bottom i j
  pub fourth :
      (t i j k : ℕ)
      → role t ≡ bottom i j
      → (w.tables t k).valid ≡ true
      → (role (w.tables t k).target ≡ other) × (on_lists w.memory (w.tables t k).target ≡ 0)
  pub free : (pa : ℕ) → 0 < on_lists w.memory pa → role pa ≡ other
  pub memory : IsValid w.memory
  pub cpu : w.cpu < ncpu

-- The entries of all addresses are as they were.
abbrev pub SameEntries : World → World → ℕ → Type 0
SameEntries w w' r = (va : ℕ) → entry w' r va ≡ entry w r va

-- The three ways in which the walk to an entry goes.
pub entry-no_second :
    (w : World) (r va : ℕ) → (w.tables r (px2 va)).valid ≡ false → entry w r va ≡ no_pte
unfolding entry walk_tables step_down second_step entry_at
entry-no_second w r va e = rw e refl

pub entry-no_third :
    (w : World) (r va : ℕ)
    → (w.tables r (px2 va)).valid ≡ true
    → (w.tables (w.tables r (px2 va)).target (px1 va)).valid ≡ false
    → entry w r va ≡ no_pte
unfolding entry walk_tables step_down second_step last_step entry_at
entry-no_third w r va e f = rw (e, f) refl

pub entry-found :
    (w : World) (r va t x : ℕ)
    → (w.tables r (px2 va)).valid ≡ true
    → (w.tables r (px2 va)).target ≡ t
    → (w.tables t (px1 va)).valid ≡ true
    → (w.tables t (px1 va)).target ≡ x
    → entry w r va ≡ w.tables x (px0 va)
unfolding entry walk_tables step_down second_step last_step entry_at
entry-found w r va t x e g f h = rw (e, g, f, h) refl

-- What `link_table` does to the entries of all tables.
pub record IsLinked (w : World) (t i pa : ℕ) (w' : World) : Type 0 where
  pub at : w'.tables t i ≡ table_pte pa
  pub beside : (j : ℕ) → j ≢ i → w'.tables t j ≡ w.tables t j
  pub fresh : (j : ℕ) → w'.tables pa j ≡ no_pte
  pub elsewhere : (s j : ℕ) → s ≢ t → s ≢ pa → w'.tables s j ≡ w.tables s j
  pub given : IsGiven w.memory pa w'.memory
  pub cpu : w'.cpu ≡ w.cpu
  pub bytes : w'.bytes ≡ w.bytes

pub link_table-IsLinked :
    (w : World) (t i pa : ℕ) (m : Memory)
    → t ≢ pa
    → IsGiven w.memory pa m
    → (w' : World) × (link_table w t i (some pa, m) ≡ (some pa, w')) × IsLinked w t i pa w'
unfolding link_table set_pte
link_table-IsLinked w t i pa m ne g = (
  _,
  refl,
  record {
    at = ap (λ f. f i) (put_self zeroed t _) ∙ put_self (zeroed t) i (table_pte pa);
    beside = λ j n.
        ap (λ f. f j) (put_self zeroed t _)
        ∙ (put_ne (zeroed t) i (table_pte pa) j n
            ∙ ap (λ f. f j) (put_ne w.tables pa (λ x. no_pte) t ne));
    fresh = λ j.
        ap (λ f. f j) (put_ne zeroed t _ pa (λ e. ne (sym e)) ∙ put_self w.tables pa (λ x. no_pte));
    elsewhere =
        λ s j a b. ap (λ f. f j) (put_ne zeroed t _ s a ∙ put_ne w.tables pa (λ x. no_pte) s b);
    given = g;
    cpu = refl;
    bytes = refl;
  },
)
  where
    zeroed : ℕ → ℕ → Pte
    zeroed = put w.tables pa (λ j. no_pte)

-- A fresh table for an entry of the root that was empty changes no entry of an address.
pub linked_root-SameEntries :
    (w w' : World) (r i pa : ℕ) (role : ℕ → Role)
    → IsTree w r role
    → IsLinked w r i pa w'
    → role pa ≡ other
    → (w.tables r i).valid ≡ false
    → SameEntries w w' r
linked_root-SameEntries w w' r i pa role h l o empty va = elim (ℕ_discrete (px2 va) i) [
  | yes e ↦
      let now : w'.tables r (px2 va) ≡ table_pte pa = rw e l.at in
      entry-no_third w' r va (rw now refl) (rw (now, l.fresh (px1 va)) refl)
      ∙ sym (entry-no_second w r va (rw e empty))
  | no ne ↦ elim (Bool-cases ((w.tables r (px2 va)).valid)) [
    | inr v ↦
        let now = l.beside (px2 va) ne in
        entry-no_second w' r va (rw now v) ∙ sym (entry-no_second w r va v)
    | inl v ↦
        let t = (w.tables r (px2 va)).target in
        let place = h.second (px2 va) v in
        let now = l.beside (px2 va) ne in
        let kept = λ (j : ℕ).
          l.elsewhere t j (λ x. cc (ap role x, place, h.top)) (λ x. cc (ap role x, place, o)) in
        elim (Bool-cases ((w.tables t (px1 va)).valid)) [
          | inr u ↦
              entry-no_third w' r va (rw now v) (rw (now, kept (px1 va)) u)
              ∙ sym (entry-no_third w r va v u)
          | inl u ↦
              let x = (w.tables t (px1 va)).target in
              let place_x = h.third t (px2 va) (px1 va) place u in
              let kept_x =
                l.elsewhere x (px0 va) (λ y. cc (ap role y, place_x, h.top))
                  (λ y. cc (ap role y, place_x, o)) in
              entry-found w' r va t x (rw now v) (rw now refl) (rw (kept (px1 va)) u)
                (rw (kept (px1 va)) refl)
              ∙ (kept_x ∙ sym (entry-found w r va t x v refl u refl))
        ]
  ]
]

-- So does one for an empty entry of a table below the root.
pub linked_middle-SameEntries :
    (w w' : World) (r t i a pa : ℕ) (role : ℕ → Role)
    → IsTree w r role
    → IsLinked w t i pa w'
    → role t ≡ middle a
    → role pa ≡ other
    → (w.tables t i).valid ≡ false
    → SameEntries w w' r
linked_middle-SameEntries w w' r t i a pa role h l m o empty va =
    let now =
      l.elsewhere r (px2 va) (λ x. cc (ap role x, h.top, m)) (λ x. cc (ap role x, h.top, o)) in
    elim (Bool-cases ((w.tables r (px2 va)).valid)) [
      | inr v ↦ entry-no_second w' r va (rw now v) ∙ sym (entry-no_second w r va v)
      | inl v ↦
          let t1 = (w.tables r (px2 va)).target in
          let place = h.second (px2 va) v in
          elim (ℕ_discrete t1 t) [
            | no ne ↦
                below va v t1 refl place
                  (l.elsewhere t1 (px1 va) ne (λ x. cc (ap role x, place, o))) now
            | yes e ↦ elim (ℕ_discrete (px1 va) i) [
              | no ni ↦
                  below va v t1 refl place
                    (subst (λ y. w'.tables y (px1 va) ≡ w.tables y (px1 va)) (sym e)
                      (l.beside (px1 va) ni))
                    now
              | yes ei ↦
                  let linked : w'.tables t1 (px1 va) ≡ table_pte pa = rw (e, ei) l.at in
                  let was : (w.tables t1 (px1 va)).valid ≡ false = rw (e, ei) empty in
                  entry-found w' r va t1 pa (rw now v) (rw now refl) (rw linked refl)
                    (rw linked refl)
                  ∙ (l.fresh (px0 va) ∙ sym (entry-no_third w r va v was))
            ]
          ]
    ]
  where
    below :
        (va : ℕ)
        → (w.tables r (px2 va)).valid ≡ true
        → (t1 : ℕ) → (w.tables r (px2 va)).target ≡ t1
        → role t1 ≡ middle (px2 va)
        → w'.tables t1 (px1 va) ≡ w.tables t1 (px1 va)
        → w'.tables r (px2 va) ≡ w.tables r (px2 va)
        → entry w' r va ≡ entry w r va
    below va v t1 q place kept now = elim (Bool-cases ((w.tables t1 (px1 va)).valid)) [
      | inr u ↦
          entry-no_third w' r va (rw now v) (rw (now, q, kept) u)
          ∙ sym (entry-no_third w r va v (rw q u))
      | inl u ↦
          let x = (w.tables t1 (px1 va)).target in
          let place_x = h.third t1 (px2 va) (px1 va) place u in
          let kept_x =
            l.elsewhere x (px0 va) (λ y. cc (ap role y, place_x, m))
              (λ y. cc (ap role y, place_x, o)) in
          entry-found w' r va t1 x (rw now v) (rw now q) (rw kept u) (rw kept refl)
          ∙ (kept_x ∙ sym (entry-found w r va t1 x v q u refl))
    ]
