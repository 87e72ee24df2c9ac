-- ===== src/Mm/Paging/Leaf.antt =====
-- A write to an entry of a bottom table changes the entry of one page, and no other.
use oops_os.Prelude.{
  ℕ, ◌/◌, ◌<◌, ◌≡◌, ◌≢◌, refl, sym, ◌∙◌, ap, inl, inr, true, arith, Bool-cases, ℕ_discrete, subst,
}
use oops_os.Prelude.Arrays.{put, put_self, put_ne}
use oops_os.Mm.Alloc.Pages.{on_lists}
use oops_os.Mm.Paging.{Pte, World, px2, px1, px0, max_va, set_pte, entry}
use oops_os.Mm.Paging.Tree.{
  Role, root, other, middle, bottom, IsTree, entry-no_second, entry-no_third, entry-found,
}

pub set_pte-at : (w : World) (x i : ℕ) (pte : Pte) → (set_pte w x i pte).tables x i ≡ pte
unfolding set_pte
set_pte-at w x i pte =
    ap (λ (f : ℕ → Pte). f i) (put_self w.tables x (put (w.tables x) i pte))
    ∙ put_self (w.tables x) i pte

set_pte-beside :
    (w : World) (x i : ℕ) (pte : Pte) (j : ℕ)
    → j ≢ i
    → (set_pte w x i pte).tables x j ≡ w.tables x j
unfolding set_pte
set_pte-beside w x i pte j ne =
    ap (λ (f : ℕ → Pte). f j) (put_self w.tables x (put (w.tables x) i pte))
    ∙ put_ne (w.tables x) i pte j ne

pub set_pte-elsewhere :
    (w : World) (x i : ℕ) (pte : Pte) (s j : ℕ)
    → s ≢ x
    → (set_pte w x i pte).tables s j ≡ w.tables s j
unfolding set_pte
set_pte-elsewhere w x i pte s j ne =
    ap (λ (f : ℕ → Pte). f j) (put_ne w.tables x (put (w.tables x) i pte) s ne)

-- The indices of two addresses are the same only if they are on one page.
same_page_of :
    (va vb : ℕ)
    → va < max_va
    → vb < max_va
    → px2 va ≡ px2 vb
    → px1 va ≡ px1 vb
    → px0 va ≡ px0 vb
    → va / 4096 ≡ vb / 4096
same_page_of va vb l m e f g = omega arith

bottom_inj : (a b c d : ℕ) → bottom a b ≡ bottom c d → (a ≡ c) × (b ≡ d)
bottom_inj a b c d e = (
  ap (λ (z : Role). elim z [ root ↦ a | other ↦ a | middle k ↦ a | bottom k n ↦ k ]) e,
  ap (λ (z : Role). elim z [ root ↦ b | other ↦ b | middle k ↦ b | bottom k n ↦ n ]) e,
)

module _ (w : World) (r : ℕ) (role : ℕ → Role) (h : IsTree w r role) (x va : ℕ) (pte : Pte)
    (place : role x ≡ bottom (px2 va) (px1 va)) where
  pub root_kept : (j : ℕ) → (set_pte w x (px0 va) pte).tables r j ≡ w.tables r j
  root_kept j = set_pte-elsewhere w x (px0 va) pte r j (λ e. cc (ap role e, h.top, place))

  pub middle_kept :
      (t a j : ℕ) → role t ≡ middle a → (set_pte w x (px0 va) pte).tables t j ≡ w.tables t j
  middle_kept t a j m = set_pte-elsewhere w x (px0 va) pte t j (λ e. cc (ap role e, m, place))

  -- The entry of another page.
  pub leaf_other :
      (vb : ℕ)
      → va < max_va
      → vb < max_va
      → vb / 4096 ≢ va / 4096
      → entry (set_pte w x (px0 va) pte) r vb ≡ entry w r vb
  leaf_other vb l m ne = elim (Bool-cases ((w.tables r (px2 vb)).valid)) [
    | inr v ↦
        entry-no_second (set_pte w x (px0 va) pte) r vb (rw (root_kept (px2 vb)) v)
        ∙ sym (entry-no_second w r vb v)
    | inl v ↦
        let t = (w.tables r (px2 vb)).target in
        let m_t = h.second (px2 vb) v in
        let now = root_kept (px2 vb) in
        let kept = middle_kept t (px2 vb) (px1 vb) m_t in
        elim (Bool-cases ((w.tables t (px1 vb)).valid)) [
          | inr u ↦
              entry-no_third (set_pte w x (px0 va) pte) r vb (rw now v) (rw (now, kept) u)
              ∙ sym (entry-no_third w r vb v u)
          | inl u ↦
              let y = (w.tables t (px1 vb)).target in
              entry-found (set_pte w x (px0 va) pte) r vb t y (rw now v) (rw now refl) (rw kept u)
                (rw kept refl)
              ∙ (apart y (h.third t (px2 vb) (px1 vb) m_t u)
                  ∙ sym (entry-found w r vb t y v refl u refl))
        ]
  ]
    where
      apart :
          (y : ℕ)
          → role y ≡ bottom (px2 vb) (px1 vb)
          → (set_pte w x (px0 va) pte).tables y (px0 vb) ≡ w.tables y (px0 vb)
      apart y q = elim (ℕ_discrete y x) [
        | no ny ↦ set_pte-elsewhere w x (px0 va) pte y (px0 vb) ny
        | yes e ↦
            let same =
              bottom_inj (px2 vb) (px1 vb) (px2 va) (px1 va) (sym q ∙ (ap role e ∙ place)) in
            subst (λ z. (set_pte w x (px0 va) pte).tables z (px0 vb) ≡ w.tables z (px0 vb)) (sym e)
              (set_pte-beside w x (px0 va) pte (px0 vb)
                (λ f. ne (same_page_of vb va m l same.0 same.1 f)))
      ]

  -- The tree stays one, if the page of the new entry is no table and not free.
  pub leaf-IsTree :
      (pte.valid ≡ true → (role pte.target ≡ other) × (on_lists w.memory pte.target ≡ 0))
      → IsTree (set_pte w x (px0 va) pte) r role
  unfolding set_pte
  leaf-IsTree user = record {
    top = h.top;
    second = λ i v. rw (root_kept i) (h.second i (rw (root_kept i) at v));
    third = λ t i j m v. rw (middle_kept t i j m) (h.third t i j m (rw (middle_kept t i j m) at v));
    fourth = λ t i j k q v. elim (ℕ_discrete t x) [
      | no ne ↦
          let same = set_pte-elsewhere w x (px0 va) pte t k ne in
          rw same (h.fourth t i j k q (rw same at v))
      | yes e ↦ elim (ℕ_discrete k (px0 va)) [
        | yes f ↦
            let same : (set_pte w x (px0 va) pte).tables t k ≡ pte =
              rw (e, f) (set_pte-at w x (px0 va) pte) in
            rw same (user (rw same at v))
        | no nf ↦
            let same : (set_pte w x (px0 va) pte).tables t k ≡ w.tables t k =
              rw e (set_pte-beside w x (px0 va) pte k nf) in
            rw same (h.fourth t i j k q (rw same at v))
      ]
    ];
    free = h.free;
    memory = h.memory;
    cpu = h.cpu;
  }

  -- The entry that was written.
  pub leaf_self :
      (t : ℕ)
      → (w.tables r (px2 va)).valid ≡ true
      → (w.tables r (px2 va)).target ≡ t
      → role t ≡ middle (px2 va)
      → (w.tables t (px1 va)).valid ≡ true
      → (w.tables t (px1 va)).target ≡ x
      → entry (set_pte w x (px0 va) pte) r va ≡ pte
  leaf_self t a b m c d =
      entry-found (set_pte w x (px0 va) pte) r va t x (rw (root_kept (px2 va)) a)
        (rw (root_kept (px2 va)) b) (rw (middle_kept t (px2 va) (px1 va) m) c)
        (rw (middle_kept t (px2 va) (px1 va) m) d)
      ∙ set_pte-at w x (px0 va) pte
