-- ===== src/Mm/Paging/Grow.antt =====
-- A table that is linked in keeps the shape of the tree.
use oops_os.Prelude.{ℕ, ◌<◌, ◌≡◌, ◌≢◌, refl, sym, ◌∙◌, ap, true, arith, ℕ_discrete, subst}
use oops_os.Prelude.Arrays.{put, put_self, put_ne}
use oops_os.Mm.Alloc.Pages.{on_lists}
use oops_os.Mm.Paging.{Pte, World, table_pte}
use oops_os.Mm.Paging.Tree.{Role, root, other, middle, bottom, IsTree, IsLinked}

module _ (w w' : World) (r pa : ℕ) (role : ℕ → Role) (h : IsTree w r role) where
  pub linked_root-IsTree : (i : ℕ) → IsLinked w r i pa w' → IsTree w' r (put role pa (middle i))
  linked_root-IsTree i l = record {
    top = old r (λ e. cc (ap role e, h.top, o)) ∙ h.top;
    second = λ k v. elim (ℕ_discrete k i) [
      | yes e ↦
          subst (λ x. put role pa (middle i) (w'.tables r x).target ≡ middle x) (sym e)
            (ap (λ (x : Pte). put role pa (middle i) x.target) l.at ∙ put_self role pa (middle i))
      | no ne ↦
          let place = h.second k (rw (l.beside k ne) at v) in
          ap (λ (x : Pte). put role pa (middle i) x.target) (l.beside k ne)
          ∙ (old _ (λ e. cc (ap role e, place, o)) ∙ place)
    ];
    third = λ t a j q v. elim (ℕ_discrete t pa) [
      | yes e ↦ absurd (cc (rw (e, l.fresh j) at v))
      | no ne ↦
          let was = sym (old t ne) ∙ q in
          let same = l.elsewhere t j (λ e. cc (ap role e, was, h.top)) ne in
          let place = h.third t a j was (rw same at v) in
          ap (λ (x : Pte). put role pa (middle i) x.target) same
          ∙ (old _ (λ e. cc (ap role e, place, o)) ∙ place)
    ];
    fourth = λ t a b j q v. elim (ℕ_discrete t pa) [
      | yes e ↦ absurd (cc (rw (e, l.fresh j) at v))
      | no ne ↦
          let was = sym (old t ne) ∙ q in
          let same = l.elsewhere t j (λ e. cc (ap role e, was, h.top)) ne in
          let place = h.fourth t a b j was (rw same at v) in user t j same place
    ];
    free = free;
    memory = l.given.valid;
    cpu = rw l.cpu h.cpu;
  }
    where
      o : role pa ≡ other
      o = h.free pa (omega (arith, l.given.was_free))

      old : (x : ℕ) → x ≢ pa → put role pa (middle i) x ≡ role x
      old x ne = put_ne role pa (middle i) x ne

      user :
          (t j : ℕ)
          → w'.tables t j ≡ w.tables t j
          → (role (w.tables t j).target ≡ other) × (on_lists w.memory (w.tables t j).target ≡ 0)
          → (put role pa (middle i) (w'.tables t j).target ≡ other)
            × (on_lists w'.memory (w'.tables t j).target ≡ 0)
      user t j same place =
          let ne : (w.tables t j).target ≢ pa =
            λ e. omega (arith, place.1, l.given.was_free, ap (on_lists w.memory) e) in
          rw same (old _ ne ∙ place.0, l.given.lists _ ne ∙ place.1)

      free : (x : ℕ) → 0 < on_lists w'.memory x → put role pa (middle i) x ≡ other
      free x m = elim (ℕ_discrete x pa) [
        | yes e ↦ absurd (omega (arith, l.given.on_none, m, ap (on_lists w'.memory) e))
        | no ne ↦ old x ne ∙ h.free x (omega (arith, l.given.lists x ne, m))
      ]

  pub linked_middle-IsTree :
      (t i a : ℕ)
      → role t ≡ middle a
      → IsLinked w t i pa w'
      → IsTree w' r (put role pa (bottom a i))
  linked_middle-IsTree t i a m l = record {
    top = old r (λ e. cc (ap role e, h.top, o)) ∙ h.top;
    second = λ k v.
        let same =
          l.elsewhere r k (λ e. cc (ap role e, h.top, m)) (λ e. cc (ap role e, h.top, o)) in
        let place = h.second k (rw same at v) in
        ap (λ (x : Pte). put role pa (bottom a i) x.target) same
        ∙ (old _ (λ e. cc (ap role e, place, o)) ∙ place);
    third = λ s b j q v. elim (ℕ_discrete s pa) [
      | yes e ↦ absurd (cc (rw (e, l.fresh j) at v))
      | no ne ↦ elim (ℕ_discrete s t) [
        | no nt ↦ stays s b j (l.elsewhere s j nt ne) (sym (old s ne) ∙ q) v
        | yes et ↦ elim (ℕ_discrete j i) [
          | no ni ↦
              stays s b j (subst (λ x. w'.tables x j ≡ w.tables x j) (sym et) (l.beside j ni))
                (sym (old s ne) ∙ q) v
          | yes ei ↦
              let is_a : middle a ≡ middle b = sym m ∙ (ap role (sym et) ∙ (sym (old s ne) ∙ q)) in
              let at : w'.tables s j ≡ table_pte pa = rw (et, ei) l.at in
              ap (λ (x : Pte). put role pa (bottom a i) x.target) at
              ∙ (put_self role pa (bottom a i) ∙ rw (sym (middle_inj a b is_a), ei) refl)
        ]
      ]
    ];
    fourth = λ s b c j q v. elim (ℕ_discrete s pa) [
      | yes e ↦ absurd (cc (rw (e, l.fresh j) at v))
      | no ne ↦
          let was = sym (old s ne) ∙ q in
          let same = l.elsewhere s j (λ e. cc (ap role e, was, m)) ne in
          let place = h.fourth s b c j was (rw same at v) in user s j same place
    ];
    free = free;
    memory = l.given.valid;
    cpu = rw l.cpu h.cpu;
  }
    where
      o : role pa ≡ other
      o = h.free pa (omega (arith, l.given.was_free))

      middle_inj : (x y : ℕ) → middle x ≡ middle y → x ≡ y
      middle_inj x y =
          ap λ (z : Role). elim z [ root ↦ x | other ↦ x | middle k ↦ k | bottom k n ↦ x ]

      old : (x : ℕ) → x ≢ pa → put role pa (bottom a i) x ≡ role x
      old x ne = put_ne role pa (bottom a i) x ne

      stays :
          (s b j : ℕ)
          → w'.tables s j ≡ w.tables s j
          → role s ≡ middle b
          → (w'.tables s j).valid ≡ true
          → put role pa (bottom a i) (w'.tables s j).target ≡ bottom b j
      stays s b j same q v =
          let place = h.third s b j q (rw same at v) in
          ap (λ (x : Pte). put role pa (bottom a i) x.target) same
          ∙ (old _ (λ e. cc (ap role e, place, o)) ∙ place)

      user :
          (s j : ℕ)
          → w'.tables s j ≡ w.tables s j
          → (role (w.tables s j).target ≡ other) × (on_lists w.memory (w.tables s j).target ≡ 0)
          → (put role pa (bottom a i) (w'.tables s j).target ≡ other)
            × (on_lists w'.memory (w'.tables s j).target ≡ 0)
      user s j same place =
          let ne : (w.tables s j).target ≢ pa =
            λ e. omega (arith, place.1, l.given.was_free, ap (on_lists w.memory) e) in
          rw same (old _ ne ∙ place.0, l.given.lists _ ne ∙ place.1)

      free : (x : ℕ) → 0 < on_lists w'.memory x → put role pa (bottom a i) x ≡ other
      free x n = elim (ℕ_discrete x pa) [
        | yes e ↦ absurd (omega (arith, l.given.on_none, n, ap (on_lists w'.memory) e))
        | no ne ↦ old x ne ∙ h.free x (omega (arith, l.given.lists x ne, n))
      ]
