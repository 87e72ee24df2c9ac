-- ===== src/Mm/Paging/Ranges.antt =====
-- `mappages` over a range of pages.
use oops_os.Prelude.{
  ℕ, zero, suc, ◌+◌, ◌*◌, ◌/◌, ◌≤◌, ◌<◌, ◌≡◌, ◌≢◌, refl, ◌∙◌, ap, ◌⊎◌, inl, inr, false, Option,
  some, arith, subst, Status, ok, err,
}
use oops_os.Mm.Alloc.Pages.{on_lists}
use oops_os.Mm.Paging.{Flags, Pte, World, max_va, entry, next_if_ok, map_from}
use oops_os.Mm.Paging.Tree.{Role, other, IsTree}
use oops_os.Mm.Paging.Walked.{IsExtended, NoneFree, same-IsExtended}
use oops_os.Mm.Paging.Maps.{mapping, IsMapped, map_page_lem}

-- The first `n` pages from `a` on are mapped to those from `pa` on, and no other entry changed.
pub record IsRange (w : World) (r a pa : ℕ) (flags : Flags) (n : ℕ) (role : ℕ → Role) (w' : World)
    (role' : ℕ → Role) : Type 0 where
  pub tree : IsTree w' r role'
  pub at : (i : ℕ) → i < n → entry w' r (a + i * 4096) ≡ mapping (pa + i * 4096) flags
  pub others :
      (vb : ℕ)
      → vb < max_va
      → ((i : ℕ) → i < n → vb / 4096 ≢ (a + i * 4096) / 4096)
      → entry w' r vb ≡ entry w r vb
  pub user :
      (x : ℕ)
      → role x ≡ other
      → on_lists w.memory x ≡ 0
      → (role' x ≡ other) × (on_lists w'.memory x ≡ 0)
  pub bytes : w'.bytes ≡ w.bytes

extended-IsRange :
    (w w' : World) (r a pa : ℕ) (flags : Flags) (role role' : ℕ → Role)
    → IsExtended w w' r role role'
    → IsRange w r a pa flags 0 role w' role'
extended-IsRange w w' r a pa flags role role' e = record {
  tree = e.tree;
  at = λ i l. absurd (omega (arith, l));
  others = λ vb l apart. e.same vb;
  user = e.user;
  bytes = e.bytes;
}

-- One page in front of a range.
mapped-IsRange :
    (w w' w'' : World) (r a pa : ℕ) (flags : Flags) (n : ℕ) (role role' role'' : ℕ → Role)
    → a < max_va
    → IsMapped w r a pa flags role w' role'
    → IsRange w' r (a + 4096) (pa + 4096) flags n role' w'' role''
    → IsRange w r a pa flags (suc n) role w'' role''
mapped-IsRange w w' w'' r a pa flags n role role' role'' l m k = record {
  tree = k.tree;
  at = λ (i : ℕ). at i;
  others = λ vb b apart.
      k.others vb b (λ i c e. apart (suc i) (omega (arith, c)) (omega (arith, e)))
      ∙ m.others vb b (λ e. apart 0 (omega arith) (omega (arith, e)));
  user = λ x o f. let u = m.user x o f in k.user x u.0 u.1;
  bytes = k.bytes ∙ m.bytes;
}
  where
    at : (i : ℕ) → i < suc n → entry w'' r (a + i * 4096) ≡ mapping (pa + i * 4096) flags
    at zero c =
        let first : a ≡ a + 0 * 4096 = omega arith in
        let page : pa ≡ pa + 0 * 4096 = omega arith in
        subst (λ (v : ℕ). entry w'' r v ≡ mapping (pa + 0 * 4096) flags) first
          (k.others a l (λ i d e. omega (arith, e)) ∙ (m.at ∙ ap (λ (q : ℕ). mapping q flags) page))
    at (suc i) c =
        let next : a + 4096 + i * 4096 ≡ a + suc i * 4096 = omega arith in
        let page : pa + 4096 + i * 4096 ≡ pa + suc i * 4096 = omega arith in
        subst (λ (v : ℕ). entry w'' r v ≡ mapping (pa + suc i * 4096) flags) next
          (k.at i (omega (arith, c)) ∙ ap (λ (q : ℕ). mapping q flags) page)

-- The pages from `pa` on may be mapped.
abbrev pub AreSpare : World → (ℕ → Role) → ℕ → ℕ → Type 0
AreSpare w role pa k =
    (i : ℕ) → i < k → (role (pa + i * 4096) ≡ other) × (on_lists w.memory (pa + i * 4096) ≡ 0)

-- No page from `a` on is mapped.
abbrev pub AreEmpty : World → ℕ → ℕ → ℕ → Type 0
AreEmpty w r a k = (i : ℕ) → i < k → (entry w r (a + i * 4096)).valid ≡ false

-- How mapping `k` pages ends: all are mapped, or the first ones are and then no CPU had a page left for a table.
abbrev pub RangeEnds : World → ℕ → ℕ → ℕ → Flags → ℕ → (ℕ → Role) → Option (Status × World) → Type 0
RangeEnds w r a pa flags k role res =
    ((w' : World) × (role' : ℕ → Role) × (res ≡ some (ok, w'))
      × IsRange w r a pa flags k role w' role')
    ⊎ ((n : ℕ) × (w' : World) × (role' : ℕ → Role) × (n < k)
        × (res ≡ some (err, w'))
        × IsRange w r a pa flags n role w' role'
        × NoneFree w')

range-next :
    (w w' : World) (r a pa : ℕ) (flags : Flags) (k : ℕ) (role role' : ℕ → Role)
    (res : Option (Status × World))
    → a < max_va
    → IsMapped w r a pa flags role w' role'
    → RangeEnds w' r (a + 4096) (pa + 4096) flags k role' res
    → RangeEnds w r a pa flags (suc k) role res
range-next w w' r a pa flags k role role' res l m (inl (w'', role'', e, x)) =
    inl (w'', role'', e, mapped-IsRange w w' w'' r a pa flags k role role' role'' l m x)
range-next w w' r a pa flags k role role' res l m (inr (n, w'', role'', c, e, x, none_free)) = inr (
  suc n,
  w'',
  role'',
  omega (arith, c),
  e,
  mapped-IsRange w w' w'' r a pa flags n role role' role'' l m x,
  none_free,
)

-- What is left to map after the first page.
spare-next :
    (w w' : World) (r a pa : ℕ) (flags : Flags) (k : ℕ) (role role' : ℕ → Role)
    → IsMapped w r a pa flags role w' role'
    → AreSpare w role pa (suc k)
    → AreSpare w' role' (pa + 4096) k
spare-next w w' r a pa flags k role role' m spare i l =
    let same : pa + suc i * 4096 ≡ pa + 4096 + i * 4096 = omega arith in
    let was = spare (suc i) (omega (arith, l)) in
    subst (λ (x : ℕ). (role' x ≡ other) × (on_lists w'.memory x ≡ 0)) same
      (m.user (pa + suc i * 4096) was.0 was.1)

empty-next :
    (w w' : World) (r a pa : ℕ) (flags : Flags) (k : ℕ) (role role' : ℕ → Role)
    → IsMapped w r a pa flags role w' role'
    → a + suc k * 4096 ≤ max_va
    → AreEmpty w r a (suc k)
    → AreEmpty w' r (a + 4096) k
empty-next w w' r a pa flags k role role' m bound empty i l =
    let same : a + suc i * 4096 ≡ a + 4096 + i * 4096 = omega arith in
    let kept = m.others (a + suc i * 4096) (omega (arith, bound, l)) (λ e. omega (arith, e)) in
    subst (λ (v : ℕ). (entry w' r v).valid ≡ false) same
      (ap (λ (e : Pte). e.valid) kept ∙ empty (suc i) (omega (arith, l)))

pub map_from_lem :
    (w : World) (r a pa : ℕ) (flags : Flags) (k : ℕ) (role : ℕ → Role)
    → IsTree w r role
    → a + k * 4096 ≤ max_va
    → AreSpare w role pa k
    → AreEmpty w r a k
    → RangeEnds w r a pa flags k role (map_from w r a pa flags k)
unfolding map_from next_if_ok
map_from_lem w r a pa flags zero role h bound spare empty =
    inl (w, role, refl, extended-IsRange w w r a pa flags role role (same-IsExtended w r role h))
map_from_lem w r a pa flags (suc k) role h bound spare empty =
    let below : a < max_va = omega (arith, bound) in
    let at_a : a + 0 * 4096 ≡ a = omega arith in
    let at_pa : pa + 0 * 4096 ≡ pa = omega arith in
    let here =
      subst (λ (x : ℕ). (role x ≡ other) × (on_lists w.memory x ≡ 0)) at_pa
        (spare 0 (omega arith)) in
    let unmapped = subst (λ (v : ℕ). (entry w r v).valid ≡ false) at_a (empty 0 (omega arith)) in
    elim (map_page_lem w r a pa flags role h below here.0 here.1) [
      | inl (v, e) ↦ absurd (cc (v, unmapped))
      | inr (inl (w', role', e, x, none_free)) ↦ inr (
        0,
        w',
        role',
        omega arith,
        rw e refl,
        extended-IsRange w w' r a pa flags role role' x,
        none_free,
      )
      | inr (inr (v, (w', role', e, m))) ↦ rw e (
          range-next w w' r a pa flags k role role' (map_from w' r (a + 4096) (pa + 4096) flags k)
            below m
            (map_from_lem w' r (a + 4096) (pa + 4096) flags k role' m.tree (omega (arith, bound))
              (spare-next w w' r a pa flags k role role' m spare)
              (empty-next w w' r a pa flags k role role' m bound empty)))
    ]
