-- ===== src/Mm/Paging/Found.antt =====
-- The walk to an entry that is there.
use oops_os.Prelude.{
  ℕ, ◌≤◌, ◌≡◌, refl, sym, ◌∙◌, ap, inl, inr, Bool, true, some, arith, Bool-cases, ℕ_discrete, subst,
}
use oops_os.Mm.Alloc.{Memory}
use oops_os.Mm.Alloc.Pages.{on_lists, IsValid, IsGiven}
use oops_os.Mm.Paging.{
  Pte, World, px2, px1, px0, step_down, last_step, second_step, walk_tables, entry,
}
use oops_os.Mm.Paging.Tree.{
  Role, middle, bottom, IsTree, entry-no_second, entry-no_third, entry-found,
}

-- The entry of `va` is in table `x`, below table `t`.
pub record IsPath (w : World) (r va t x : ℕ) : Type 0 where
  pub second_valid : (w.tables r (px2 va)).valid ≡ true
  pub second_target : (w.tables r (px2 va)).target ≡ t
  pub third_valid : (w.tables t (px1 va)).valid ≡ true
  pub third_target : (w.tables t (px1 va)).target ≡ x

-- A walk along a path makes no table.
pub walk_tables-path :
    (w : World) (alloc : Bool) (r va t x : ℕ)
    → IsPath w r va t x
    → walk_tables w alloc r va ≡ (some (x, px0 va), w)
unfolding walk_tables step_down second_step last_step
walk_tables-path w alloc r va t x p =
    rw (p.second_valid, p.second_target, p.third_valid, p.third_target) refl

-- There is a path to an entry that is valid.
pub valid-IsPath :
    (w : World) (r va : ℕ) → (entry w r va).valid ≡ true → (t : ℕ) × (x : ℕ) × IsPath w r va t x
valid-IsPath w r va v = elim (Bool-cases ((w.tables r (px2 va)).valid)) [
  | inr n ↦ absurd (cc (ap (λ (e : Pte). e.valid) (entry-no_second w r va n), v))
  | inl a ↦ elim (Bool-cases ((w.tables (w.tables r (px2 va)).target (px1 va)).valid)) [
    | inr n ↦ absurd (cc (ap (λ (e : Pte). e.valid) (entry-no_third w r va a n), v))
    | inl b ↦ (
      _,
      _,
      record { second_valid = a; second_target = refl; third_valid = b; third_target = refl },
    )
  ]
]

pub path-entry : (w : World) (r va t x : ℕ) → IsPath w r va t x → entry w r va ≡ w.tables x (px0 va)
path-entry w r va t x p =
    entry-found w r va t x p.second_valid p.second_target p.third_valid p.third_target

pub path-middle :
    (w : World) (r va t x : ℕ) (role : ℕ → Role)
    → IsTree w r role
    → IsPath w r va t x
    → role t ≡ middle (px2 va)
path-middle w r va t x role h p =
    subst (λ (y : ℕ). role y ≡ middle (px2 va)) p.second_target (h.second (px2 va) p.second_valid)

pub path-bottom :
    (w : World) (r va t x : ℕ) (role : ℕ → Role)
    → IsTree w r role
    → IsPath w r va t x
    → role x ≡ bottom (px2 va) (px1 va)
path-bottom w r va t x role h p =
    subst (λ (y : ℕ). role y ≡ bottom (px2 va) (px1 va)) p.third_target
      (h.third t (px2 va) (px1 va) (path-middle w r va t x role h p) p.third_valid)

-- The tree is the same when pages leave the free lists.
pub memory-IsTree :
    (w : World) (m : Memory) (bytes : ℕ → ℕ → ℕ) (r : ℕ) (role : ℕ → Role)
    → IsTree w r role
    → IsValid m
    → ((x : ℕ) → on_lists m x ≤ on_lists w.memory x)
    → IsTree (record w { memory = m; bytes = bytes }) r role
memory-IsTree w m bytes r role h v c = record {
  top = h.top;
  second = h.second;
  third = h.third;
  fourth = λ t i j k q u.
      let place = h.fourth t i j k q u in
      (place.0, omega (arith, place.1, c (w.tables t k).target));
  free = λ x l. h.free x (omega (arith, l, c x));
  memory = v;
  cpu = h.cpu;
}

-- What the memory holds does not change the entries.
pub memory-entry :
    (w : World) (m : Memory) (bytes : ℕ → ℕ → ℕ) (r va : ℕ)
    → entry (record w { memory = m; bytes = bytes }) r va ≡ entry w r va
memory-entry w m bytes r va = elim (Bool-cases ((w.tables r (px2 va)).valid)) [
  | inr n ↦
      entry-no_second (record w { memory = m; bytes = bytes }) r va n
      ∙ sym (entry-no_second w r va n)
  | inl a ↦
      let t = (w.tables r (px2 va)).target in
      elim (Bool-cases ((w.tables t (px1 va)).valid)) [
        | inr n ↦
            entry-no_third (record w { memory = m; bytes = bytes }) r va a n
            ∙ sym (entry-no_third w r va a n)
        | inl b ↦
            let x = (w.tables t (px1 va)).target in
            entry-found (record w { memory = m; bytes = bytes }) r va t x a refl b refl
            ∙ sym (entry-found w r va t x a refl b refl)
      ]
]

pub given-fewer :
    (m m' : Memory) (pa : ℕ) → IsGiven m pa m' → (x : ℕ) → on_lists m' x ≤ on_lists m x
given-fewer m m' pa g x = elim (ℕ_discrete x pa) [
  | yes e ↦ rw e (omega (arith, g.on_none))
  | no ne ↦ omega (arith, g.lists x ne)
]
