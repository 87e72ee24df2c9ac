-- ===== src/Mm/Paging/Walked.antt =====
-- `walk` with allocation: the entry that it finds, and what it leaves alone.
use oops_os.Prelude.{
  ℕ, ◌≡◌, ◌≢◌, refl, sym, ◌∙◌, ap, ◌⊎◌, inl, inr, ◌<◌, [], true, false, Option, none, some, arith,
  Bool-cases,
}
use oops_os.Prelude.Arrays.{put, put_self, put_ne}
use oops_os.Mm.Alloc.{ncpu}
use oops_os.Mm.Alloc.Pages.{on_lists}
use oops_os.Mm.Alloc.Give.{kalloc_try_lem}
use oops_os.Mm.Paging.{
  World, px2, px1, px0, link_table, step_down, last_step, second_step, walk_tables,
}
use oops_os.Mm.Paging.Tree.{
  Role, other, middle, bottom, IsTree, SameEntries, IsLinked, link_table-IsLinked,
  linked_root-SameEntries, linked_middle-SameEntries,
}
use oops_os.Mm.Paging.Grow.{linked_root-IsTree, linked_middle-IsTree}

-- The tables have grown, by pages that were free.
pub record IsExtended (w w' : World) (r : ℕ) (role role' : ℕ → Role) : Type 0 where
  pub tree : IsTree w' r role'
  pub same : SameEntries w w' r
  pub user :
      (x : ℕ)
      → role x ≡ other
      → on_lists w.memory x ≡ 0
      → (role' x ≡ other) × (on_lists w'.memory x ≡ 0)
  pub bytes : w'.bytes ≡ w.bytes

pub same-IsExtended :
    (w : World) (r : ℕ) (role : ℕ → Role) → IsTree w r role → IsExtended w w r role role
same-IsExtended w r role h = record {
  tree = h;
  same = λ va. refl;
  user = λ x o n. (o, n);
  bytes = refl;
}

IsExtended-trans :
    (w w' w'' : World) (r : ℕ) (role role' role'' : ℕ → Role)
    → IsExtended w w' r role role'
    → IsExtended w' w'' r role' role''
    → IsExtended w w'' r role role''
IsExtended-trans w w' w'' r role role' role'' e f = record {
  tree = f.tree;
  same = λ va. f.same va ∙ e.same va;
  user = λ x o n. let u = e.user x o n in f.user x u.0 u.1;
  bytes = f.bytes ∙ e.bytes;
}

-- Linking a page that was free leaves all pages that others use.
linked-user :
    (w w' : World) (t i pa : ℕ) (role : ℕ → Role) (place : Role)
    → IsLinked w t i pa w'
    → (x : ℕ) → role x ≡ other
    → on_lists w.memory x ≡ 0
    → (put role pa place x ≡ other) × (on_lists w'.memory x ≡ 0)
linked-user w w' t i pa role place l x o n =
    let ne : x ≢ pa = λ e. omega (arith, n, l.given.was_free, ap (on_lists w.memory) e) in
    (put_ne role pa place x ne ∙ o, l.given.lists x ne ∙ n)

-- A step found or made the table `x`.
pub record IsFound (w : World) (r t i : ℕ) (role : ℕ → Role) (place : Role) (x : ℕ) (w' : World)
    (role' : ℕ → Role) : Type 0 where
  pub extended : IsExtended w w' r role role'
  pub placed : role' x ≡ place
  pub valid : (w'.tables t i).valid ≡ true
  pub target : (w'.tables t i).target ≡ x
  pub root_kept : t ≢ r → (j : ℕ) → w'.tables r j ≡ w.tables r j

-- No CPU has a page on its list.
abbrev pub NoneFree : World → Type 0
NoneFree w = (i : ℕ) → i < ncpu → w.memory.freelist i ≡ []

-- How a step ends: with no page free for a table, or at one.
abbrev pub StepEnds : World → ℕ → ℕ → ℕ → (ℕ → Role) → Role → Option ℕ × World → Type 0
StepEnds w r t i role place res =
    ((res ≡ (none, w)) × NoneFree w)
    ⊎ ((x : ℕ) × (w' : World) × (role' : ℕ → Role) × (res ≡ (some x, w'))
        × IsFound w r t i role place x w' role')

step-here :
    (w : World) (r t i : ℕ) (role : ℕ → Role) (place : Role)
    → IsTree w r role
    → (w.tables t i).valid ≡ true
    → role (w.tables t i).target ≡ place
    → StepEnds w r t i role place (step_down w true t i)
unfolding step_down
step-here w r t i role place h v p = inr (
  (w.tables t i).target,
  w,
  role,
  rw v refl,
  record {
    extended = same-IsExtended w r role h;
    placed = p;
    valid = v;
    target = refl;
    root_kept = λ ne j. refl;
  },
)

step-new :
    (w : World) (r t i : ℕ) (role : ℕ → Role) (place : Role)
    → IsTree w r role
    → role t ≢ other
    → (w.tables t i).valid ≡ false
    → ((pa : ℕ) (w' : World)
        → IsLinked w t i pa w'
        → role pa ≡ other
        → IsTree w' r (put role pa place) × SameEntries w w' r)
    → StepEnds w r t i role place (step_down w true t i)
unfolding step_down link_table
step-new w r t i role place h nt e grown = elim (kalloc_try_lem w.memory w.cpu h.memory h.cpu) [
  | inl (q, empty) ↦ inl (rw (e, q) refl, empty)
  | inr (pa, m, q, g) ↦
      let o : role pa ≡ other = h.free pa (omega (arith, g.was_free)) in
      let made = link_table-IsLinked w t i pa m (λ x. nt (ap role x ∙ o)) g in
      let sound = grown pa made.0 made.2 o in
      inr (
        pa,
        made.0,
        put role pa place,
        rw (e, q) made.1,
        record {
          extended = record {
            tree = sound.0;
            same = sound.1;
            user = linked-user w made.0 t i pa role place made.2;
            bytes = made.2.bytes;
          };
          placed = put_self role pa place;
          valid = rw made.2.at refl;
          target = rw made.2.at refl;
          root_kept =
              λ ne j. made.2.elsewhere r j (λ x. ne (sym x)) (λ x. cc (ap role x, h.top, o));
        },
      )
]

step_root :
    (w : World) (r i : ℕ) (role : ℕ → Role)
    → IsTree w r role
    → StepEnds w r r i role (middle i) (step_down w true r i)
step_root w r i role h = elim (Bool-cases ((w.tables r i).valid)) [
  | inl v ↦ step-here w r r i role (middle i) h v (h.second i v)
  | inr v ↦
      step-new w r r i role (middle i) h (λ x. cc (h.top, x)) v
        (λ pa w' l o. (
          linked_root-IsTree w w' r pa role h i l,
          linked_root-SameEntries w w' r i pa role h l o v,
        ))
]

step_middle :
    (w : World) (r t i a : ℕ) (role : ℕ → Role)
    → IsTree w r role
    → role t ≡ middle a
    → StepEnds w r t i role (bottom a i) (step_down w true t i)
step_middle w r t i a role h m = elim (Bool-cases ((w.tables t i).valid)) [
  | inl v ↦ step-here w r t i role (bottom a i) h v (h.third t a i m v)
  | inr v ↦
      step-new w r t i role (bottom a i) h (λ x. cc (m, x)) v
        (λ pa w' l o. (
          linked_middle-IsTree w w' r pa role h t i a m l,
          linked_middle-SameEntries w w' r t i a pa role h l m o v,
        ))
]

-- The walk has come to the entry for `va` in table `x`.
pub record IsWalked (w : World) (r va : ℕ) (role : ℕ → Role) (x : ℕ) (w' : World) (role' : ℕ → Role)
    : Type 0 where
  pub extended : IsExtended w w' r role role'
  pub t : ℕ
  pub place : role' x ≡ bottom (px2 va) (px1 va)
  pub second_valid : (w'.tables r (px2 va)).valid ≡ true
  pub second_target : (w'.tables r (px2 va)).target ≡ t
  pub third_valid : (w'.tables t (px1 va)).valid ≡ true
  pub third_target : (w'.tables t (px1 va)).target ≡ x

pub walk_tables_lem :
    (w : World) (r va : ℕ) (role : ℕ → Role)
    → IsTree w r role
    → ((w' : World) × (role' : ℕ → Role) × (walk_tables w true r va ≡ (none, w'))
        × IsExtended w w' r role role'
        × NoneFree w')
      ⊎ ((x : ℕ) × (w' : World) × (role' : ℕ → Role) × (walk_tables w true r va
            ≡ (some (x, px0 va), w'))
          × IsWalked w r va role x w' role')
unfolding walk_tables second_step last_step
walk_tables_lem w r va role h = elim (step_root w r (px2 va) role h) [
  | inl (e, none_free) ↦ inl (w, role, rw e refl, same-IsExtended w r role h, none_free)
  | inr (t, w1, role1, e, f) ↦
      elim (step_middle w1 r t (px1 va) (px2 va) role1 f.extended.tree f.placed) [
        | inl (e', none_free) ↦ inl (w1, role1, rw (e, e') refl, f.extended, none_free)
        | inr (x, w2, role2, e', g) ↦
            let kept = g.root_kept (λ y. cc (ap role1 y, f.placed, f.extended.tree.top)) (px2 va) in
            inr (
              x,
              w2,
              role2,
              rw (e, e') refl,
              record {
                extended = IsExtended-trans w w1 w2 r role role1 role2 f.extended g.extended;
                t = t;
                place = g.placed;
                second_valid = rw kept f.valid;
                second_target = rw kept f.target;
                third_valid = g.valid;
                third_target = g.target;
              },
            )
      ]
]
