-- ===== src/Mm/Paging/Examples.antt =====
-- An empty page table, and two free pages for its tables.
use oops_os.Prelude.{
  ℕ, ◌+◌, ◌≡◌, none, ◌<◌, ◌⊎◌, [], ◌∷◌, ◌==◌, pos, if◌then◌else◌, refl, sym, ◌∙◌, ap, ◌≢◌, subst,
  inl, inr, arith, ℕ_discrete, true, false,
}
use oops_os.Prelude.Sums.{sum_below}
use oops_os.Mm.Alloc.{Memory, is_bad, krefcnt}
use oops_os.Mm.Alloc.Pages.{on_lists, IsValid}
use oops_os.Mm.Paging.{
  World, Flags, Pte, no_pte, table_pte, cowalloc, entry, walk_tables, step_down, second_step,
  last_step, entry_at,
}
use oops_os.Mm.Paging.Tree.{Role, root, middle, bottom, other, IsTree}
use oops_os.Mm.Paging.Cow.{CowEnds, cowalloc_lem}

abbrev some_memory : Memory
some_memory = record {
  kernel_end = 2147491840;
  cnt = λ page. if page == 524291 then pos 1 else if page == 557052 then pos 2 else pos 0;
  freelist = λ i. if i == 2 then 2281689088 ∷ 2281693184 ∷ [] else [];
}

abbrev empty_world : World
empty_world = record { memory = some_memory; cpu = 0; tables = λ t i. no_pte; bytes = λ pa j. 0 }

abbrev only_root : ℕ → Role
only_root pa = if pa == 2147495936 then root else other

on_lists_some :
    (pa : ℕ)
    → on_lists some_memory pa
      ≡ (if 2281689088 == pa then 1 else 0) + (if 2281693184 == pa then 1 else 0)
unfolding on_lists sum_below
on_lists_some pa = ground arith

some_memory-IsValid : IsValid some_memory
some_memory-IsValid = record {
  once = λ pa. ground (arith, on_lists_some pa);
  unused = λ pa h. ground (arith, on_lists_some pa);
  aligned = λ pa h. ground (arith, on_lists_some pa);
}

-- Page 4096 is mapped to a page that two entries map, by tables in the two pages below it.
abbrev shared_flags_example : Flags
shared_flags_example = record {
  readable = true;
  writable = false;
  executable = true;
  user = true;
  cow = true;
}

abbrev one_table : (ℕ → ℕ → Pte) → ℕ → ℕ → Pte → ℕ → ℕ → Pte
one_table f t i e s j = if s == t then (if j == i then e else no_pte) else f s j

abbrev shared_world : World
shared_world = record empty_world {
  tables =
      one_table
        (one_table (one_table (λ t i. no_pte) 2147495936 0 (table_pte 2147500032)) 2147500032 0
          (table_pte 2147504128))
        2147504128 1 (record { valid = true; target = 2281684992; flags = shared_flags_example });
}

abbrev three_tables : ℕ → Role
three_tables pa =
    if pa == 2147495936
    then root
    else if pa == 2147500032
    then middle 0
    else if pa == 2147504128
    then bottom 0 0
    else other

Role-cases :
    (pa : ℕ)
    → (pa ≡ 2147495936) × (three_tables pa ≡ root)
      ⊎ (pa ≡ 2147500032) × (three_tables pa ≡ middle 0)
      ⊎ (pa ≡ 2147504128) × (three_tables pa ≡ bottom 0 0)
      ⊎ (three_tables pa ≡ other)
Role-cases pa = elim (ℕ_discrete pa 2147495936) [
  | yes e ↦ inl (e, rw e refl)
  | no a ↦ elim (ℕ_discrete pa 2147500032) [
    | yes e ↦ inr (inl (e, rw e refl))
    | no b ↦ elim (ℕ_discrete pa 2147504128) [
      | yes e ↦ inr (inr (inl (e, rw e refl)))
      | no c ↦ inr (inr (inr (neither a b c)))
    ]
  ]
]
  where
    neither : pa ≢ 2147495936 → pa ≢ 2147500032 → pa ≢ 2147504128 → three_tables pa ≡ other
    neither a b c =
        let x : (pa == 2147495936) ≡ false = ground arith in
        let y : (pa == 2147500032) ≡ false = ground arith in
        let z : (pa == 2147504128) ≡ false = ground arith in rw (x, y, z) refl

middle-three : (t i : ℕ) → three_tables t ≡ middle i → (t ≡ 2147500032) × (0 ≡ i)
middle-three t i m = elim (Role-cases t) [
  | inl (_, e) ↦ absurd (cc (e, m))
  | inr (inl (e, f)) ↦ (e, middle_inj (sym f ∙ m))
  | inr (inr (inl (_, e))) ↦ absurd (cc (e, m))
  | inr (inr (inr e)) ↦ absurd (cc (e, m))
]
  where
    middle_inj : middle 0 ≡ middle i → 0 ≡ i
    middle_inj = ap λ (z : Role). elim z [ root ↦ 0 | other ↦ 0 | middle k ↦ k | bottom k n ↦ 0 ]

bottom-three : (t i j : ℕ) → three_tables t ≡ bottom i j → t ≡ 2147504128
bottom-three t i j m = elim (Role-cases t) [
  | inl (_, e) ↦ absurd (cc (e, m))
  | inr (inl (_, e)) ↦ absurd (cc (e, m))
  | inr (inr (inl (e, _))) ↦ e
  | inr (inr (inr e)) ↦ absurd (cc (e, m))
]

only_at : (i k : ℕ) (e : Pte) → (if i == k then e else no_pte).valid ≡ true → i ≡ k
only_at i k e v = elim (ℕ_discrete i k) [
  | yes q ↦ q
  | no ne ↦ let apart : (i == k) ≡ false = ground arith in absurd (cc (rw apart at v))
]

shared_world-IsTree : IsTree shared_world 2147495936 three_tables
shared_world-IsTree = record {
  top = refl;
  second = λ i v.
      subst (λ (x : ℕ). three_tables (shared_world.tables 2147495936 x).target ≡ middle x)
        (sym (only_at i 0 (table_pte 2147500032) v)) refl;
  third = λ t i j m v. let (et, ei) = middle-three t i m in third i j ei t et v;
  fourth = λ t i j k m v. fourth k t (bottom-three t i j m) v;
  free = λ pa m. free pa m;
  memory = some_memory-IsValid;
  cpu = omega arith;
}
  where
    third :
        (i j : ℕ)
        → 0 ≡ i
        → (t : ℕ) → t ≡ 2147500032
        → (shared_world.tables t j).valid ≡ true
        → three_tables (shared_world.tables t j).target ≡ bottom i j
    third i j ei t et v =
        let ej =
          only_at j 0 (table_pte 2147504128)
            (subst (λ (x : ℕ). (shared_world.tables x j).valid ≡ true) et v) in
        rw (et, ej, sym ei) refl

    fourth :
        (k t : ℕ)
        → t ≡ 2147504128
        → (shared_world.tables t k).valid ≡ true
        → (three_tables (shared_world.tables t k).target ≡ other)
          × (on_lists some_memory (shared_world.tables t k).target ≡ 0)
    fourth k t et v =
        let ek = only_at k 1 _ (subst (λ (x : ℕ). (shared_world.tables x k).valid ≡ true) et v) in
        rw (et, ek) (refl, on_lists_some 2281684992)

    free : (pa : ℕ) → 0 < on_lists some_memory pa → three_tables pa ≡ other
    free pa m = elim (Role-cases pa) [
      | inl (e, _) ↦ absurd (ground (arith, m, on_lists_some pa))
      | inr (inl (e, _)) ↦ absurd (ground (arith, m, on_lists_some pa))
      | inr (inr (inl (e, _))) ↦ absurd (ground (arith, m, on_lists_some pa))
      | inr (inr (inr e)) ↦ e
    ]

cowalloc_lem_example :
    CowEnds shared_world 2147495936 4096 1 three_tables
      (cowalloc true (λ w. none) 1 shared_world 2147495936 4096)
unfolding entry walk_tables step_down second_step last_step entry_at is_bad krefcnt
cowalloc_lem_example =
    cowalloc_lem true (λ w. none) 0 shared_world 2147495936 4096 1 three_tables shared_world-IsTree
      (omega arith) refl refl refl (omega arith) refl refl (λ e n. refl)
