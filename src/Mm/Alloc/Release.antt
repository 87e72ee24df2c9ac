-- ===== src/Mm/Alloc/Release.antt =====
-- `kfree`: a reference is given back, and the page with the last one.
use oops_os.Prelude.{
  ℕ, suc, ◌+◌, ◌%◌, ◌<◌, ◌≡◌, ◌≢◌, ◌∙◌, false, some, ◌∷◌, arith, ltb, ◌==◌, if◌then◌else◌,
  Bool-cases, inl, inr, ℕ_discrete, ap, ℤ, pos,
}
use oops_os.Prelude.Arrays.{put, put_self, put_ne}
use oops_os.Mm.Alloc.{ncpu, pgsize, Memory, is_nil, page_of, is_bad, kfree}
use oops_os.Mm.Alloc.Pages.{on_lists, IsValid, change_list, on_lists-cnt, same_page}

-- The page is free where this was its last reference.
pub record IsReleased (m : Memory) (pa n : ℕ) (m' : Memory) : Type 0 where
  pub refs : m'.cnt (page_of pa) ≡ pos n
  pub free : on_lists m' pa ≡ (if n == 0 then 1 else 0)
  pub lists : (qa : ℕ) → qa ≢ pa → on_lists m' qa ≡ on_lists m qa
  pub counts : (page : ℕ) → page ≢ page_of pa → m'.cnt page ≡ m.cnt page
  pub valid : IsValid m'

-- Facts about a page in range that has references.
module _ (m : Memory) (cpu pa n : ℕ) (v : IsValid m) (l : cpu < ncpu) (b : is_bad m pa ≡ false)
    (e : m.cnt (page_of pa) ≡ pos (suc n)) where
  not_listed : on_lists m pa ≡ 0
  not_listed = elim (Bool-cases (ltb 0 (on_lists m pa))) [
    | inl q ↦ absurd (cc (v.unused pa (ground arith), e))
    | inr q ↦ ground arith
  ]

  page_aligned : pa % pgsize ≡ 0
  unfolding is_bad
  page_aligned = ground arith

  page_apart : (qa : ℕ) → qa ≢ pa → 0 < on_lists m qa → page_of qa ≢ page_of pa
  page_apart qa ne h q = ne (same_page pa qa page_aligned (v.aligned qa h) q)

  lowered : ℕ → ℤ
  lowered = put m.cnt (page_of pa) (pos n)

  fewer : Memory
  fewer = record m { cnt = lowered }

  listed : Memory
  listed = record m { cnt = lowered; freelist = put m.freelist cpu (pa ∷ m.freelist cpu) }

  fewer-IsReleased : 0 < n → IsReleased m pa n fewer
  unfolding fewer lowered on_lists
  fewer-IsReleased p = record {
    refs = put_self m.cnt (page_of pa) (pos n);
    free = ground (arith, on_lists-cnt m lowered pa, not_listed);
    lists = λ qa ne. on_lists-cnt m lowered qa;
    counts = λ page ne. put_ne m.cnt (page_of pa) (pos n) page ne;
    valid = record {
      once = λ qa. omega (arith, on_lists-cnt m lowered qa, v.once qa);
      unused = λ qa h.
          put_ne m.cnt (page_of pa) (pos n) (page_of qa) (page_apart qa (differs qa h) h)
          ∙ v.unused qa h;
      aligned = λ qa h. v.aligned qa h;
    };
  }
    where
      differs : (qa : ℕ) → 0 < on_lists m qa → qa ≢ pa
      differs qa h q = absurd (omega (arith, not_listed, ap (on_lists m) q))

  moved_to : (qa : ℕ) → on_lists listed qa ≡ on_lists m qa + (if pa == qa then 1 else 0)
  unfolding listed lowered
  moved_to qa =
      omega (arith, change_list m cpu (pa ∷ m.freelist cpu) (put m.cnt (page_of pa) (pos n)) qa l)

  listed-IsReleased : n ≡ 0 → IsReleased m pa n listed
  listed-IsReleased z = record {
    refs = unfold listed lowered in put_self m.cnt (page_of pa) (pos n);
    free = ground (arith, moved_to pa, not_listed);
    lists = λ qa ne. ground (arith, moved_to qa);
    counts = λ page ne. unfold listed lowered in put_ne m.cnt (page_of pa) (pos n) page ne;
    valid = record {
      once = λ qa. elim (ℕ_discrete qa pa) [
        | yes q ↦ rw q (ground (arith, moved_to pa, not_listed))
        | no ne ↦ ground (arith, moved_to qa, v.once qa)
      ];
      unused = λ qa h. elim (ℕ_discrete qa pa) [
        | yes q ↦ rw q (unfold listed lowered in (put_self m.cnt (page_of pa) (pos n) ∙ ap pos z))
        | no ne ↦
            let h' : 0 < on_lists m qa = ground (arith, moved_to qa) in
            unfold listed lowered in
            (put_ne m.cnt (page_of pa) (pos n) (page_of qa) (page_apart qa ne h') ∙ v.unused qa h')
      ];
      aligned = λ qa h. elim (ℕ_discrete qa pa) [
        | yes q ↦ rw q page_aligned
        | no ne ↦ v.aligned qa (ground (arith, moved_to qa))
      ];
    };
  }

-- `kfree` of a page in range with `n + 1` references, on any CPU, does not panic. It leaves `n`
-- references; the page is on one list if that is 0 and on none otherwise. All other pages and counts
-- are as before, the lists stay disjoint and their pages without references.
pub kfree_lem :
    (m : Memory) (cpu pa n : ℕ)
    → IsValid m
    → cpu < ncpu
    → is_bad m pa ≡ false
    → m.cnt (page_of pa) ≡ pos (suc n)
    → (m' : Memory) × (kfree m cpu pa ≡ some m') × IsReleased m pa n m'
unfolding kfree listed fewer lowered
kfree_lem m cpu pa n v l b e = elim (ℕ_discrete n 0) [
  | yes z ↦ (listed m cpu pa n v l b e, rw (kfree, b, e, z), listed-IsReleased m cpu pa n v l b e z)
  | no nz ↦ (
    fewer m cpu pa n v l b e,
    rw (kfree, b, e, not_nil nz),
    fewer-IsReleased m cpu pa n v l b e (omega arith),
  )
]
  where
    not_nil : n ≢ 0 → is_nil (pos n) ≡ false
    not_nil nz = ground arith
