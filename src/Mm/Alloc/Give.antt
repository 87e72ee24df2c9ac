-- ===== src/Mm/Alloc/Give.antt =====
-- `kalloc_try`: the CPU's own list first, then the lists of the others.
use oops_os.Prelude.{
  ℕ, zero, suc, ◌+◌, ◌≤◌, ◌<◌, ◌≡◌, ◌≢◌, refl, ◌∙◌, false, none, some, List, [], ◌∷◌, arith, ◌==◌,
  inl, inr, ◌⊎◌, ℕ_discrete,
}
use oops_os.Mm.Alloc.{ncpu, Memory, take_page, steal, kalloc_try}
use oops_os.Mm.Alloc.Pages.{IsValid, IsGiven, take_page-IsGiven}

List-cases : (xs : List ℕ) → (xs ≡ []) ⊎ ((x : ℕ) × (rest : List ℕ) × (xs ≡ x ∷ rest))
List-cases [] = inl refl
List-cases (x ∷ xs) = inr (x, xs, refl)

steal_lem :
    (m : Memory) (cpu i k : ℕ)
    → IsValid m
    → i + k ≤ ncpu
    → ((steal m cpu i k ≡ (none, m)) × ((j : ℕ) → i ≤ j → j < i + k → j ≢ cpu → m.freelist j ≡ []))
      ⊎ ((pa : ℕ) × (m' : Memory) × (steal m cpu i k ≡ (some pa, m')) × IsGiven m pa m')
unfolding steal
steal_lem m cpu i zero v l = inl (refl, λ j a b c. absurd (omega arith))
steal_lem m cpu i (suc k) v l = elim (ℕ_discrete i cpu) [
  | yes e ↦ skip (ground arith) (λ ne. absurd (ne e)) (steal_lem m cpu (suc i) k v (omega arith))
  | no ne ↦ elim (List-cases (m.freelist i)) [
    | inl z ↦ skip (rw (steal, not_own ne, z)) (λ q. z) (steal_lem m cpu (suc i) k v (omega arith))
    | inr (pa, rest, z) ↦ inr (
      pa,
      take_page m i pa rest,
      rw (steal, not_own ne, z),
      take_page-IsGiven m i pa rest v (omega arith) z,
    )
  ]
]
  where
    not_own : i ≢ cpu → (i == cpu) ≡ false
    not_own ne = ground arith

    skip :
        steal m cpu i (suc k) ≡ steal m cpu (suc i) k
        → (i ≢ cpu → m.freelist i ≡ [])
        → ((steal m cpu (suc i) k ≡ (none, m))
            × ((j : ℕ) → suc i ≤ j → j < suc i + k → j ≢ cpu → m.freelist j ≡ []))
          ⊎ ((pa : ℕ) × (m' : Memory) × (steal m cpu (suc i) k ≡ (some pa, m')) × IsGiven m pa m')
        → ((steal m cpu i (suc k) ≡ (none, m))
            × ((j : ℕ) → i ≤ j → j < i + suc k → j ≢ cpu → m.freelist j ≡ []))
          ⊎ ((pa : ℕ) × (m' : Memory) × (steal m cpu i (suc k) ≡ (some pa, m')) × IsGiven m pa m')
    skip s h (inr (pa, m', q, g)) = inr (pa, m', s ∙ q, g)
    skip s h (inl (q, g)) = inl (
      s ∙ q,
      λ j a b c. elim (ℕ_discrete j i) [
        | yes e ↦ rw e (h (λ x. c (e ∙ x)))
        | no ne ↦ g j (omega arith) (omega arith) c
      ],
    )

-- `kalloc_try` on any CPU: either it answers 0, changes nothing, and the lists of all CPUs are empty;
-- or it gives a page that was on a list, is on none now and has one reference, and leaves all other
-- pages and counts alone. The lists stay disjoint, and their pages without references.
pub kalloc_try_lem :
    (m : Memory) (cpu : ℕ)
    → IsValid m
    → cpu < ncpu
    → ((kalloc_try m cpu ≡ (none, m)) × ((i : ℕ) → i < ncpu → m.freelist i ≡ []))
      ⊎ ((pa : ℕ) × (m' : Memory) × (kalloc_try m cpu ≡ (some pa, m')) × IsGiven m pa m')
unfolding kalloc_try
kalloc_try_lem m cpu v l = elim (List-cases (m.freelist cpu)) [
  | inr (pa, rest, z) ↦
      inr (pa, take_page m cpu pa rest, rw (kalloc_try, z), take_page-IsGiven m cpu pa rest v l z)
  | inl z ↦ elim (steal_lem m cpu 0 ncpu v (omega arith)) [
    | inr (pa, m', q, g) ↦ inr (pa, m', rw (kalloc_try, z) q, g)
    | inl (q, h) ↦ inl (
      rw (kalloc_try, z) q,
      λ i b. elim (ℕ_discrete i cpu) [
        | yes e ↦ rw e z
        | no ne ↦ h i (omega arith) (omega arith) ne
      ],
    )
  ]
]
