-- ===== src/Sync/Sem/Sort.antt =====
-- The sort of the ids puts them in ascending order.
use oops_os.Prelude.{
  ℕ, zero, suc, ◌+◌, ◌-◌, ◌≤◌, ◌<◌, ◌≡◌, ◌∙◌, true, false, arith, Bool-cases, inl, inr, ℕ_discrete,
  ℤ, pos_part, neg_part, ltb_ℤ,
}
use oops_os.Prelude.Arrays.{put, put_self, put_ne}
use oops_os.Sync.Sem.{shift, sort_from, sort_ids}

-- The order of `int`.
unfoldable pub IsAtMost : ℤ → ℤ → Type 0
IsAtMost a b = pos_part a + neg_part b ≤ pos_part b + neg_part a

pub IsAtMost-trans : (a b c : ℤ) → IsAtMost a b → IsAtMost b c → IsAtMost a c
unfolding IsAtMost
IsAtMost-trans a b c l m = omega arith

pub ltb_ℤ-false : (a b : ℤ) → ltb_ℤ a b ≡ false → IsAtMost b a
unfolding IsAtMost
ltb_ℤ-false a b e = ground arith

ltb_ℤ-true : (a b : ℤ) → ltb_ℤ a b ≡ true → IsAtMost a b
unfolding IsAtMost
ltb_ℤ-true a b e = ground arith

-- The first `k` ids ascend.
unfoldable pub IsAscending : (ℕ → ℤ) → ℕ → Type 0
IsAscending ids k = (a b : ℕ) → a < b → b < k → IsAtMost (ids a) (ids b)

shift_frame : (ids : ℕ → ℤ) (j : ℕ) (key : ℤ) (i : ℕ) → j < i → shift ids j key i ≡ ids i
unfolding shift
shift_frame ids zero key i l = put_ne ids 0 key i (λ e. omega arith)
shift_frame ids (suc j) key i l = elim (Bool-cases (ltb_ℤ key (ids j))) [
  | inl e ↦ rw e (
      shift_frame (put ids (suc j) (ids j)) j key i (omega arith)
      ∙ put_ne ids (suc j) (ids j) i (λ q. omega arith))
  | inr e ↦ rw e (put_ne ids (suc j) key i (λ q. omega arith))
]

shift_bound :
    (ids : ℕ → ℤ) (j : ℕ) (key v : ℤ)
    → IsAtMost key v
    → ((i : ℕ) → i < j → IsAtMost (ids i) v)
    → (i : ℕ) → i ≤ j
    → IsAtMost (shift ids j key i) v
unfolding shift
shift_bound ids zero key v b h i l = elim (ℕ_discrete i 0) [
  | yes e ↦ rw (e, put_self ids 0 key) b
  | no ne ↦ absurd (omega arith)
]
shift_bound ids (suc j) key v b h i l = elim (Bool-cases (ltb_ℤ key (ids j))) [
  | inl e ↦ rw e (elim (ℕ_discrete i (suc j)) [
    | yes q ↦
        rw
          (
            q,
            shift_frame (put ids (suc j) (ids j)) j key (suc j) (omega arith),
            put_self ids (suc j) (ids j),
          )
          (h j (omega arith))
    | no ne ↦
        shift_bound (put ids (suc j) (ids j)) j key v b
          (λ a m. rw (put_ne ids (suc j) (ids j) a (λ q. omega arith)) (h a (omega arith))) i
          (omega arith)
  ])
  | inr e ↦ rw e (elim (ℕ_discrete i (suc j)) [
    | yes q ↦ rw (q, put_self ids (suc j) key) b
    | no ne ↦ rw (put_ne ids (suc j) key i ne) (h i (omega arith))
  ])
]

-- The inner loop puts the key at its place.
shift-IsAscending :
    (ids : ℕ → ℤ) (j : ℕ) (key : ℤ) → IsAscending ids j → IsAscending (shift ids j key) (suc j)
unfolding IsAscending shift
shift-IsAscending ids zero key h a b l m = absurd (omega arith)
shift-IsAscending ids (suc j) key h a b l m = elim (Bool-cases (ltb_ℤ key (ids j))) [
  | inl e ↦ rw e (elim (ℕ_discrete b (suc j)) [
    | yes q ↦
        rw
          (
            q,
            shift_frame (put ids (suc j) (ids j)) j key (suc j) (omega arith),
            put_self ids (suc j) (ids j),
          )
          (shift_bound (put ids (suc j) (ids j)) j key (ids j) (ltb_ℤ-true key (ids j) e)
            (λ i p. rw (put_ne ids (suc j) (ids j) i (λ x. omega arith)) (h i j p (omega arith))) a
            (omega arith))
    | no ne ↦ shift-IsAscending (put ids (suc j) (ids j)) j key (before e) a b l (omega arith)
  ])
  | inr e ↦
      rw (e, put_ne ids (suc j) key a (λ q. omega arith))
        (elim (ℕ_discrete b (suc j)) [
          | yes q ↦ rw (q, put_self ids (suc j) key) (up_to_key e)
          | no ne ↦ rw (put_ne ids (suc j) key b ne) (h a b l (omega arith))
        ])
]
  where
    before : ltb_ℤ key (ids j) ≡ true → IsAscending (put ids (suc j) (ids j)) j
    before e c d p q =
        rw
          (
            put_ne ids (suc j) (ids j) c (λ x. omega arith),
            put_ne ids (suc j) (ids j) d (λ x. omega arith),
          )
          (h c d p (omega arith))

    up_to_key : ltb_ℤ key (ids j) ≡ false → IsAtMost (ids a) key
    up_to_key e = elim (ℕ_discrete a j) [
      | yes q ↦ rw q (ltb_ℤ-false key (ids j) e)
      | no ne ↦
          IsAtMost-trans (ids a) (ids j) key (h a j (omega arith) (omega arith))
            (ltb_ℤ-false key (ids j) e)
    ]

sort_from-IsAscending :
    (ids : ℕ → ℤ) (i k : ℕ) → IsAscending ids i → IsAscending (sort_from ids i k) (i + k)
unfolding sort_from IsAscending
sort_from-IsAscending ids i zero h a b l m = h a b l (omega arith)
sort_from-IsAscending ids i (suc k) h a b l m =
    sort_from-IsAscending (shift ids i (ids i)) (i + 1) k
      (λ c d p q. shift-IsAscending ids i (ids i) h c d p (omega arith)) a b l (omega arith)

pub sort_ids-IsAscending : (ids : ℕ → ℤ) (n : ℕ) → IsAscending (sort_ids ids n) n
unfolding sort_ids IsAscending
sort_ids-IsAscending ids n a b l m =
    sort_from-IsAscending ids 1 (n - 1) (λ c d p q. absurd (omega arith)) a b l (omega arith)
