-- ===== src/Sync/Deadlock/Counting.antt =====
-- A set of slots that only grows, and once it stops growing stays as it is, is settled after as many
-- rounds as there are slots.
use oops_os.Prelude.{ℕ, zero, suc, ◌≤◌, ◌<◌, ◌≡◌, sym, inl, inr, ◌⊎◌, arith, ℕ_discrete}
use oops_os.Prelude.Sums.{sum_below, sum_below_mono, sum_below_le}

-- Sums of equal size, term by term the one at most the other, are the same.
pub sum_below-eq :
    (n : ℕ) (f g : ℕ → ℕ)
    → ((i : ℕ) → i < n → f i ≤ g i)
    → sum_below n f ≡ sum_below n g
    → (i : ℕ) → i < n
    → f i ≡ g i
unfolding sum_below
sum_below-eq zero f g h e i l = absurd (omega (arith, l))
sum_below-eq (suc n) f g h e i l =
    let rest = sum_below_mono n f g (λ j m. h j (omega (arith, m))) in
    elim (ℕ_discrete i n) [
      | yes q ↦ rw q (omega (arith, rest, e, h n (omega arith)))
      | no ne ↦
          sum_below-eq n f g (λ j m. h j (omega (arith, m)))
            (omega (arith, rest, e, h n (omega arith))) i (omega (arith, l, ne))
    ]

pub sum_below-full :
    (n : ℕ) (f : ℕ → ℕ) → ((i : ℕ) → f i ≤ 1) → n ≤ sum_below n f → (i : ℕ) → i < n → f i ≡ 1
unfolding sum_below
sum_below-full zero f h e i l = absurd (omega (arith, l))
sum_below-full (suc n) f h e i l =
    let rest = sum_below_le n f h in
    elim (ℕ_discrete i n) [
      | yes q ↦ rw q (omega (arith, rest, e, h n))
      | no ne ↦ sum_below-full n f h (omega (arith, rest, e, h n)) i (omega (arith, l, ne))
    ]

-- `marks k i` is 1 if slot `i` is in the set after `k` rounds.
module _ (n : ℕ) (marks : ℕ → ℕ → ℕ) (few : (k i : ℕ) → marks k i ≤ 1)
    (grows : (k i : ℕ) → marks k i ≤ marks (suc k) i)
    (stays : (k : ℕ)
      → ((i : ℕ) → i < n → marks (suc k) i ≡ marks k i)
      → (i : ℕ) → i < n
      → marks (suc (suc k)) i ≡ marks (suc k) i) where
  settles_or_grows :
      (k : ℕ) → ((i : ℕ) → i < n → marks (suc k) i ≡ marks k i) ⊎ (k ≤ sum_below n (marks k))
  settles_or_grows zero = inr (omega arith)
  settles_or_grows (suc k) = next (settles_or_grows k)
    where
      next :
          ((i : ℕ) → i < n → marks (suc k) i ≡ marks k i) ⊎ (k ≤ sum_below n (marks k))
          → ((i : ℕ) → i < n → marks (suc (suc k)) i ≡ marks (suc k) i)
            ⊎ (suc k ≤ sum_below n (marks (suc k)))
      next (inl s) = inl (stays k s)
      next (inr c) =
          let more = sum_below_mono n (marks k) (marks (suc k)) (λ i l. grows k i) in
          elim (ℕ_discrete (sum_below n (marks k)) (sum_below n (marks (suc k)))) [
            | yes e ↦ inl (
                stays k
                  (λ i l. sym (sum_below-eq n (marks k) (marks (suc k)) (λ j m. grows k j) e i l)))
            | no ne ↦ inr (omega (arith, c, more, ne))
          ]

  pub settled : (i : ℕ) → i < n → marks (suc n) i ≡ marks n i
  settled i l = last (settles_or_grows n)
    where
      last :
          ((i : ℕ) → i < n → marks (suc n) i ≡ marks n i) ⊎ (n ≤ sum_below n (marks n))
          → marks (suc n) i ≡ marks n i
      last (inl s) = s i l
      last (inr c) =
          omega (arith, sum_below-full n (marks n) (few n) c i l, grows n i, few (suc n) i)
