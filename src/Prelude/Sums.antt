-- ===== src/Prelude/Sums.antt =====
-- Sums over the entries of an array.
use Prim.Native.Nat.{ℕ, zero, suc, ◌+◌, ◌≤◌, ◌<◌}
use mathlib.Core.Path.{◌≡◌, ap}
use mathlib.Core.Logic.{◌≢◌}
use native.Mathlib.Omega.{arith}
use native.Mathlib.Decide.{ℕ_discrete}

unfoldable pub sum_below : ℕ → (ℕ → ℕ) → ℕ
sum_below zero f = 0
sum_below (suc n) f = sum_below n f + f n

pub sum_below_mono :
    (n : ℕ) (f g : ℕ → ℕ) → ((i : ℕ) → i < n → f i ≤ g i) → sum_below n f ≤ sum_below n g
unfolding sum_below
sum_below_mono zero f g h = omega arith
sum_below_mono (suc n) f g h =
    omega (arith, sum_below_mono n f g (λ i l. h i (omega arith)), h n (omega arith))

pub sum_below_ext :
    (n : ℕ) (f g : ℕ → ℕ) → ((i : ℕ) → i < n → f i ≡ g i) → sum_below n f ≡ sum_below n g
sum_below_ext n f g h = omega (
  arith,
  sum_below_mono n f g (λ i l. omega (arith, h i l)),
  sum_below_mono n g f (λ i l. omega (arith, h i l)),
)

-- Two arrays that differ at one index only have sums that differ by that entry.
pub sum_below_change :
    (n : ℕ) (f g : ℕ → ℕ) (k : ℕ)
    → k < n
    → ((i : ℕ) → i ≢ k → f i ≡ g i)
    → sum_below n f + g k ≡ sum_below n g + f k
unfolding sum_below
sum_below_change zero f g k l h = absurd (omega arith)
sum_below_change (suc n) f g k l h = elim (ℕ_discrete n k) [
  | yes e ↦ omega (arith, ap f e, ap g e, sum_below_ext n f g (λ i b. h i (omega arith)))
  | no ne ↦ omega (arith, sum_below_change n f g k (omega arith) h, h n ne)
]

pub sum_below_entry : (n : ℕ) (f : ℕ → ℕ) (k : ℕ) → k < n → f k ≤ sum_below n f
unfolding sum_below
sum_below_entry zero f k l = absurd (omega arith)
sum_below_entry (suc n) f k l = elim (ℕ_discrete n k) [
  | yes e ↦ omega (arith, ap f e)
  | no ne ↦ omega (arith, sum_below_entry n f k (omega arith))
]

pub sum_below_zero : (n : ℕ) (f : ℕ → ℕ) → ((i : ℕ) → i < n → f i ≡ 0) → sum_below n f ≡ 0
unfolding sum_below
sum_below_zero zero f h = omega arith
sum_below_zero (suc n) f h =
    omega (arith, sum_below_zero n f (λ i l. h i (omega arith)), h n (omega arith))

pub sum_below_le : (n : ℕ) (f : ℕ → ℕ) → ((i : ℕ) → f i ≤ 1) → sum_below n f ≤ n
unfolding sum_below
sum_below_le zero f h = omega arith
sum_below_le (suc n) f h = omega (arith, sum_below_le n f h, h n)
