-- ===== src/Prelude/Arrays.antt =====
-- C arrays as functions from the index, and counted loops over them.
use Prim.Native.Nat.{ℕ, zero, suc, ◌<◌}
use mathlib.Core.Path.{◌≡◌, fun_ext}
use mathlib.Core.Logic.{◌≢◌}
use mathlib.Core.Bool.{Bool, true, false, ◌&&◌}
use native.Mathlib.Omega.{arith}
use oops_os.Prelude.Tests.{◌==◌, if◌then◌else◌, Bool-cases}
use mathlib.Core.Logic.{inl, inr}

-- `a[i] = v`
unfoldable pub put {ℓ} : {A : Type ℓ} → (ℕ → A) → ℕ → A → ℕ → A
put f i v j = if j == i then v else f j

pub put_self {ℓ} : {A : Type ℓ} (f : ℕ → A) (i : ℕ) (v : A) → put f i v i ≡ v
unfolding put
put_self f i v = ground arith

pub put_ne {ℓ} : {A : Type ℓ} (f : ℕ → A) (i : ℕ) (v : A) (j : ℕ) → j ≢ i → put f i v j ≡ f j
unfolding put
put_ne f i v j h = ground arith

pub put_again {ℓ} : {A : Type ℓ} (f : ℕ → A) (i : ℕ) (v w : A) → put (put f i v) i w ≡ put f i w
unfolding put
put_again f i v w = fun_ext λ j. ground arith

-- `for (i = 0; i < n; i++) if (!p(i)) return 0; return 1;`
unfoldable pub all_below : ℕ → (ℕ → Bool) → Bool
all_below zero p = true
all_below (suc n) p = all_below n p && p n

pub all_below-elim : (n : ℕ) (p : ℕ → Bool) → all_below n p ≡ true → (i : ℕ) → i < n → p i ≡ true
unfolding all_below
all_below-elim zero p h i l = absurd (omega arith)
all_below-elim (suc n) p h i l = elim (Bool-cases (i == n)) [
  | inl e ↦ ground arith
  | inr e ↦ ground (arith, all_below-elim n p (ground arith) i (ground arith))
]

pub all_below-intro : (n : ℕ) (p : ℕ → Bool) → ((i : ℕ) → i < n → p i ≡ true) → all_below n p ≡ true
unfolding all_below
all_below-intro zero p h = ground arith
all_below-intro (suc n) p h =
    ground (arith, all_below-intro n p (λ i l. h i (omega arith)), h n (omega arith))

-- A failing `all_below` names an index at which it fails.
pub all_below-fails :
    (n : ℕ) (p : ℕ → Bool) → all_below n p ≡ false → (i : ℕ) × (i < n) × (p i ≡ false)
unfolding all_below
all_below-fails zero p h = absurd (ground arith)
all_below-fails (suc n) p h = elim (Bool-cases (all_below n p)) [
  | inl e ↦ (n, omega arith, ground arith)
  | inr e ↦ let r = all_below-fails n p e in (r.0, omega (arith, r.1), r.2)
]
