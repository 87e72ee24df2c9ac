-- ===== src/Prelude/Search.antt =====
-- `for (i = 0; i < n; i++) if (test(i)) break;`: the first index at which a test holds.
use Prim.Native.Nat.{ℕ, zero, suc, ◌+◌, ◌≤◌, ◌<◌}
use mathlib.Core.Path.{◌≡◌, refl, sym, ◌∙◌, subst}
use mathlib.Core.Logic.{inl, inr}
use mathlib.Core.Bool.{Bool, true, false}
use mathlib.Core.Option.{Option, none, some}
use native.Mathlib.Omega.{arith}
use native.Mathlib.Decide.{ℕ_discrete}
use oops_os.Prelude.Tests.{if◌then◌else◌, Bool-cases}

-- From index `i` on, over `k` of them.
unfoldable pub first_from : (ℕ → Bool) → ℕ → ℕ → Option ℕ
first_from test i zero = none
first_from test i (suc k) =
    let later = first_from test (suc i) k in if test i then some i else later

-- What the answer says of the test.
abbrev pub IsFirst : (ℕ → Bool) → ℕ → ℕ → Option ℕ → Type 0
IsFirst test i k none = (j : ℕ) → i ≤ j → j < i + k → test j ≡ false
IsFirst test i k (some r) =
    (i ≤ r) × (r < i + k) × (test r ≡ true) × ((j : ℕ) → i ≤ j → j < r → test j ≡ false)

first_from-empty : (test : ℕ → Bool) (i : ℕ) → first_from test i 0 ≡ none
unfolding first_from
first_from-empty test i = refl

first_from-here : (test : ℕ → Bool) (i k : ℕ) → test i ≡ true → first_from test i (suc k) ≡ some i
unfolding first_from
first_from-here test i k e = simp e

first_from-later :
    (test : ℕ → Bool) (i k : ℕ)
    → test i ≡ false
    → first_from test i (suc k) ≡ first_from test (suc i) k
unfolding first_from
first_from-later test i k e = simp e

IsFirst-later :
    (test : ℕ → Bool) (i k : ℕ) (r : Option ℕ)
    → test i ≡ false
    → IsFirst test (suc i) k r
    → IsFirst test i (suc k) r
IsFirst-later test i k none e h =
    λ j l m. elim (ℕ_discrete j i) [ yes q ↦ rw q e | no ne ↦ h j (omega arith) (omega arith) ]
IsFirst-later test i k (some r) e h = (
  omega (arith, h.0),
  omega (arith, h.1),
  h.2,
  λ j l m. elim (ℕ_discrete j i) [ yes q ↦ rw q e | no ne ↦ h.3 j (omega arith) m ],
)

pub first_from-IsFirst : (test : ℕ → Bool) (i k : ℕ) → IsFirst test i k (first_from test i k)
first_from-IsFirst test i zero =
    subst (IsFirst test i 0) (sym (first_from-empty test i)) λ j l m. absurd (omega arith)
first_from-IsFirst test i (suc k) =
    let later = first_from-IsFirst test (suc i) k in
    elim (Bool-cases (test i)) [
      | inl e ↦
          subst (IsFirst test i (suc k)) (sym (first_from-here test i k e))
            (omega arith, omega arith, e, λ j l m. absurd (omega arith))
      | inr e ↦
          subst (IsFirst test i (suc k)) (sym (first_from-later test i k e))
            (IsFirst-later test i k (first_from test (suc i) k) e later)
    ]

-- The answer is determined by what it says.
pub first_from-some :
    (test : ℕ → Bool) (i k r : ℕ) → IsFirst test i k (some r) → first_from test i k ≡ some r
first_from-some test i zero r h = absurd (omega (arith, h.0, h.1))
first_from-some test i (suc k) r h =
    let later = first_from-some test (suc i) k r in
    elim (ℕ_discrete i r) [
      | yes q ↦ first_from-here test i k (rw q h.2) ∙ rw q
      | no ne ↦
          first_from-later test i k (h.3 i (omega arith) (omega (arith, h.0)))
          ∙ later (omega (arith, h.0), omega (arith, h.1), h.2, λ j l m. h.3 j (omega arith) m)
    ]

pub first_from-none :
    (test : ℕ → Bool) (i k : ℕ) → IsFirst test i k none → first_from test i k ≡ none
unfolding first_from
first_from-none test i zero h = refl
first_from-none test i (suc k) h =
    let later = first_from-none test (suc i) k (λ j l m. h j (omega arith) (omega arith)) in
    rw (h i (omega arith) (omega arith), later)

-- Only the test's values in the range count.
pub first_from_ext :
    (test test' : ℕ → Bool) (i k : ℕ)
    → ((j : ℕ) → i ≤ j → j < i + k → test j ≡ test' j)
    → first_from test i k ≡ first_from test' i k
unfolding first_from
first_from_ext test test' i zero h = refl
first_from_ext test test' i (suc k) h =
    let later = first_from_ext test test' (suc i) k (λ j l m. h j (omega arith) (omega arith)) in
    rw (h i (omega arith) (omega arith), later)
