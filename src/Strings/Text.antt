-- ===== src/Strings/Text.antt =====
-- C strings: what `strncmp` tells apart, and what `strncpy` leaves behind.
use oops_os.Prelude.{
  ℕ, zero, suc, ◌+◌, ◌≤◌, ◌<◌, ◌≡◌, ◌≢◌, ◌↔◌, ◌∙◌, refl, sym, ◌&&◌, not, arith, ◌==◌, Bool-cases,
  inl, inr, pos, ℕ_discrete, subst,
}
use oops_os.Prelude.Arrays.{put, put_self, put_ne}
use oops_os.Strings.{byte_diff, strncmp_from, strncmp, pad, strncpy_from, strncpy}

-- The two strings agree at each of the `n` offsets from `i` on, up to the end of the second.
abbrev pub SameFrom : (ℕ → ℕ) → (ℕ → ℕ) → ℕ → ℕ → Type 0
SameFrom p q i n = (k : ℕ) → i ≤ k → k < i + n → ((j : ℕ) → i ≤ j → j < k → q j ≢ 0) → p k ≡ q k

byte_diff_zero : (a b : ℕ) → byte_diff a b ≡ pos 0 → a ≡ b
byte_diff_zero a b h = ground arith

byte_diff_self : (a : ℕ) → byte_diff a a ≡ pos 0
byte_diff_self a = ground arith

SameFrom-first : (p q : ℕ → ℕ) (i n : ℕ) → SameFrom p q i (suc n) → p i ≡ q i
SameFrom-first p q i n h = h i (omega arith) (omega arith) (λ j l m. absurd (omega arith))

SameFrom-rest : (p q : ℕ → ℕ) (i n : ℕ) → q i ≢ 0 → SameFrom p q i (suc n) → SameFrom p q (i + 1) n
SameFrom-rest p q i n z h k l m w =
    h k (omega arith) (omega arith)
      λ j a b. elim (ℕ_discrete j i) [ yes e ↦ rw e z | no ne ↦ w j (omega arith) b ]

SameFrom-cons :
    (p q : ℕ → ℕ) (i n : ℕ) → p i ≡ q i → SameFrom p q (i + 1) n → SameFrom p q i (suc n)
SameFrom-cons p q i n e h k l m w = elim (ℕ_discrete k i) [
  | yes q ↦ rw q e
  | no ne ↦ h k (omega arith) (omega arith) (λ j a b. w j (omega arith) b)
]

SameFrom-end : (p q : ℕ → ℕ) (i n : ℕ) → p i ≡ q i → q i ≡ 0 → SameFrom p q i (suc n)
SameFrom-end p q i n e z k l m w = elim (ℕ_discrete k i) [
  | yes q ↦ rw q e
  | no ne ↦ absurd (w i (omega arith) (omega arith) z)
]

strncmp_from_iff : (p q : ℕ → ℕ) (i n : ℕ) → (strncmp_from p q i n ≡ pos 0) ↔ SameFrom p q i n
unfolding strncmp_from
strncmp_from_iff p q i zero = ((λ h k l m w. absurd (omega arith)), λ h. refl)
strncmp_from_iff p q i (suc n) =
    let later = strncmp_from_iff p q (i + 1) n in
    elim (Bool-cases (not (p i == 0) && p i == q i)) [
      | inl e ↦ rw e (
        (λ h. SameFrom-cons p q i n (ground arith) (later.0 h)),
        λ h. later.1 (SameFrom-rest p q i n (λ z. ground arith) h),
      )
      | inr e ↦ rw e (
        (λ h. let d = byte_diff_zero (p i) (q i) h in SameFrom-end p q i n d (ground arith)),
        λ h. rw (SameFrom-first p q i n h) (byte_diff_self (q i)),
      )
    ]

-- `strncmp` of two strings returns 0 exactly if they have the same byte at each of the first `n`
-- offsets, up to the end of the second.
pub strncmp_iff : (p q : ℕ → ℕ) (n : ℕ) → (strncmp p q n ≡ pos 0) ↔ SameFrom p q 0 n
unfolding strncmp
strncmp_iff p q n = strncmp_from_iff p q 0 n

pad_below : (s : ℕ → ℕ) (i n k : ℕ) → k < i → pad s i n k ≡ s k
unfolding pad
pad_below s i zero k l = refl
pad_below s i (suc n) k l =
    pad_below (put s i 0) (i + 1) n k (omega arith) ∙ put_ne s i 0 k (λ e. omega arith)

strncpy_from_below : (s t : ℕ → ℕ) (i n k : ℕ) → k < i → strncpy_from s t i n k ≡ s k
unfolding strncpy_from
strncpy_from_below s t i zero k l = refl
strncpy_from_below s t i (suc n) k l =
    let later = strncpy_from_below (put s i (t i)) t (i + 1) n k (omega arith) in
    elim (Bool-cases (t i == 0)) [
      | inl e ↦ rw e (pad_below _ (i + 1) n k (omega arith) ∙ put_ne s i (t i) k (λ e. omega arith))
      | inr e ↦ rw e (later ∙ put_ne s i (t i) k (λ e. omega arith))
    ]

pad_above : (s : ℕ → ℕ) (i n k : ℕ) → i + n ≤ k → pad s i n k ≡ s k
unfolding pad
pad_above s i zero k l = refl
pad_above s i (suc n) k l =
    pad_above (put s i 0) (i + 1) n k (omega arith) ∙ put_ne s i 0 k (λ e. omega arith)

strncpy_from_above : (s t : ℕ → ℕ) (i n k : ℕ) → i + n ≤ k → strncpy_from s t i n k ≡ s k
unfolding strncpy_from
strncpy_from_above s t i zero k l = refl
strncpy_from_above s t i (suc n) k l =
    let later = strncpy_from_above (put s i (t i)) t (i + 1) n k (omega arith) in
    elim (Bool-cases (t i == 0)) [
      | inl e ↦ rw e (pad_above _ (i + 1) n k (omega arith) ∙ put_ne s i (t i) k (λ e. omega arith))
      | inr e ↦ rw e (later ∙ put_ne s i (t i) k (λ e. omega arith))
    ]

strncpy_first : (s t : ℕ → ℕ) (i n : ℕ) → strncpy_from s t i (suc n) i ≡ t i
unfolding strncpy_from
strncpy_first s t i n =
    let later = strncpy_from_below (put s i (t i)) t (i + 1) n i (omega arith) in
    elim (Bool-cases (t i == 0)) [
      | inl e ↦ rw e (pad_below _ (i + 1) n i (omega arith) ∙ put_self s i (t i))
      | inr e ↦ rw e (later ∙ put_self s i (t i))
    ]

strncpy_more :
    (s t : ℕ → ℕ) (i n : ℕ)
    → t i ≢ 0
    → strncpy_from s t i (suc n) ≡ strncpy_from (put s i (t i)) t (i + 1) n
unfolding strncpy_from
strncpy_more s t i n h = ground arith

strncpy_from-SameFrom : (s t : ℕ → ℕ) (i n : ℕ) → SameFrom (strncpy_from s t i n) t i n
strncpy_from-SameFrom s t i zero = λ k l m w. absurd (omega arith)
strncpy_from-SameFrom s t i (suc n) =
    let later = strncpy_from-SameFrom (put s i (t i)) t (i + 1) n in
    elim (ℕ_discrete (t i) 0) [
      | yes z ↦ SameFrom-end _ t i n (strncpy_first s t i n) z
      | no nz ↦
          SameFrom-cons _ t i n (strncpy_first s t i n)
            (subst (λ (r : ℕ → ℕ). SameFrom r t (i + 1) n) (sym (strncpy_more s t i n nz)) later)
    ]

-- A copy made by `strncpy` with a bound is the same string as the original to `strncmp` with that
-- bound, and the bytes of the destination from the bound on are as they were.
pub strncmp-strncpy :
    (s t : ℕ → ℕ) (n : ℕ)
    → (strncmp (strncpy s t n) t n ≡ pos 0) × ((k : ℕ) → n ≤ k → strncpy s t n k ≡ s k)
unfolding strncpy
strncmp-strncpy s t n = (
  (strncmp_iff _ t n).1 (strncpy_from-SameFrom s t 0 n),
  λ k l. strncpy_from_above s t 0 n k (omega arith),
)
