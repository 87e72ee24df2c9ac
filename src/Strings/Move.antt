-- ===== src/Strings/Move.antt =====
-- `memmove` on ranges that may overlap.
use oops_os.Prelude.{
  ℕ, zero, suc, ◌+◌, ◌-◌, ◌≤◌, ◌<◌, ◌≡◌, ◌∙◌, ◌&&◌, arith, ltb, leb, if◌then◌else◌, Bool-cases, inl,
  inr, ap, ℕ_discrete, ◌⊎◌,
}
use oops_os.Prelude.Arrays.{put}
use oops_os.Strings.{copy_down, copy_up, memmove}

-- `m` with the `n` bytes from `dst` on replaced by those from `src` on.
abbrev pub moved : (ℕ → ℕ) → ℕ → ℕ → ℕ → ℕ → ℕ
moved m dst src n i = if leb dst i && ltb i (dst + n) then m (src + (i - dst)) else m i

down_step :
    (m : ℕ → ℕ) (dst src n i : ℕ)
    → src < dst
    → moved (put m (dst + n) (m (src + n))) dst src n i ≡ moved m dst src (suc n) i
unfolding put
down_step m dst src n i l = elim (ℕ_discrete i (dst + n)) [
  | yes e ↦ rw e (ground (arith, last))
  | no ne ↦ ground arith
]
  where
    last : m (src + (dst + n - dst)) ≡ m (src + n)
    last = ap m (omega arith)

up_step :
    (m : ℕ → ℕ) (dst src n i : ℕ)
    → (dst ≤ src) ⊎ (src + suc n ≤ dst)
    → moved (put m dst (m src)) (dst + 1) (src + 1) n i ≡ moved m dst src (suc n) i
unfolding put
up_step m dst src n i l = ground (arith, ap m (offset i), ap m same)
  where
    offset : (i : ℕ) → src + 1 + (i - (dst + 1)) ≡ src + 1 + (i - dst - 1)
    offset i = omega arith

    same : src + (dst - dst) ≡ src
    same = omega arith

copy_down-eq-moved :
    (m : ℕ → ℕ) (dst src n i : ℕ) → src < dst → copy_down m dst src n i ≡ moved m dst src n i
unfolding copy_down put
copy_down-eq-moved m dst src zero i l = ground arith
copy_down-eq-moved m dst src (suc n) i l =
    copy_down-eq-moved (put m (dst + n) (m (src + n))) dst src n i l ∙ down_step m dst src n i l

copy_up-eq-moved :
    (m : ℕ → ℕ) (dst src n i : ℕ)
    → (dst ≤ src) ⊎ (src + n ≤ dst)
    → copy_up m dst src n i ≡ moved m dst src n i
unfolding copy_up put
copy_up-eq-moved m dst src zero i l = ground arith
copy_up-eq-moved m dst src (suc n) i l =
    copy_up-eq-moved (put m dst (m src)) (dst + 1) (src + 1) n i (ground arith)
    ∙ up_step m dst src n i l

-- `memmove` copies the `n` bytes from `src` on to `dst` as they were before the call, whether the
-- two ranges overlap or not, and changes no other byte.
pub memmove_lem : (m : ℕ → ℕ) (dst src n i : ℕ) → memmove m dst src n i ≡ moved m dst src n i
unfolding memmove
memmove_lem m dst src n i = elim (Bool-cases (ltb src dst && ltb dst (src + n))) [
  | inl e ↦ rw e (copy_down-eq-moved m dst src n i (ground arith))
  | inr e ↦ rw e (copy_up-eq-moved m dst src n i (ground arith))
]
