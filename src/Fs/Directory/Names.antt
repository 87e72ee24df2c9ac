-- ===== src/Fs/Directory/Names.antt =====
-- `namecmp` finds the names equal that are the same string up to 14 bytes: an equivalence relation.
use oops_os.Prelude.{ℕ, zero, suc, ◌≤◌, ◌<◌, ◌≡◌, ◌≢◌, ◌∙◌, sym, pos, arith, ℕ_discrete, ap}
use oops_os.Strings.{strncpy}
use oops_os.Strings.Text.{SameFrom, strncmp_iff, strncmp-strncpy}
use oops_os.Fs.Directory.{namecmp, dir_siz}

-- While two strings are the same, they have no end or the same end.
SameFrom-going :
    (p q : ℕ → ℕ) (n m : ℕ)
    → SameFrom p q 0 n
    → m ≤ n
    → ((j : ℕ) → 0 ≤ j → j < m → p j ≢ 0)
    → (j : ℕ) → 0 ≤ j
    → j < m
    → q j ≢ 0
SameFrom-going p q n zero h l w j a b = absurd (omega arith)
SameFrom-going p q n (suc m) h l w j a b =
    let before = SameFrom-going p q n m h (omega arith) (λ i c d. w i c (omega arith)) in
    elim (ℕ_discrete j m) [
      | yes x ↦ λ e.
          w m (omega arith) (omega arith)
            (h m (omega arith) (omega arith) before ∙ (ap q (sym x) ∙ e))
      | no ne ↦ before j a (omega arith)
    ]

SameFrom-sym : (p q : ℕ → ℕ) (n : ℕ) → SameFrom p q 0 n → SameFrom q p 0 n
SameFrom-sym p q n h k a b w = sym (h k a b (SameFrom-going p q n k h (omega arith) w))

SameFrom-trans : (p q r : ℕ → ℕ) (n : ℕ) → SameFrom p q 0 n → SameFrom q r 0 n → SameFrom p r 0 n
SameFrom-trans p q r n h g k a b w =
    h k a b (SameFrom-going r q n k (SameFrom-sym q r n g) (omega arith) w) ∙ g k a b w

-- The two are the same name of an entry.
abbrev pub IsSameName : (ℕ → ℕ) → (ℕ → ℕ) → Type 0
IsSameName s t = namecmp s t ≡ pos 0

pub IsSameName-sym : (s t : ℕ → ℕ) → IsSameName s t → IsSameName t s
unfolding namecmp
IsSameName-sym s t h =
    (strncmp_iff t s dir_siz).1 (SameFrom-sym s t dir_siz ((strncmp_iff s t dir_siz).0 h))

pub IsSameName-trans : (s t u : ℕ → ℕ) → IsSameName s t → IsSameName t u → IsSameName s u
unfolding namecmp
IsSameName-trans s t u h g =
    (strncmp_iff s u dir_siz).1
      (SameFrom-trans s t u dir_siz ((strncmp_iff s t dir_siz).0 h) ((strncmp_iff t u dir_siz).0 g))

pub IsSameName-strncpy : (s t : ℕ → ℕ) → IsSameName (strncpy s t dir_siz) t
unfolding namecmp
IsSameName-strncpy s t = (strncmp-strncpy s t dir_siz).0
