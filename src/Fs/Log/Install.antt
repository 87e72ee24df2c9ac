-- ===== src/Fs/Log/Install.antt =====
-- What the disk stands for while a log is on it, and that `install_trans` puts it in place.
use oops_os.Prelude.{
  ℕ, zero, suc, ◌+◌, ◌≤◌, ◌<◌, ◌≡◌, ◌≢◌, refl, sym, ap, ◌∙◌, Option, none, some, arith, ◌==◌,
  if◌then◌else◌, Bool-cases, inl, inr, ◌⊎◌, ℕ_discrete, subst, take, some_inj, ==_iff,
}
use oops_os.Prelude.Arrays.{put, put_self, put_ne}
use oops_os.Fs.Log.{Header, Disk, copy, write_one, write_all, install}

-- The last slot of the log below `n` that holds block `b`.
unfoldable pub slot : (ℕ → ℕ) → ℕ → ℕ → Option ℕ
slot block zero b = none
slot block (suc n) b = if block n == b then some n else slot block n b

abbrev pub slot_value : ℕ → (ℕ → ℕ) → ℕ → Option ℕ → ℕ
slot_value start data_of b none = data_of b
slot_value start data_of b (some i) = data_of (start + i + 1)

-- The contents of block `b` once the log is installed.
unfoldable pub logical : ℕ → Disk → ℕ → ℕ
logical start d b = slot_value start d.data_of b (slot d.head.block d.head.n b)

-- A block outside the log, which is `size` blocks from its header on.
abbrev pub IsHome : ℕ → ℕ → ℕ → Type 0
IsHome start size b = (b < start) ⊎ (start + size ≤ b)

-- A header that fits the log and whose blocks all lie outside it.
pub record IsHeader (start size : ℕ) (h : Header) : Type 0 where
  pub few : h.n < size
  pub homes : (i : ℕ) → i < h.n → IsHome start size (h.block i)

pub slot_bound : (block : ℕ → ℕ) (n b i : ℕ) → slot block n b ≡ some i → (i < n) × (block i ≡ b)
unfolding slot
slot_bound block zero b i h = absurd (ground arith)
slot_bound block (suc n) b i h = elim (Bool-cases (block n == b)) [
  | inl e ↦ ground arith
  | inr e ↦ let r = slot_bound block n b i (rw e at h) in (omega (arith, r.0), r.1)
]

slot-none : (block : ℕ → ℕ) (n b i : ℕ) → slot block n b ≡ none → i < n → block i ≢ b
unfolding slot
slot-none block zero b i h l = absurd (omega arith)
slot-none block (suc n) b i h l = elim (Bool-cases (block n == b)) [
  | inl e ↦ absurd (ground arith)
  | inr e ↦ elim (ℕ_discrete i n) [
    | yes q ↦ rw q (ground arith)
    | no ne ↦ slot-none block n b i (rw e at h) (omega arith)
  ]
]

module _ (start size : ℕ) (h : Header) (valid : IsHeader start size h) where
  -- A disk with header `h` that stands for the contents `want`.
  pub record Stands (want : ℕ → ℕ) (d : Disk) : Type 0 where
    pub head_eq : d.head ≡ h
    pub values :
        (b : ℕ) → IsHome start size b → slot_value start d.data_of b (slot h.block h.n b) ≡ want b

  -- The log's own blocks are not written by installing it.
  copy_keeps_log :
      (data_of : ℕ → ℕ) (t i v : ℕ)
      → t < h.n
      → i < h.n
      → put data_of (h.block t) v (start + i + 1) ≡ data_of (start + i + 1)
  copy_keeps_log data_of t i v lt li =
      put_ne data_of (h.block t) v (start + i + 1) (elim (valid.homes t lt) [
        | inl q ↦ omega (arith, valid.few)
        | inr q ↦ omega (arith, valid.few)
      ])

  copy-Stands :
      (want : ℕ → ℕ) (d : Disk) (t : ℕ)
      → t < h.n
      → Stands want d
      → Stands want (write_one d (copy (start + t + 1) (h.block t)))
  unfolding write_one
  copy-Stands want d t lt s = record {
    head_eq = s.head_eq;
    values = λ b hb. go b (slot h.block h.n b) refl (s.values b hb);
  }
    where
      v : ℕ
      v = d.data_of (start + t + 1)

      go :
          (b : ℕ) (o : Option ℕ)
          → slot h.block h.n b ≡ o
          → slot_value start d.data_of b o ≡ want b
          → slot_value start (put d.data_of (h.block t) v) b o ≡ want b
      go b none e w =
          put_ne d.data_of (h.block t) v b (λ q. slot-none h.block h.n b t e lt (sym q)) ∙ w
      go b (some i) e w = copy_keeps_log d.data_of t i v lt (slot_bound h.block h.n b i e).0 ∙ w

  -- Installed so far: blocks with a slot below `t` are up to date.
  abbrev pub IsInstalled : ℕ → Disk → Type 0
  IsInstalled t d = (b i : ℕ) → slot h.block t b ≡ some i → d.data_of b ≡ d.data_of (start + i + 1)

  copy-IsInstalled :
      (d : Disk) (t : ℕ)
      → t < h.n
      → IsInstalled t d
      → IsInstalled (suc t) (write_one d (copy (start + t + 1) (h.block t)))
  unfolding write_one slot
  copy-IsInstalled d t lt s b i e = elim (Bool-cases (h.block t == b)) [
    | inl q ↦
        let same = some_inj (rw q at e) in
        subst (λ c. put d.data_of (h.block t) v c ≡ v) ((==_iff (h.block t) b).0 q)
          (put_self d.data_of (h.block t) v)
        ∙ ap (λ (k : ℕ). d.data_of (start + k + 1)) same
        ∙ sym (copy_keeps_log d.data_of t i v lt (omega arith))
    | inr q ↦
        let old = rw q at e in
        put_ne d.data_of (h.block t) v b (λ r. cc (q, (==_iff (h.block t) b).1 (sym r)))
        ∙ s b i old
        ∙ sym (copy_keeps_log d.data_of t i v lt (omega (arith, (slot_bound h.block t b i old).0)))
  ]
    where
      v : ℕ
      v = d.data_of (start + t + 1)

  -- After all copies the contents are in place.
  pub Stands-IsInstalled :
      (want : ℕ → ℕ) (d : Disk)
      → Stands want d
      → IsInstalled h.n d
      → (b : ℕ) → IsHome start size b
      → d.data_of b ≡ want b
  Stands-IsInstalled want d s done b hb = go (slot h.block h.n b) refl (s.values b hb)
    where
      go :
          (o : Option ℕ)
          → slot h.block h.n b ≡ o
          → slot_value start d.data_of b o ≡ want b
          → d.data_of b ≡ want b
      go none e w = w
      go (some i) e w = done b i e ∙ w

  module _ (memory : Header) (agrees : (i : ℕ) → i < h.n → memory.block i ≡ h.block i)
      (want : ℕ → ℕ) where
    -- However far an installation gets, the disk stands for the same contents.
    pub install-Stands :
        (d : Disk) (t k j : ℕ)
        → t + k ≤ h.n
        → Stands want d
        → Stands want (write_all d (take j (install start memory t k)))
    unfolding install write_all
    install-Stands d t zero zero l s = s
    install-Stands d t zero (suc j) l s = s
    install-Stands d t (suc k) zero l s = s
    install-Stands d t (suc k) (suc j) l s = rw (agrees t (omega arith)) (
        install-Stands (write_one d (copy (start + t + 1) (h.block t))) (suc t) k j (omega arith)
          (copy-Stands want d t (omega arith) s))

    pub install-IsInstalled :
        (d : Disk) (t k : ℕ)
        → t + k ≡ h.n
        → Stands want d
        → IsInstalled t d
        → Stands want (write_all d (install start memory t k))
          × IsInstalled h.n (write_all d (install start memory t k))
    unfolding install write_all
    install-IsInstalled d t zero l s i = (s, subst (λ n. IsInstalled n d) (omega arith) i)
    install-IsInstalled d t (suc k) l s i = rw (agrees t (omega arith)) (
        install-IsInstalled (write_one d (copy (start + t + 1) (h.block t))) (suc t) k (omega arith)
          (copy-Stands want d t (omega arith) s) (copy-IsInstalled d t (omega arith) i))
