-- ===== src/Fs/Log/Recovery.antt =====
-- Recovery, stopped by a crash after any of its disk writes.
use oops_os.Prelude.{
  ℕ, zero, suc, ◌<◌, ◌≡◌, refl, ap, List, [], ◌∷◌, ◌++◌, arith, inl, inr, ◌⊎◌, lt→ltb, take,
}
use oops_os.Fs.Log.{
  Header, Disk, Write, header, set_header, write_one, write_all, install, no_blocks, read_head,
  recover_writes, recover,
}
use oops_os.Fs.Log.Install.{
  slot, logical, IsHome, IsHeader, Stands, IsInstalled, Stands-IsInstalled, install-Stands,
  install-IsInstalled,
}

pub take_snoc {ℓ} :
    {A : Type ℓ} (j : ℕ) (xs : List A) (x : A)
    → (take j (xs ++ x ∷ []) ≡ take j xs) ⊎ (take j (xs ++ x ∷ []) ≡ xs ++ x ∷ [])
take_snoc zero xs x = inl refl
take_snoc (suc j) [] x =
    inr (elim j as (λ j'. take (suc j') (x ∷ []) ≡ x ∷ []) [ zero ↦ refl | suc k ↦ refl ])
take_snoc (suc j) (y ∷ xs) x = elim (take_snoc j xs x) [
  | inl e ↦ inl (ap (λ zs. y ∷ zs) e)
  | inr e ↦ inr (ap (λ zs. y ∷ zs) e)
]

-- A prefix of a list with `x` in it ends before `x`, or goes on behind it.
pub take_split {ℓ} :
    {A : Type ℓ} (j : ℕ) (xs : List A) (x : A) (ys : List A)
    → (take j (xs ++ (x ∷ ys)) ≡ take j xs)
      ⊎ ((i : ℕ) × (take j (xs ++ (x ∷ ys)) ≡ xs ++ (x ∷ take i ys)))
take_split zero xs x ys = inl refl
take_split (suc j) [] x ys = inr (j, refl)
take_split (suc j) (y ∷ xs) x ys = elim (take_split j xs x ys) [
  | inl e ↦ inl (ap (λ zs. y ∷ zs) e)
  | inr q ↦ inr (q.0, ap (λ zs. y ∷ zs) q.1)
]

pub write_all-append :
    (d : Disk) (xs ys : List Write) → write_all d (xs ++ ys) ≡ write_all (write_all d xs) ys
unfolding write_all
write_all-append d [] ys = refl
write_all-append d (x ∷ xs) ys = write_all-append (write_one d x) xs ys

pub slot_ext : (f g : ℕ → ℕ) (n b : ℕ) → ((i : ℕ) → i < n → f i ≡ g i) → slot f n b ≡ slot g n b
unfolding slot
slot_ext f g zero b h = refl
slot_ext f g (suc n) b h = rw (h n (omega arith), slot_ext f g n b (λ i l. h i (omega arith)))

module _ (start size : ℕ) where
  -- The disk has a valid log header and stands for the contents `want`.
  pub record Holds (want : ℕ → ℕ) (d : Disk) : Type 0 where
    pub header_ok : IsHeader start size d.head
    pub contents : (b : ℕ) → IsHome start size b → logical start d b ≡ want b

  -- Nothing waits in the log, and the blocks themselves hold `want`.
  pub record IsClean (want : ℕ → ℕ) (d : Disk) : Type 0 where
    pub room : 0 < size
    pub empty : d.head.n ≡ 0
    pub in_place : (b : ℕ) → IsHome start size b → d.data_of b ≡ want b

  pub Stands-Holds :
      (h : Header) (v : IsHeader start size h) (want : ℕ → ℕ) (d : Disk)
      → Stands start size h v want d
      → Holds want d
  unfolding logical
  Stands-Holds h v want d s = record {
    header_ok = rw s.head_eq v;
    contents = λ b hb. rw s.head_eq (s.values b hb);
  }

  pub Holds-Stands :
      (want : ℕ → ℕ) (d : Disk) (s : Holds want d) → Stands start size d.head s.header_ok want d
  unfolding logical
  Holds-Stands want d s = record { head_eq = refl; values = s.contents }

  pub IsClean-Holds : (want : ℕ → ℕ) (d : Disk) → IsClean want d → Holds want d
  unfolding logical slot
  IsClean-Holds want d c = record {
    header_ok = record {
      few = omega (arith, c.empty, c.room);
      homes = λ i l. absurd (omega (arith, c.empty));
    };
    contents = λ b hb. rw c.empty (c.in_place b hb);
  }

  -- Clearing the header of an installed log leaves a clean disk.
  pub clear-IsClean :
      (h : Header) (v : IsHeader start size h) (memory : Header) (want : ℕ → ℕ) (d : Disk)
      → Stands start size h v want d
      → IsInstalled start size h v h.n d
      → IsClean want (write_one d (header (no_blocks memory)))
  unfolding write_one set_header
  clear-IsClean h v memory want d s i = record {
    room = omega (arith, v.few);
    empty = refl;
    in_place = Stands-IsInstalled start size h v want d s i;
  }

module _ (start size : ℕ) where
  abbrev pub install_and_clear : Header → List Write
  install_and_clear h = install start h 0 h.n ++ header (no_blocks h) ∷ []

  module _ (h : Header) (v : IsHeader start size h) (memory : Header) (count : memory.n ≡ h.n)
      (agrees : (i : ℕ) → i < h.n → memory.block i ≡ h.block i) (want : ℕ → ℕ) (d : Disk)
      (s : Stands start size h v want d) where
    pub install_and_clear-IsClean : IsClean start size want (write_all d (install_and_clear memory))
    unfolding write_all slot
    install_and_clear-IsClean =
        let (t, i) =
          install-IsInstalled start size h v memory agrees want d 0 memory.n (omega arith) s
            (λ b i e. absurd (ground arith)) in
        rw (write_all-append d (install start memory 0 memory.n) (header (no_blocks memory) ∷ [])) (
          clear-IsClean start size h v memory want (write_all d (install start memory 0 memory.n)) t
            i)

    pub install_and_clear-Holds :
        (j : ℕ) → Holds start size want (write_all d (take j (install_and_clear memory)))
    install_and_clear-Holds j =
        elim (take_snoc j (install start memory 0 memory.n) (header (no_blocks memory))) [
          | inl e ↦ rw e (
              Stands-Holds start size h v want _
                (install-Stands start size h v memory agrees want d 0 memory.n j (omega arith) s))
          | inr e ↦ rw e (IsClean-Holds start size want _ install_and_clear-IsClean)
        ]

  module _ (memory : Header) (want : ℕ → ℕ) (d : Disk) (s : Holds start size want d) where
    read_agrees : (i : ℕ) → i < d.head.n → (read_head memory d).block i ≡ d.head.block i
    unfolding read_head set_header
    read_agrees i l = rw (lt→ltb i d.head.n l)

    read_count : (read_head memory d).n ≡ d.head.n
    unfolding read_head set_header
    read_count = refl

    -- Recovery installs what the disk stands for and clears the log, whatever was in memory.
    pub recover-IsClean : IsClean start size want (recover start memory d)
    unfolding recover recover_writes
    recover-IsClean =
        install_and_clear-IsClean d.head s.header_ok (read_head memory d) read_count read_agrees
          want d (Holds-Stands start size want d s)

    -- A recovery that stops after `j` writes can be begun anew.
    pub recover-Holds :
        (j : ℕ)
        → Holds start size want (write_all d (take j (recover_writes start (read_head memory d))))
    unfolding recover_writes
    recover-Holds j =
        install_and_clear-Holds d.head s.header_ok (read_head memory d) read_count read_agrees want
          d (Holds-Stands start size want d s) j
