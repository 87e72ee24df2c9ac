-- ===== src/Mm/Swap/Slots.antt =====
-- The slots of the swap area and their copies on disk.
use oops_os.Prelude.{
  ℕ, zero, suc, ◌+◌, ◌-◌, ◌*◌, ◌/◌, ◌%◌, ◌≤◌, ◌<◌, ◌≡◌, ◌≢◌, refl, sym, ◌∙◌, Bool, true, false, not,
  none, some, arith, ltb, if◌then◌else◌, Bool-cases, Option-cases, inl, inr, ◌⊎◌, ap, subst,
  ℕ_discrete,
}
use oops_os.Prelude.Arrays.{put, put_self, put_ne}
use oops_os.Prelude.Search.{first_from, IsFirst, first_from-IsFirst}
use oops_os.Mm.Swap.{
  swap_pages, bsize, block_in, block_out, Swap, probe, take_slot, swap_alloc, write_blocks,
  read_blocks, first_block, swap_write, swap_read,
}

probe-back :
    (s : Swap) (b : ℕ)
    → s.hint < swap_pages
    → b < swap_pages
    → probe s ((b + swap_pages - s.hint) % swap_pages) ≡ b
unfolding probe
probe-back s b l m = omega arith

probe-lt : (s : Swap) (i : ℕ) → probe s i < swap_pages
unfolding probe
probe-lt s i = omega arith

-- `swap_alloc` with the hint in range: it fails, and changes nothing, exactly where all slots are in
-- use. Otherwise it returns a slot that was free, now in use, with the hint in range; all other slots
-- are as before, and so are the buffer and the disk.
pub swap_alloc_lem :
    (s : Swap)
    → s.hint < swap_pages
    → ((swap_alloc s ≡ (none, s)) × ((b : ℕ) → b < swap_pages → s.swapmap b ≡ true))
      ⊎ ((slot : ℕ) × (swap_alloc s ≡ (some slot, take_slot s slot))
          × (slot < swap_pages)
          × (s.swapmap slot ≡ false)
          × ((take_slot s slot).swapmap slot ≡ true)
          × ((take_slot s slot).hint < swap_pages)
          × ((b : ℕ) → b ≢ slot → (take_slot s slot).swapmap b ≡ s.swapmap b))
unfolding swap_alloc take_slot
swap_alloc_lem s l =
    elim (Option-cases (first_from (λ i. not (s.swapmap (probe s i))) 0 swap_pages)) [
      | inl e ↦ inl (
        rw (swap_alloc, e),
        λ b m.
            let h =
              (subst (IsFirst (λ i. not (s.swapmap (probe s i))) 0 swap_pages) e scan)
                ((b + swap_pages - s.hint) % swap_pages) (omega arith) (omega arith) in
            flip (s.swapmap b)
              (subst (λ (x : ℕ). not (s.swapmap x) ≡ false) (probe-back s b l m) h),
      )
      | inr (i, e) ↦
          let h = subst (IsFirst (λ i. not (s.swapmap (probe s i))) 0 swap_pages) e scan in
          inr (
            probe s i,
            rw (swap_alloc, e),
            probe-lt s i,
            clear (s.swapmap (probe s i)) (h.2),
            put_self s.swapmap (probe s i) true,
            omega arith,
            λ b ne. put_ne s.swapmap (probe s i) true b ne,
          )
    ]
  where
    scan :
        IsFirst
          (λ i. not (s.swapmap (probe s i)))
          0
          swap_pages
          (first_from (λ i. not (s.swapmap (probe s i))) 0 swap_pages)
    scan = first_from-IsFirst (λ i. not (s.swapmap (probe s i))) 0 swap_pages

    flip : (b : Bool) → not b ≡ false → b ≡ true
    flip true e = refl
    flip false e = sym e

    clear : (b : Bool) → not b ≡ true → b ≡ false
    clear true e = sym e
    clear false e = refl

read_blocks_out :
    (disk : ℕ → ℕ → ℕ) (first : ℕ) (dst : ℕ → ℕ) (i k j : ℕ)
    → (j < i * bsize) ⊎ ((i + k) * bsize ≤ j)
    → read_blocks disk first dst i k j ≡ dst j
unfolding read_blocks
read_blocks_out disk first dst i zero j h = refl
read_blocks_out disk first dst i (suc k) j h =
    read_blocks_out disk first (block_out (disk (first + i)) i dst) (suc i) k j (ground arith)
    ∙ ground arith

block_out_at :
    (disk : ℕ → ℕ → ℕ) (first : ℕ) (dst : ℕ → ℕ) (i j : ℕ)
    → i * bsize ≤ j
    → j < i * bsize + bsize
    → block_out (disk (first + i)) i dst j ≡ disk (first + j / bsize) (j % bsize)
block_out_at disk first dst i j l m =
    inside ∙ (ap (disk (first + i)) offset ∙ ap (λ (b : ℕ). disk (first + b) (j % bsize)) block)
  where
    inside : block_out (disk (first + i)) i dst j ≡ disk (first + i) (j - i * bsize)
    inside = ground arith

    block : i ≡ j / bsize
    block = omega arith

    offset : j - i * bsize ≡ j % bsize
    offset = omega arith

read_blocks_in :
    (disk : ℕ → ℕ → ℕ) (first : ℕ) (dst : ℕ → ℕ) (i k j : ℕ)
    → i * bsize ≤ j
    → j < (i + k) * bsize
    → read_blocks disk first dst i k j ≡ disk (first + j / bsize) (j % bsize)
unfolding read_blocks
read_blocks_in disk first dst i zero j l m = absurd (omega arith)
read_blocks_in disk first dst i (suc k) j l m =
    let later = read_blocks_in disk first (block_out (disk (first + i)) i dst) (suc i) k j in
    elim (Bool-cases (ltb j (i * bsize + bsize))) [
      | inl e ↦
          read_blocks_out disk first (block_out (disk (first + i)) i dst) (suc i) k j
            (inl (ground arith))
          ∙ block_out_at disk first dst i j l (ground arith)
      | inr e ↦ later (ground arith) (ground arith)
    ]

write_blocks_out :
    (disk : ℕ → ℕ → ℕ) (first : ℕ) (src : ℕ → ℕ) (i k b : ℕ)
    → (b < first + i) ⊎ (first + i + k ≤ b)
    → write_blocks disk first src i k b ≡ disk b
unfolding write_blocks
write_blocks_out disk first src i zero b h = refl
write_blocks_out disk first src i (suc k) b h =
    write_blocks_out (put disk (first + i) (block_in src i (disk (first + i)))) first src (suc i) k
      b (ground arith)
    ∙ put_ne disk (first + i) (block_in src i (disk (first + i))) b (λ e. ground arith)

write_blocks_in :
    (disk : ℕ → ℕ → ℕ) (first : ℕ) (src : ℕ → ℕ) (i k n j : ℕ)
    → i ≤ n
    → n < i + k
    → j < bsize
    → write_blocks disk first src i k (first + n) j ≡ src (n * bsize + j)
unfolding write_blocks
write_blocks_in disk first src i zero n j l m c = absurd (omega arith)
write_blocks_in disk first src i (suc k) n j l m c =
    let new = put disk (first + i) (block_in src i (disk (first + i))) in
    let later = write_blocks_in new first src (suc i) k n j in
    elim (ℕ_discrete n i) [
      | no ne ↦ later (omega arith) (omega arith) c
      | yes e ↦ rw e (
          ap (λ (b : ℕ → ℕ). b j)
            (write_blocks_out new first src (suc i) k (first + i) (inl (omega arith)))
          ∙ (ap (λ (b : ℕ → ℕ). b j) (put_self disk (first + i) (block_in src i (disk (first + i))))
              ∙ ground arith))
    ]

-- A page that is written to a slot is read back from it, its 4096 bytes and no others; and what is read
-- from every other slot is as before.
pub swap_read-swap_write :
    (s : Swap) (slot : ℕ) (src dst : ℕ → ℕ) (j : ℕ)
    → (swap_read (swap_write s slot src) slot dst j ≡ (if ltb j 4096 then src j else dst j))
      × ((other : ℕ)
          → other ≢ slot
          → swap_read (swap_write s slot src) other dst j ≡ swap_read s other dst j)
unfolding swap_read swap_write
swap_read-swap_write s slot src dst j = elim (Bool-cases (ltb j 4096)) [
  | inl e ↦ (
    rw e (
        read_blocks_in _ (first_block s slot) dst 0 4 j (omega arith) (ground arith)
        ∙ (write_blocks_in s.disk (first_block s slot) src 0 4 (j / bsize) (j % bsize) (omega arith)
              (ground arith) (omega arith)
            ∙ ap src (omega arith))),
    λ other ne.
        read_blocks_in _ (first_block s other) dst 0 4 j (omega arith) (ground arith)
        ∙ (ap (λ (b : ℕ → ℕ). b (j % bsize))
              (write_blocks_out s.disk (first_block s slot) src 0 4
                (first_block s other + j / bsize) (apart other ne (ground arith)))
            ∙ sym (
                read_blocks_in s.disk (first_block s other) dst 0 4 j (omega arith)
                  (ground arith))),
  )
  | inr e ↦ (
    rw e (read_blocks_out _ (first_block s slot) dst 0 4 j (inr (ground arith))),
    λ other ne.
        read_blocks_out _ (first_block s other) dst 0 4 j (inr (ground arith))
        ∙ sym (read_blocks_out s.disk (first_block s other) dst 0 4 j (inr (ground arith))),
  )
]
  where
    apart :
        (other : ℕ)
        → other ≢ slot
        → j < 4096
        → (first_block s other + j / bsize < first_block s slot + 0)
          ⊎ (first_block s slot + 0 + 4 ≤ first_block s other + j / bsize)
    apart other ne l = elim (Bool-cases (ltb other slot)) [
      | inl q ↦ inl (ground arith)
      | inr q ↦ inr (ground arith)
    ]
