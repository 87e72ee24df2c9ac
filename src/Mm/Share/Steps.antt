-- ===== src/Mm/Share/Steps.antt =====
-- Shared memory as a system: what processes do with it, one call after the other.
use oops_os.Prelude.{
  ℕ, ◌+◌, ◌-◌, ◌/◌, ◌%◌, ◌^◌, ◌≤◌, ◌<◌, ◌≡◌, refl, sym, ◌∙◌, ap, inl, inr, true, false, ◌||◌,
  Option, some, arith, ltb, leb, ◌==◌, if◌then◌else◌, Bool-cases, ℕ_discrete, subst, some_inj, pos,
  suc_ℤ,
}
use oops_os.Prelude.Arrays.{put, put_self, put_ne}
use oops_os.Prelude.Sums.{sum_below_zero}
use oops_os.Prelude.Options.{>>=-eq-some}
use oops_os.Mm.Alloc.{is_nil}
use oops_os.Mm.Paging.{World}
use oops_os.Mm.Share.{
  Segment, Holder, Share, Shared, n_segments, max_pages, allocshm, mapshm, below_shm, shmadd,
  count_up, holding, get_end, get_segment, shmgetat, fork_shm, release_shm, kernbase, as_int,
  bad_range, alloc_from,
}
use oops_os.Mm.Share.Loops.{is_nil-eq}
use oops_os.Mm.Share.Counted.{
  IsCounted, holders, bit, holders-holding, pos_inj, fork_shm-IsCounted, release_shm-IsCounted,
}

-- The end of `shmgetat`, where the counts already count one more holder.
get_end-IsCounted :
    (s : Share) (p key : ℕ) (table : (ℕ → ℕ) → ℕ → Segment) (r : Shared)
    → p < 64
    → (s.procs p).mask key ≡ false
    → IsCounted s
    → ((phys : ℕ → ℕ) (k : ℕ)
        → k < n_segments
        → (table phys k).refcount ≡ pos ((if k == key then 1 else 0) + holders s.procs k))
    → IsCounted (get_end s p key table r).1
unfolding get_end IsCounted
get_end-IsCounted s p key table (shm, phys, w) l m c up = elim (Bool-cases (shm == 0)) [
  | inl z ↦ rw z c
  | inr z ↦ rw z (λ k b. up phys k b ∙ ap pos (sym (holders-holding s.procs p key shm k l m)))
]

shmadd-refcount :
    (s : Share) (key num : ℕ) (phys : ℕ → ℕ) (k : ℕ)
    → key < n_segments
    → 0 < num
    → num ≤ max_pages
    → IsCounted s
    → (s.table key).refcount ≡ pos 0
    → k < n_segments
    → (shmadd s.table key num phys k).refcount
      ≡ pos ((if k == key then 1 else 0) + holders s.procs k)
unfolding shmadd IsCounted
shmadd-refcount s key num phys k l n m c z b =
    let key_ok : leb n_segments key ≡ false = ground arith in
    let num_ok : (num == 0) ≡ false = ground arith in
    let few : ltb max_pages num ≡ false = ground arith in
    let seg : Segment = record { refcount = pos 1; pagenum = num; physaddr = phys } in
    rw (key_ok, num_ok, few)
      (elim (ℕ_discrete k key) [
        | yes e ↦
            let same : (k == key) ≡ true = ground arith in
            let none : holders s.procs k ≡ 0 =
              pos_inj (sym (c k b) ∙ (ap (λ (x : ℕ). (s.table x).refcount) e ∙ z)) in
            rw (same, none)
              (ap (λ (x : Segment). x.refcount)
                (ap (put s.table key seg) e ∙ put_self s.table key seg))
        | no ne ↦
            let apart : (k == key) ≡ false = ground arith in
            let plus : holders s.procs k ≡ 0 + holders s.procs k = omega arith in
            rw apart (
              ap (λ (x : Segment). x.refcount) (put_ne s.table key seg k ne)
              ∙ (c k b ∙ ap pos plus))
      ])

count_up-refcount :
    (s : Share) (key k : ℕ)
    → IsCounted s
    → k < n_segments
    → (count_up s.table key k).refcount ≡ pos ((if k == key then 1 else 0) + holders s.procs k)
unfolding count_up IsCounted
count_up-refcount s key k c b = elim (ℕ_discrete k key) [
  | yes e ↦
      let same : (k == key) ≡ true = ground arith in
      rw same (
        ap (λ (x : ℕ). (count_up s.table key x).refcount) e
        ∙ (ap (λ (x : Segment). x.refcount) (put_self s.table key _)
            ∙ (ap suc_ℤ (ap (λ (x : ℕ). (s.table x).refcount) (sym e) ∙ c k b)
                ∙ ap pos (omega arith))))
  | no ne ↦
      let apart : (k == key) ≡ false = ground arith in
      let plus : holders s.procs k ≡ 0 + holders s.procs k = omega arith in
      rw apart
        (ap (λ (x : Segment). x.refcount) (put_ne s.table key _ k ne) ∙ (c k b ∙ ap pos plus))
]

get_segment-IsCounted :
    (s s' : Share) (p key num : ℕ) (res : Option ℕ)
    → p < 64
    → key < n_segments
    → 0 < num
    → num ≤ max_pages
    → (s.procs p).mask key ≡ false
    → IsCounted s
    → get_segment s p key num ≡ some (res, s')
    → IsCounted s'
unfolding get_segment
get_segment-IsCounted s s' p key num res l b n m f c e =
    elim (Bool-cases (is_nil (s.table key).refcount)) [
      | inl z ↦
          let (r, a, q) = >>=-eq-some (allocshm s.world _ _ _ _ _) _ (rw z at e) in
          subst IsCounted (ap (λ x. x.1) (some_inj q)) (
            get_end-IsCounted s p key (shmadd s.table key num) r l f c
              (λ phys k d. shmadd-refcount s key num phys k b n m c (is_nil-eq _ z) d))
      | inr z ↦
          let (r, a, q) = >>=-eq-some (mapshm s.world _ _ _ _ _) _ (rw z at e) in
          subst IsCounted (ap (λ x. x.1) (some_inj q)) (
            get_end-IsCounted s p key (λ phys. count_up s.table key) r l f c
              (λ phys k d. count_up-refcount s key k c d))
    ]

shmgetat-IsCounted :
    (s s' : Share) (p key num : ℕ) (res : Option ℕ)
    → p < 64
    → 0 < num
    → IsCounted s
    → shmgetat s p key num ≡ some (res, s')
    → IsCounted s'
unfolding shmgetat
shmgetat-IsCounted s s' p key num res l n c e =
    elim (Bool-cases (leb n_segments key || ltb max_pages num)) [
      | inl g ↦ subst IsCounted (ap (λ x. x.1) (some_inj (rw g at e))) c
      | inr g ↦ elim (Bool-cases ((s.procs p).mask key)) [
        | inl f ↦ subst IsCounted (ap (λ x. x.1) (some_inj (rw (g, f) at e))) c
        | inr f ↦
            get_segment-IsCounted s s' p key num res l (ground (arith, g)) n (ground (arith, g)) f c
              (rw (g, f) at e)
      ]
    ]

-- The states that calls of `shmgetat` for a page at least, `fork` and the release in `exec` lead to. The
-- child of a `fork` holds no key before.
pub data Reach : Share → Type 0 where
  start :
      (s : Share)
      → ((k : ℕ) → (s.table k).refcount ≡ pos 0)
      → ((p k : ℕ) → (s.procs p).mask k ≡ false)
      → Reach s
  get :
      (s s' : Share) (p key num : ℕ) (res : Option ℕ)
      → Reach s
      → p < 64
      → 0 < num
      → shmgetat s p key num ≡ some (res, s')
      → Reach s'
  fork :
      (s : Share) (p q : ℕ)
      → Reach s
      → q < 64
      → ((k : ℕ) → (s.procs q).mask k ≡ false)
      → Reach (fork_shm s p q)
  release : (s s' : Share) (p r : ℕ) → Reach s → p < 64 → release_shm s p r ≡ some s' → Reach s'

start-IsCounted :
    (s : Share)
    → ((k : ℕ) → (s.table k).refcount ≡ pos 0)
    → ((p k : ℕ) → (s.procs p).mask k ≡ false)
    → IsCounted s
unfolding IsCounted holders
start-IsCounted s z m k b =
    z k ∙ ap pos (sym (sum_below_zero 64 (λ p. bit ((s.procs p).mask k)) (λ p l. ap bit (m p k))))

-- In every state that shared memory reaches by calls of `shmgetat` with a page at least, `fork` and `exec`,
-- the count of each segment is the number of the processes that hold its key.
pub count_is_holders : (s : Share) → Reach s → IsCounted s
count_is_holders _ (start s z m) = start-IsCounted s z m
count_is_holders _ (get s0 s p key num res r l n e) =
    shmgetat-IsCounted s0 s p key num res l n (count_is_holders s0 r) e
count_is_holders _ (fork s0 p q r l m) = fork_shm-IsCounted s0 p q l m (count_is_holders s0 r)
count_is_holders _ (release s0 s p root r l e) =
    release_shm-IsCounted s0 s p root l (count_is_holders s0 r) e

allocshm_none :
    (w : World) (r shm sz : ℕ) (phys : ℕ → ℕ)
    → shm % 4096 ≡ 0
    → shm ≤ kernbase
    → sz ≤ shm
    → allocshm w r shm (below_shm shm 0) sz phys ≡ some (as_int shm, phys, w)
unfolding allocshm alloc_from
allocshm_none w r shm sz phys a k z =
    let same : (shm + 2 ^ 64) % 2 ^ 64 ≡ shm = omega (arith, k) in
    let fits : bad_range shm shm sz ≡ false = ground (arith, a, k, z) in
    let rounds : (shm - shm) / 4096 ≡ 0 = omega arith in rw (same, fits, rounds) refl

-- A call for no page of a key that no process holds, in an aligned address space below KERNBASE: the
-- process holds the key now, and the count of the segment is still 0.
pub zero_pages :
    (s : Share) (p key : ℕ)
    → key < n_segments
    → (s.procs p).mask key ≡ false
    → (s.table key).refcount ≡ pos 0
    → (s.procs p).shm % 4096 ≡ 0
    → 0 < (s.procs p).shm
    → (s.procs p).shm ≤ kernbase
    → (s.procs p).sz ≤ (s.procs p).shm
    → (s' : Share) × (shmgetat s p key 0 ≡ some (some (as_int (s.procs p).shm), s'))
      × ((s'.procs p).mask key ≡ true)
      × ((s'.table key).refcount ≡ pos 0)
unfolding shmgetat get_segment get_end shmadd
zero_pages s p key b m c a n k z =
    let shm = (s.procs p).shm in
    let guard : leb n_segments key ≡ false = ground arith in
    let there : (as_int shm == 0) ≡ false = ground (arith, n, k) in
    let made = allocshm_none s.world (s.procs p).pagetable shm (s.procs p).sz (λ i. 0) a k z in
    (
      record s { procs = put s.procs p (holding (s.procs p) key (as_int shm)) },
      rw (guard, m, c, made, there) refl,
      ap (λ (h : Holder). h.mask key) (put_self s.procs p _) ∙ put_self (s.procs p).mask key true,
      c,
    )
