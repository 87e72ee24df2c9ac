-- ===== src/Mm/Share/Counted.antt =====
-- The count of a segment is the number of processes that hold its key.
use oops_os.Prelude.{
  ℕ, suc, ◌+◌, ◌<◌, ◌≡◌, ◌∙◌, ap, Bool, true, false, some, arith, ◌==◌, if◌then◌else◌, ℕ_discrete,
  subst, some_inj, ℤ, pos, negsuc, suc_ℤ, pred_ℤ,
}
use oops_os.Prelude.Arrays.{put, put_self, put_ne}
use oops_os.Prelude.Sums.{sum_below, sum_below_change}
use oops_os.Prelude.Options.{>>=-eq-some}
use oops_os.Mm.Paging.{World}
use oops_os.Mm.Share.{
  Segment, Holder, Share, n_segments, holding, shmaddcount, inherited, fork_shm, drop_counts,
  release_shm, deallocshm, kernbase,
}
use oops_os.Mm.Share.Loops.{add_counts-IsLooped, drop_counts-IsLooped}

abbrev pub bit : Bool → ℕ
bit true = 1
bit false = 0

-- The number of the 64 processes that hold a key.
unfoldable pub holders : (ℕ → Holder) → ℕ → ℕ
holders procs k = sum_below 64 (λ p. bit ((procs p).mask k))

unfoldable pub IsCounted : Share → Type 0
IsCounted s = (k : ℕ) → k < n_segments → (s.table k).refcount ≡ pos (holders s.procs k)

holders-put :
    (procs : ℕ → Holder) (p : ℕ) (h : Holder) (k : ℕ)
    → p < 64
    → holders (put procs p h) k + bit ((procs p).mask k) ≡ holders procs k + bit (h.mask k)
unfolding holders
holders-put procs p h k l =
    sum_below_change 64 (λ q. bit ((put procs p h q).mask k)) (λ q. bit ((procs q).mask k)) p l
      (λ q ne. ap (λ (x : Holder). bit (x.mask k)) (put_ne procs p h q ne))
    ∙ ap (λ (x : Holder). holders procs k + bit (x.mask k)) (put_self procs p h)

-- One more holder of `key`.
pub holders-holding :
    (procs : ℕ → Holder) (p key shm k : ℕ)
    → p < 64
    → (procs p).mask key ≡ false
    → holders (put procs p (holding (procs p) key shm)) k
      ≡ (if k == key then 1 else 0) + holders procs k
holders-holding procs p key shm k l m = elim (ℕ_discrete k key) [
  | yes e ↦
      let now : (holding (procs p) key shm).mask k ≡ true =
        rw e (put_self (procs p).mask key true) in
      let was : (procs p).mask k ≡ false = rw e m in
      let same : (k == key) ≡ true = ground arith in
      rw same
        (omega (arith, rw (now, was) at (holders-put procs p (holding (procs p) key shm) k l)))
  | no ne ↦
      let now : (holding (procs p) key shm).mask k ≡ (procs p).mask k =
        put_ne (procs p).mask key true k ne in
      let apart : (k == key) ≡ false = ground arith in
      rw apart (omega (arith, rw now at (holders-put procs p (holding (procs p) key shm) k l)))
]

pub pos_inj : {m n : ℕ} → pos m ≡ pos n → m ≡ n
pos_inj e = ap (λ (z : ℤ). elim z [ pos n ↦ n | negsuc n ↦ 0 ]) e

-- The count goes with the number of holders.
counted_up :
    (m : Bool) (r r' : ℤ) (old new : ℕ)
    → r' ≡ (if m then suc_ℤ r else r)
    → r ≡ pos old
    → new + 0 ≡ old + bit m
    → r' ≡ pos new
counted_up true r r' old new e c n = e ∙ (ap suc_ℤ c ∙ ap pos (omega (arith, n)))
counted_up false r r' old new e c n = e ∙ (c ∙ ap pos (omega (arith, n)))

counted_down :
    (m : Bool) (r r' : ℤ) (old new : ℕ)
    → r' ≡ (if m then pred_ℤ r else r)
    → r ≡ pos old
    → new + bit m ≡ old + 0
    → r' ≡ pos new
counted_down true r r' old new e c n =
    let one_more : old ≡ suc new = omega (arith, n) in e ∙ ap pred_ℤ (c ∙ ap pos one_more)
counted_down false r r' old new e c n = e ∙ (c ∙ ap pos (omega (arith, n)))

pub fork_shm-IsCounted :
    (s : Share) (p q : ℕ)
    → q < 64
    → ((k : ℕ) → (s.procs q).mask k ≡ false)
    → IsCounted s
    → IsCounted (fork_shm s p q)
unfolding fork_shm shmaddcount IsCounted
fork_shm-IsCounted s p q l empty c k b =
    let mask = (s.procs p).mask in
    let loop = add_counts-IsLooped mask 0 n_segments s.table (omega arith) in
    let moved = holders-put s.procs q (inherited (s.procs p) (s.procs q)) k l in
    counted_up (mask k) (s.table k).refcount _ (holders s.procs k) _
      (loop.inside k (omega arith) (omega (arith, b))) (c k b) (rw (empty k) at moved)

pub release_shm-IsCounted :
    (s s' : Share) (p root : ℕ)
    → p < 64
    → IsCounted s
    → release_shm s p root ≡ some s'
    → IsCounted s'
unfolding release_shm IsCounted
release_shm-IsCounted s s' p root l c e =
    let (w, d, f) = >>=-eq-some (deallocshm s.world root ((s.procs p).shm) kernbase) _ e in
    let (table, g, h) = >>=-eq-some (drop_counts ((s.procs p).mask) 0 n_segments s.table) _ f in
    subst IsCounted (some_inj h) (dropped w table g)
  where
    dropped :
        (w : World) (table : ℕ → Segment)
        → drop_counts ((s.procs p).mask) 0 n_segments s.table ≡ some table
        → IsCounted (record s {
          world = w;
          table = table;
          procs = put s.procs p (record (s.procs p) { shm = kernbase; mask = λ k. false });
        })
    dropped w table g k b =
        let mask = (s.procs p).mask in
        let moved =
          holders-put s.procs p (record (s.procs p) { shm = kernbase; mask = λ k. false }) k l in
        let loop = drop_counts-IsLooped mask 0 n_segments s.table table (omega arith) g in
        counted_down (mask k) (s.table k).refcount _ (holders s.procs k) _
          (loop.inside k (omega arith) (omega (arith, b))) (c k b) moved
