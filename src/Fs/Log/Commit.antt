-- ===== src/Fs/Log/Commit.antt =====
-- `commit`, stopped by a crash after any of its disk writes.
use oops_os.Prelude.{
  ℕ, zero, suc, ◌+◌, ◌≤◌, ◌<◌, ◌≡◌, ◌≢◌, refl, sym, ap, ◌∙◌, Option, none, some, [], ◌∷◌, ◌++◌,
  arith, ltb, Bool-cases, inl, inr, ◌⊎◌, subst, lt→ltb, take, ℕ_discrete, fun_ext,
}
use oops_os.Prelude.Arrays.{put_self, put_ne}
use oops_os.Fs.Log.{
  Header, Disk, store, header, set_header, write_one, write_all, write_log, read_head,
  recover_writes, recover, commit_writes,
}
use oops_os.Fs.Log.Install.{slot, slot_bound, slot_value, IsHome, IsHeader, Stands}
use oops_os.Fs.Log.Recovery.{
  take_split, write_all-append, slot_ext, Holds, IsClean, IsClean-Holds, install_and_clear,
  install_and_clear-IsClean, install_and_clear-Holds, recover-IsClean, recover-Holds,
}

-- The contents with the blocks of `h` taken from the cache.
abbrev pub pick : ℕ → ℕ → Option ℕ → ℕ
pick old new none = old
pick old new (some i) = new

pub updated : Header → (ℕ → ℕ) → (ℕ → ℕ) → ℕ → ℕ
updated h cache want b = pick (want b) (cache b) (slot h.block h.n b)

module _ (start size : ℕ) where
  module _ (cache : ℕ → ℕ) (h : Header) (v : IsHeader start size h) (want : ℕ → ℕ) where
    IsLogged : ℕ → Disk → Type 0
    IsLogged t d = (i : ℕ) → i < t → d.data_of (start + i + 1) ≡ cache (h.block i)

    store-IsClean :
        (d : Disk) (t x : ℕ)
        → t < h.n
        → IsClean start size want d
        → IsClean start size want (write_one d (store (start + t + 1) x))
    unfolding write_one
    store-IsClean d t x l c = record {
      room = c.room;
      empty = c.empty;
      in_place = λ b hb. put_ne d.data_of (start + t + 1) x b (away b hb) ∙ c.in_place b hb;
    }
      where
        away : (b : ℕ) → IsHome start size b → b ≢ start + t + 1
        away b hb = elim hb [ inl q ↦ omega (arith, v.few) | inr q ↦ omega (arith, v.few) ]

    store-IsLogged :
        (d : Disk) (t : ℕ)
        → IsLogged t d
        → IsLogged (suc t) (write_one d (store (start + t + 1) (cache (h.block t))))
    unfolding write_one IsLogged
    store-IsLogged d t s i l = elim (ℕ_discrete i t) [
      | yes e ↦ rw e (put_self d.data_of (start + t + 1) (cache (h.block t)))
      | no ne ↦
          put_ne d.data_of (start + t + 1) (cache (h.block t)) (start + i + 1) (omega arith)
          ∙ s i (omega arith)
    ]

    write_log-IsClean :
        (d : Disk) (t k j : ℕ)
        → t + k ≤ h.n
        → IsClean start size want d
        → IsClean start size want (write_all d (take j (write_log start cache h t k)))
    unfolding write_log write_all
    write_log-IsClean d t zero zero l c = c
    write_log-IsClean d t zero (suc j) l c = c
    write_log-IsClean d t (suc k) zero l c = c
    write_log-IsClean d t (suc k) (suc j) l c =
        write_log-IsClean (write_one d (store (start + t + 1) (cache (h.block t)))) (suc t) k j
          (omega arith) (store-IsClean d t (cache (h.block t)) (omega arith) c)

    write_log-IsLogged :
        (d : Disk) (t k : ℕ)
        → t + k ≡ h.n
        → IsClean start size want d
        → IsLogged t d
        → IsClean start size want (write_all d (write_log start cache h t k))
          × IsLogged h.n (write_all d (write_log start cache h t k))
    unfolding write_log write_all
    write_log-IsLogged d t zero l c s = (c, subst (λ n. IsLogged n d) (omega arith) s)
    write_log-IsLogged d t (suc k) l c s =
        write_log-IsLogged (write_one d (store (start + t + 1) (cache (h.block t)))) (suc t) k
          (omega arith) (store-IsClean d t (cache (h.block t)) (omega arith) c)
          (store-IsLogged d t s)

    -- The header that is on the disk once `write_head` has run on a disk whose log was empty.
    abbrev on_disk : Disk → Header
    on_disk d = set_header h d.head

    on_disk_agrees : (d : Disk) (i : ℕ) → i < h.n → h.block i ≡ (on_disk d).block i
    unfolding set_header
    on_disk_agrees d i l = rw (lt→ltb i h.n l)

    on_disk-IsHeader : (d : Disk) → IsHeader start size (on_disk d)
    unfolding set_header
    on_disk-IsHeader d = record { few = v.few; homes = λ i l. rw (lt→ltb i h.n l) (v.homes i l) }

    -- Writing the header is the moment of the commit.
    header-Stands :
        (d : Disk)
        → IsClean start size want d
        → IsLogged h.n d
        → Stands start size
            (on_disk d)
            (on_disk-IsHeader d)
            (updated h cache want)
            (write_one d (header h))
    unfolding write_one updated IsLogged set_header
    header-Stands d c s = record {
      head_eq = refl;
      values = λ b hb.
          ap (slot_value start d.data_of b)
            (slot_ext (on_disk d).block h.block h.n b (λ i l. sym (on_disk_agrees d i l)))
          ∙ go b hb (slot h.block h.n b) refl;
    }
      where
        go :
            (b : ℕ)
            → IsHome start size b
            → (o : Option ℕ) → slot h.block h.n b ≡ o
            → slot_value start d.data_of b o ≡ pick (want b) (cache b) o
        go b hb none e = c.in_place b hb
        go b hb (some i) e = let r = slot_bound h.block h.n b i e in s i r.0 ∙ ap cache r.1

    module _ (d : Disk) (c : IsClean start size want d) where
      logged : Disk
      logged = write_all d (write_log start cache h 0 h.n)

      switched : Disk
      switched = write_one logged (header h)

      logged-lem : IsClean start size want logged × IsLogged h.n logged
      unfolding logged IsLogged
      logged-lem = write_log-IsLogged d 0 h.n (omega arith) c (λ i l. absurd (omega arith))

      switched-Stands :
          Stands start size
            (on_disk logged)
            (on_disk-IsHeader logged)
            (updated h cache want)
            switched
      unfolding switched
      switched-Stands = header-Stands logged logged-lem.0 logged-lem.1

      count : h.n ≡ (on_disk logged).n
      unfolding set_header
      count = refl

      -- Before the header is written the disk stands for the old contents, from then on for the new.
      commit_prefix :
          (j : ℕ)
          → Holds start size want (
              write_all d (
                take j
                  (write_log start cache h 0 h.n ++ (header h ∷ install_and_clear start size h))))
            ⊎ Holds start size (updated h cache want) (
                write_all d (
                  take j
                    (write_log start cache h 0 h.n ++ (header h ∷ install_and_clear start size h))))
      unfolding write_all set_header
      commit_prefix j =
          elim (take_split j (write_log start cache h 0 h.n) (header h)
            (install_and_clear start size h)) [
              | inl e ↦ inl (
                  rw e
                    (IsClean-Holds start size want _ (write_log-IsClean d 0 h.n j (omega arith) c)))
              | inr q ↦ inr (
                  rw q.1 (
                    rw
                      (write_all-append d (write_log start cache h 0 h.n)
                        (header h ∷ take q.0 (install_and_clear start size h)))
                      (unfold switched logged in
                        install_and_clear-Holds start size (on_disk logged)
                          (on_disk-IsHeader logged) h count (on_disk_agrees logged)
                          (updated h cache want) switched switched-Stands q.0)))
            ]

      commit_end : IsClean start size (updated h cache want) (
          write_all d
            (write_log start cache h 0 h.n ++ (header h ∷ install_and_clear start size h)))
      unfolding write_all set_header
      commit_end =
          rw
            (write_all-append d (write_log start cache h 0 h.n)
              (header h ∷ install_and_clear start size h))
            (unfold switched logged in
              install_and_clear-IsClean start size (on_disk logged) (on_disk-IsHeader logged) h
                count (on_disk_agrees logged) (updated h cache want) switched switched-Stands)

take-nil {ℓ} : {A : Type ℓ} (j : ℕ) → take {A = A} j [] ≡ []
take-nil zero = refl
take-nil (suc j) = refl

updated-empty : (h : Header) (cache want : ℕ → ℕ) → h.n ≡ 0 → updated h cache want ≡ want
unfolding updated slot
updated-empty h cache want e = fun_ext λ b. rw e

-- `commit` on a clean disk, with every block of the log outside the log and fewer blocks than the
-- log is long: it leaves a clean disk with the blocks of the log taken from the cache.
pub commit-IsClean :
    (start size : ℕ) (cache want : ℕ → ℕ) (h : Header) (d : Disk)
    → IsHeader start size h
    → IsClean start size want d
    → IsClean start size (updated h cache want) (write_all d (commit_writes start cache h))
unfolding commit_writes
commit-IsClean start size cache want h d v c = elim (Bool-cases (ltb 0 h.n)) [
  | inl e ↦ rw e (commit_end start size cache h v want d c)
  | inr e ↦ rw (e, updated-empty h cache want (ground arith)) (unfold write_all in c)
]

commit-Holds :
    (start size : ℕ) (cache want : ℕ → ℕ) (h : Header) (d : Disk) (j : ℕ)
    → IsHeader start size h
    → IsClean start size want d
    → Holds start size want (write_all d (take j (commit_writes start cache h)))
      ⊎ Holds start size (updated h cache want) (write_all d (take j (commit_writes start cache h)))
unfolding commit_writes
commit-Holds start size cache want h d j v c = elim (Bool-cases (ltb 0 h.n)) [
  | inl e ↦ rw e (commit_prefix start size cache h v want d c j)
  | inr e ↦ inl (rw (e, take-nil j) (unfold write_all in IsClean-Holds start size want d c))
]

-- The disk after a crash `j` writes into a commit, and a second one `k` writes into the recovery.
abbrev pub crashed : ℕ → (ℕ → ℕ) → Header → Disk → ℕ → Disk
crashed start cache h d j = write_all d (take j (commit_writes start cache h))

abbrev pub crashed_again : ℕ → (ℕ → ℕ) → Header → Disk → ℕ → Header → ℕ → Disk
crashed_again start cache h d j memory k =
    let d' = crashed start cache h d j in
    write_all d' (take k (recover_writes start (read_head memory d')))

-- A commit is atomic: if it is cut off after any number of its disk writes, and the recovery after
-- any number of its own, then a recovery that runs to its end leaves a clean disk with either all of
-- the old contents or all blocks of the transaction taken from the cache. The disk was clean before,
-- and the header lists fewer blocks than the log is long, all outside the log.
pub commit_atomic :
    (start size : ℕ) (cache want : ℕ → ℕ) (h : Header) (d : Disk) (j k : ℕ)
    (memory memory' : Header)
    → IsHeader start size h
    → IsClean start size want d
    → IsClean start size want (recover start memory' (crashed_again start cache h d j memory k))
      ⊎ IsClean start size
          (updated h cache want)
          (recover start memory' (crashed_again start cache h d j memory k))
commit_atomic start size cache want h d j k memory memory' v c =
    elim (commit-Holds start size cache want h d j v c) [
      | inl s ↦ inl (twice want s)
      | inr s ↦ inr (twice (updated h cache want) s)
    ]
  where
    twice :
        (w : ℕ → ℕ)
        → Holds start size w (crashed start cache h d j)
        → IsClean start size w (recover start memory' (crashed_again start cache h d j memory k))
    twice w s =
        recover-IsClean start size memory' w (crashed_again start cache h d j memory k)
          (recover-Holds start size memory w (crashed start cache h d j) s k)
