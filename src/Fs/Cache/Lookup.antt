-- ===== src/Fs/Cache/Lookup.antt =====
-- What `bget` returns.
use oops_os.Prelude.{
  ℕ, ◌+◌, ◌<◌, ◌≡◌, ◌≢◌, refl, sym, ◌∙◌, ◌==◌, true, false, none, some, List, [], ◌∷◌, arith,
  Bool-cases, Option-cases, inl, inr, ◌⊎◌, ℕ_discrete, ap, subst, some_inj,
}
use oops_os.Prelude.Arrays.{put, put_self, put_ne}
use oops_os.Fs.Cache.{
  n_buf, Buf, Cache, hash, unlink, holds, find_buf, find_cached, hit, claim, claim_victim,
  bget_evict, bget,
}
use oops_os.Fs.Cache.Clock.{IsKept, clock_lem, clock-buckets}

find_buf_ext :
    (buf buf' : ℕ → Buf) (dev blockno : ℕ) (is : List ℕ)
    → ((i : ℕ) → holds dev blockno (buf i) ≡ holds dev blockno (buf' i))
    → find_buf buf dev blockno is ≡ find_buf buf' dev blockno is
unfolding find_buf
find_buf_ext buf buf' dev blockno [] h = refl
find_buf_ext buf buf' dev blockno (i ∷ is) h = rw (h i, find_buf_ext buf buf' dev blockno is h)

find_buf-holds :
    (buf : ℕ → Buf) (dev blockno : ℕ) (is : List ℕ) {i : ℕ}
    → find_buf buf dev blockno is ≡ some i
    → holds dev blockno (buf i) ≡ true
unfolding find_buf
find_buf-holds buf dev blockno [] e = cc e
find_buf-holds buf dev blockno (j ∷ js) {i} e =
    let later = find_buf-holds buf dev blockno js {i = i} in
    elim (Bool-cases (holds dev blockno (buf j))) [
      | inl y ↦ subst (λ (x : ℕ). holds dev blockno (buf x) ≡ true) (some_inj (rw y at e)) y
      | inr n ↦ later (rw n at e)
    ]

holds_fields :
    (dev blockno : ℕ) (b : Buf) → holds dev blockno b ≡ true → (b.dev ≡ dev) × (b.blockno ≡ blockno)
unfolding holds
holds_fields dev blockno b e = ground arith

find_buf_skip :
    (buf : ℕ → Buf) (dev blockno v : ℕ) (is : List ℕ)
    → holds dev blockno (buf v) ≡ false
    → find_buf buf dev blockno (v ∷ is) ≡ find_buf buf dev blockno is
unfolding find_buf
find_buf_skip buf dev blockno v is e = rw e refl

find_buf-unlink :
    (buf : ℕ → Buf) (dev blockno v : ℕ) (is : List ℕ)
    → holds dev blockno (buf v) ≡ false
    → find_buf buf dev blockno (unlink v is) ≡ find_buf buf dev blockno is
unfolding find_buf unlink
find_buf-unlink buf dev blockno v [] e = refl
find_buf-unlink buf dev blockno v (j ∷ js) e = elim (Bool-cases (j == v)) [
  | inl y ↦
      let same : j ≡ v = ground arith in
      rw y (sym (find_buf_skip buf dev blockno j js (ap (λ x. holds dev blockno (buf x)) same ∙ e)))
  | inr n ↦ rw n (rw (find_buf-unlink buf dev blockno v js e) refl)
]

holds_same :
    (dev blockno : ℕ) {b b' : Buf} → IsKept b b' → holds dev blockno b' ≡ holds dev blockno b
unfolding holds
holds_same dev blockno k = rw (k.dev, k.blockno) refl

holds_other :
    (dev blockno : ℕ) (b : Buf) → (dev ≡ b.dev → blockno ≢ b.blockno) → holds dev blockno b ≡ false
unfolding holds
holds_other dev blockno b ne = elim (ℕ_discrete dev b.dev) [
  | no q ↦ ground arith
  | yes q ↦ let nb : blockno ≢ b.blockno = ne q in ground arith
]

-- Buffer `i` serves the block: it is what the next look-up finds, has one user more than before, and
-- no other buffer has changed its block, its users or its `valid`; and the look-up of any other block but the
-- one that the buffer held before finds what it found before.
pub record IsServed (c : Cache) (dev blockno i : ℕ) (c' : Cache) : Type 0 where
  pub dev_of : (c'.buf i).dev ≡ dev
  pub block_of : (c'.buf i).blockno ≡ blockno
  pub found : find_cached c' dev blockno ≡ some i
  pub users : (c'.buf i).refcnt ≡ (c.buf i).refcnt + 1
  pub others : (j : ℕ) → j ≢ i → IsKept (c.buf j) (c'.buf j)
  pub still_found :
      (d b : ℕ)
      → (d ≡ dev → b ≢ blockno)
      → holds d b (c.buf i) ≡ false
      → find_cached c' d b ≡ find_cached c d b

IsKept-eq : {b b' : Buf} → b' ≡ b → IsKept b b'
IsKept-eq q = record {
  dev = ap (λ (x : Buf). x.dev) q;
  blockno = ap (λ (x : Buf). x.blockno) q;
  valid = ap (λ (x : Buf). x.valid) q;
  refcnt = ap (λ (x : Buf). x.refcnt) q;
}

hit-IsServed :
    (c : Cache) (dev blockno i : ℕ)
    → find_cached c dev blockno ≡ some i
    → IsServed c dev blockno i (hit c i)
unfolding hit find_cached holds
hit-IsServed c dev blockno i e = record {
  dev_of = ap (λ (x : Buf). x.dev) own ∙ block.0;
  block_of = ap (λ (x : Buf). x.blockno) own ∙ block.1;
  found =
      find_buf_ext _ c.buf dev blockno (c.buckets (hash blockno))
        (λ j. elim (ℕ_discrete j i) [ yes q ↦ rw (q, own) | no ne ↦ rw (put_ne c.buf i more j ne) ])
      ∙ e;
  users = ap (λ (x : Buf). x.refcnt) own;
  others = λ j ne. IsKept-eq (put_ne c.buf i more j ne);
  still_found = λ d b ne h. find_buf_ext _ c.buf d b (c.buckets (hash b)) (λ j.
      elim (ℕ_discrete j i) [
        | yes q ↦ rw (q, own) refl
        | no nj ↦ rw (put_ne c.buf i more j nj) refl
      ]);
}
  where
    more : Buf
    more = record (c.buf i) { refcnt = (c.buf i).refcnt + 1; refbit = true }

    own : put c.buf i more i ≡ more
    own = put_self c.buf i more

    block : ((c.buf i).dev ≡ dev) × ((c.buf i).blockno ≡ blockno)
    block =
        holds_fields dev blockno (c.buf i)
          (find_buf-holds c.buf dev blockno (c.buckets (hash blockno)) e)

claim-IsServed :
    (c d : Cache) (dev blockno v : ℕ)
    → (c.buf v).refcnt ≡ 0
    → (d.buf v).refcnt ≡ 1
    → ((i : ℕ) → i ≢ v → IsKept (c.buf i) (d.buf i))
    → d.buckets
      ≡ put c.buckets (hash ((c.buf v).blockno)) (unlink v (c.buckets (hash ((c.buf v).blockno))))
    → IsServed c dev blockno v (claim d v dev blockno)
unfolding claim find_cached
claim-IsServed c d dev blockno v z o h t = record {
  dev_of = ap (λ (x : Buf). x.dev) own;
  block_of = ap (λ (x : Buf). x.blockno) own;
  found = rw (put_self d.buckets (hash blockno) (v ∷ d.buckets (hash blockno))) first;
  users = ap (λ (x : Buf). x.refcnt) own ∙ omega arith;
  others = λ j ne. subst (IsKept (c.buf j)) (sym (put_ne d.buf v new j ne)) (h j ne);
  still_found = λ e b ne old.
      in_bucket e b (not_new e b ne)
      ∙ (unlinked e b (not_new e b ne) (d.buckets (hash b)) (ap (λ (f : ℕ → List ℕ). f (hash b)) t)
          ∙ same_buffers e b (not_new e b ne) old);
}
  where
    new : Buf
    new = record (d.buf v) { dev = dev; blockno = blockno; valid = false; refbit = true }

    own : put d.buf v new v ≡ new
    own = put_self d.buf v new

    holds_new : holds dev blockno new ≡ true
    holds_new = unfold holds in (ground arith)

    not_new : (e b : ℕ) → (e ≡ dev → b ≢ blockno) → holds e b (put d.buf v new v) ≡ false
    not_new e b ne = rw own (holds_other e b new ne)

    in_bucket :
        (e b : ℕ)
        → holds e b (put d.buf v new v) ≡ false
        → find_buf
            (put d.buf v new)
            e
            b
            (put d.buckets (hash blockno) (v ∷ d.buckets (hash blockno)) (hash b))
          ≡ find_buf (put d.buf v new) e b (d.buckets (hash b))
    in_bucket e b n = elim (ℕ_discrete (hash b) (hash blockno)) [
      | yes q ↦
          ap (find_buf (put d.buf v new) e b) (
            ap (put d.buckets (hash blockno) (v ∷ d.buckets (hash blockno))) q
            ∙ put_self d.buckets (hash blockno) (v ∷ d.buckets (hash blockno)))
          ∙ (find_buf_skip (put d.buf v new) e b v (d.buckets (hash blockno)) n
              ∙ ap (λ x. find_buf (put d.buf v new) e b (d.buckets x)) (sym q))
      | no q ↦
          ap (find_buf (put d.buf v new) e b)
            (put_ne d.buckets (hash blockno) (v ∷ d.buckets (hash blockno)) (hash b) q)
    ]

    old_hash : ℕ
    old_hash = hash ((c.buf v).blockno)

    unlinked :
        (e b : ℕ)
        → holds e b (put d.buf v new v) ≡ false
        → (is : List ℕ) → is ≡ put c.buckets old_hash (unlink v (c.buckets old_hash)) (hash b)
        → find_buf (put d.buf v new) e b is ≡ find_buf (put d.buf v new) e b (c.buckets (hash b))
    unlinked e b n is u = elim (ℕ_discrete (hash b) old_hash) [
      | yes q ↦
          ap (find_buf (put d.buf v new) e b) (
            u
            ∙ (ap (put c.buckets old_hash (unlink v (c.buckets old_hash))) q
                ∙ put_self c.buckets old_hash (unlink v (c.buckets old_hash))))
          ∙ (find_buf-unlink (put d.buf v new) e b v (c.buckets old_hash) n
              ∙ ap (λ x. find_buf (put d.buf v new) e b (c.buckets x)) (sym q))
      | no q ↦
          ap (find_buf (put d.buf v new) e b)
            (u ∙ put_ne c.buckets old_hash (unlink v (c.buckets old_hash)) (hash b) q)
    ]

    same_buffers :
        (e b : ℕ)
        → holds e b (put d.buf v new v) ≡ false
        → holds e b (c.buf v) ≡ false
        → find_buf (put d.buf v new) e b (c.buckets (hash b))
          ≡ find_buf c.buf e b (c.buckets (hash b))
    same_buffers e b n old = find_buf_ext _ c.buf e b (c.buckets (hash b)) λ j.
        elim (ℕ_discrete j v) [
          | yes q ↦
              ap (λ x. holds e b (put d.buf v new x)) q
              ∙ (n ∙ (sym old ∙ ap (λ x. holds e b (c.buf x)) (sym q)))
          | no ne ↦ ap (holds e b) (put_ne d.buf v new j ne) ∙ holds_same e b (h j ne)
        ]

    first : find_buf (put d.buf v new) dev blockno (v ∷ d.buckets (hash blockno)) ≡ some v
    first = unfold find_buf in rw (own, holds_new)

-- `bget` of any block, with the clock's hand in range: it returns a buffer that serves the block
-- (`IsServed`); a new one had no users and is not valid. Otherwise the block is not cached and every
-- buffer has users.
pub bget_lem :
    (c : Cache) (dev blockno : ℕ)
    → c.clock_hand < n_buf
    → (((bget c dev blockno).0 ≡ none)
        × (find_cached c dev blockno ≡ none)
        × ((i : ℕ) → i < n_buf → (c.buf i).refcnt ≢ 0))
      ⊎ ((i : ℕ) × (c' : Cache) × (bget c dev blockno ≡ (some i, c'))
          × IsServed c dev blockno i c'
          × (find_cached c dev blockno ≡ none
              → ((c.buf i).refcnt ≡ 0) × ((c'.buf i).valid ≡ false)))
unfolding bget bget_evict
bget_lem c dev blockno l = elim (Option-cases (find_cached c dev blockno)) [
  | inr (i, e) ↦ inr (i, hit c i, rw (bget, e), hit-IsServed c dev blockno i e, λ n. cc (n, e))
  | inl e ↦ elim (clock_lem c l) [
    | inl (c', q, all, h) ↦
        inl (rw (bget, e) (rw (bget_evict, e, q) (unfold claim_victim in refl)), e, all)
    | inr (v, c', q, m, z, o, h) ↦ inr (
      v,
      claim c' v dev blockno,
      rw (bget, e) (rw (bget_evict, e, q) (unfold claim_victim in refl)),
      claim-IsServed c c' dev blockno v z o h (clock-buckets (n_buf + n_buf) c v c' q),
      λ n. (z, not_valid c' v),
    )
  ]
]
  where
    not_valid : (d : Cache) (v : ℕ) → ((claim d v dev blockno).buf v).valid ≡ false
    not_valid d v = unfold claim in ap (λ (x : Buf). x.valid) (put_self d.buf v _)
