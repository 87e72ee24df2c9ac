-- ===== src/Fs/Cache/Clock.antt =====
-- The clock finds a buffer without users if there is one.
use oops_os.Prelude.{
  ℕ, zero, suc, ◌+◌, ◌-◌, ◌%◌, ◌<◌, ◌≡◌, ◌≢◌, refl, sym, ◌∙◌, Bool, true, false, not, ◌&&◌, Option,
  none, some, arith, ◌==◌, Bool-cases, inl, inr, ◌⊎◌, ap, subst, some_inj,
}
use oops_os.Prelude.Arrays.{put, put_self, put_ne}
use oops_os.Fs.Cache.{n_buf, Buf, Cache, hash, unlink, pass, evict, clock}

-- The buffer under the hand can be taken.
abbrev pub is_victim : Cache → Bool
is_victim c = (c.buf c.clock_hand).refcnt == 0 && not ((c.buf c.clock_hand).refbit)

clock_stop :
    (c : Cache) (k : ℕ) → is_victim c ≡ true → clock c (suc k) ≡ (some c.clock_hand, evict c)
unfolding clock
clock_stop c k e = rw e

clock_go : (c : Cache) (k : ℕ) → is_victim c ≡ false → clock c (suc k) ≡ clock (pass c) k
unfolding clock
clock_go c k e = rw e

-- A pass changes a reference bit at most.
pass_same :
    (c : Cache) (i : ℕ)
    → (((pass c).buf i).refcnt ≡ (c.buf i).refcnt)
      × (((pass c).buf i).dev ≡ (c.buf i).dev)
      × (((pass c).buf i).blockno ≡ (c.buf i).blockno)
      × (((pass c).buf i).valid ≡ (c.buf i).valid)
unfolding pass put
pass_same c i = ground arith

pass_clears : (c : Cache) (i : ℕ) → (c.buf i).refbit ≡ false → ((pass c).buf i).refbit ≡ false
unfolding pass put
pass_clears c i e = ground arith

pass_hand :
    (c : Cache) → (c.buf c.clock_hand).refcnt ≡ 0 → ((pass c).buf c.clock_hand).refbit ≡ false
unfolding pass put
pass_hand c e = ground arith

pass_moves : (c : Cache) → (pass c).clock_hand ≡ (c.clock_hand + 1) % n_buf
unfolding pass
pass_moves c = refl

-- The clock stops at some buffer.
abbrev pub Stops : Cache → ℕ → Type 0
Stops c k = (v : ℕ) × (c' : Cache) × (clock c k ≡ (some v, c'))

Stops-now : (c : Cache) (k : ℕ) → is_victim c ≡ true → Stops c (suc k)
Stops-now c k e = (c.clock_hand, evict c, clock_stop c k e)

Stops-later : (c : Cache) (k : ℕ) → is_victim c ≡ false → Stops (pass c) k → Stops c (suc k)
Stops-later c k e (v, c', q) = (v, c', clock_go c k e ∙ q)

-- It stops when the hand reaches a buffer without users whose bit is clear.
Stops-at_clear :
    (d k : ℕ) (c : Cache) (h : ℕ)
    → d < k
    → h ≡ (c.clock_hand + d) % n_buf
    → c.clock_hand < n_buf
    → (c.buf h).refcnt ≡ 0
    → (c.buf h).refbit ≡ false
    → Stops c k
Stops-at_clear d zero c h l e m z b = absurd (omega arith)
Stops-at_clear zero (suc k) c h l e m z b =
    let same : h ≡ c.clock_hand = omega arith in
    Stops-now c k
      (ground (arith, ap (λ (i : ℕ). (c.buf i).refcnt) same, ap (λ (i : ℕ). (c.buf i).refbit) same))
Stops-at_clear (suc d) (suc k) c h l e m z b =
    let later =
      Stops-at_clear d k (pass c) h (omega arith) (omega (arith, pass_moves c))
        (omega (arith, pass_moves c)) ((pass_same c h).0 ∙ z) (pass_clears c h b) in
    elim (Bool-cases (is_victim c)) [ inl v ↦ Stops-now c k v | inr v ↦ Stops-later c k v later ]

-- It stops one turn after the hand has passed a buffer without users at the latest.
Stops-in_two_turns :
    (d k : ℕ) (c : Cache) (h : ℕ)
    → d + n_buf < k
    → h ≡ (c.clock_hand + d) % n_buf
    → c.clock_hand < n_buf
    → (c.buf h).refcnt ≡ 0
    → Stops c k
Stops-in_two_turns d zero c h l e m z = absurd (omega arith)
Stops-in_two_turns zero (suc k) c h l e m z = elim (Bool-cases (is_victim c)) [
  | inl v ↦ Stops-now c k v
  | inr v ↦ Stops-later c k v (
      Stops-at_clear 29 k (pass c) h (omega arith) (omega (arith, pass_moves c))
        (omega (arith, pass_moves c)) ((pass_same c h).0 ∙ z)
        (subst (λ (i : ℕ). ((pass c).buf i).refbit ≡ false) (sym same)
          (pass_hand c (ap (λ (i : ℕ). (c.buf i).refcnt) (sym same) ∙ z))))
]
  where
    same : h ≡ c.clock_hand
    same = omega arith
Stops-in_two_turns (suc d) (suc k) c h l e m z =
    let later =
      Stops-in_two_turns d k (pass c) h (omega arith) (omega (arith, pass_moves c))
        (omega (arith, pass_moves c)) ((pass_same c h).0 ∙ z) in
    elim (Bool-cases (is_victim c)) [ inl v ↦ Stops-now c k v | inr v ↦ Stops-later c k v later ]

-- What a round of the clock leaves of each buffer.
pub record IsKept (b b' : Buf) : Type 0 where
  pub dev : b'.dev ≡ b.dev
  pub blockno : b'.blockno ≡ b.blockno
  pub valid : b'.valid ≡ b.valid
  pub refcnt : b'.refcnt ≡ b.refcnt

-- All buffers are kept; a victim had no users, and now has one.
pub data Clocked (c : Cache) : Option ℕ × Cache → Type 0 where
  all_used : {c' : Cache} → ((i : ℕ) → IsKept (c.buf i) (c'.buf i)) → Clocked c (none, c')
  taken :
      {v : ℕ} {c' : Cache}
      → v < n_buf
      → (c.buf v).refcnt ≡ 0
      → (c'.buf v).refcnt ≡ 1
      → ((i : ℕ) → i ≢ v → IsKept (c.buf i) (c'.buf i))
      → Clocked c (some v, c')

pass-IsKept : (c : Cache) (i : ℕ) → IsKept (c.buf i) ((pass c).buf i)
pass-IsKept c i =
    let p = pass_same c i in record { dev = p.1; blockno = p.2; valid = p.3; refcnt = p.0 }

IsKept-both : {b b' b'' : Buf} → IsKept b b' → IsKept b' b'' → IsKept b b''
IsKept-both h g = record {
  dev = g.dev ∙ h.dev;
  blockno = g.blockno ∙ h.blockno;
  valid = g.valid ∙ h.valid;
  refcnt = g.refcnt ∙ h.refcnt;
}

Clocked-pass : (c : Cache) {r : Option ℕ × Cache} → Clocked (pass c) r → Clocked c r
Clocked-pass c (all_used h) = all_used (λ i. IsKept-both (pass-IsKept c i) (h i))
Clocked-pass c (taken l z o h) =
    taken l (sym ((pass_same c _).0) ∙ z) o (λ i ne. IsKept-both (pass-IsKept c i) (h i ne))

evict-Clocked :
    (c : Cache) → c.clock_hand < n_buf → is_victim c ≡ true → Clocked c (some c.clock_hand, evict c)
unfolding evict
evict-Clocked c l e =
    taken l (ground arith)
      (ap (λ (b : Buf). b.refcnt)
        (put_self c.buf c.clock_hand (record (c.buf c.clock_hand) { refcnt = 1 })))
      (λ i ne. kept (put_ne c.buf c.clock_hand (record (c.buf c.clock_hand) { refcnt = 1 }) i ne))
  where
    kept : {b b' : Buf} → b' ≡ b → IsKept b b'
    kept q = record {
      dev = ap (λ (x : Buf). x.dev) q;
      blockno = ap (λ (x : Buf). x.blockno) q;
      valid = ap (λ (x : Buf). x.valid) q;
      refcnt = ap (λ (x : Buf). x.refcnt) q;
    }

IsKept-self : (b : Buf) → IsKept b b
IsKept-self b = record { dev = refl; blockno = refl; valid = refl; refcnt = refl }

clock-Clocked : (k : ℕ) (c : Cache) → c.clock_hand < n_buf → Clocked c (clock c k)
unfolding clock
clock-Clocked zero c l = all_used (λ i. IsKept-self (c.buf i))
clock-Clocked (suc k) c l =
    let later = clock-Clocked k (pass c) (omega (arith, pass_moves c)) in
    elim (Bool-cases (is_victim c)) [
      | inl v ↦ subst (Clocked c) (sym (clock_stop c k v)) (evict-Clocked c l v)
      | inr v ↦ subst (Clocked c) (sym (clock_go c k v)) (Clocked-pass c later)
    ]

-- Two turns of the clock from any hand find a buffer without users, or there is none. All other
-- buffers keep their blocks, their users and whether they are valid.
pub clock_lem :
    (c : Cache)
    → c.clock_hand < n_buf
    → ((c' : Cache) × (clock c (n_buf + n_buf) ≡ (none, c'))
        × ((i : ℕ) → i < n_buf → (c.buf i).refcnt ≢ 0)
        × ((i : ℕ) → IsKept (c.buf i) (c'.buf i)))
      ⊎ ((v : ℕ) × (c' : Cache) × (clock c (n_buf + n_buf) ≡ (some v, c'))
          × (v < n_buf)
          × ((c.buf v).refcnt ≡ 0)
          × ((c'.buf v).refcnt ≡ 1)
          × ((i : ℕ) → i ≢ v → IsKept (c.buf i) (c'.buf i)))
clock_lem c l = answer (clock c (n_buf + n_buf)) refl (clock-Clocked (n_buf + n_buf) c l)
  where
    answer :
        (r : Option ℕ × Cache)
        → clock c (n_buf + n_buf) ≡ r
        → Clocked c r
        → ((c' : Cache) × (clock c (n_buf + n_buf) ≡ (none, c'))
            × ((i : ℕ) → i < n_buf → (c.buf i).refcnt ≢ 0)
            × ((i : ℕ) → IsKept (c.buf i) (c'.buf i)))
          ⊎ ((v : ℕ) × (c' : Cache) × (clock c (n_buf + n_buf) ≡ (some v, c'))
              × (v < n_buf)
              × ((c.buf v).refcnt ≡ 0)
              × ((c'.buf v).refcnt ≡ 1)
              × ((i : ℕ) → i ≢ v → IsKept (c.buf i) (c'.buf i)))
    answer (none, c') e (all_used h) = inl (
      c',
      e,
      λ i m z.
          let s =
            Stops-in_two_turns ((i + n_buf - c.clock_hand) % n_buf) 60 c i (omega arith)
              (omega arith) l z in
          cc (s.2, e),
      h,
    )
    answer (some v, c') e (taken m z o h) = inr (v, c', e, m, z, o, h)

evict-buckets :
    (c : Cache) (v : ℕ) (c' : Cache)
    → ◌≡◌ {A = Option ℕ × Cache} (some c.clock_hand, evict c) (some v, c')
    → c'.buckets
      ≡ put c.buckets (hash ((c.buf v).blockno)) (unlink v (c.buckets (hash ((c.buf v).blockno))))
unfolding evict
evict-buckets c v c' q =
    let hand = some_inj (ap (λ (r : Option ℕ × Cache). r.0) q) in
    subst
      (λ (x : ℕ).
        c'.buckets
        ≡ put c.buckets (hash ((c.buf x).blockno))
            (unlink x (c.buckets (hash ((c.buf x).blockno)))))
      hand (sym (ap (λ (r : Option ℕ × Cache). r.1.buckets) q))

pass-blockno : (c : Cache) (v : ℕ) → ((pass c).buf v).blockno ≡ (c.buf v).blockno
pass-blockno c v = (pass_same c v).2

pass-bucket :
    (c : Cache) (b v : ℕ)
    → put (pass c).buckets (hash b) (unlink v ((pass c).buckets (hash b)))
      ≡ put c.buckets (hash b) (unlink v (c.buckets (hash b)))
unfolding pass
pass-bucket c b v = refl

-- The clock takes the buffer that it finds out of its bucket, and changes no other bucket.
pub clock-buckets :
    (k : ℕ) (c : Cache) (v : ℕ) (c' : Cache)
    → clock c k ≡ (some v, c')
    → c'.buckets
      ≡ put c.buckets (hash ((c.buf v).blockno)) (unlink v (c.buckets (hash ((c.buf v).blockno))))
unfolding clock
clock-buckets zero c v c' e = absurd (cc (ap (λ (r : Option ℕ × Cache). r.0) e))
clock-buckets (suc k) c v c' e = elim (Bool-cases (is_victim c)) [
  | inl y ↦ let same = sym (clock_stop c k y) ∙ e in evict-buckets c v c' same
  | inr n ↦
      let later = clock-buckets k (pass c) v c' (sym (clock_go c k n) ∙ e) in
      subst (λ (b : ℕ). c'.buckets ≡ put c.buckets (hash b) (unlink v (c.buckets (hash b))))
        (pass-blockno c v) (later ∙ pass-bucket c ((pass c).buf v).blockno v)
]
