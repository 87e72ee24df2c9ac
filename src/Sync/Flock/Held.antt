-- ===== src/Sync/Flock/Held.antt =====
-- A lock and the kinds in which the files hold it: what is kept when a lock is given up.
use oops_os.Prelude.{
  ℕ, ◌+◌, ◌-◌, ◌≤◌, ◌<◌, ◌≡◌, ◌≢◌, refl, sym, ap, ◌∙◌, true, false, ◌==◌, if◌then◌else◌, arith,
  Bool-cases, inl, inr, ◌⊎◌, subst, ℕ_discrete,
}
use oops_os.Prelude.Arrays.{put, put_self, put_ne}
use oops_os.Prelude.Sums.{sum_below, sum_below_change, sum_below_entry, sum_below_zero}
use oops_os.Sync.Flock.{Kind, unlocked, shared, exclusive, Lock, drop_by}

abbrev pub is_shared : Kind → ℕ
is_shared shared = 1
is_shared _ = 0

-- The lock agrees with what the files below `n` hold.
pub record IsHeld (n : ℕ) (l : Lock) (held : ℕ → Kind) : Type 0 where
  pub ex : (f : ℕ) → f < n → held f ≡ exclusive → l.kind ≡ exclusive
  pub sh : (f : ℕ) → f < n → held f ≡ shared → l.kind ≡ shared
  pub alone : (f g : ℕ) → f < n → g < n → held f ≡ exclusive → held g ≡ exclusive → f ≡ g
  pub counted : l.kind ≡ shared → sum_below n (λ f. is_shared (held f)) ≤ l.count

pub Kind-cases : (k : Kind) → (k ≡ unlocked) ⊎ ((k ≡ shared) ⊎ (k ≡ exclusive))
Kind-cases unlocked = inl refl
Kind-cases shared = inr (inl refl)
Kind-cases exclusive = inr (inr refl)

pub change_shared :
    (n : ℕ) (held : ℕ → Kind) (f : ℕ) (k : Kind)
    → f < n
    → sum_below n (λ i. is_shared (put held f k i)) + is_shared (held f)
      ≡ sum_below n (λ i. is_shared (held i)) + is_shared k
change_shared n held f k l = omega (
  arith,
  sum_below_change n (λ i. is_shared (put held f k i)) (λ i. is_shared (held i)) f l
      (λ j ne. ap is_shared (put_ne held f k j ne)),
  ap is_shared (put_self held f k),
)

-- Where nobody but `f` holds anything, the kind of `f`'s lock is that of the inode.
pub only-IsHeld :
    (n : ℕ) (l : Lock) (held : ℕ → Kind) (f : ℕ)
    → f < n
    → ((g : ℕ) → g < n → g ≢ f → held g ≡ unlocked)
    → (k : Kind) (c : ℕ) → is_shared k ≤ c
    → IsHeld n (record { kind = k; count = c }) (put held f k)
only-IsHeld n l held f lf free k c lc = record {
  ex = λ g lg e. of g lg exclusive (λ q. cc q) e;
  sh = λ g lg e. of g lg shared (λ q. cc q) e;
  alone = λ g h lg lh a b. at g lg exclusive (λ q. cc q) a ∙ sym (at h lh exclusive (λ q. cc q) b);
  counted = λ e.
      omega (arith, change_shared n held f k lf, change_shared n held f unlocked lf, nobody, lc);
}
  where
    at : (g : ℕ) → g < n → (x : Kind) → (unlocked ≡ x → ⊥) → put held f k g ≡ x → g ≡ f
    at g lg x nx e = elim (ℕ_discrete g f) [
      | yes q ↦ q
      | no ne ↦ absurd (nx (sym (free g lg ne) ∙ sym (put_ne held f k g ne) ∙ e))
    ]

    of : (g : ℕ) → g < n → (x : Kind) → (unlocked ≡ x → ⊥) → put held f k g ≡ x → k ≡ x
    of g lg x nx e = sym (put_self held f k) ∙ subst (λ i. put held f k i ≡ x) (at g lg x nx e) e

    nobody : sum_below n (λ i. is_shared (put held f unlocked i)) ≡ 0
    nobody = sum_below_zero n _ λ g lg. elim (ℕ_discrete g f) [
      | yes q ↦ rw (q, put_self held f unlocked)
      | no ne ↦ rw (put_ne held f unlocked g ne, free g lg ne)
    ]

-- The other holders of a lock that `f` holds exclusively: there are none.
free_of_exclusive :
    (n : ℕ) (l : Lock) (held : ℕ → Kind) (f : ℕ)
    → IsHeld n l held
    → f < n
    → l.kind ≡ exclusive
    → (g : ℕ) → g < n
    → g ≢ f
    → held f ≡ exclusive
    → held g ≡ unlocked
free_of_exclusive n l held f v lf k g lg ne e = elim (Kind-cases (held g)) [
  | inl u ↦ u
  | inr (inl s) ↦ absurd (cc (v.sh g lg s, k))
  | inr (inr x) ↦ absurd (ne (v.alone g f lg lf x e))
]

-- Nobody holds a lock of an unlocked inode.
pub free_of_unlocked :
    (n : ℕ) (l : Lock) (held : ℕ → Kind)
    → IsHeld n l held
    → l.kind ≡ unlocked
    → (g : ℕ) → g < n
    → held g ≡ unlocked
free_of_unlocked n l held v k g lg = elim (Kind-cases (held g)) [
  | inl u ↦ u
  | inr (inl s) ↦ absurd (cc (v.sh g lg s, k))
  | inr (inr x) ↦ absurd (cc (v.ex g lg x, k))
]

-- The last sharer that gives its lock back was the only one.
free_of_last :
    (n : ℕ) (l : Lock) (held : ℕ → Kind) (f : ℕ)
    → IsHeld n l held
    → f < n
    → held f ≡ shared
    → l.count - 1 ≡ 0
    → (g : ℕ) → g < n
    → g ≢ f
    → held g ≡ unlocked
free_of_last n l held f v lf e c g lg ne = elim (Kind-cases (held g)) [
  | inl u ↦ u
  | inr (inl s) ↦ absurd (
      omega (
        arith,
        change_shared n held f unlocked lf,
        v.counted (v.sh f lf e),
        ap is_shared e,
        sum_below_entry n (λ i. is_shared (put held f unlocked i)) g lg,
        ap is_shared (put_ne held f unlocked g ne),
        ap is_shared s,
      ))
  | inr (inr x) ↦ absurd (cc (v.ex g lg x, v.sh f lf e))
]

-- Several sharers: one more or one less changes nothing for the others.
pub share-IsHeld :
    (n : ℕ) (l : Lock) (held : ℕ → Kind) (f : ℕ) (k : Kind) (c : ℕ)
    → f < n
    → IsHeld n l held
    → l.kind ≡ shared
    → k ≢ exclusive
    → sum_below n (λ i. is_shared (put held f k i)) ≤ c
    → IsHeld n (record { kind = shared; count = c }) (put held f k)
share-IsHeld n l held f k c lf v e nk le = record {
  ex = λ g lg x. absurd (no_ex g lg x);
  sh = λ g lg x. refl;
  alone = λ g h lg lh x y. absurd (no_ex g lg x);
  counted = λ q. le;
}
  where
    no_ex : (g : ℕ) → g < n → put held f k g ≡ exclusive → ⊥
    no_ex g lg x = elim (ℕ_discrete g f) [
      | yes q ↦ nk (rw (q, put_self held f k) at x)
      | no ne ↦ cc (v.ex g lg (rw (put_ne held f k g ne) at x), e)
    ]

drop_by-shared :
    (l : Lock)
    → l.kind ≡ shared
    → drop_by l.kind l
      ≡ record { kind = if l.count - 1 == 0 then unlocked else shared; count = l.count - 1 }
unfolding drop_by
drop_by-shared l e = rw e

pub drop-IsHeld :
    (n : ℕ) (l : Lock) (held : ℕ → Kind) (f : ℕ)
    → f < n
    → IsHeld n l held
    → held f ≢ unlocked
    → IsHeld n (drop_by l.kind l) (put held f unlocked)
unfolding drop_by
drop-IsHeld n l held f lf v h = elim (Kind-cases (held f)) [
  | inl u ↦ absurd (h u)
  | inr (inr x) ↦
      let e = v.ex f lf x in
      rw e (
        only-IsHeld n l held f lf (λ g lg ne. free_of_exclusive n l held f v lf e g lg ne x)
          unlocked 0 (omega arith))
  | inr (inl s) ↦
      subst (λ (m : Lock). IsHeld n m (put held f unlocked)) (sym (drop_by-shared l (v.sh f lf s)))
        (sharer s (Bool-cases (l.count - 1 == 0)))
]
  where
    sharer :
        held f ≡ shared
        → ((l.count - 1 == 0) ≡ true) ⊎ ((l.count - 1 == 0) ≡ false)
        → IsHeld n
            (record { kind = if l.count - 1 == 0 then unlocked else shared; count = l.count - 1 })
            (put held f unlocked)
    sharer s (inl z) = rw z (
        only-IsHeld n l held f lf (free_of_last n l held f v lf s (ground arith)) unlocked
          (l.count - 1) (omega arith))
    sharer s (inr z) = rw z (
        share-IsHeld n l held f unlocked (l.count - 1) lf v (v.sh f lf s) (λ q. cc q)
          (omega
            (arith, change_shared n held f unlocked lf, v.counted (v.sh f lf s), ap is_shared s)))
