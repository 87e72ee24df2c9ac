-- ===== src/Sync/Flock/Holders.antt =====
-- Which files hold the lock of one inode, through any sequence of `flock` calls and wake-ups.
use oops_os.Prelude.{
  ℕ, ◌+◌, ◌≤◌, ◌<◌, ◌≡◌, ◌≢◌, refl, sym, Bool, false, not, ◌&&◌, arith, Bool-cases, inl, inr, ◌⊎◌,
  subst, ℕ_discrete, fun_ext,
}
use oops_os.Prelude.Arrays.{put, put_again, put_self, put_ne}
use oops_os.Prelude.Sums.{sum_below}
use oops_os.Sync.Flock.{
  Kind, unlocked, shared, exclusive, Op, lock_sh, lock_ex, lock_un, other, same_kind, Lock, drop_by,
  unlock, is_op, convert, acquire, flock,
}
use oops_os.Sync.Flock.Held.{
  is_shared, IsHeld, Kind-cases, change_shared, only-IsHeld, free_of_unlocked, share-IsHeld,
  drop-IsHeld,
}

same-IsHeld :
    (n : ℕ) (l : Lock) (held : ℕ → Kind) (f : ℕ)
    → IsHeld n l held
    → IsHeld n l (put held f (held f))
same-IsHeld n l held f v = subst (IsHeld n l) (sym (fun_ext same)) v
  where
    same : (g : ℕ) → put held f (held f) g ≡ held g
    same g = elim (ℕ_discrete g f) [
      | yes q ↦ rw (q, put_self held f (held f))
      | no ne ↦ put_ne held f (held f) g ne
    ]

-- A file that tries for a lock, once it has given back a lock of the other kind or has woken.
acquire-IsHeld :
    (n : ℕ) (l : Lock) (held : ℕ → Kind) (f : ℕ) (op : Op) (nonblock : Bool)
    → f < n
    → IsHeld n l held
    → IsHeld n (acquire l (held f) op nonblock).1 (put held f (acquire l (held f) op nonblock).2)
unfolding acquire
acquire-IsHeld n l held f lock_un nonblock lf v = same-IsHeld n l held f v
acquire-IsHeld n l held f other nonblock lf v = same-IsHeld n l held f v
acquire-IsHeld n l held f lock_sh nonblock lf v = elim (Kind-cases l.kind) [
  | inl u ↦ simp u (
      only-IsHeld n l held f lf (λ g lg ne. free_of_unlocked n l held v u g lg) shared (l.count + 1)
        (omega arith))
  | inr (inl s) ↦ simp s (
      share-IsHeld n l held f shared (l.count + 1) lf v s (λ q. cc q)
        (omega (arith, change_shared n held f shared lf, v.counted s)))
  | inr (inr x) ↦ simp x (same-IsHeld n l held f v)
]
acquire-IsHeld n l held f lock_ex nonblock lf v = elim (Kind-cases l.kind) [
  | inl u ↦ simp u (
      only-IsHeld n l held f lf (λ g lg ne. free_of_unlocked n l held v u g lg) exclusive 1
        (omega arith))
  | inr (inl s) ↦ simp s (same-IsHeld n l held f v)
  | inr (inr x) ↦ simp x (same-IsHeld n l held f v)
]

convert-IsHeld :
    (n : ℕ) (l : Lock) (held : ℕ → Kind) (f : ℕ) (op : Op)
    → f < n
    → IsHeld n l held
    → IsHeld n (convert l (held f) op).0 (put held f (convert l (held f) op).1)
unfolding convert
convert-IsHeld n l held f op lf v =
    elim (Bool-cases (not (same_kind (held f) unlocked) && not (is_op (held f) op))) [
      | inl e ↦ simp e (drop-IsHeld n l held f lf v (λ u. ground arith))
      | inr e ↦ simp e (same-IsHeld n l held f v)
    ]

unlock-IsHeld :
    (n : ℕ) (l : Lock) (held : ℕ → Kind) (f : ℕ)
    → f < n
    → IsHeld n l held
    → IsHeld n (unlock l (held f)).1 (put held f (unlock l (held f)).2)
unfolding unlock
unlock-IsHeld n l held f lf v = elim (Bool-cases (same_kind (held f) unlocked)) [
  | inl e ↦ simp e (same-IsHeld n l held f v)
  | inr e ↦ simp e (drop-IsHeld n l held f lf v (λ u. ground arith))
]

-- Giving back and then trying for the new lock, as one call does.
acquire-convert :
    (n : ℕ) (l : Lock) (held : ℕ → Kind) (f : ℕ) (op : Op) (nonblock : Bool)
    → f < n
    → IsHeld n l held
    → (c : Lock × Kind) → c ≡ convert l (held f) op
    → IsHeld n (acquire c.0 c.1 op nonblock).1 (put held f (acquire c.0 c.1 op nonblock).2)
acquire-convert n l held f op nonblock lf v c e =
    subst (λ h. IsHeld n (acquire c.0 c.1 op nonblock).1 h)
      (put_again held f c.1 (acquire c.0 c.1 op nonblock).2)
      (subst
        (λ (k : Kind).
          IsHeld n (acquire c.0 k op nonblock).1
            (put (put held f c.1) f (acquire c.0 k op nonblock).2))
        (put_self held f c.1)
        (acquire-IsHeld n c.0 (put held f c.1) f op nonblock lf (
          subst (λ (d : Lock × Kind). IsHeld n d.0 (put held f d.1)) (sym e)
            (convert-IsHeld n l held f op lf v))))

pub record Inode : Type 0 where
  pub lock : Lock
  pub held : ℕ → Kind

-- A call of `flock`, or a waiter that wakes and tries again.
pub data Step (n : ℕ) (s : Inode) : Inode → Type 0 where
  calls :
      (f : ℕ) (op : Op) (nonblock : Bool)
      → f < n
      → Step n s (record {
        lock = (flock s.lock (s.held f) op nonblock).1;
        held = put s.held f (flock s.lock (s.held f) op nonblock).2;
      })
  wakes :
      (f : ℕ) (op : Op)
      → f < n
      → Step n s (record {
        lock = (acquire s.lock (s.held f) op false).1;
        held = put s.held f (acquire s.lock (s.held f) op false).2;
      })

-- From an inode that nobody has locked.
pub data Reach (n : ℕ) : Inode → Type 0 where
  start : Reach n (record { lock = record { kind = unlocked; count = 0 }; held = λ f. unlocked })
  next : {s t : Inode} → Reach n s → Step n s t → Reach n t

flock-IsHeld :
    (n : ℕ) (l : Lock) (held : ℕ → Kind) (f : ℕ) (op : Op) (nonblock : Bool)
    → f < n
    → IsHeld n l held
    → IsHeld n (flock l (held f) op nonblock).1 (put held f (flock l (held f) op nonblock).2)
unfolding flock
flock-IsHeld n l held f lock_un nonblock lf v = unlock-IsHeld n l held f lf v
flock-IsHeld n l held f lock_sh nonblock lf v =
    acquire-convert n l held f lock_sh nonblock lf v (convert l (held f) lock_sh) refl
flock-IsHeld n l held f lock_ex nonblock lf v =
    acquire-convert n l held f lock_ex nonblock lf v (convert l (held f) lock_ex) refl
flock-IsHeld n l held f other nonblock lf v =
    acquire-convert n l held f other nonblock lf v (convert l (held f) other) refl

Reach-IsHeld : (n : ℕ) {s : Inode} → Reach n s → IsHeld n s.lock s.held
Reach-IsHeld n start = record {
  ex = λ f lf e. absurd (cc e);
  sh = λ f lf e. absurd (cc e);
  alone = λ f g lf lg e h. absurd (cc e);
  counted = λ e. absurd (cc e);
}
Reach-IsHeld n (next {s} r (calls f op nonblock lf)) =
    flock-IsHeld n s.lock s.held f op nonblock lf (Reach-IsHeld n r)
Reach-IsHeld n (next {s} r (wakes f op lf)) =
    acquire-IsHeld n s.lock s.held f op false lf (Reach-IsHeld n r)

-- In every state that `flock` calls and wake-ups of `n` files can reach: a file that holds the lock
-- exclusively is the only one that holds it in any way, and the inode's lock is exclusive then;
-- while one shares it the inode's lock is shared and counts at least as many as share it.
pub flock_exclusive :
    (n : ℕ) {s : Inode} (f g : ℕ)
    → Reach n s
    → f < n
    → g < n
    → (s.held f ≡ exclusive → (s.lock.kind ≡ exclusive) × (s.held g ≢ unlocked → f ≡ g))
      × (s.held f ≡ shared
          → (s.lock.kind ≡ shared) × (sum_below n (λ i. is_shared (s.held i)) ≤ s.lock.count))
flock_exclusive n {s} f g r lf lg = (
  (λ e. (v.ex f lf e, λ h. only e h (Kind-cases (s.held g)))),
  (λ e. (v.sh f lf e, v.counted (v.sh f lf e))),
)
  where
    v : IsHeld n s.lock s.held
    v = Reach-IsHeld n r

    only :
        s.held f ≡ exclusive
        → s.held g ≢ unlocked
        → (s.held g ≡ unlocked) ⊎ ((s.held g ≡ shared) ⊎ (s.held g ≡ exclusive))
        → f ≡ g
    only e h (inl u) = absurd (h u)
    only e h (inr (inl x)) = absurd (cc (v.sh g lg x, v.ex f lf e))
    only e h (inr (inr x)) = v.alone f g lf lg e x

-- A shared lock that a file takes a second time is counted twice and given back once: after the
-- two calls and an unlock the file holds nothing, but the inode's lock is still shared with a count
-- of 1 more than before, on any inode that is not locked exclusively.
pub flock_twice_leaks :
    (l : Lock) (nonblock : Bool)
    → l.kind ≢ exclusive
    → let one = flock l unlocked lock_sh nonblock in
      let two = flock one.1 one.2 lock_sh nonblock in
      let back = flock two.1 two.2 lock_un nonblock in
      (back.2 ≡ unlocked) × (back.1.kind ≡ shared) × (back.1.count ≡ l.count + 1)
unfolding flock convert acquire unlock drop_by
flock_twice_leaks l nonblock h = elim (Kind-cases l.kind) [
  | inl u ↦ ground arith
  | inr (inl s) ↦ ground arith
  | inr (inr x) ↦ absurd (h x)
]
