-- ===== src/Sync/Sem/Multi.antt =====
-- The P operation on several semaphores takes all of them or none.
use oops_os.Prelude.{
  ℕ, zero, suc, ◌+◌, ◌≤◌, ◌<◌, ◌≡◌, ◌≢◌, ◌↔◌, refl, sym, ◌∙◌, Bool, true, false, Option, none, some,
  arith, Bool-cases, inl, inr, ap, ℕ_discrete, pred_ℤ,
}
use oops_os.Prelude.Arrays.{put, put_self, put_ne}
use oops_os.Sync.Sem.{
  Sem, Answer, granted, is_positive, is_negative, set_owner, find_wait, take_all, wait_all,
  take_or_wait, p_multi_round,
}

-- The semaphore can be taken.
abbrev pub IsReady : Sem → Type 0
IsReady s = (s.allocated ≡ true) × (is_positive s.resource_count ≡ true)

find_wait_ready :
    (sems : ℕ → Sem) (ids : ℕ → ℕ) (i k : ℕ)
    → ((j : ℕ) → i ≤ j → j < i + k → IsReady (sems (ids j)))
    → find_wait sems ids i k none ≡ some none
unfolding find_wait
find_wait_ready sems ids i zero h = refl
find_wait_ready sems ids i (suc k) h =
    let here = h i (omega arith) (omega arith) in
    rw (here.0, here.1)
      (find_wait_ready sems ids (i + 1) k (λ j a b. h j (omega arith) (omega arith)))

-- Once a semaphore to wait for is found, the loop does not forget it.
find_wait_waits :
    (sems : ℕ → Sem) (ids : ℕ → ℕ) (i k w : ℕ) → find_wait sems ids i k (some w) ≢ some none
unfolding find_wait
find_wait_waits sems ids i zero w e = cc e
find_wait_waits sems ids i (suc k) w e =
    let later = find_wait_waits sems ids (i + 1) k w in
    elim (Bool-cases ((sems (ids i)).allocated)) [
      | inl a ↦ later (rw a at e)
      | inr a ↦ cc (rw a at e)
    ]

find_wait-IsReady :
    (sems : ℕ → Sem) (ids : ℕ → ℕ) (i k : ℕ)
    → find_wait sems ids i k none ≡ some none
    → (j : ℕ) → i ≤ j
    → j < i + k
    → IsReady (sems (ids j))
unfolding find_wait
find_wait-IsReady sems ids i zero e j l m = absurd (omega arith)
find_wait-IsReady sems ids i (suc k) e j l m =
    let later = find_wait-IsReady sems ids (i + 1) k in
    elim (Bool-cases ((sems (ids i)).allocated)) [
      | inr a ↦ absurd (cc (rw a at e))
      | inl a ↦ elim (Bool-cases (is_positive ((sems (ids i)).resource_count))) [
        | inr c ↦ absurd (find_wait_waits sems ids (i + 1) k (ids i) (rw (a, c) at e))
        | inl c ↦ elim (ℕ_discrete j i) [
          | yes q ↦ rw q (a, c)
          | no ne ↦ later (rw (a, c) at e) j (omega arith) (omega arith)
        ]
      ]
    ]

set_owner_count : (s : Sem) (pid : ℕ) → (set_owner s pid).resource_count ≡ s.resource_count
unfolding set_owner
set_owner_count s pid = elim (Bool-cases (is_positive s.resource_count)) [
  | inl e ↦ rw e
  | inr e ↦ elim (Bool-cases (is_negative s.resource_count)) [
    | inl q ↦ rw (e, q)
    | inr q ↦ rw (e, q)
  ]
]

abbrev taken : Sem → ℕ → Sem
taken s pid = set_owner (record s { resource_count = pred_ℤ s.resource_count }) pid

take_all_out :
    (sems : ℕ → Sem) (ids : ℕ → ℕ) (pid i k b : ℕ)
    → ((j : ℕ) → i ≤ j → j < i + k → ids j ≢ b)
    → take_all sems ids pid i k b ≡ sems b
unfolding take_all
take_all_out sems ids pid i zero b h = refl
take_all_out sems ids pid i (suc k) b h =
    take_all_out (put sems (ids i) (taken (sems (ids i)) pid)) ids pid (i + 1) k b
      (λ j l m. h j (omega arith) (omega arith))
    ∙ put_ne sems (ids i) (taken (sems (ids i)) pid) b
        (λ e. h i (omega arith) (omega arith) (sym e))

take_all_in :
    (sems : ℕ → Sem) (ids : ℕ → ℕ) (pid i k j : ℕ)
    → ((a b : ℕ) → i ≤ a → a < i + k → i ≤ b → b < i + k → a ≢ b → ids a ≢ ids b)
    → i ≤ j
    → j < i + k
    → (take_all sems ids pid i k (ids j)).resource_count ≡ pred_ℤ (sems (ids j)).resource_count
unfolding take_all
take_all_in sems ids pid i zero j d l m = absurd (omega arith)
take_all_in sems ids pid i (suc k) j d l m =
    let new = put sems (ids i) (taken (sems (ids i)) pid) in
    let later =
      take_all_in new ids pid (i + 1) k j
        (λ a b p q r s. d a b (omega arith) (omega arith) (omega arith) (omega arith)) in
    elim (ℕ_discrete j i) [
      | yes e ↦ rw e (
          ap (λ (s : Sem). s.resource_count)
            (take_all_out new ids pid (i + 1) k (ids i) (λ a p q.
              d a i (omega arith) (omega arith) (omega arith) (omega arith) (λ x. omega arith)))
          ∙ (ap (λ (s : Sem). s.resource_count) (put_self sems (ids i) (taken (sems (ids i)) pid))
              ∙ set_owner_count _ pid))
      | no ne ↦
          later (omega arith) (omega arith)
          ∙ ap (λ (s : Sem). pred_ℤ s.resource_count)
              (put_ne sems (ids i) (taken (sems (ids i)) pid) (ids j)
                (λ x. d j i (omega arith) (omega arith) (omega arith) (omega arith) ne x))
    ]

wait_all_count :
    (sems : ℕ → Sem) (ids : ℕ → ℕ) (i k b : ℕ)
    → (wait_all sems ids i k b).resource_count ≡ (sems b).resource_count
unfolding wait_all
wait_all_count sems ids i zero b = refl
wait_all_count sems ids i (suc k) b =
    wait_all_count
      (put sems (ids i) (record (sems (ids i)) { waiters = (sems (ids i)).waiters + 1 })) ids
      (i + 1) k b
    ∙ elim (ℕ_discrete b (ids i)) [
      | yes e ↦ rw e (ap (λ (s : Sem). s.resource_count) (put_self sems (ids i) _))
      | no ne ↦ ap (λ (s : Sem). s.resource_count) (put_ne sems (ids i) _ b ne)
    ]

-- What a round with the result `r` has done.
pub record IsAllOrNone (sems : ℕ → Sem) (ids : ℕ → ℕ) (n : ℕ) (r : Answer × (ℕ → Sem))
    : Type 0 where
  pub exactly : (r.0 ≡ granted) ↔ ((i : ℕ) → i < n → IsReady (sems (ids i)))
  pub each :
      r.0 ≡ granted
      → (i : ℕ) → i < n
      → (r.1 (ids i)).resource_count ≡ pred_ℤ (sems (ids i)).resource_count
  pub others : r.0 ≡ granted → (b : ℕ) → ((i : ℕ) → i < n → ids i ≢ b) → r.1 b ≡ sems b
  pub nothing : r.0 ≢ granted → (b : ℕ) → (r.1 b).resource_count ≡ (sems b).resource_count

-- One round of the P operation on `n` different semaphores takes one resource of each and leaves all
-- other semaphores as they are, exactly if each of them is allocated and has one to give; in every
-- other case, whether it fails or sleeps, all resource counts stay as they are.
pub p_multi_round-IsAllOrNone :
    (sems : ℕ → Sem) (ids : ℕ → ℕ) (n pid : ℕ) (deadlock : Bool)
    → ((a b : ℕ) → a < n → b < n → a ≢ b → ids a ≢ ids b)
    → IsAllOrNone sems ids n (p_multi_round sems ids n pid deadlock)
unfolding p_multi_round take_or_wait
p_multi_round-IsAllOrNone sems ids n pid deadlock d = go (find_wait sems ids 0 n none) refl deadlock
  where
    not_ready :
        (w : Option (Option ℕ))
        → find_wait sems ids 0 n none ≡ w
        → w ≢ some none
        → ((i : ℕ) → i < n → IsReady (sems (ids i)))
        → ⊥
    not_ready w e ne h = ne (sym e ∙ find_wait_ready sems ids 0 n (λ j a b. h j (omega arith)))

    go :
        (w : Option (Option ℕ))
        → find_wait sems ids 0 n none ≡ w
        → (deadlock : Bool) → IsAllOrNone sems ids n (take_or_wait sems ids n pid deadlock w)
    go none e b = record {
      exactly = ((λ q. cc q), λ h. absurd (not_ready none e (λ q. cc q) h));
      each = λ q. cc q;
      others = λ q. cc q;
      nothing = λ q c. refl;
    }
    go (some none) e b = record {
      exactly =
          ((λ q i l. find_wait-IsReady sems ids 0 n e i (omega arith) (omega arith)), λ h. refl);
      each = λ q i l.
          take_all_in sems ids pid 0 n i (λ x y p r s t. d x y (omega arith) (omega arith))
            (omega arith) (omega arith);
      others = λ q c h. take_all_out sems ids pid 0 n c (λ j x y. h j (omega arith));
      nothing = λ q c. absurd (q refl);
    }
    go (some (some v)) e true = record {
      exactly = ((λ q. cc q), λ h. absurd (not_ready (some (some v)) e (λ q. cc q) h));
      each = λ q. cc q;
      others = λ q. cc q;
      nothing = λ q c. refl;
    }
    go (some (some v)) e false = record {
      exactly = ((λ q. cc q), λ h. absurd (not_ready (some (some v)) e (λ q. cc q) h));
      each = λ q. cc q;
      others = λ q. cc q;
      nothing = λ q c. wait_all_count sems ids 0 n c;
    }
