-- ===== src/Proc/Sched/Candidates.antt =====
-- `rt_pick` over the tasks that its own tests let through.
use oops_os.Prelude.{
  ℕ, ◌≡◌, refl, true, false, Option, none, some, List, [], ◌∷◌, arith, Bool-cases, inl, inr, ◌⊎◌,
}
use oops_os.Proc.Sched.{Task, rt_refresh, less_lax, is_candidate, better, pick_from, rt_pick}

-- `P` holds of every task.
abbrev pub All : (Task → Type 0) → List Task → Type 0
All P [] = Unit
All P (t ∷ ts) = P t × All P ts

-- `P` holds of some task.
abbrev pub Some : (Task → Type 0) → List Task → Type 0
Some P [] = ⊥
Some P (t ∷ ts) = P t ⊎ Some P ts

-- `b` is a candidate of the table as refreshed.
abbrev pub IsFrom : ℕ → Task → Task → Type 0
IsFrom now b t = (is_candidate now t ≡ true) × (b ≡ rt_refresh now t)

-- No candidate has less laxity than `b`.
abbrev pub NotBeaten : ℕ → Task → Task → Type 0
NotBeaten now b t = is_candidate now t ≡ true → less_lax (rt_refresh now t) b ≡ false

less_lax_self : (t : Task) → less_lax t t ≡ false
unfolding less_lax
less_lax_self t = ground arith

less_lax_drop : (b c t : Task) → less_lax t b ≡ false → less_lax t c ≡ true → less_lax c b ≡ false
unfolding less_lax
less_lax_drop b c t h k = ground arith

less_lax_trans : (b c d : Task) → less_lax c b ≡ false → less_lax d c ≡ false → less_lax d b ≡ false
unfolding less_lax
less_lax_trans b c d h k = ground arith

abbrev Picked : ℕ → Task → List Task → Option Task → Type 0
Picked now b₀ ts r =
    (b : Task) × (r ≡ some b)
    × ((b ≡ b₀) ⊎ Some (IsFrom now b) ts)
    × (less_lax b₀ b ≡ false)
    × All (NotBeaten now b) ts

pick_from-Picked :
    (now : ℕ) (b₀ : Task) (ts : List Task) → Picked now b₀ ts (pick_from now (some b₀) ts)
unfolding pick_from better
pick_from-Picked now b₀ [] = (b₀, refl, inl refl, less_lax_self b₀, tt)
pick_from-Picked now b₀ (t ∷ ts) = elim (Bool-cases (is_candidate now t)) [
  | inr e ↦
      let (b, r, f, n, a) = pick_from-Picked now b₀ ts in
      (b, simp e r, later f, n, (λ c. absurd (cc), a))
  | inl e ↦ elim (Bool-cases (less_lax (rt_refresh now t) b₀)) [
    | inl l ↦
        let (b, r, f, n, a) = pick_from-Picked now (rt_refresh now t) ts in
        (b, simp (e, l) r, inr (taken e f), less_lax_drop b b₀ (rt_refresh now t) n l, (λ c. n, a))
    | inr l ↦
        let (b, r, f, n, a) = pick_from-Picked now b₀ ts in
        (b, simp (e, l) r, later f, n, (λ c. less_lax_trans b b₀ (rt_refresh now t) n l, a))
  ]
]
  where
    later : {b : Task} → (b ≡ b₀) ⊎ Some (IsFrom now b) ts → (b ≡ b₀) ⊎ Some (IsFrom now b) (t ∷ ts)
    later (inl x) = inl x
    later (inr x) = inr (inr x)

    taken :
        {b : Task}
        → is_candidate now t ≡ true
        → (b ≡ rt_refresh now t) ⊎ Some (IsFrom now b) ts
        → Some (IsFrom now b) (t ∷ ts)
    taken e (inl x) = inl (e, x)
    taken e (inr x) = inr x

pub pick-candidates :
    (now : ℕ) (ts : List Task)
    → (((rt_pick now ts).0 ≡ none) × All (λ t. is_candidate now t ≡ false) ts)
      ⊎ ((b : Task) × ((rt_pick now ts).0 ≡ some b)
          × Some (IsFrom now b) ts
          × All (NotBeaten now b) ts)
unfolding rt_pick pick_from better
pick-candidates now [] = inl (refl, tt)
pick-candidates now (t ∷ ts) = elim (Bool-cases (is_candidate now t)) [
  | inr e ↦ elim (pick-candidates now ts) [
    | inl q ↦ inl (simp e q.0, (e, q.1))
    | inr (b, r, f, a) ↦ inr (b, simp e r, inr f, (λ c. absurd (cc), a))
  ]
  | inl e ↦
      let (b, r, f, n, a) = pick_from-Picked now (rt_refresh now t) ts in
      inr (b, simp e r, taken e f, (λ c. n, a))
]
  where
    taken :
        {b : Task}
        → is_candidate now t ≡ true
        → (b ≡ rt_refresh now t) ⊎ Some (IsFrom now b) ts
        → Some (IsFrom now b) (t ∷ ts)
    taken e (inl x) = inl (e, x)
    taken e (inr x) = inr x
