-- ===== src/Proc/Sched/Feedback.antt =====
-- The feedback queue: levels and slices stay in range, and a higher priority never means a lower level.
use oops_os.Prelude.{
  ℕ, zero, suc, ◌+◌, ◌-◌, ◌≤◌, ◌<◌, ◌≡◌, refl, Bool, true, false, List, [], ◌∷◌, arith, leb, ltb,
  if◌then◌else◌, ℤ, inl, inr, ◌⊎◌, Bool-cases, ◌==◌, sym, subst,
}
use oops_os.Proc.Sched.Candidates.{All}
use oops_os.Proc.Sched.{
  Task, is_running, levels, slice, clamp, level_of, mlfq_tick, update_pid, set_priority,
}

-- A task within its slice, on a level that exists.
pub record IsPlaced (t : Task) : Type 0 where
  pub level_ok : t.level < levels
  pub within : t.ticks < slice t.level

slice-pos : (n : ℕ) → 0 < slice n
slice-pos zero = omega arith
slice-pos (suc zero) = omega arith
slice-pos (suc (suc zero)) = omega arith
slice-pos (suc (suc (suc n))) = omega arith

abbrev lower : ℕ → ℕ
lower n = if ltb n (levels - 1) then n + 1 else n

mlfq_tick_cases :
    (t : Task)
    → is_running t.state ≡ true
    → t.level < levels
    → ((slice t.level ≤ t.ticks + 1)
        × (mlfq_tick t ≡ (true, record t { level = lower t.level; ticks = 0 })))
      ⊎ ((t.ticks + 1 < slice t.level) × (mlfq_tick t ≡ (false, record t { ticks = t.ticks + 1 })))
unfolding mlfq_tick
mlfq_tick_cases t r l = elim (Bool-cases (leb (slice t.level) (t.ticks + 1))) [
  | inl e ↦ inl (ground arith, simp (r, in_range, e))
  | inr e ↦ inr (ground arith, simp (r, in_range, e))
]
  where
    in_range : leb levels t.level ≡ false
    in_range = ground arith

-- What a tick may do to a task: go on with its slice, or end it.
abbrev pub Ticked : Task → Bool × Task → Type 0
Ticked t (over, t') =
    ((over ≡ false) × (t'.level ≡ t.level) × (t'.ticks ≡ t.ticks + 1))
    ⊎ ((over ≡ true)
        × (t.ticks + 1 ≡ slice t.level)
        × (t'.ticks ≡ 0)
        × ((t'.level ≡ t.level + 1) ⊎ ((t.level ≡ 3) × (t'.level ≡ 3))))

-- `mlfq_tick` on a running task within its slice, at a level that exists: the task stays so. Either its
-- slice goes on, one tick further at the same level; or the slice is used up exactly, the task asks
-- for a reschedule and begins a slice one level down, or again at the lowest level.
pub mlfq_tick_lem :
    (t : Task)
    → is_running t.state ≡ true
    → IsPlaced t
    → IsPlaced (mlfq_tick t).1 × Ticked t (mlfq_tick t)
mlfq_tick_lem t r v = elim (mlfq_tick_cases t r v.level_ok) [
  | inl q ↦
      subst (λ (x : Bool × Task). IsPlaced x.1 × Ticked t x) (sym q.1)
        (
          record { level_ok = ground (arith, v.level_ok); within = slice-pos (lower t.level) },
          inr (refl, omega (arith, q.0, v.within), refl, lowered),
        )
  | inr q ↦
      subst (λ (x : Bool × Task). IsPlaced x.1 × Ticked t x) (sym q.1)
        (record { level_ok = v.level_ok; within = q.0 }, inl (refl, refl, refl))
]
  where
    lowered : (lower t.level ≡ t.level + 1) ⊎ ((t.level ≡ 3) × (lower t.level ≡ 3))
    lowered = elim (Bool-cases (ltb t.level 3)) [
      | inl e ↦ inl (ground arith)
      | inr e ↦ inr (ground (arith, v.level_ok))
    ]

-- A priority from 0 to 20 has a level that exists, and a higher one never a greater level number.
pub level_of_mono : (p q : ℕ) → p ≤ q → q ≤ 20 → (level_of q ≤ level_of p) × (level_of p < levels)
unfolding level_of
level_of_mono p q h k = ground arith

update_pid-All :
    (ts : List Task) (pid : ℕ) (f : Task → Task)
    → ((t : Task) → IsPlaced (f t))
    → All IsPlaced ts
    → All IsPlaced (update_pid ts pid f).1
unfolding update_pid
update_pid-All [] pid f h a = tt
update_pid-All (t ∷ ts) pid f h a = elim (Bool-cases (t.pid == pid)) [
  | inl e ↦ simp e (h t, a.1)
  | inr e ↦ simp e (a.0, update_pid-All ts pid f h a.1)
]

-- `setPriority` under the feedback queue keeps every task of the table within its slice at a level
-- that exists, for any pid and any priority.
pub set_priority-IsPlaced :
    (ts : List Task) (pid : ℕ) (p : ℤ)
    → All IsPlaced ts
    → All IsPlaced (set_priority true ts pid p).1
unfolding set_priority
set_priority-IsPlaced ts pid p a = update_pid-All ts pid _ placed a
  where
    placed :
        (t : Task)
        → IsPlaced (record t { priority = clamp p; level = level_of (clamp p); ticks = 0 })
    placed t = record {
      level_ok = (level_of_mono (clamp p) 20 (ground arith) (omega arith)).1;
      within = slice-pos (level_of (clamp p));
    }
