-- ===== src/Proc/Sched/Realtime.antt =====
-- The real-time class: periods, budgets and the choice of the task with the least laxity.
use oops_os.Prelude.{
  ℕ, zero, suc, ◌+◌, ◌*◌, ◌≤◌, ◌<◌, ◌≡◌, ◌≢◌, refl, sym, ap, Bool, true, false, ◌&&◌, ◌||◌, none,
  some, List, [], ◌∷◌, arith, leb, ltb, ◌==◌, if◌then◌else◌, Bool-cases, inl, inr, ◌⊎◌, ℕ_discrete,
  ◌∙◌,
}
use oops_os.Proc.Sched.{
  State, unused, sleeping, suspended_sleep, suspended, runnable, running, zombie, is_runnable,
  rt_eligible, Task, u32, is_running, rt_period, rt_catch_up, rt_refresh, less_lax, is_candidate,
  rt_pick, rt_tick,
}
use oops_os.Proc.Sched.Candidates.{All, Some, pick-candidates}

-- `rt_tick` charges no real-time task: whatever the unlocked test has read, a task that is real-time under the
-- lock is left as it is and no reschedule is asked for. It asks for one only of a task that was real-time at
-- the first test and is not any more at the second.
pub rt_tick_idle :
    (now : ℕ) (seen : Bool) (t : Task)
    → (t.realtime ≡ true → rt_tick now seen (some t) ≡ (false, some t))
      × ((rt_tick now seen (some t)).0 ≡ true → (seen ≡ true) × (t.realtime ≡ false))
unfolding rt_tick
rt_tick_idle now seen t = elim (Bool-cases seen) [
  | inr e ↦ (λ q. simp e, λ q. absurd (cc (simp e at q)))
  | inl e ↦ elim (Bool-cases t.realtime) [
    | inr n ↦ (λ q. absurd (cc (n, q)), λ q. (e, n))
    | inl y ↦ elim (Bool-cases (is_running t.state)) [
      | inl r ↦ (λ q. simp (e, r, y), λ q. absurd (cc (simp (e, r, y) at q)))
      | inr r ↦ (λ q. simp (e, r), λ q. absurd (cc (simp (e, r) at q)))
    ]
  ]
]

-- `t'` is `t` after `k` more periods, at a tick within its period.
pub record IsCaughtUp (now : ℕ) (t t' : Task) : Type 0 where
  pub periods : ℕ
  pub released : t'.release ≡ t.release + periods * t.period
  pub begun : t'.release ≤ now
  pub not_over : now < t'.release + t'.period
  pub same_period : t'.period ≡ t.period
  pub fresh :
      periods ≢ 0 → (t'.remaining ≡ t.runtime) × (t'.deadline_tick ≡ t'.release + t.deadline)
  pub untouched : periods ≡ 0 → t' ≡ t
  pub missed : t'.misses + (if t.remaining == 0 && ltb 0 periods then 1 else 0) ≡ t.misses + periods

rt_catch_up-IsCaughtUp :
    (fuel now : ℕ) (t : Task)
    → 0 < t.period
    → 0 < t.runtime
    → t.release ≤ now
    → now + t.period < 4294967296
    → now < t.release + fuel
    → IsCaughtUp now t (rt_catch_up fuel now t)
unfolding rt_catch_up rt_period
rt_catch_up-IsCaughtUp zero now t p r l w f = absurd (omega arith)
rt_catch_up-IsCaughtUp (suc fuel) now t p r l w f =
    elim (Bool-cases (leb (u32 (t.release + t.period)) now)) [
      | inr e ↦ simp e (record {
        periods = 0;
        released = omega arith;
        begun = l;
        not_over = ground arith;
        same_period = refl;
        fresh = λ n. absurd (n refl);
        untouched = λ n. refl;
        missed = ground arith;
      })
      | inl e ↦
          simp e (
            later
              (rt_catch_up-IsCaughtUp fuel now (rt_period t) p r (ground arith) w (omega arith)))
    ]
  where
    later :
        IsCaughtUp now (rt_period t) (rt_catch_up fuel now (rt_period t))
        → IsCaughtUp now t (rt_catch_up fuel now (rt_period t))
    later c = record {
      periods = suc c.periods;
      released = omega (arith, c.released);
      begun = c.begun;
      not_over = c.not_over;
      same_period = c.same_period;
      fresh = λ n. elim (ℕ_discrete c.periods 0) [
        | yes z ↦ (
          ap (λ (x : Task). x.remaining) (c.untouched z),
          ap (λ (x : Task). x.deadline_tick) (c.untouched z)
              ∙ ap (λ (x : ℕ). x + t.deadline) (sym (ap (λ (x : Task). x.release) (c.untouched z))),
        )
        | no nz ↦ c.fresh nz
      ];
      untouched = λ n. absurd (omega arith);
      missed = ground (arith, c.missed);
    }

-- `rt_refresh_locked` on a real-time task with a positive period, budget and deadline, released at or
-- before `now` and with no wrap of the tick in the current period: the loop ends with `now` in the
-- period, which has moved on by a whole number of periods. If it has moved the budget is full and the
-- deadline set anew; each period left with budget counts as missed.
pub rt_refresh-IsCaughtUp :
    (now : ℕ) (t : Task)
    → t.realtime ≡ true
    → 0 < t.period
    → 0 < t.runtime
    → 0 < t.deadline
    → t.release ≤ now
    → now + t.period < 4294967296
    → IsCaughtUp now t (rt_refresh now t)
unfolding rt_refresh
rt_refresh-IsCaughtUp now t rt p r d l w =
    simp (rt, positive) (rt_catch_up-IsCaughtUp (suc now) now t p r l w (omega arith))
  where
    positive : (t.period == 0 || t.deadline == 0 || t.runtime == 0) ≡ false
    positive = ground arith

All-map : {P Q : Task → Type 0} (f : (t : Task) → P t → Q t) (ts : List Task) → All P ts → All Q ts
All-map f [] a = a
All-map f (t ∷ ts) (p, a) = (f t p, All-map f ts a)

Some-map :
    {P Q : Task → Type 0} (f : (t : Task) → P t → Q t) (ts : List Task) → Some P ts → Some Q ts
Some-map f [] a = a
Some-map f (t ∷ ts) (inl p) = inl (f t p)
Some-map f (t ∷ ts) (inr a) = inr (Some-map f ts a)

-- The task can be given the CPU at `now`: it is runnable, of the real-time class and, with its period caught up,
-- released with budget left.
pub record IsReady (now : ℕ) (t : Task) : Type 0 where
  pub can_run : t.state ≡ runnable
  pub of_class : t.realtime ≡ true
  pub budget : 0 < (rt_refresh now t).remaining
  pub released : (rt_refresh now t).release ≤ now

rt_catch_up-class : (fuel now : ℕ) (t : Task) → (rt_catch_up fuel now t).realtime ≡ t.realtime
unfolding rt_catch_up rt_period
rt_catch_up-class zero now t = refl
rt_catch_up-class (suc fuel) now t =
    let later = rt_catch_up-class fuel now (rt_period t) in
    elim (Bool-cases (leb (u32 (t.release + t.period)) now)) [
      | inl e ↦ simp e later
      | inr e ↦ simp e
    ]

rt_refresh-class : (now : ℕ) (t : Task) → (rt_refresh now t).realtime ≡ t.realtime
unfolding rt_refresh
rt_refresh-class now t = elim (Bool-cases t.realtime) [
  | inr n ↦ simp n
  | inl y ↦ elim (Bool-cases (t.period == 0 || t.deadline == 0 || t.runtime == 0)) [
    | inl z ↦ simp (y, z)
    | inr z ↦ simp (y, z) (rt_catch_up-class (suc now) now t ∙ y)
  ]
]

runnable-only : (s : State) → is_runnable s ≡ true → s ≡ runnable
runnable-only runnable e = refl
runnable-only unused e = cc e
runnable-only sleeping e = cc e
runnable-only suspended_sleep e = cc e
runnable-only suspended e = cc e
runnable-only running e = cc e
runnable-only zombie e = cc e

is_candidate-IsReady : (now : ℕ) (t : Task) → is_candidate now t ≡ true → IsReady now t
unfolding is_candidate rt_eligible
is_candidate-IsReady now t e = record {
  can_run = runnable-only t.state (ground (arith, e));
  of_class = ground (arith, e);
  budget = ground (arith, e);
  released = ground (arith, e);
}

all_three : {a b c : Bool} → a ≡ true → b ≡ true → c ≡ true → (a && b && c) ≡ true
all_three p q r = rw (p, q, r) refl

IsReady-is_candidate : (now : ℕ) (t : Task) → IsReady now t → is_candidate now t ≡ true
unfolding is_candidate rt_eligible
IsReady-is_candidate now t r =
    let same = rt_refresh-class now t ∙ r.of_class in
    all_three (ap is_runnable r.can_run) r.of_class
      (all_three same (ground (arith, r.budget)) (ground (arith, r.released)))

-- `b` is a task of the table that is ready, with its period caught up.
abbrev pub IsChosen : ℕ → Task → Task → Type 0
IsChosen now b t = IsReady now t × (b ≡ rt_refresh now t)

-- No ready task has less laxity, its deadline's tick less the tick and the budget left, than `b`.
abbrev pub IsUnbeaten : ℕ → Task → Task → Type 0
IsUnbeaten now b t =
    IsReady now t
    → b.deadline_tick + (rt_refresh now t).remaining
      ≤ (rt_refresh now t).deadline_tick + b.remaining

-- `rt_pick` on any table, where no sum of ticks overflows: it returns no task exactly if none is runnable, of
-- the real-time class, released and with budget left once its period is caught up; otherwise it returns one
-- of these, caught up, and none of them has less laxity: deadline less budget left.
pub rt_pick_least :
    (now : ℕ) (ts : List Task)
    → (((rt_pick now ts).0 ≡ none) × All (λ t. IsReady now t → ⊥) ts)
      ⊎ ((b : Task) × ((rt_pick now ts).0 ≡ some b)
          × Some (IsChosen now b) ts
          × All (IsUnbeaten now b) ts)
unfolding less_lax
rt_pick_least now ts = elim (pick-candidates now ts) [
  | inl (e, a) ↦ inl (e, All-map (λ t n r. absurd (cc (n, IsReady-is_candidate now t r))) ts a)
  | inr (b, e, f, a) ↦ inr (
    b,
    e,
    Some-map (λ t c. (is_candidate-IsReady now t c.0, c.1)) ts f,
    All-map (λ t n r. ground (arith, n (IsReady-is_candidate now t r))) ts a,
  )
]
