-- ===== src/Proc/Sched/Examples.antt =====
-- Two real-time tasks and a queued one, and the theorems there.
use oops_os.Prelude.{◌≡◌, refl, true, false, none, some, [], ◌∷◌, arith, ◌⊎◌}
use oops_os.Proc.Sched.{
  Task, running, runnable, rt_tick, rt_refresh, rt_pick, pick_from, better, is_candidate,
  rt_eligible, rt_catch_up, rt_period, less_lax,
}
use oops_os.Proc.Sched.Candidates.{All, Some}
use oops_os.Proc.Sched.Realtime.{
  IsReady, IsChosen, IsUnbeaten, IsCaughtUp, rt_tick_idle, rt_refresh-IsCaughtUp, rt_pick_least,
}

-- Released at tick 0 with a period of 10, a budget of 3 and a deadline of 8.
abbrev first : Task
first = record {
  pid = 4;
  state = runnable;
  priority = 10;
  dyn_priority = 10;
  level = 1;
  ticks = 1;
  realtime = true;
  period = 10;
  runtime = 3;
  deadline = 8;
  release = 0;
  deadline_tick = 8;
  remaining = 3;
  misses = 0;
}

abbrev second : Task
second = record first { pid = 5; deadline = 4; deadline_tick = 4 }

abbrev queued : Task
queued = record first { state = running; realtime = true }

picks_second : (rt_pick 25 (first ∷ second ∷ [])).0 ≡ some (rt_refresh 25 second)
unfolding rt_pick pick_from better is_candidate rt_eligible rt_refresh rt_catch_up rt_period
    less_lax
picks_second = refl

rt_tick_idle_example :
    (queued.realtime ≡ true → rt_tick 25 true (some queued) ≡ (false, some queued))
    × ((rt_tick 25 true (some queued)).0 ≡ true → (true ≡ true) × (queued.realtime ≡ false))
rt_tick_idle_example = rt_tick_idle 25 true queued

rt_refresh-IsCaughtUp_example : IsCaughtUp 25 first (rt_refresh 25 first)
rt_refresh-IsCaughtUp_example =
    rt_refresh-IsCaughtUp 25 first refl (omega arith) (omega arith) (omega arith) (omega arith)
      (omega arith)

rt_pick_least_example :
    (((rt_pick 25 (first ∷ second ∷ [])).0 ≡ none)
      × All (λ t. IsReady 25 t → ⊥) (first ∷ second ∷ []))
    ⊎ ((b : Task) × ((rt_pick 25 (first ∷ second ∷ [])).0 ≡ some b)
        × Some (IsChosen 25 b) (first ∷ second ∷ [])
        × All (IsUnbeaten 25 b) (first ∷ second ∷ []))
rt_pick_least_example = rt_pick_least 25 (first ∷ second ∷ [])
