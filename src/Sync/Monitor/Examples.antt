-- ===== src/Sync/Monitor/Examples.antt =====
-- A process that enters a new monitor.
use oops_os.Prelude.{ℕ, ◌≡◌, refl, true, false, ltb, if◌then◌else◌}
use oops_os.Prelude.Arrays.{put}
use oops_os.Sync.Monitor.{Monitor, Caller, failed, create, free, enter, enter_loop, cond_max}
use oops_os.Sync.Monitor.System.{System, Reach, created, next, enters, outside, land}
use oops_os.Sync.Monitor.Exclusion.{mutual_exclusion}

abbrev blank : Monitor
blank = record {
  allocated = false;
  locked = false;
  owner = 0;
  waiters = 0;
  pi_waiter_max = 0;
  conds = λ i. record { allocated = false; waiters = 0 };
}

abbrev seven : Caller
seven = record { pid = 7; killed = false; priority = 10; pi_boost = 0; deadlock = false }

abbrev ready : Monitor
ready = record blank {
  allocated = true;
  conds =
      λ i. if ltb i cond_max then (record { allocated = false; waiters = 0 }) else blank.conds i;
}

abbrev entered : System
entered = record {
  mon = (enter ready seven).1;
  place = put (λ p. outside) 7 (land outside (enter ready seven).0);
}

entered-Reach : Reach entered
unfolding create enter enter_loop land
entered-Reach = next (created blank refl) (enters seven refl)

mutual_exclusion_example :
    (◌≡◌ {A = ℕ} 7 7)
    × (entered.mon.locked ≡ true)
    × (entered.mon.owner ≡ 7)
    × ((free entered.mon).0 ≡ failed)
unfolding put land enter enter_loop
mutual_exclusion_example = mutual_exclusion 7 7 entered-Reach refl refl
