-- ===== src/Proc/Life/System.antt =====
-- The process table through any sequence of steps, each under the locks that the code holds.
use oops_os.Prelude.{ℕ, ◌<◌, ◌≡◌, ◌≢◌, ◌⊎◌, Bool, true, false, none, some, ℤ}
use oops_os.Prelude.Arrays.{put}
use oops_os.Proc.Sched.{State, unused, sleeping, runnable, running}
use oops_os.Proc.Life.{
  n_proc, Proc, Table, Supply, fork, clone, dispatch, yield_cpu, sleep, tidy, wakeup,
  wakeup_one_proc, wake_waiter, kill, killtree, noted_parent, exit_end, Waited, slept, waitpid,
  join, reap_round, suspend, is_held, suspend_end, suspend_state, resume, resume_all,
}

-- What a process is doing: asleep or about to scan in `wait` or `waitpid` of a pid; there too, but put back to
-- sleep by a suspension that has failed, after a wake-up; or between the two stretches of `exit`, having
-- noted the parent.
pub data Doing : Type 0 where
  at_large : Doing
  waits : ℤ → Doing
  misses : ℤ → Doing
  exits : ℕ → Doing

pub record System : Type 0 where
  pub table : Table
  pub doing : ℕ → Doing

abbrev pub proc_of : System → ℕ → Proc
proc_of s i = s.table.procs i

-- What the caller of `waitpid` is doing after a scan.
abbrev pub doing_after : ℤ → Waited → Doing
doing_after pid slept = waits pid
doing_after pid _ = at_large

-- What a process is doing when it is put back to sleep after a wake-up.
abbrev pub missed : Doing → Doing
missed (waits pid) = misses pid
missed d = d

abbrev pub Runs : System → ℕ → Type 0
Runs s i = (i < n_proc) × ((proc_of s i).state ≡ running)

abbrev pub with_table : System → Table → System
with_table s t = record s { table = t }

-- The end of a suspension whose swap has failed is `restores` where no wake-up came in between, `restores_late`
-- where one did, and `restores_nothing` where the process is no longer suspended.
pub data Step (s : System) : System → Type 0 where
  runs :
      (i : ℕ)
      → i < n_proc
      → (proc_of s i).state ≡ runnable
      → Step s (with_table s (dispatch s.table i))
  yields : (i : ℕ) → Runs s i → Step s (with_table s (yield_cpu s.table i))
  sleeps :
      (i chan : ℕ)
      → Runs s i
      → ((pid : ℤ) → s.doing i ≢ waits pid)
      → Step s (with_table s (sleep s.table i chan))
  tidies : (i : ℕ) → Runs s i → Step s (with_table s (tidy s.table i))
  wakes : (chan : ℕ) → Step s (with_table s (wakeup s.table chan))
  wakes_one : (chan : ℕ) → Step s (with_table s (wakeup_one_proc s.table chan))
  wakes_init : Step s (with_table s (wake_waiter s.table s.table.init))
  kills : (pid : ℕ) → Step s (with_table s (kill s.table pid).1)
  kills_tree : (pid k : ℕ) → Step s (with_table s (killtree s.table pid k).1)
  suspends :
      (i : ℕ)
      → ((proc_of s i).state ≡ runnable) ⊎ ((proc_of s i).state ≡ sleeping)
      → Step s (with_table s (suspend s.table i))
  keeps_out : (i : ℕ) (prev : State) → Step s (with_table s (suspend_end s.table i true prev))
  restores :
      (i : ℕ) (prev : State)
      → (prev ≡ runnable) ⊎ (prev ≡ sleeping)
      → (proc_of s i).state ≡ suspend_state prev
      → Step s (with_table s (suspend_end s.table i false prev))
  restores_late :
      (i : ℕ) (prev : State)
      → (prev ≡ runnable) ⊎ (prev ≡ sleeping)
      → is_held ((proc_of s i).state) ≡ true
      → (proc_of s i).state ≢ suspend_state prev
      → Step s (record {
        table = suspend_end s.table i false prev;
        doing = put s.doing i (missed (s.doing i));
      })
  restores_nothing :
      (i : ℕ) (prev : State)
      → is_held ((proc_of s i).state) ≡ false
      → Step s (with_table s (suspend_end s.table i false prev))
  resumes : (i : ℕ) → Step s (with_table s (resume s.table i))
  resumes_all : Step s (with_table s (resume_all s.table))
  forks :
      (p : ℕ) (supply : Supply) (copied : Bool)
      → Runs s p
      → Step s (with_table s (fork s.table p supply copied).1)
  clones :
      (p : ℕ) (supply : Supply) (ready : Bool)
      → Runs s p
      → Step s (with_table s (clone s.table p supply ready).1)
  scans :
      (p : ℕ) (pid : ℤ) (copied nohang : Bool)
      → Runs s p
      → (s.doing p ≡ at_large) ⊎ (s.doing p ≡ waits pid) ⊎ (s.doing p ≡ misses pid)
      → Step s (record {
        table = (waitpid s.table p pid copied nohang).1;
        doing = put s.doing p (doing_after pid (waitpid s.table p pid copied nohang).0);
      })
  joins :
      (p : ℕ) (copied : Bool)
      → Runs s p
      → s.doing p ≡ at_large
      → Step s (with_table s (join s.table p copied).1)
  reaps : (l : ℕ) → Runs s l → s.doing l ≡ at_large → Step s (with_table s (reap_round s.table l).1)
  notes :
      (p q : ℕ)
      → Runs s p
      → s.doing p ≡ at_large
      → p ≢ s.table.init
      → noted_parent (proc_of s p) ≡ some q
      → Step s (record s { doing = put s.doing p (exits q) })
  ends :
      (p q : ℕ) (status : ℤ)
      → Runs s p
      → s.doing p ≡ exits q
      → p ≢ s.table.init
      → Step s (record { table = exit_end s.table p q status; doing = put s.doing p at_large })

-- After `userinit` there is one process.
pub record IsBooted (s : System) : Type 0 where
  pub init_below : s.table.init < n_proc
  pub init_state : (proc_of s s.table.init).state ≡ runnable
  pub init_parent : (proc_of s s.table.init).parent ≡ none
  pub init_pid : (proc_of s s.table.init).pid < s.table.next_pid
  pub others :
      (i : ℕ) → i ≢ s.table.init → ((proc_of s i).state ≡ unused) × ((proc_of s i).parent ≡ none)
  pub idle : (i : ℕ) → s.doing i ≡ at_large

pub data Reach : System → Type 0 where
  boots : {s : System} → IsBooted s → Reach s
  next : {s t : System} → Reach s → Step s t → Reach t
