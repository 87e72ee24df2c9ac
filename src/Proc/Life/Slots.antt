-- ===== src/Proc/Life/Slots.antt =====
-- The table of processes and the births: allocproc, fork and clone (kernel/proc/proc.c).
use oops_os.Prelude.{ℕ, ◌+◌, Bool, true, false, Option, none, some, ◌==◌, if◌then◌else◌, ℤ, pos}
use oops_os.Prelude.Arrays.{put}
use oops_os.Prelude.Search.{first_from}
use oops_os.Proc.Sched.{State, unused, runnable, zombie, is_unused}

abbrev pub n_proc : ℕ
n_proc = 64

-- `leader` is `pthread`, `group` is `tgroup_ref`, and `suspending` is `midsched_suspending`.
pub record Proc : Type 0 where
  pub state : State
  pub pid : ℕ
  pub parent : Option ℕ
  pub leader : Option ℕ
  pub group : ℕ
  pub chan : ℕ
  pub killed : Bool
  pub xstate : ℤ
  pub suspending : Bool

pub record Table : Type 0 where
  pub procs : ℕ → Proc
  pub next_pid : ℕ
  pub init : ℕ

abbrev pub is_zombie : State → Bool
is_zombie zombie = true
is_zombie _ = false

abbrev pub points_to : Option ℕ → ℕ → Bool
points_to none i = false
points_to (some j) i = j == i

abbrev pub set_proc : Table → ℕ → Proc → Table
set_proc t i p = record t { procs = put t.procs i p }

-- What `freeproc` and `freethread` leave in a slot.
unfoldable pub freed : Proc → Proc
freed p = record p {
  state = unused;
  pid = 0;
  parent = none;
  leader = none;
  group = 0;
  chan = 0;
  killed = false;
  xstate = pos 0;
}

-- The two pages of trap frames, and the page table with the trampoline.
pub data Supply : Type 0 where
  no_frame no_table enough : Supply

unfoldable pub claimed : Proc → ℕ → Proc
claimed p pid = record p { pid = pid; leader = none; group = 0; suspending = false }

unfoldable pub set_up : Table → ℕ → Supply → Option ℕ × Table
set_up t i no_frame = (none, set_proc t i (claimed (t.procs i) t.next_pid))
set_up t i no_table = (none, set_proc t i (freed (claimed (t.procs i) t.next_pid)))
set_up t i enough = (some i, set_proc t i (claimed (t.procs i) t.next_pid))

unfoldable pub count_pid : Option ℕ × Table → Option ℕ × Table
count_pid (r, t) = (r, record t { next_pid = t.next_pid + 1 })

unfoldable pub free_slot : Table → Option ℕ
free_slot t = first_from (λ i. is_unused ((t.procs i).state)) 0 n_proc

unfoldable pub allocproc : Table → Supply → Option ℕ × Table
allocproc t s = elim (free_slot t) [ none ↦ (none, t) | some i ↦ count_pid (set_up t i s) ]

-- `fork`, with `copied` for `uvmcopy`: the child's pid, or -1.
unfoldable pub born : Table → ℕ → ℕ → Table
born t p i =
    set_proc t i
      (record (t.procs i) { leader = none; group = 1; parent = some p; state = runnable })

unfoldable pub fork_with : ℕ → Bool → Option ℕ × Table → Option ℕ × Table
fork_with p copied (none, t) = (none, t)
fork_with p copied (some i, t) =
    if copied
    then (some ((t.procs i).pid), born t p i)
    else (none, set_proc t i (freed (t.procs i)))

unfoldable pub fork : Table → ℕ → Supply → Bool → Option ℕ × Table
fork t p s copied = fork_with p copied (allocproc t s)

-- `clone`, with `mapped` for the stack's test and `shared` for `uvmshare`.
unfoldable pub group_leader : Table → ℕ → ℕ
group_leader t p = elim ((t.procs p).leader) [ none ↦ p | some l ↦ l ]

unfoldable pub join_group : Table → ℕ → Table
join_group t l = set_proc t l (record (t.procs l) { group = (t.procs l).group + 1 })

unfoldable pub spawned : Table → ℕ → ℕ → Table
spawned t l i =
    let t' = join_group (set_proc t i (record (t.procs i) { leader = some l; parent = none })) l in
    set_proc t' i (record (t'.procs i) { state = runnable })

unfoldable pub clone_with : ℕ → Bool → Option ℕ × Table → Option ℕ × Table
clone_with l ready (none, t) = (none, t)
clone_with l ready (some i, t) =
    if ready
    then (some ((t.procs i).pid), spawned t l i)
    else (none, set_proc t i (freed (t.procs i)))

unfoldable pub clone : Table → ℕ → Supply → Bool → Option ℕ × Table
clone t p s ready = clone_with (group_leader t p) ready (allocproc t s)
