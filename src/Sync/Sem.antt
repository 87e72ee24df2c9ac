-- ===== src/Sync/Sem.antt =====
-- The semaphore system calls of kernel/sysproc.c, on the table `sems` and on the sets `semsets`, whose
-- members follow the same code. A call is cut at its sleeps; `deadlock` is what `deadlock_detect`
-- answers. An array of ids has been copied in; its length, and the id of a single semaphore, have passed
-- their range checks.
pub mod Sort
pub mod Shuffle
pub mod Multi
pub mod Call
mod Examples
use oops_os.Prelude.{
  ℕ, zero, suc, ◌+◌, ◌-◌, Bool, true, false, not, ◌&&◌, ◌||◌, Option, none, some, ltb, leb, ◌==◌,
  if◌then◌else◌, ℤ, pos, negsuc, pos_part, ltb_ℤ, suc_ℤ, pred_ℤ,
}
use oops_os.Prelude.Arrays.{put, all_below}
use oops_os.Prelude.Search.{first_from}

abbrev pub sem_max : ℕ
sem_max = 128

abbrev pub set_max_num : ℕ
set_max_num = 16

abbrev pub set_max_size : ℕ
set_max_size = 16

-- `struct sem`
pub record Sem : Type 0 where
  pub resource_count : ℤ
  pub waiters : ℕ
  pub owner : ℕ
  pub allocated : Bool

pub data Answer : Type 0 where
  granted refused asleep : Answer

abbrev pub is_negative : ℤ → Bool
is_negative c = ltb_ℤ c (pos 0)

abbrev pub is_positive : ℤ → Bool
is_positive c = ltb_ℤ (pos 0) c

-- `sys_sem_create` and `sys_sem_free`, with `sem_used_count`.
unfoldable pub sem_create : (ℕ → Sem) → ℕ → ℤ → Option ℕ × (ℕ → Sem) × ℕ
sem_create sems used n =
    if is_negative n
    then (none, sems, used)
    else elim (first_from (λ i. not ((sems i).allocated)) 0 sem_max) [
      | none ↦ (none, sems, used)
      | some i ↦ (
        some i,
        put sems i (record (sems i) { allocated = true; resource_count = n; owner = 0 }),
        used + 1,
      )
    ]

unfoldable pub sem_free : (ℕ → Sem) → ℕ → ℕ → Answer × (ℕ → Sem) × ℕ
sem_free sems used i =
    if not ((sems i).allocated)
    then (refused, sems, used)
    else if is_negative ((sems i).resource_count) || ltb 0 ((sems i).waiters)
    then (refused, sems, used)
    else (
      granted,
      put sems i (record (sems i) { allocated = false; resource_count = pos 0; owner = 0 }),
      used - 1,
    )

-- The owner after a P operation that has gone through.
unfoldable pub set_owner : Sem → ℕ → Sem
set_owner s pid =
    if is_positive s.resource_count
    then (record s { owner = 0 })
    else if is_negative s.resource_count
    then s
    else (record s { owner = pid })

-- `sys_sem_p` and `sys_semset_p`, up to the sleep.
unfoldable pub sem_p : Sem → ℕ → Bool → Answer × Sem
sem_p s pid deadlock =
    if not s.allocated
    then (refused, s)
    else (let s' = record s { resource_count = pred_ℤ s.resource_count } in
        if is_negative s'.resource_count
        then (if deadlock
            then (refused, record s' { resource_count = suc_ℤ s'.resource_count })
            else (asleep, record s' { waiters = s'.waiters + 1 }))
        else (granted, set_owner s' pid))

-- After the sleep.
unfoldable pub sem_woken : Sem → ℕ → Sem
sem_woken s pid = set_owner (record s { waiters = s.waiters - 1 }) pid

-- `sys_sem_v` and `sys_semset_v`: also whether somebody is woken.
unfoldable pub sem_v : Sem → Answer × Sem × Bool
sem_v s =
    if not s.allocated
    then (refused, s, false)
    else (let s' = record s { resource_count = suc_ℤ s.resource_count; owner = 0 } in
        (granted, s', not (is_positive s'.resource_count) || ltb 0 s'.waiters))

-- The inner loop of the sort, from `j` on down; `ids[j]` is the place that is free for the key.
unfoldable pub shift : (ℕ → ℤ) → ℕ → ℤ → ℕ → ℤ
shift ids zero key = put ids 0 key
shift ids (suc j) key =
    let more = shift (put ids (suc j) (ids j)) j key in
    if ltb_ℤ key (ids j) then more else put ids (suc j) key

-- The outer loop, from `i` on with `k` rounds to go.
unfoldable pub sort_from : (ℕ → ℤ) → ℕ → ℕ → ℕ → ℤ
sort_from ids i zero = ids
sort_from ids i (suc k) = sort_from (shift ids i (ids i)) (i + 1) k

unfoldable pub sort_ids : (ℕ → ℤ) → ℕ → ℕ → ℤ
sort_ids ids n = sort_from ids 1 (n - 1)

abbrev pub eqb_ℤ : ℤ → ℤ → Bool
eqb_ℤ a b = not (ltb_ℤ a b) && not (ltb_ℤ b a)

-- Every id is in range and differs from the one before it.
unfoldable pub ids_fit : (ℕ → ℤ) → ℕ → ℕ → Bool
ids_fit ids n limit = all_below n λ i.
    not (is_negative (ids i))
    && ltb_ℤ (ids i) (pos limit)
    && not (ltb 0 i && eqb_ℤ (ids i) (ids (i - 1)))

-- The loop over the locked semaphores: `none` if one is not allocated, else the first that has
-- nothing to give, after `wait`.
unfoldable pub find_wait : (ℕ → Sem) → (ℕ → ℕ) → ℕ → ℕ → Option ℕ → Option (Option ℕ)
find_wait sems ids i zero wait = some wait
find_wait sems ids i (suc k) wait =
    let rest = find_wait sems ids (i + 1) k (elim wait [
      | some w ↦ some w
      | none ↦ if is_positive ((sems (ids i)).resource_count) then none else some (ids i)
    ]) in
    if not ((sems (ids i)).allocated) then none else rest

unfoldable pub take_all : (ℕ → Sem) → (ℕ → ℕ) → ℕ → ℕ → ℕ → ℕ → Sem
take_all sems ids pid i zero = sems
take_all sems ids pid i (suc k) =
    let s = sems (ids i) in
    take_all
      (put sems (ids i) (set_owner (record s { resource_count = pred_ℤ s.resource_count }) pid)) ids
      pid (i + 1) k

-- One more waiter for each, and one less after the sleep.
unfoldable pub wait_all : (ℕ → Sem) → (ℕ → ℕ) → ℕ → ℕ → ℕ → Sem
wait_all sems ids i zero = sems
wait_all sems ids i (suc k) =
    wait_all (put sems (ids i) (record (sems (ids i)) { waiters = (sems (ids i)).waiters + 1 })) ids
      (i + 1) k

unfoldable pub unwait_all : (ℕ → Sem) → (ℕ → ℕ) → ℕ → ℕ → ℕ → Sem
unwait_all sems ids i zero = sems
unwait_all sems ids i (suc k) =
    unwait_all (put sems (ids i) (record (sems (ids i)) { waiters = (sems (ids i)).waiters - 1 }))
      ids (i + 1) k

-- One round of `sys_sem_p_multi` and `sys_semset_p_multi`, once the ids have been sorted and checked.
unfoldable pub take_or_wait :
    (ℕ → Sem) → (ℕ → ℕ) → ℕ → ℕ → Bool → Option (Option ℕ) → Answer × (ℕ → Sem)
take_or_wait sems ids n pid deadlock none = (refused, sems)
take_or_wait sems ids n pid deadlock (some none) = (granted, take_all sems ids pid 0 n)
take_or_wait sems ids n pid deadlock (some (some w)) =
    if deadlock then (refused, sems) else (asleep, wait_all sems ids 0 n)

unfoldable pub p_multi_round : (ℕ → Sem) → (ℕ → ℕ) → ℕ → ℕ → Bool → Answer × (ℕ → Sem)
p_multi_round sems ids n pid deadlock =
    take_or_wait sems ids n pid deadlock (find_wait sems ids 0 n none)

-- The call up to its first sleep; `limit` is the size of the table or the set.
unfoldable pub p_multi : (ℕ → Sem) → ℕ → (ℕ → ℤ) → ℕ → ℕ → Bool → Answer × (ℕ → Sem)
p_multi sems limit ids n pid deadlock =
    let sorted = sort_ids ids n in
    if not (ids_fit sorted n limit)
    then (refused, sems)
    else p_multi_round sems (λ i. pos_part (sorted i)) n pid deadlock

-- After a sleep: the waiters are lowered, and the next round follows.
unfoldable pub p_multi_woken : (ℕ → Sem) → (ℕ → ℕ) → ℕ → ℕ → Bool → Answer × (ℕ → Sem)
p_multi_woken sems ids n pid deadlock = p_multi_round (unwait_all sems ids 0 n) ids n pid deadlock

-- `struct semset`
pub record SemSet : Type 0 where
  pub allocated : Bool
  pub count : ℕ
  pub sems : ℕ → Sem

abbrev pub no_sem : Sem
no_sem = record { resource_count = pos 0; waiters = 0; owner = 0; allocated = false }

-- `sys_semset_create` with the values copied in, or all 0; `sys_semset_free`.
unfoldable pub new_set : (ℕ → ℤ) → ℕ → SemSet → SemSet
new_set vals n old = record {
  allocated = true;
  count = n;
  sems = λ i.
      if ltb i n
      then (record { resource_count = vals i; waiters = 0; owner = 0; allocated = true })
      else if ltb i set_max_size
      then no_sem
      else old.sems i;
}

unfoldable pub semset_create : (ℕ → SemSet) → ℕ → ℤ → (ℕ → ℤ) → Option ℕ × (ℕ → SemSet) × ℕ
semset_create sets used n vals =
    if not (is_positive n) || ltb_ℤ (pos set_max_size) n
    then (none, sets, used)
    else if not (all_below (pos_part n) (λ i. not (is_negative (vals i))))
    then (none, sets, used)
    else elim (first_from (λ i. not ((sets i).allocated)) 0 set_max_num) [
      | none ↦ (none, sets, used)
      | some i ↦ (some i, put sets i (new_set vals (pos_part n) (sets i)), used + 1)
    ]

abbrev pub is_idle : Sem → Bool
is_idle s = s.allocated && not (is_negative s.resource_count) && not (ltb 0 s.waiters)

unfoldable pub semset_free : (ℕ → SemSet) → ℕ → ℕ → Answer × (ℕ → SemSet) × ℕ
semset_free sets used i =
    let set = sets i in
    if not set.allocated
    then (refused, sets, used)
    else if not (all_below set.count (λ j. is_idle (set.sems j)))
    then (refused, sets, used)
    else (
      granted,
      put sets i (record {
        allocated = false;
        count = 0;
        sems = λ j. if ltb j set.count then no_sem else set.sems j;
      }),
      used - 1,
    )
