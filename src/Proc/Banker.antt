-- ===== src/Proc/Banker.antt =====
-- kernel/proc/proc.c, the banker: deadlock avoidance over `nres` resource types. The functions
-- with a lock take it first and release it on every return, so each runs as one step. Arrays are
-- functions of the index. Stored counts have passed the guards against negative values, so they
-- are natural numbers; `a - b < c` of the source is written `a < b + c`.

pub mod Safety
pub mod Complete
pub mod Conserved
pub mod Requests
mod Examples
pub mod Releases
use oops_os.Prelude.{
  ℕ, zero, suc, ◌+◌, ◌-◌, Bool, true, false, ◌&&◌, ◌||◌, not, Option, none, some, ltb, leb, ◌==◌,
  if◌then◌else◌, ℤ, pos, pos_part, ltb_ℤ, Status, ok, err,
}
use oops_os.Prelude.Arrays.{put, all_below}

abbrev pub max_res : ℕ
max_res = 8

-- NPROC; shut, so that no proof unrolls a loop over the table.
unfoldable pub nproc : ℕ
nproc = 64

-- The fields of `struct proc` that the banker reads. `unused` is `state == UNUSED`.
pub record Claim : Type 0 where
  pub unused : Bool
  pub active : Bool
  pub max : ℕ → ℕ
  pub alloc : ℕ → ℕ

-- `struct banker_state` with the process table.
pub record Banker : Type 0 where
  pub inited : Bool
  pub nres : ℕ
  pub total : ℕ → ℕ
  pub avail : ℕ → ℕ
  pub procs : ℕ → Claim

unfoldable pub need_ok : Banker → ℕ → (ℕ → ℕ) → Bool
need_ok b i work = all_below b.nres (λ r. leb ((b.procs i).max r) (work r + (b.procs i).alloc r))

-- The locals of `banker_is_safe_locked`.
pub record Search : Type 0 where
  pub work : ℕ → ℕ
  pub finish : ℕ → Bool
  pub progress : Bool

-- `work[r] += p->bkr_alloc[r]` for `r < nres`
unfoldable pub add_alloc : Banker → ℕ → (ℕ → ℕ) → ℕ → ℕ
add_alloc b i work r = if ltb r b.nres then work r + (b.procs i).alloc r else work r

unfoldable pub visit : Banker → ℕ → Search → Search
visit b i s =
    if s.finish i
    then s
    else if need_ok b i s.work
    then record { work = add_alloc b i s.work; finish = put s.finish i true; progress = true }
    else s

-- The inner loop, from process `i` on, over `k` processes.
unfoldable pub scan : Banker → ℕ → ℕ → Search → Search
scan b zero i s = s
scan b (suc k) i s = scan b k (suc i) (visit b i s)

-- One round of the outer loop.
unfoldable pub sweep : Banker → Search → Search
sweep b s = scan b nproc 0 (record s { progress = false })

-- The outer loop; `none` when the fuel runs out.
unfoldable pub rounds : Banker → ℕ → Search → Option Search
rounds b zero s = none
rounds b (suc fuel) s =
    let s' = sweep b s in let rest = rounds b fuel s' in if s'.progress then rest else some s'

unfoldable pub start : Banker → Search
start b = record {
  work = b.avail;
  finish = λ i. (b.procs i).unused || not (b.procs i).active;
  progress = false;
}

unfoldable pub all_finished : Option Search → Option Bool
all_finished none = none
all_finished (some s) = some (all_below nproc s.finish)

unfoldable pub is_safe : Banker → Option Bool
is_safe b = all_finished (rounds b (suc nproc) (start b))

unfoldable pub any_alloc : Banker → Bool
any_alloc b = not (
    all_below nproc
      (λ i. not (b.procs i).active || all_below b.nres (λ r. not (ltb 0 ((b.procs i).alloc r)))))

-- `nres <= 0 || nres > BANKER_RES_MAX`
unfoldable pub bad_count : ℤ → Bool
bad_count n = not (ltb_ℤ (pos 0) n) || ltb max_res (pos_part n)

unfoldable pub cleared : Claim → Claim
cleared c = record c { active = false; max = λ _. 0; alloc = λ _. 0 }

unfoldable pub init_state : (ℕ → Claim) → Banker
init_state procs = record {
  inited = false;
  nres = 0;
  total = λ _. 0;
  avail = λ _. 0;
  procs = procs;
}

unfoldable pub init : Banker → ℤ → (ℕ → ℤ) → Status × Banker
init b nres total =
    if bad_count nres
    then (err, b)
    else if not (all_below (pos_part nres) (λ r. not (ltb_ℤ (total r) (pos 0))))
    then (err, b)
    else if b.inited && any_alloc b
    then (err, b)
    else (
      ok,
      record {
        inited = true;
        nres = pos_part nres;
        total = λ r. if ltb r (pos_part nres) then pos_part (total r) else 0;
        avail = λ r. if ltb r (pos_part nres) then pos_part (total r) else 0;
        procs = λ i. cleared (b.procs i);
      },
    )

-- The checks of `banker_set_max` for one resource.
unfoldable pub max_ok : Banker → ℕ → (ℕ → ℤ) → ℕ → Bool
max_ok b p max r =
    not (ltb_ℤ (max r) (pos 0) || ltb (b.total r) (pos_part (max r)))
    && not (ltb (pos_part (max r)) ((b.procs p).alloc r))

unfoldable pub claim : Claim → ℕ → (ℕ → ℤ) → Claim
claim c nres max = record c {
  active = true;
  alloc = if c.active then c.alloc else (λ _. 0);
  max = λ r. if ltb r nres then pos_part (max r) else 0;
}

unfoldable pub set_max : Banker → ℕ → ℤ → (ℕ → ℤ) → Status × Banker
set_max b p nres max =
    if bad_count nres
    then (err, b)
    else if not b.inited || not (pos_part nres == b.nres)
    then (err, b)
    else if not (all_below (pos_part nres) (max_ok b p max))
    then (err, b)
    else (ok, record b { procs = put b.procs p (claim (b.procs p) (pos_part nres) max) })

-- `!banker.inited || nres != banker.nres || !p->bkr_active`
unfoldable pub not_ready : Banker → ℕ → ℕ → Bool
not_ready b p nres = not b.inited || not (nres == b.nres) || not (b.procs p).active

-- The checks of `banker_request` for one resource.
unfoldable pub req_ok : Banker → ℕ → (ℕ → ℤ) → ℕ → Bool
req_ok b p req r = not (
    ltb_ℤ (req r) (pos 0)
    || ltb ((b.procs p).max r) ((b.procs p).alloc r + pos_part (req r))
    || ltb (b.avail r) (pos_part (req r)))

-- The loops that move `amount[r]`, `r < nres`, from `avail` to `p` and back.
unfoldable pub grant : Banker → ℕ → ℕ → (ℕ → ℕ) → Banker
grant b p n amount = record b {
  avail = λ r. if ltb r n then b.avail r - amount r else b.avail r;
  procs = put b.procs p (record (b.procs p) {
    alloc = λ r. if ltb r n then (b.procs p).alloc r + amount r else (b.procs p).alloc r;
  });
}

unfoldable pub take_back : Banker → ℕ → ℕ → (ℕ → ℕ) → Banker
take_back b p n amount = record b {
  avail = λ r. if ltb r n then b.avail r + amount r else b.avail r;
  procs = put b.procs p (record (b.procs p) {
    alloc = λ r. if ltb r n then (b.procs p).alloc r - amount r else (b.procs p).alloc r;
  });
}

-- `if (!banker_is_safe_locked()) { roll back; return -1; }`
unfoldable pub decide_grant : Option Bool → Banker → ℕ → ℕ → (ℕ → ℕ) → Option (Status × Banker)
decide_grant none b p n req = none
decide_grant (some true) b p n req = some (ok, b)
decide_grant (some false) b p n req = some (err, take_back b p n req)

unfoldable pub request : Banker → ℕ → ℤ → (ℕ → ℤ) → Option (Status × Banker)
request b p nres req =
    if bad_count nres
    then some (err, b)
    else if not_ready b p (pos_part nres)
    then some (err, b)
    else if not (all_below (pos_part nres) (req_ok b p req))
    then some (err, b)
    else (let amount = λ (r : ℕ). pos_part (req r) in
        let b' = grant b p (pos_part nres) amount in
        decide_grant (is_safe b') b' p (pos_part nres) amount)

unfoldable pub rel_ok : Banker → ℕ → (ℕ → ℤ) → ℕ → Bool
rel_ok b p rel r = not (ltb_ℤ (rel r) (pos 0) || ltb ((b.procs p).alloc r) (pos_part (rel r)))

unfoldable pub release : Banker → ℕ → ℤ → (ℕ → ℤ) → Status × Banker
release b p nres rel =
    if bad_count nres
    then (err, b)
    else if not_ready b p (pos_part nres)
    then (err, b)
    else if not (all_below (pos_part nres) (rel_ok b p rel))
    then (err, b)
    else (ok, take_back b p (pos_part nres) (λ r. pos_part (rel r)))

unfoldable pub release_proc : Banker → ℕ → Banker
release_proc b p = if not b.inited || not (b.procs p).active then b else record b {
  avail = λ r. if ltb r b.nres then b.avail r + (b.procs p).alloc r else b.avail r;
  procs = put b.procs p (record (b.procs p) {
    active = false;
    max = λ r. if ltb r b.nres then 0 else (b.procs p).max r;
    alloc = λ r. if ltb r b.nres then 0 else (b.procs p).alloc r;
  });
}
