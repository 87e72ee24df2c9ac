-- ===== src/Proc/Banker/Examples.antt =====
-- The banker at work on two processes and one resource type, and the theorems at that state.
use oops_os.Prelude.{
  ℕ, ◌≡◌, refl, true, false, some, arith, ◌⊎◌, ℤ, pos, ok, err, ◌==◌, if◌then◌else◌,
}
use oops_os.Prelude.Arrays.{put, all_below}
use oops_os.Prelude.Sums.{sum_below}
use oops_os.Proc.Banker.{
  Banker, Claim, nproc, is_safe, rounds, sweep, scan, visit, need_ok, add_alloc, start,
  all_finished, request, release, bad_count, not_ready, req_ok, grant, decide_grant,
}
use oops_os.Proc.Banker.Safety.{IsSafe, is_safe-IsSafe}
use oops_os.Proc.Banker.Complete.{is_safe_decides}
use oops_os.Proc.Banker.Conserved.{IsConsistent, release-IsConsistent}
use oops_os.Proc.Banker.Requests.{IsAdmissible, granted, request_decides}
use oops_os.Proc.Banker.Releases.{release-IsSafe}

-- Ten units; process 0 claims 8 and holds 4, process 1 claims 9 and holds 2.
abbrev procs : ℕ → Claim
procs i =
    if i == 0
    then (record { unused = false; active = true; max = λ _. 8; alloc = λ _. 4 })
    else if i == 1
    then (record { unused = false; active = true; max = λ _. 9; alloc = λ _. 2 })
    else (record { unused = true; active = false; max = λ _. 0; alloc = λ _. 0 })

abbrev two : Banker
two = record { inited = true; nres = 1; total = λ _. 10; avail = λ _. 4; procs = procs }

two_safe : is_safe two ≡ some true
unfolding is_safe rounds sweep scan visit need_ok add_alloc start all_finished nproc put all_below
two_safe = refl

two-IsConsistent : IsConsistent two
unfolding nproc sum_below
two-IsConsistent = record {
  kept = λ r l. refl;
  idle = λ i r e l. ground arith;
  within = λ i r l. ground arith;
}

two-IsSafe : IsSafe two
two-IsSafe = is_safe-IsSafe two two_safe

-- One unit more for process 0 is granted.
one_unit : ℕ → ℤ
one_unit r = pos 1

granted_one : request two 0 (pos 1) one_unit ≡ some (ok, granted two 0 one_unit)
unfolding request bad_count not_ready req_ok grant is_safe rounds sweep scan visit need_ok add_alloc
    start all_finished nproc put all_below decide_grant one_unit
granted_one = refl

is_safe_decides_example :
    ((is_safe two ≡ some true) × IsSafe two) ⊎ ((is_safe two ≡ some false) × (¬ IsSafe two))
is_safe_decides_example = is_safe_decides two

request_decides_example :
    ((request two 0 (pos 1) one_unit ≡ some (ok, granted two 0 one_unit))
      × IsAdmissible two 0 (pos 1) one_unit
      × IsSafe (granted two 0 one_unit))
    ⊎ ((request two 0 (pos 1) one_unit ≡ some (err, two))
        × (¬ (IsAdmissible two 0 (pos 1) one_unit × IsSafe (granted two 0 one_unit))))
request_decides_example = request_decides two 0 (pos 1) one_unit

release-IsSafe_example : IsSafe (release two 0 (pos 1) one_unit).1
release-IsSafe_example = release-IsSafe two 0 (pos 1) one_unit two-IsSafe

release-IsConsistent_example : IsConsistent (release two 0 (pos 1) one_unit).1
unfolding nproc
release-IsConsistent_example =
    release-IsConsistent two 0 (pos 1) one_unit (omega arith) two-IsConsistent
