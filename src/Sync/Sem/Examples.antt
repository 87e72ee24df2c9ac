-- ===== src/Sync/Sem/Examples.antt =====
-- Two semaphores with one resource each.
use oops_os.Prelude.{ℕ, true, false, arith, pos, ℤ, ◌==◌, if◌then◌else◌}
use oops_os.Sync.Sem.{Sem, p_multi}
use oops_os.Sync.Sem.Call.{IsFair, p_multi-IsFair}

abbrev both_free : ℕ → Sem
both_free i = record { resource_count = pos 1; waiters = 0; owner = 0; allocated = true }

abbrev one_then_zero : ℕ → ℤ
one_then_zero i = if i == 0 then (pos 1) else pos 0

p_multi-IsFair_example :
    IsFair both_free 128 2 one_then_zero (p_multi both_free 128 one_then_zero 2 7 false)
p_multi-IsFair_example = p_multi-IsFair both_free 128 one_then_zero 2 7 false (omega arith)
