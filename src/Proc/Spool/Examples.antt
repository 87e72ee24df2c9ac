-- ===== src/Proc/Spool/Examples.antt =====
-- A write to a full ring whose read counter is past its size.
use oops_os.Prelude.{◌≡◌, false, some, arith}
use oops_os.Proc.Spool.{Spool, gives, spool_write}
use oops_os.Proc.Spool.Overrun.{spool_write_overruns}

abbrev full : Spool
full = record { buf = λ i. 0; r = 4096; w = 8191 }

spool_write_overruns_example :
    ((spool_write full false (λ j. some 7) 0 2).0 ≡ gives 2)
    × ((spool_write full false (λ j. some 7) 0 2).1.r ≡ 4096)
spool_write_overruns_example = spool_write_overruns full false (λ j. 7) 0 2 (omega arith)
