-- ===== src/Proc/Spool/Overrun.antt =====
-- The full test of `spoolwrite` once the read counter has passed the size of the ring.
use oops_os.Prelude.{ℕ, zero, suc, ◌+◌, ◌≤◌, ◌≡◌, refl, ap, ◌∙◌, Bool, false, some, arith}
use oops_os.Proc.Spool.{Spool, spool_buf, gives, spool_full, spool_put, spool_write}

spool_full-false : (s : Spool) → spool_buf ≤ s.r → spool_full s ≡ false
unfolding spool_full
spool_full-false s l = ground arith

spool_put_lem : (s : Spool) (c : ℕ) → (spool_put s c).r ≡ s.r
unfolding spool_put
spool_put_lem s c = refl

-- Once the read counter is at least the size of the ring, a write of any number of readable bytes
-- never waits for the reader: it returns the number of all of them, however many are unread, and
-- leaves the read counter as it was.
pub spool_write_overruns :
    (s : Spool) (killed : Bool) (data_at : ℕ → ℕ) (i k : ℕ)
    → spool_buf ≤ s.r
    → ((spool_write s killed (λ j. some (data_at j)) i k).0 ≡ gives (i + k))
      × ((spool_write s killed (λ j. some (data_at j)) i k).1.r ≡ s.r)
unfolding spool_write
spool_write_overruns s killed data_at i zero l = (ap gives (omega arith), refl)
spool_write_overruns s killed data_at i (suc k) l =
    let next =
      spool_write_overruns (spool_put s (data_at i)) killed data_at (i + 1) k
        (omega (arith, l, spool_put_lem s (data_at i))) in
    rw (spool_write, spool_full-false s l)
      (next.0 ∙ ap gives (omega arith), next.1 ∙ spool_put_lem s (data_at i))
