-- ===== src/Proc/Pipe/Examples.antt =====
-- A pipe whose counters are about to wrap, and the theorems there.
use oops_os.Prelude.{
  ℕ, ◌≡◌, refl, true, false, Option, none, some, [], ◌∷◌, arith, ltb, if◌then◌else◌, ◌==◌,
}
use oops_os.Prelude.Arrays.{put}
use oops_os.Proc.Pipe.{Pipe, write_from, read_from, is_full, put_byte}
use oops_os.Proc.Pipe.Queue.{items, contents, IsValid, Wrote, write_from-Wrote}
use oops_os.Proc.Pipe.Reader.{Took, read_from-Took}

abbrev wrapping : Pipe
wrapping = record {
  bytes = λ i. if i == 511 then 65 else 0;
  nread = 4294967295;
  nwrite = 0;
  readopen = true;
  writeopen = true;
}

abbrev two_bytes : ℕ → Option ℕ
two_bytes i = if ltb i 2 then some 66 else none

wrapping-IsValid : IsValid wrapping
wrapping-IsValid = omega arith

written : contents (write_from wrapping false two_bytes 0 3).1 ≡ 65 ∷ 66 ∷ 66 ∷ []
unfolding write_from is_full put_byte items put
written = refl

write_from-Wrote_example :
    Wrote wrapping false two_bytes 0 3 (write_from wrapping false two_bytes 0 3)
write_from-Wrote_example = write_from-Wrote wrapping false two_bytes 0 3 wrapping-IsValid

read_from-Took_example : Took wrapping (λ i. true) 0 3 (read_from wrapping (λ i. true) 0 3)
read_from-Took_example = read_from-Took wrapping (λ i. true) 0 3 wrapping-IsValid
