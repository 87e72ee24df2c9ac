-- ===== src/Proc/Pipe.antt =====
-- kernel/proc/pipe.c: the ring of a pipe between a writer and a reader. Each call runs under the
-- pipe's lock until it returns or sleeps; a call that wakes goes on with the index it has reached.
pub mod Queue
pub mod Reader
mod Examples
use oops_os.Prelude.{
  ℕ, zero, suc, ◌+◌, ◌%◌, ◌^◌, Bool, true, false, ◌||◌, ◌&&◌, not, Option, none, some, ◌==◌,
  if◌then◌else◌, List, [], ◌∷◌,
}
use oops_os.Prelude.Arrays.{put}

abbrev pub pipe_size : ℕ
pipe_size = 512

-- `uint` counters wrap at 2^32.
abbrev pub u32 : ℕ → ℕ
u32 n = n % 4294967296

pub record Pipe : Type 0 where
  pub bytes : ℕ → ℕ
  pub nread : ℕ
  pub nwrite : ℕ
  pub readopen : Bool
  pub writeopen : Bool

-- The pipe that `pipealloc` makes.
unfoldable pub fresh : (ℕ → ℕ) → Pipe
fresh bytes = record { bytes = bytes; nread = 0; nwrite = 0; readopen = true; writeopen = true }

-- `pipeclose`: the pipe, and whether it is freed.
unfoldable pub close : Pipe → Bool → Pipe × Bool
close p writable =
    let p' =
      if writable then (record p { writeopen = false }) else (record p { readopen = false }) in
    (p', not p'.readopen && not p'.writeopen)

-- How a call leaves the lock: it returns a count, returns -1, or sleeps at an index.
pub data Outcome : Type 0 where
  returned : ℕ → Outcome
  failed : Outcome
  sleeping : ℕ → Outcome

unfoldable pub is_full : Pipe → Bool
is_full p = p.nwrite == u32 (p.nread + pipe_size)

unfoldable pub put_byte : Pipe → ℕ → Pipe
put_byte p ch = record p {
  bytes = put p.bytes (p.nwrite % pipe_size) ch;
  nwrite = u32 (p.nwrite + 1);
}

-- The loop of `pipewrite` from index `i` on, with `k` bytes to go. `source` is what `copyin` gives
-- at each offset, `none` where it fails.
unfoldable pub write_from : Pipe → Bool → (ℕ → Option ℕ) → ℕ → ℕ → Outcome × Pipe
write_from p killed source i zero = (returned i, p)
write_from p killed source i (suc k) = elim (is_full p) [
  | true ↦ ((if not p.readopen || killed then failed else sleeping i), p)
  | false ↦ elim (source i) [
    | none ↦ (returned i, p)
    | some ch ↦ write_from (put_byte p ch) killed source (i + 1) k
  ]
]

unfoldable pub is_empty : Pipe → Bool
is_empty p = p.nread == p.nwrite

unfoldable pub next_byte : Pipe → ℕ
next_byte p = p.bytes (p.nread % pipe_size)

unfoldable pub drop_byte : Pipe → Pipe
drop_byte p = record p { nread = u32 (p.nread + 1) }

-- A byte that `copyout` has taken goes in front of those that follow.
unfoldable pub deliver : ℕ → ℕ × List ℕ × Pipe → ℕ × List ℕ × Pipe
deliver ch (c, bs, p) = (c, ch ∷ bs, p)

-- The copy loop of `piperead`: the count, and the bytes that `copyout` has put at the offsets from `i` on.
-- `accepts` says whether it succeeds at each offset; a byte that it refuses has been taken from the pipe
-- and is not counted.
unfoldable pub read_from : Pipe → (ℕ → Bool) → ℕ → ℕ → ℕ × List ℕ × Pipe
read_from p accepts i zero = (i, [], p)
read_from p accepts i (suc k) = elim (is_empty p) [
  | true ↦ (i, [], p)
  | false ↦ elim (accepts i) [
    | false ↦ (i, [], drop_byte p)
    | true ↦ deliver (next_byte p) (read_from (drop_byte p) accepts (i + 1) k)
  ]
]

unfoldable pub count_of : ℕ × List ℕ × Pipe → Outcome × List ℕ × Pipe
count_of (i, bs, p) = (returned i, bs, p)

unfoldable pub read : Pipe → Bool → (ℕ → Bool) → ℕ → Outcome × List ℕ × Pipe
read p killed accepts n =
    if is_empty p && p.writeopen
    then ((if killed then failed else sleeping 0), [], p)
    else count_of (read_from p accepts 0 n)
