-- ===== src/Strings.antt =====
-- kernel/lib/string.c. Memory is a function from addresses to bytes; a C string is one too, from the
-- offsets in it, and ends at its first 0. `memcpy` is `memmove`.
pub mod Move
pub mod Text
mod Examples
use oops_os.Prelude.{
  ℕ, zero, suc, ◌+◌, ◌-◌, Bool, true, false, not, ◌&&◌, Option, none, some, ltb, leb, ◌==◌,
  if◌then◌else◌, ℤ, pos, negsuc,
}
use oops_os.Prelude.Arrays.{put}

-- A byte less a byte, as an `int`.
abbrev pub byte_diff : ℕ → ℕ → ℤ
byte_diff a b = if leb b a then pos (a - b) else negsuc (b - a - 1)

-- `c` is the `int` cast to a `char`.
unfoldable pub memset : (ℕ → ℕ) → ℕ → ℕ → ℕ → ℕ → ℕ
memset m dst c zero = m
memset m dst c (suc n) = memset (put m dst c) (dst + 1) c n

-- `memcmp` of the bytes of two objects from offset `i` on.
unfoldable pub memcmp_from : (ℕ → ℕ) → (ℕ → ℕ) → ℕ → ℕ → ℤ
memcmp_from p q i zero = pos 0
memcmp_from p q i (suc n) =
    let rest = memcmp_from p q (i + 1) n in if not (p i == q i) then byte_diff (p i) (q i) else rest

unfoldable pub memcmp : (ℕ → ℕ) → (ℕ → ℕ) → ℕ → ℤ
memcmp p q n = memcmp_from p q 0 n

-- The two loops of `memmove`.
unfoldable pub copy_down : (ℕ → ℕ) → ℕ → ℕ → ℕ → ℕ → ℕ
copy_down m dst src zero = m
copy_down m dst src (suc n) = copy_down (put m (dst + n) (m (src + n))) dst src n

unfoldable pub copy_up : (ℕ → ℕ) → ℕ → ℕ → ℕ → ℕ → ℕ
copy_up m dst src zero = m
copy_up m dst src (suc n) = copy_up (put m dst (m src)) (dst + 1) (src + 1) n

unfoldable pub memmove : (ℕ → ℕ) → ℕ → ℕ → ℕ → ℕ → ℕ
memmove m dst src n =
    if ltb src dst && ltb dst (src + n) then copy_down m dst src n else copy_up m dst src n

unfoldable pub strncmp_from : (ℕ → ℕ) → (ℕ → ℕ) → ℕ → ℕ → ℤ
strncmp_from p q i zero = pos 0
strncmp_from p q i (suc n) =
    let rest = strncmp_from p q (i + 1) n in
    if not (p i == 0) && p i == q i then rest else byte_diff (p i) (q i)

unfoldable pub strncmp : (ℕ → ℕ) → (ℕ → ℕ) → ℕ → ℤ
strncmp p q n = strncmp_from p q 0 n

-- The second loop of `strncpy`.
unfoldable pub pad : (ℕ → ℕ) → ℕ → ℕ → ℕ → ℕ
pad s i zero = s
pad s i (suc n) = pad (put s i 0) (i + 1) n

unfoldable pub strncpy_from : (ℕ → ℕ) → (ℕ → ℕ) → ℕ → ℕ → ℕ → ℕ
strncpy_from s t i zero = s
strncpy_from s t i (suc n) =
    let rest = strncpy_from (put s i (t i)) t (i + 1) n in
    if t i == 0 then pad (put s i (t i)) (i + 1) n else rest

unfoldable pub strncpy : (ℕ → ℕ) → (ℕ → ℕ) → ℕ → ℕ → ℕ
strncpy s t n = strncpy_from s t 0 n

-- `safestrcpy` with `n` greater than 0, after `--n`.
unfoldable pub safe_from : (ℕ → ℕ) → (ℕ → ℕ) → ℕ → ℕ → ℕ → ℕ
safe_from s t i zero = put s i 0
safe_from s t i (suc n) =
    let rest = safe_from (put s i (t i)) t (i + 1) n in
    if t i == 0 then put (put s i (t i)) (i + 1) 0 else rest

unfoldable pub safestrcpy : (ℕ → ℕ) → (ℕ → ℕ) → ℕ → ℕ → ℕ
safestrcpy s t zero = s
safestrcpy s t (suc n) = safe_from s t 0 n

-- `strlen` on a memory of `k` more bytes; `none` is a string with no end in it.
unfoldable pub strlen_from : (ℕ → ℕ) → ℕ → ℕ → Option ℕ
strlen_from s n zero = none
strlen_from s n (suc k) = let rest = strlen_from s (n + 1) k in if s n == 0 then some n else rest
