-- ===== src/Fs/Directory/Paths.antt =====
-- Path names: skipelem of kernel/filesystem/fs.c, on memory. `k` bounds each of its three loops.
use oops_os.Prelude.{
  ℕ, ◌+◌, ◌-◌, ◌≤◌, ◌<◌, ◌≡◌, ◌≢◌, not, ◌||◌, Option, none, some, leb, ◌==◌, if◌then◌else◌, ◌⊎◌,
}
use oops_os.Prelude.Arrays.{put}
use oops_os.Prelude.Search.{first_from}
use oops_os.Strings.{memmove}
use oops_os.Fs.Directory.{dir_siz}

-- '/'
abbrev pub slash : ℕ
slash = 47

-- `run_out` is a string with no end in the `k` bytes; `element` has the path after the element and the
-- memory with the name in it.
pub data Element : Type 0 where
  run_out no_element : Element
  element : ℕ → (ℕ → ℕ) → Element

-- `while(*path == '/') path++;` and `while(*path != '/' && *path != 0) path++;`
abbrev pub skip_slashes : (ℕ → ℕ) → ℕ → ℕ → Option ℕ
skip_slashes m path k = first_from (λ i. not (m i == slash)) path k

abbrev pub skip_name : (ℕ → ℕ) → ℕ → ℕ → Option ℕ
skip_name m path k = first_from (λ i. m i == slash || m i == 0) path k

unfoldable pub copy_name : (ℕ → ℕ) → ℕ → ℕ → ℕ → ℕ → ℕ
copy_name m name s len =
    if leb dir_siz len then memmove m name s dir_siz else put (memmove m name s len) (name + len) 0

unfoldable pub after_name : (ℕ → ℕ) → ℕ → ℕ → Element
after_name m path k = elim (skip_slashes m path k) [ none ↦ run_out | some r ↦ element r m ]

unfoldable pub skip_element : (ℕ → ℕ) → ℕ → ℕ → ℕ → Element
skip_element m s name k = elim (skip_name m s k) [
  | none ↦ run_out
  | some e ↦ after_name (copy_name m name s (e - s)) e k
]

unfoldable pub skipelem : (ℕ → ℕ) → ℕ → ℕ → ℕ → Element
skipelem m path name k = elim (skip_slashes m path k) [
  | none ↦ run_out
  | some s ↦ if m s == 0 then no_element else skip_element m s name k
]

-- The string at `path` ends at `stop`, which the loops reach, and the 14 bytes of `name` are elsewhere.
pub record IsPath (m : ℕ → ℕ) (path name k stop : ℕ) : Type 0 where
  pub ends : m stop ≡ 0
  pub first : (j : ℕ) → path ≤ j → j < stop → m j ≢ 0
  pub start : path ≤ stop
  pub reach : stop < path + k
  pub apart : (name + dir_siz ≤ path) ⊎ (stop < name)
