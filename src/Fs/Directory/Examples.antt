-- ===== src/Fs/Directory/Examples.antt =====
-- A directory with the entry `a` and a free entry, to which `b` is added; the path `a/b`.
use oops_os.Prelude.{ℕ, ◌≡◌, ◌≤◌, ◌<◌, inl, true, refl, arith, ◌⊎◌, ◌==◌, if◌then◌else◌}
use oops_os.Fs.Directory.{Dirent, Dir, dirlookup, linked, exists, missing, found, dirlink}
use oops_os.Fs.Directory.Search.{IsAdded, dirlink_lem}
use oops_os.Fs.Directory.Paths.{IsPath, no_element, slash, skipelem}
use oops_os.Fs.Directory.Elements.{IsNext, skipelem_lem}

abbrev letter : ℕ → ℕ → ℕ
letter c i = if i == 0 then c else 0

abbrev small_dir : Dir
small_dir = record {
  is_dir = true;
  size = 32;
  entries = λ k.
      if k == 0
      then (record { inum = 5; name = letter 97 })
      else (record { inum = 0; name = letter 0 });
}

abbrev no_entry : Dirent
no_entry = record { inum = 0; name = letter 0 }

dirlink_lem_example :
    ((i : ℕ) × (off : ℕ) × (dirlookup small_dir (letter 98) ≡ found i off)
      × (dirlink no_entry true small_dir (letter 98) 7 ≡ exists))
    ⊎ ((d' : Dir) × (dirlookup small_dir (letter 98) ≡ missing)
        × (dirlink no_entry true small_dir (letter 98) 7 ≡ linked d')
        × IsAdded small_dir d' (letter 98) 7)
dirlink_lem_example =
    dirlink_lem no_entry small_dir (letter 98) 7 refl refl (omega arith) (omega arith) (omega arith)

-- The path stands at 100, and the name at 0.
abbrev path_bytes : ℕ → ℕ
path_bytes i = if i == 100 then 97 else if i == 101 then 47 else if i == 102 then 98 else 0

path_bytes-IsPath : IsPath path_bytes 100 0 10 103
path_bytes-IsPath = record {
  ends = refl;
  first = λ j a b. ground arith;
  start = omega arith;
  reach = omega arith;
  apart = inl (omega arith);
}

skipelem_lem_example :
    (((j : ℕ) → 100 ≤ j → j < 103 → path_bytes j ≡ slash)
      × (skipelem path_bytes 100 0 10 ≡ no_element))
    ⊎ IsNext path_bytes 100 0 103 (skipelem path_bytes 100 0 10)
skipelem_lem_example = skipelem_lem path_bytes 100 0 10 103 path_bytes-IsPath
