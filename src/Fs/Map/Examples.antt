-- ===== src/Fs/Map/Examples.antt =====
-- A file with one direct block and one in its indirect block.
use oops_os.Prelude.{◌≡◌, false, some, ltb, ◌==◌, ◌&&◌, if◌then◌else◌, arith}
use oops_os.Fs.Map.{File, bmap, bmap_nalloc}
use oops_os.Fs.Map.Found.{bmap_mapped}
use oops_os.Fs.Map.Read.{IsApart}

abbrev note : File
note = record {
  blocks = record {
    size = 100;
    used = λ i. ltb i 50;
    ref = λ i. 1;
    hint = 0;
    words = λ b i. if b == 40 && i == 0 then 41 else 0;
  };
  addrs = λ i. if i == 0 then 39 else if i == 11 then 40 else 0;
}

bmap_mapped_example : bmap note 11 false ≡ some (bmap_nalloc note 11, note)
unfolding bmap_nalloc
bmap_mapped_example = bmap_mapped note 11 (λ e. omega arith)

note-IsApart : IsApart note
note-IsApart = record {
  single_double = λ n e. omega arith;
  level_double = λ i n. absurd (n (ground arith));
  level_single = λ i n. absurd (n (ground arith));
  level_level = λ i j ne n. absurd (n (ground arith));
}
