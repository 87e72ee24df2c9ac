-- ===== src/Strings/Examples.antt =====
-- Moves and copies of a few bytes.
use oops_os.Prelude.{◌≡◌}
use oops_os.Strings.{memmove}
use oops_os.Strings.Move.{memmove_lem}

-- Three bytes move up by one over themselves.
memmove_lem_example : memmove (λ a. a) 11 10 3 13 ≡ 12
memmove_lem_example = memmove_lem (λ a. a) 11 10 3 13
