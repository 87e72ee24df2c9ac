-- ===== src/Fs/Xattr/Examples.antt =====
-- A first attribute in an empty table.
use oops_os.Prelude.{◌≡◌, ◌⊎◌, ◌-◌, false, some, pos, refl, ok, err, arith}
use oops_os.Fs.Xattr.{Table, name_fits, copied, xattr_set, xattr_get}
use oops_os.Fs.Xattr.Access.{Others}
use oops_os.Fs.Xattr.Stored.{IsFull, xattr_get-xattr_set}
use oops_os.Strings.{strlen_from}

abbrev blank : Table
blank i = record {
  dev = 0;
  inum = 0;
  attrs = λ j. record { name = λ k. 0; value = λ k. 0; value_len = 0; used = false };
  used = false;
}

-- The name is of two bytes, the value of three.
xattr_get-xattr_set_example :
    ((xattr_set blank 1 5 (λ i. 2 - i) (λ i. 7) (pos 3) ≡ (err, blank))
      × IsFull blank 1 5 (λ i. 2 - i))
    ⊎ ((t' : Table) × (xattr_set blank 1 5 (λ i. 2 - i) (λ i. 7) (pos 3) ≡ (ok, t'))
        × (xattr_get t' 1 5 (λ i. 2 - i) (pos 16) (λ i. 0) ≡ some (3, copied (λ i. 0) (λ i. 7) 3))
        × Others 1 5 blank t')
unfolding name_fits strlen_from
xattr_get-xattr_set_example =
    xattr_get-xattr_set blank 1 5 (λ i. 2 - i) (λ i. 7) (λ i. 0) 3 16 refl (omega arith)
      (omega arith) (omega arith)
