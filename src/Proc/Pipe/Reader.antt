-- ===== src/Proc/Pipe/Reader.antt =====
-- `piperead` takes the oldest bytes of the queue, in order.
use oops_os.Prelude.{
  ℕ, zero, suc, ◌+◌, ◌-◌, ◌≡◌, refl, sym, ap, ◌∙◌, Bool, true, false, ◌∷◌, ◌++◌, arith, inl, inr,
  ◌⊎◌, Bool-cases, subst, List, [], length, ◌<◌,
}
use oops_os.Proc.Pipe.{Pipe, u32, is_empty, next_byte, drop_byte, deliver, read_from}
use oops_os.Proc.Pipe.Queue.{items, held, contents, IsValid}

drop_byte-lem :
    (p : Pipe)
    → IsValid p
    → is_empty p ≡ false
    → IsValid (drop_byte p)
      × (contents p ≡ next_byte p ∷ contents (drop_byte p))
      × (held p ≡ suc (held (drop_byte p)))
unfolding drop_byte next_byte is_empty items
drop_byte-lem p v ne = (
  record { read_range = omega arith; write_range = v.write_range; few = ground arith },
  ap (items p.bytes p.nread) less,
  less,
)
  where
    less : held p ≡ suc (u32 (p.nwrite + 4294967296 - u32 (p.nread + 1)))
    less = ground arith

-- How a reader that was asked for `k` bytes from offset `i` on ends: `copyout` has got `bs`, which is a prefix
-- of the queue, and the count says how many they are. Either the rest is still in the pipe, and `bs` are `k`
-- bytes or the pipe is empty; or `copyout` refused the byte after `bs`, and the pipe holds what follows that.
abbrev pub Took : Pipe → (ℕ → Bool) → ℕ → ℕ → ℕ × List ℕ × Pipe → Type 0
Took p accepts i k (c, bs, p') =
    IsValid p'
    × (p'.bytes ≡ p.bytes)
    × (c ≡ i + length bs)
    × (((contents p ≡ bs ++ contents p') × ((length bs ≡ k) ⊎ (is_empty p' ≡ true)))
        ⊎ ((ch : ℕ) × (contents p ≡ bs ++ (ch ∷ contents p'))
            × (length bs < k)
            × (accepts c ≡ false)))

Took-step :
    (p : Pipe) (accepts : ℕ → Bool) (i k : ℕ) (r : ℕ × List ℕ × Pipe)
    → contents p ≡ next_byte p ∷ contents (drop_byte p)
    → Took (drop_byte p) accepts (i + 1) k r
    → Took p accepts i (suc k) (deliver (next_byte p) r)
unfolding deliver drop_byte
Took-step p accepts i k (c, bs, p') e (v, same, n, inl (w, en)) = (
  v,
  same,
  omega (arith, n),
  inl (e ∙ ap (λ xs. next_byte p ∷ xs) w, elim en [ inl q ↦ inl (ap suc q) | inr q ↦ inr q ]),
)
Took-step p accepts i k (c, bs, p') e (v, same, n, inr (ch, w, l, a)) =
    (v, same, omega (arith, n), inr (ch, e ∙ ap (λ xs. next_byte p ∷ xs) w, omega (arith, l), a))

-- The copy loop of `piperead` on a valid pipe, asked for `k` bytes from an offset on: `copyout` gets the
-- oldest bytes of the queue in order, as many as the count says, and a valid pipe with the same storage is
-- left. The loop ends after `k` bytes or at an empty pipe, with the rest of the queue in the pipe; or at a
-- byte that `copyout` refuses, which is lost: it is neither counted nor in the pipe any more.
pub read_from-Took :
    (p : Pipe) (accepts : ℕ → Bool) (i k : ℕ)
    → IsValid p
    → Took p accepts i k (read_from p accepts i k)
unfolding read_from
read_from-Took p accepts i zero v = (v, refl, omega arith, inl (refl, inl refl))
read_from-Took p accepts i (suc k) v = elim (Bool-cases (is_empty p)) [
  | inl e ↦
      subst (Took p accepts i (suc k)) (sym (ended e)) (v, refl, omega arith, inl (refl, inr e))
  | inr ne ↦
      let (valid, next, fewer) = drop_byte-lem p v ne in
      elim (Bool-cases (accepts i)) [
        | inl a ↦
            subst (Took p accepts i (suc k)) (sym (go_on ne a)) (
              Took-step p accepts i k _ next (read_from-Took (drop_byte p) accepts (i + 1) k valid))
        | inr a ↦
            subst (Took p accepts i (suc k)) (sym (stop ne a)) (
              valid,
              unfold drop_byte in refl,
              omega arith,
              inr (next_byte p, next, omega arith, a),
            )
      ]
]
  where
    ended : is_empty p ≡ true → read_from p accepts i (suc k) ≡ (i, [], p)
    ended e = rw (read_from, e)

    go_on :
        is_empty p ≡ false
        → accepts i ≡ true
        → read_from p accepts i (suc k)
          ≡ deliver (next_byte p) (read_from (drop_byte p) accepts (i + 1) k)
    go_on ne a = rw (read_from, ne, a)

    stop :
        is_empty p ≡ false
        → accepts i ≡ false
        → read_from p accepts i (suc k) ≡ (i, [], drop_byte p)
    stop ne a = rw (read_from, ne, a)
