-- ===== src/Proc/Pipe/Queue.antt =====
-- A pipe is a queue of at most PIPESIZE bytes, over the wrap-around of its counters.
use oops_os.Prelude.{
  ℕ, zero, suc, ◌+◌, ◌-◌, ◌%◌, ◌≤◌, ◌<◌, ◌≡◌, refl, sym, ap, ap₂, ◌∙◌, Bool, true, false, ◌||◌, not,
  Option, none, some, List, [], ◌∷◌, ◌++◌, arith, inl, inr, ◌⊎◌, Bool-cases, Option-cases, subst,
  if◌then◌else◌,
}
use oops_os.Prelude.Arrays.{put, put_self, put_ne}
use oops_os.Proc.Pipe.{
  Pipe, pipe_size, u32, is_full, put_byte, Outcome, returned, failed, sleeping, write_from,
}
use mathlib.Core.List.{append-nil, append_assoc}

-- The `k` bytes from counter `r` on.
unfoldable pub items : (ℕ → ℕ) → ℕ → ℕ → List ℕ
items bytes r zero = []
items bytes r (suc k) = bytes (r % pipe_size) ∷ items bytes (u32 (r + 1)) k

abbrev pub held : Pipe → ℕ
held p = u32 (p.nwrite + 4294967296 - p.nread)

abbrev pub contents : Pipe → List ℕ
contents p = items p.bytes p.nread (held p)

pub record IsValid (p : Pipe) : Type 0 where
  pub read_range : p.nread < 4294967296
  pub write_range : p.nwrite < 4294967296
  pub few : held p ≤ pipe_size

-- A byte stored behind `k` others lies behind them in the queue.
items-put :
    (bytes : ℕ → ℕ) (r k w ch : ℕ)
    → k < pipe_size
    → w % pipe_size ≡ (r + k) % pipe_size
    → items (put bytes (w % pipe_size) ch) r (suc k) ≡ items bytes r k ++ (ch ∷ [])
unfolding items
items-put bytes r zero w ch l e =
    ap (λ (x : ℕ). x ∷ [])
      (subst (λ (t : ℕ). put bytes (w % pipe_size) ch t ≡ ch) (omega arith)
        (put_self bytes (w % pipe_size) ch))
items-put bytes r (suc k) w ch l e =
    ap₂ ◌∷◌ (put_ne bytes (w % pipe_size) ch (r % pipe_size) (omega arith))
      (items-put bytes (u32 (r + 1)) k w ch (omega arith) (omega arith))

put_byte-lem :
    (p : Pipe) (ch : ℕ)
    → IsValid p
    → is_full p ≡ false
    → IsValid (put_byte p ch) × (contents (put_byte p ch) ≡ contents p ++ (ch ∷ []))
unfolding put_byte is_full
put_byte-lem p ch v nf = (
  record { read_range = v.read_range; write_range = omega arith; few = ground arith },
  ap (items (put p.bytes (p.nwrite % pipe_size) ch) p.nread) more
      ∙ items-put p.bytes p.nread (held p) p.nwrite ch (ground arith) (ground arith),
)
  where
    more : u32 (u32 (p.nwrite + 1) + 4294967296 - p.nread) ≡ suc (held p)
    more = ground arith

abbrev pub byte_of : Option ℕ → ℕ
byte_of none = 0
byte_of (some ch) = ch

-- The `m` bytes of the writer's buffer from index `i` on.
unfoldable pub payload : (ℕ → Option ℕ) → ℕ → ℕ → List ℕ
payload source i zero = []
payload source i (suc m) = byte_of (source i) ∷ payload source (i + 1) m

-- Why a writer that was to store `k` bytes from index `i` on stopped after `m`.
abbrev pub Stopped : Pipe → Bool → (ℕ → Option ℕ) → ℕ → ℕ → ℕ → Outcome → Type 0
Stopped p killed source i k m (returned c) =
    (c ≡ i + m) × ((m ≡ k) ⊎ ((m < k) × (source (i + m) ≡ none)))
Stopped p killed source i k m failed =
    (m < k) × (is_full p ≡ true) × ((not p.readopen || killed) ≡ true)
Stopped p killed source i k m (sleeping c) =
    (c ≡ i + m) × (m < k) × (is_full p ≡ true) × ((not p.readopen || killed) ≡ false)

abbrev pub Wrote : Pipe → Bool → (ℕ → Option ℕ) → ℕ → ℕ → Outcome × Pipe → Type 0
Wrote p killed source i k (o, p') =
    (m : ℕ) × IsValid p'
    × (contents p' ≡ contents p ++ payload source i m)
    × Stopped p' killed source i k m o

Stopped-suc :
    (p : Pipe) (killed : Bool) (source : ℕ → Option ℕ) (i k m : ℕ) (o : Outcome)
    → Stopped p killed source (i + 1) k m o
    → Stopped p killed source i (suc k) (suc m) o
Stopped-suc p killed source i k m (returned c) (e, inl q) = (omega arith, inl (omega arith))
Stopped-suc p killed source i k m (returned c) (e, inr q) =
    (omega arith, inr (omega arith, subst (λ j. source j ≡ none) (omega arith) q.1))
Stopped-suc p killed source i k m failed s = (omega arith, s.1, s.2)
Stopped-suc p killed source i k m (sleeping c) s = (omega arith, omega arith, s.2, s.3)

-- A byte stored first, and then what the rest of the loop stored.
Wrote-step :
    (p q : Pipe) (killed : Bool) (source : ℕ → Option ℕ) (i k ch : ℕ) (r : Outcome × Pipe)
    → source i ≡ some ch
    → contents q ≡ contents p ++ (ch ∷ [])
    → Wrote q killed source (i + 1) k r
    → Wrote p killed source i (suc k) r
unfolding payload
Wrote-step p q killed source i k ch (o, p') e c (m, v, w, st) = (
  suc m,
  v,
  w
      ∙ ap (λ xs. xs ++ payload source (i + 1) m) c
      ∙ append_assoc (contents p) (ch ∷ []) (payload source (i + 1) m)
      ∙ ap (λ b. contents p ++ (b ∷ payload source (i + 1) m)) (sym (ap byte_of e)),
  Stopped-suc p' killed source i k m o st,
)

-- `pipewrite` from index `i` on, on a valid pipe: for some number of bytes it appends exactly these
-- bytes of the writer's buffer, in order, to the queue; the pipe stays valid. It returns the index
-- that it has reached if all bytes are stored or the next cannot be read, and otherwise finds the pipe
-- full: then it fails if the reader is gone or the writer killed, and sleeps at that index if not.
pub write_from-Wrote :
    (p : Pipe) (killed : Bool) (source : ℕ → Option ℕ) (i k : ℕ)
    → IsValid p
    → Wrote p killed source i k (write_from p killed source i k)
unfolding write_from payload
write_from-Wrote p killed source i zero v =
    (zero, v, sym (append-nil (contents p)), (omega arith, inl refl))
write_from-Wrote p killed source i (suc k) v = elim (Bool-cases (is_full p)) [
  | inl full ↦
      subst (Wrote p killed source i (suc k)) (sym (rw (full, write_from)))
        (zero, v, sym (append-nil (contents p)), blocked full)
  | inr free ↦ elim (Option-cases (source i)) [
    | inl e ↦ subst (Wrote p killed source i (suc k)) (sym (stop free e)) (
      zero,
      v,
      sym (append-nil (contents p)),
      (omega arith, inr (omega arith, subst (λ j. source j ≡ none) (omega arith) e)),
    )
    | inr (ch, e) ↦ subst (Wrote p killed source i (suc k)) (sym (go_on ch free e)) (
        Wrote-step p (put_byte p ch) killed source i k ch _ e (put_byte-lem p ch v free).1
          (write_from-Wrote (put_byte p ch) killed source (i + 1) k (put_byte-lem p ch v free).0))
  ]
]
  where
    blocked :
        is_full p ≡ true
        → Stopped p killed source i
            (suc k)
            0
            (if not p.readopen || killed then failed else sleeping i)
    blocked full = elim (Bool-cases (not p.readopen || killed)) [
      | inl q ↦ rw q (omega arith, full, q)
      | inr q ↦ rw q (omega arith, omega arith, full, q)
    ]

    stop :
        is_full p ≡ false → source i ≡ none → write_from p killed source i (suc k) ≡ (returned i, p)
    stop free e = rw (write_from, free, e)

    go_on :
        (ch : ℕ)
        → is_full p ≡ false
        → source i ≡ some ch
        → write_from p killed source i (suc k) ≡ write_from (put_byte p ch) killed source (i + 1) k
    go_on ch free e = rw (write_from, free, e)
