-- ===== src/Proc/Mail/Chain.antt =====
-- The linked list of a mailbox.
use oops_os.Prelude.{
  ℕ, ◌+◌, ◌≤◌, ◌<◌, ◌≡◌, ◌≢◌, refl, sym, ap, List, [], ◌∷◌, ◌++◌, map, length, count, arith,
  ℕ_discrete, subst,
}
use oops_os.Proc.Mail.{Letter, Mailbox}

-- What a letter says.
pub record Mail : Type 0 where
  pub len : ℕ
  pub sender : ℕ
  pub text : ℕ → ℕ

abbrev pub mail_of : Letter → Mail
mail_of l = record { len = l.len; sender = l.sender; text = l.text }

-- From `p` on, the nodes are those at the addresses of the list.
abbrev pub IsChain : (ℕ → Letter) → ℕ → List ℕ → Type 0
IsChain nodes p [] = p ≡ 0
IsChain nodes p (x ∷ xs) = (p ≡ x) × (0 < x) × IsChain nodes (nodes x).next xs

-- The last address, and 0 for an empty list.
abbrev pub last : List ℕ → ℕ
last [] = 0
last (x ∷ []) = x
last (x ∷ y ∷ ys) = last (y ∷ ys)

abbrev pub Differ : List ℕ → Type 0
Differ xs = (x : ℕ) → count x xs ≤ 1

abbrev pub contents : (ℕ → Letter) → List ℕ → List Mail
contents nodes xs = map (λ x. mail_of (nodes x)) xs

abbrev pub total : List Mail → ℕ
total [] = 0
total (m ∷ ms) = m.len + total ms

-- The box holds these letters, oldest first.
pub record Holds (b : Mailbox) (ms : List Mail) : Type 0 where
  pub places : List ℕ
  pub chain : IsChain b.nodes b.head places
  pub end : b.tail ≡ last places
  pub differ : Differ places
  pub says : contents b.nodes places ≡ ms
  pub held : b.held ≡ length ms
  pub bytes : b.bytes ≡ total ms

count-append : (x : ℕ) (xs ys : List ℕ) → count x (xs ++ ys) ≡ count x xs + count x ys
count-append x [] ys = omega arith
count-append x (y ∷ xs) ys = omega (arith, count-append x xs ys)

pub last-count : (x : ℕ) (xs : List ℕ) → 0 < count (last (x ∷ xs)) (x ∷ xs)
last-count x [] = ground arith
last-count x (y ∷ ys) = omega (arith, last-count y ys)

pub last-append : (xs : List ℕ) (m : ℕ) → last (xs ++ (m ∷ [])) ≡ m
last-append [] m = refl
last-append (x ∷ []) m = refl
last-append (x ∷ y ∷ ys) m = last-append (y ∷ ys) m

pub last-pos :
    (nodes : ℕ → Letter) (p x : ℕ) (xs : List ℕ) → IsChain nodes p (x ∷ xs) → 0 < last (x ∷ xs)
last-pos nodes p x [] c = c.1
last-pos nodes p x (y ∷ ys) c = last-pos nodes (nodes x).next y ys c.2

pub Differ-rest : (x : ℕ) (xs : List ℕ) → Differ (x ∷ xs) → Differ xs
Differ-rest x xs d y = omega (arith, d y)

-- The list with a node behind its last one.
pub IsChain-append :
    (nodes nodes' : ℕ → Letter) (p x : ℕ) (xs : List ℕ) (m : ℕ)
    → IsChain nodes p (x ∷ xs)
    → Differ (x ∷ xs)
    → count m (x ∷ xs) ≡ 0
    → 0 < m
    → ((z : ℕ) → z ≢ m → z ≢ last (x ∷ xs) → nodes' z ≡ nodes z)
    → (nodes' (last (x ∷ xs))).next ≡ m
    → (nodes' m).next ≡ 0
    → IsChain nodes' p ((x ∷ xs) ++ (m ∷ []))
IsChain-append nodes nodes' p x [] m c d f z same new end = (c.0, c.1, (new, z, end))
IsChain-append nodes nodes' p x (y ∷ ys) m c d f z same new end =
    let ne_m : x ≢ m = λ e. absurd (ground (arith, f)) in
    let ne_t : x ≢ last (y ∷ ys) =
      λ e. omega (arith, last-count y ys, d x, ap (λ (q : ℕ). count q (y ∷ ys)) e, self) in
    let kept = same x ne_m ne_t in
    let fewer : count m (y ∷ ys) ≡ 0 = omega (arith, f) in
    (
      c.0,
      c.1,
      subst (λ (q : ℕ). IsChain nodes' q ((y ∷ ys) ++ (m ∷ [])))
          (ap (λ (l : Letter). l.next) (sym kept))
          (IsChain-append nodes nodes' (nodes x).next y ys m c.2 (Differ-rest x (y ∷ ys) d) fewer z
            same new end),
    )
  where
    self : count x (x ∷ y ∷ ys) ≡ 1 + count x (y ∷ ys)
    self = ground arith

pub contents-append :
    (nodes nodes' : ℕ → Letter) (xs : List ℕ) (m : ℕ)
    → ((z : ℕ) → 0 < count z xs → mail_of (nodes' z) ≡ mail_of (nodes z))
    → contents nodes' (xs ++ (m ∷ [])) ≡ contents nodes xs ++ (mail_of (nodes' m) ∷ [])
contents-append nodes nodes' [] m same = refl
contents-append nodes nodes' (x ∷ xs) m same =
    rw (same x (ground arith), contents-append nodes nodes' xs m (λ z h. same z (omega (arith, h))))
      refl

pub total-append : (ms : List Mail) (m : Mail) → total (ms ++ (m ∷ [])) ≡ total ms + m.len
total-append [] m = omega arith
total-append (x ∷ ms) m = omega (arith, total-append ms m)

pub Differ-append : (xs : List ℕ) (m : ℕ) → Differ xs → count m xs ≡ 0 → Differ (xs ++ (m ∷ []))
Differ-append xs m d f z = elim (ℕ_discrete z m) [
  | yes e ↦ rw e (ground (arith, count-append m xs (m ∷ []), f))
  | no ne ↦ ground (arith, count-append z xs (m ∷ []), d z)
]

pub length_one : (ms : List Mail) (m : Mail) → length (ms ++ (m ∷ [])) ≡ length ms + 1
length_one [] m = refl
length_one (x ∷ ms) m = omega (arith, length_one ms m)
