-- ===== src/Fs/Directory/Elements.antt =====
-- What `skipelem` takes off a path.
use oops_os.Prelude.{
  ℕ, ◌+◌, ◌-◌, ◌≤◌, ◌<◌, ◌≡◌, ◌≢◌, refl, sym, ◌∙◌, Bool, true, false, not, ◌||◌, some, arith, ltb,
  leb, ◌==◌, Bool-cases, Option-cases, inl, inr, ◌⊎◌, ap, subst,
}
use oops_os.Prelude.Arrays.{put, put_ne}
use oops_os.Prelude.Search.{first_from, IsFirst, first_from-IsFirst}
use oops_os.Strings.{memmove}
use oops_os.Strings.Move.{moved, memmove_lem}
use oops_os.Fs.Directory.{dir_siz}
use oops_os.Fs.Directory.Paths.{
  slash, Element, no_element, element, skip_slashes, skip_name, copy_name, after_name, skip_element,
  skipelem, IsPath,
}

-- A search that cannot miss `stop`.
search_to :
    (test : ℕ → Bool) (i k stop : ℕ)
    → test stop ≡ true
    → i ≤ stop
    → stop < i + k
    → (r : ℕ) × (first_from test i k ≡ some r)
      × (i ≤ r)
      × (r ≤ stop)
      × (test r ≡ true)
      × ((j : ℕ) → i ≤ j → j < r → test j ≡ false)
search_to test i k stop t l b = elim (Option-cases (first_from test i k)) [
  | inl e ↦
      let f = subst (IsFirst test i k) e (first_from-IsFirst test i k) in
      absurd (cc (f stop l b, t))
  | inr (r, e) ↦
      let f = subst (IsFirst test i k) e (first_from-IsFirst test i k) in
      (
        r,
        e,
        f.0,
        elim (Bool-cases (ltb stop r)) [
          | inl q ↦ absurd (cc (f.3 stop l (ground arith), t))
          | inr q ↦ ground arith
        ],
        f.2,
        f.3,
      )
]

copy_name_kept :
    (m : ℕ → ℕ) (name s len b : ℕ)
    → (b < name) ⊎ (name + dir_siz ≤ b)
    → copy_name m name s len b ≡ m b
unfolding copy_name put
copy_name_kept m name s len b h = elim (Bool-cases (leb dir_siz len)) [
  | inl q ↦ rw (q, memmove_lem m name s dir_siz b) (ground arith)
  | inr q ↦ rw q (ground (arith, memmove_lem m name s len b))
]

moved_at : (m : ℕ → ℕ) (dst src n i : ℕ) → i < n → moved m dst src n (dst + i) ≡ m (src + i)
moved_at m dst src n i l =
    let from_start : leb dst (dst + i) ≡ true = ground arith in
    let before_end : ltb (dst + i) (dst + n) ≡ true = ground arith in
    let place : src + (dst + i - dst) ≡ src + i = omega arith in
    rw (from_start, before_end) (ap m place)

copy_name_byte :
    (m : ℕ → ℕ) (name s len i : ℕ)
    → i < len
    → i < dir_siz
    → copy_name m name s len (name + i) ≡ m (s + i)
unfolding copy_name
copy_name_byte m name s len i l b = elim (Bool-cases (leb dir_siz len)) [
  | inl q ↦ rw q (memmove_lem m name s dir_siz (name + i) ∙ moved_at m name s dir_siz i b)
  | inr q ↦ rw q (
      put_ne (memmove m name s len) (name + len) 0 (name + i) (λ e. omega arith)
      ∙ (memmove_lem m name s len (name + i) ∙ moved_at m name s len i l))
]

copy_name_end :
    (m : ℕ → ℕ) (name s len : ℕ) → len < dir_siz → copy_name m name s len (name + len) ≡ 0
unfolding copy_name put
copy_name_end m name s len l = ground arith

-- The element from `from` up to `upto` has been taken off a path.
pub record IsNext (m : ℕ → ℕ) (path name stop : ℕ) (r : Element) : Type 0 where
  pub from : ℕ
  pub upto : ℕ
  pub next : ℕ
  pub memory : ℕ → ℕ
  pub answer : r ≡ element next memory
  pub order : (path ≤ from) × (from < upto) × (upto ≤ next) × (next ≤ stop)
  pub before : (j : ℕ) → path ≤ j → j < from → m j ≡ slash
  pub within : (j : ℕ) → from ≤ j → j < upto → m j ≢ slash
  pub whole : (m upto ≡ slash) ⊎ (upto ≡ stop)
  pub after : (j : ℕ) → upto ≤ j → j < next → m j ≡ slash
  pub rest : m next ≢ slash
  pub byte : (i : ℕ) → i < upto - from → i < dir_siz → memory (name + i) ≡ m (from + i)
  pub last : upto - from < dir_siz → memory (name + (upto - from)) ≡ 0
  pub kept : (b : ℕ) → (b < name) ⊎ (name + dir_siz ≤ b) → memory b ≡ m b

skip_element-element :
    (m : ℕ → ℕ) (s name k e r : ℕ)
    → skip_name m s k ≡ some e
    → skip_slashes (copy_name m name s (e - s)) e k ≡ some r
    → skip_element m s name k ≡ element r (copy_name m name s (e - s))
unfolding skip_element after_name
skip_element-element m s name k e r h g = rw (skip_element, h, after_name, g) refl

skip_element-IsNext :
    (m : ℕ → ℕ) (path name k stop s : ℕ)
    → IsPath m path name k stop
    → path ≤ s
    → s < stop
    → m s ≢ slash
    → ((j : ℕ) → path ≤ j → j < s → m j ≡ slash)
    → IsNext m path name stop (skip_element m s name k)
skip_element-IsNext m path name k stop s p l b no_slash slashes = record {
  from = s;
  upto = e;
  next = skipped.0;
  memory = memory;
  answer = found;
  order = (l, s_below_e, skipped.2, skipped.3);
  before = slashes;
  within = λ j a c x. ground (arith, taken.5 j a c, x);
  whole = elim (Bool-cases (m e == slash)) [
    | inl q ↦ inl (ground arith)
    | inr q ↦ inr (elim (Bool-cases (ltb e stop)) [
      | inl c ↦
          absurd (p.first e (omega (arith, taken.2)) (ground arith) (ground (arith, taken.4, q)))
      | inr c ↦ ground (arith, taken.3)
    ])
  ];
  after = λ j a c.
      sym (away j (omega (arith, taken.2)) (omega (arith, skipped.3)))
      ∙ ground (arith, skipped.5 j a c);
  rest = λ x.
      ground (arith, skipped.4, away skipped.0 (omega (arith, taken.2, skipped.2)) skipped.3, x);
  byte = copy_name_byte m name s (e - s);
  last = copy_name_end m name s (e - s);
  kept = λ c h. copy_name_kept m name s (e - s) c h;
}
  where
    taken :
        (r : ℕ) × (skip_name m s k ≡ some r)
        × (s ≤ r)
        × (r ≤ stop)
        × ((m r == slash || m r == 0) ≡ true)
        × ((j : ℕ) → s ≤ j → j < r → (m j == slash || m j == 0) ≡ false)
    taken =
        search_to (λ i. m i == slash || m i == 0) s k stop (ground (arith, p.ends)) (omega arith)
          (omega (arith, p.reach))

    e : ℕ
    e = taken.0

    s_below_e : s < e
    s_below_e = elim (Bool-cases (ltb s e)) [
      | inl q ↦ ground arith
      | inr q ↦
          let same : e ≡ s = ground (arith, taken.2) in
          let stopped = subst (λ x. (m x == slash || m x == 0) ≡ true) same taken.4 in
          absurd (p.first s l b (ground (arith, stopped)))
    ]

    memory : ℕ → ℕ
    memory = copy_name m name s (e - s)

    away : (j : ℕ) → path ≤ j → j ≤ stop → memory j ≡ m j
    away j a c =
        copy_name_kept m name s (e - s) j
          (elim p.apart [ inl q ↦ inr (omega arith) | inr q ↦ inl (omega arith) ])

    skipped :
        (r : ℕ) × (skip_slashes memory e k ≡ some r)
        × (e ≤ r)
        × (r ≤ stop)
        × (not (memory r == slash) ≡ true)
        × ((j : ℕ) → e ≤ j → j < r → not (memory j == slash) ≡ false)
    skipped =
        search_to (λ i. not (memory i == slash)) e k stop
          (ground (arith, away stop (omega arith) (omega arith), p.ends)) taken.3
          (omega (arith, p.reach, taken.2))

    found : skip_element m s name k ≡ element skipped.0 memory
    found = skip_element-element m s name k e skipped.0 taken.1 skipped.1

-- `skipelem` of a string that ends at `stop`, with the 14 bytes of `name` apart from it, returns 0
-- exactly for a path of slashes only. Otherwise it takes off the first element: what is between the
-- slashes before and after it, up to the next slash or the end. The name is the first 14 bytes of the
-- element, with a 0 after it if it is shorter; the path returned has no slash in front and is further
-- on; and no other byte of the memory is written.
pub skipelem_lem :
    (m : ℕ → ℕ) (path name k stop : ℕ)
    → IsPath m path name k stop
    → (((j : ℕ) → path ≤ j → j < stop → m j ≡ slash) × (skipelem m path name k ≡ no_element))
      ⊎ IsNext m path name stop (skipelem m path name k)
unfolding skipelem
skipelem_lem m path name k stop p = elim (Bool-cases (ltb s stop)) [
  | inl q ↦
      let alive : (m s == 0) ≡ false = ground (arith, p.first s begun.2 (ground arith)) in
      inr (
        subst (IsNext m path name stop) (sym (rw (skipelem, begun.1, alive) refl)) (
          skip_element-IsNext m path name k stop s p begun.2 (ground arith)
            (λ x. ground (arith, begun.4, x)) slashes))
  | inr q ↦
      let same : s ≡ stop = ground (arith, begun.3) in
      let dead : (m s == 0) ≡ true = ground (arith, ap m same ∙ p.ends) in
      inl (λ j a b. slashes j a (omega (arith, same)), rw (skipelem, begun.1, dead) refl)
]
  where
    begun :
        (r : ℕ) × (skip_slashes m path k ≡ some r)
        × (path ≤ r)
        × (r ≤ stop)
        × (not (m r == slash) ≡ true)
        × ((j : ℕ) → path ≤ j → j < r → not (m j == slash) ≡ false)
    begun = search_to (λ i. not (m i == slash)) path k stop (ground (arith, p.ends)) p.start p.reach

    s : ℕ
    s = begun.0

    slashes : (j : ℕ) → path ≤ j → j < s → m j ≡ slash
    slashes j a b = ground (arith, begun.5 j a b)
