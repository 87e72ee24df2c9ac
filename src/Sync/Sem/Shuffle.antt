-- ===== src/Sync/Sem/Shuffle.antt =====
-- The sort of the ids only moves them.
use oops_os.Prelude.{
  ℕ, zero, suc, ◌+◌, ◌-◌, ◌≤◌, ◌<◌, ◌≡◌, refl, ◌∙◌, arith, ◌==◌, if◌then◌else◌, Bool-cases, inl,
  inr, ap, ℤ, ltb_ℤ,
}
use oops_os.Prelude.Arrays.{put}
use oops_os.Sync.Sem.{shift, sort_from, sort_ids}

-- The first `n` values of `g` are those of `f` at other places.
pub record IsShuffle (n : ℕ) (f g : ℕ → ℤ) : Type 0 where
  pub place : ℕ → ℕ
  pub back : ℕ → ℕ
  pub place_below : (i : ℕ) → i < n → place i < n
  pub back_below : (i : ℕ) → i < n → back i < n
  pub there : (i : ℕ) → i < n → place (back i) ≡ i
  pub home : (i : ℕ) → i < n → back (place i) ≡ i
  pub same : (i : ℕ) → i < n → g i ≡ f (place i)

same-IsShuffle : (n : ℕ) (f g : ℕ → ℤ) → ((i : ℕ) → g i ≡ f i) → IsShuffle n f g
same-IsShuffle n f g h = record {
  place = λ i. i;
  back = λ i. i;
  place_below = λ i l. l;
  back_below = λ i l. l;
  there = λ i l. refl;
  home = λ i l. refl;
  same = λ i l. h i;
}

IsShuffle-trans : (n : ℕ) (f g h : ℕ → ℤ) → IsShuffle n f g → IsShuffle n g h → IsShuffle n f h
IsShuffle-trans n f g h p q = record {
  place = λ i. p.place (q.place i);
  back = λ i. q.back (p.back i);
  place_below = λ i l. p.place_below (q.place i) (q.place_below i l);
  back_below = λ i l. q.back_below (p.back i) (p.back_below i l);
  there = λ i l. ap p.place (q.there (p.back i) (p.back_below i l)) ∙ p.there i l;
  home = λ i l. ap q.back (p.home (q.place i) (q.place_below i l)) ∙ q.home i l;
  same = λ i l. q.same i l ∙ p.same (q.place i) (q.place_below i l);
}

-- `j` and the place after it, exchanged.
swapped : ℕ → ℕ → ℕ
swapped j i = if i == j then suc j else if i == suc j then j else i

swapped_below : (j n i : ℕ) → suc j < n → i < n → swapped j i < n
unfolding swapped
swapped_below j n i l m = ground arith

swapped_twice : (j i : ℕ) → swapped j (swapped j i) ≡ i
unfolding swapped
swapped_twice j i = ground arith

swapped_put :
    (ids : ℕ → ℤ) (j : ℕ) (key : ℤ) (i : ℕ)
    → put (put ids (suc j) (ids j)) j key i ≡ put ids (suc j) key (swapped j i)
unfolding swapped put
swapped_put ids j key i = ground arith

-- The inner loop moves the key, which stands at `j`, and what it passes.
shift-IsShuffle :
    (ids : ℕ → ℤ) (j : ℕ) (key : ℤ) (n : ℕ) → j < n → IsShuffle n (put ids j key) (shift ids j key)
unfolding shift
shift-IsShuffle ids zero key n l = same-IsShuffle n _ _ (λ i. refl)
shift-IsShuffle ids (suc j) key n l = elim (Bool-cases (ltb_ℤ key (ids j))) [
  | inl e ↦ rw e (
      IsShuffle-trans n (put ids (suc j) key) (put (put ids (suc j) (ids j)) j key) _ exchange
        (shift-IsShuffle (put ids (suc j) (ids j)) j key n (omega arith)))
  | inr e ↦ rw e (same-IsShuffle n (put ids (suc j) key) (put ids (suc j) key) (λ i. refl))
]
  where
    exchange : IsShuffle n (put ids (suc j) key) (put (put ids (suc j) (ids j)) j key)
    exchange = record {
      place = swapped j;
      back = swapped j;
      place_below = λ i m. swapped_below j n i l m;
      back_below = λ i m. swapped_below j n i l m;
      there = λ i m. swapped_twice j i;
      home = λ i m. swapped_twice j i;
      same = λ i m. swapped_put ids j key i;
    }

put_same : (ids : ℕ → ℤ) (i j : ℕ) → put ids i (ids i) j ≡ ids j
unfolding put
put_same ids i j = ground arith

sort_from-IsShuffle : (ids : ℕ → ℤ) (i k n : ℕ) → i + k ≤ n → IsShuffle n ids (sort_from ids i k)
unfolding sort_from
sort_from-IsShuffle ids i zero n l = same-IsShuffle n ids ids (λ j. refl)
sort_from-IsShuffle ids i (suc k) n l =
    IsShuffle-trans n ids (shift ids i (ids i)) _
      (IsShuffle-trans n ids (put ids i (ids i)) _
        (same-IsShuffle n ids (put ids i (ids i)) (put_same ids i))
        (shift-IsShuffle ids i (ids i) n (omega arith)))
      (sort_from-IsShuffle (shift ids i (ids i)) (i + 1) k n (omega arith))

pub sort_ids-IsShuffle : (ids : ℕ → ℤ) (n : ℕ) → 1 ≤ n → IsShuffle n ids (sort_ids ids n)
unfolding sort_ids
sort_ids-IsShuffle ids n l = sort_from-IsShuffle ids 1 (n - 1) n (omega arith)
