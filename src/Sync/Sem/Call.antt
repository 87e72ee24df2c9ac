-- ===== src/Sync/Sem/Call.antt =====
-- The whole call on several semaphores, up to its first sleep: the sort, the check of the ids, a round.
use oops_os.Prelude.{
  ℕ, ◌-◌, ◌≤◌, ◌<◌, ◌≡◌, ◌≢◌, ◌↔◌, refl, sym, ◌∙◌, Bool, true, false, not, ◌&&◌, arith, ltb,
  Bool-cases, inl, inr, ap, subst, ℕ_discrete, ℤ, pos, negsuc, pos_part, neg_part, ltb_ℤ, pred_ℤ,
}
use oops_os.Prelude.Arrays.{all_below-elim, all_below-intro}
use oops_os.Sync.Sem.{Sem, Answer, granted, is_negative, eqb_ℤ, ids_fit, sort_ids, p_multi}
use oops_os.Sync.Sem.Sort.{IsAtMost, IsAscending, sort_ids-IsAscending}
use oops_os.Sync.Sem.Shuffle.{IsShuffle, sort_ids-IsShuffle}
use oops_os.Sync.Sem.Multi.{IsReady, IsAllOrNone, p_multi_round-IsAllOrNone}

-- The id of one of the `limit` semaphores.
pub record IsId (limit : ℕ) (id : ℤ) : Type 0 where
  pub natural : is_negative id ≡ false
  pub below : ltb_ℤ id (pos limit) ≡ true

natural-neg_part : (c : ℤ) → is_negative c ≡ false → neg_part c ≡ 0
natural-neg_part (pos n) e = refl
natural-neg_part (negsuc n) e = absurd (ground arith)

eqb_ℤ-≡ : (a b : ℤ) → eqb_ℤ a b ≡ true → a ≡ b
eqb_ℤ-≡ (pos m) (pos n) e = ap pos (ground arith)
eqb_ℤ-≡ (pos m) (negsuc n) e = absurd (ground arith)
eqb_ℤ-≡ (negsuc m) (pos n) e = absurd (ground arith)
eqb_ℤ-≡ (negsuc m) (negsuc n) e = ap negsuc (ground arith)

fit_test :
    (a b c d : Bool)
    → (not a && b && not (c && d)) ≡ true
    → (a ≡ false) × (b ≡ true) × (c ≡ true → d ≡ false)
fit_test false true false d e = (refl, refl, λ q. absurd (cc q))
fit_test false true true false e = (refl, refl, λ q. refl)
fit_test false true true true e = absurd (cc e)
fit_test false false c d e = absurd (cc e)
fit_test true b c d e = absurd (cc e)

fit_test-intro :
    (a b c d : Bool)
    → a ≡ false
    → b ≡ true
    → (c ≡ true → d ≡ false)
    → (not a && b && not (c && d)) ≡ true
fit_test-intro a b false d p q r = rw (p, q) refl
fit_test-intro a b true d p q r = rw (p, q, r refl) refl

ids_fit-at :
    (ids : ℕ → ℤ) (n limit : ℕ)
    → ids_fit ids n limit ≡ true
    → (i : ℕ) → i < n
    → IsId limit (ids i) × (0 < i → eqb_ℤ (ids i) (ids (i - 1)) ≡ false)
unfolding ids_fit
ids_fit-at ids n limit e i l =
    let t =
      fit_test (is_negative (ids i)) (ltb_ℤ (ids i) (pos limit)) (ltb 0 i)
        (eqb_ℤ (ids i) (ids (i - 1))) (all_below-elim n _ e i l) in
    (record { natural = t.0; below = t.1 }, λ p. t.2 (ground arith))

ids_fit-intro :
    (ids : ℕ → ℤ) (n limit : ℕ)
    → ((i : ℕ) → i < n → IsId limit (ids i))
    → ((i : ℕ) → i < n → 0 < i → eqb_ℤ (ids i) (ids (i - 1)) ≡ false)
    → ids_fit ids n limit ≡ true
unfolding ids_fit
ids_fit-intro ids n limit h d = all_below-intro n _ λ i l.
    fit_test-intro (is_negative (ids i)) (ltb_ℤ (ids i) (pos limit)) (ltb 0 i)
      (eqb_ℤ (ids i) (ids (i - 1))) (h i l).natural (h i l).below (λ p. d i l (ground arith))

next_above : (a b : ℤ) → IsAtMost a b → eqb_ℤ b a ≡ false → ltb_ℤ a b ≡ true
unfolding IsAtMost
next_above a b l e = ground arith

above-pos_part :
    (a b c : ℤ)
    → is_negative a ≡ false
    → is_negative c ≡ false
    → IsAtMost a b
    → ltb_ℤ b c ≡ true
    → pos_part a < pos_part c
unfolding IsAtMost
above-pos_part a b c p q l m = ground (arith, natural-neg_part a p, natural-neg_part c q)

-- Ids that have been sorted and checked are different semaphores.
fit_ascending :
    (ids : ℕ → ℤ) (n limit : ℕ)
    → IsAscending ids n
    → ids_fit ids n limit ≡ true
    → (a b : ℕ) → a < b
    → b < n
    → pos_part (ids a) < pos_part (ids b)
unfolding IsAscending IsAtMost
fit_ascending ids n limit asc fit a b l m =
    above-pos_part (ids a) (ids (b - 1)) (ids b)
      (ids_fit-at ids n limit fit a (omega arith)).0.natural
      (ids_fit-at ids n limit fit b m).0.natural
      (elim (ℕ_discrete a (b - 1)) [
        | yes e ↦ rw e (omega arith)
        | no ne ↦ asc a (b - 1) (omega arith) (omega arith)
      ])
      (next_above (ids (b - 1)) (ids b) (asc (b - 1) b (omega arith) m)
        ((ids_fit-at ids n limit fit b m).1 (omega arith)))

fit_distinct :
    (ids : ℕ → ℤ) (n limit : ℕ)
    → IsAscending ids n
    → ids_fit ids n limit ≡ true
    → (a b : ℕ) → a < n
    → b < n
    → a ≢ b
    → pos_part (ids a) ≢ pos_part (ids b)
fit_distinct ids n limit asc fit a b l m ne e = elim (Bool-cases (ltb a b)) [
  | inl c ↦ omega (arith, fit_ascending ids n limit asc fit a b (ground arith) m, e)
  | inr c ↦ omega (arith, fit_ascending ids n limit asc fit b a (ground arith) l, e)
]

-- What `n` ids must be for the call to go through: ids of different semaphores that can be taken.
pub record IsTakeable (sems : ℕ → Sem) (limit n : ℕ) (ids : ℕ → ℤ) : Type 0 where
  pub id : (i : ℕ) → i < n → IsId limit (ids i)
  pub distinct : (a b : ℕ) → a < n → b < n → a ≢ b → ids a ≢ ids b
  pub ready : (i : ℕ) → i < n → IsReady (sems (pos_part (ids i)))

-- What the call with the result `r` has done.
pub record IsFair (sems : ℕ → Sem) (limit n : ℕ) (ids : ℕ → ℤ) (r : Answer × (ℕ → Sem))
    : Type 0 where
  pub exactly : (r.0 ≡ granted) ↔ IsTakeable sems limit n ids
  pub each :
      r.0 ≡ granted
      → (i : ℕ) → i < n
      → (r.1 (pos_part (ids i))).resource_count ≡ pred_ℤ (sems (pos_part (ids i))).resource_count
  pub others : r.0 ≡ granted → (b : ℕ) → ((i : ℕ) → i < n → pos_part (ids i) ≢ b) → r.1 b ≡ sems b
  pub nothing : r.0 ≢ granted → (b : ℕ) → (r.1 b).resource_count ≡ (sems b).resource_count

takeable_fit :
    (sems : ℕ → Sem) (limit n : ℕ) (ids sorted : ℕ → ℤ)
    → IsShuffle n ids sorted
    → IsTakeable sems limit n ids
    → ids_fit sorted n limit ≡ true
takeable_fit sems limit n ids sorted sh t =
    ids_fit-intro sorted n limit
      (λ i l. subst (IsId limit) (sym (sh.same i l)) (t.id (sh.place i) (sh.place_below i l)))
      (λ i l p. elim (Bool-cases (eqb_ℤ (sorted i) (sorted (i - 1)))) [
        | inr e ↦ e
        | inl e ↦ absurd (
            t.distinct (sh.place i) (sh.place (i - 1)) (sh.place_below i l)
              (sh.place_below (i - 1) (omega arith))
              (λ q.
                omega (arith, sym (sh.home i l) ∙ (ap sh.back q ∙ sh.home (i - 1) (omega arith))))
              (sym (sh.same i l)
                ∙ (eqb_ℤ-≡ (sorted i) (sorted (i - 1)) e ∙ sh.same (i - 1) (omega arith))))
      ])

-- A round with the ids sorted does for the ids themselves what it should.
sorted_round :
    (sems : ℕ → Sem) (limit n : ℕ) (ids sorted : ℕ → ℤ) (r : Answer × (ℕ → Sem))
    → IsShuffle n ids sorted
    → ids_fit sorted n limit ≡ true
    → ((a b : ℕ) → a < n → b < n → a ≢ b → pos_part (sorted a) ≢ pos_part (sorted b))
    → IsAllOrNone sems (λ i. pos_part (sorted i)) n r
    → IsFair sems limit n ids r
sorted_round sems limit n ids sorted r sh fit d a = record {
  exactly = (
    λ g. record {
      id = λ i l.
          subst (IsId limit) (from_sorted i l)
            (ids_fit-at sorted n limit fit (sh.back i) (sh.back_below i l)).0;
      distinct = λ x y l m ne e.
          d (sh.back x) (sh.back y) (sh.back_below x l) (sh.back_below y m)
            (λ q. ne (sym (sh.there x l) ∙ (ap sh.place q ∙ sh.there y m)))
            (ap pos_part (from_sorted x l ∙ (e ∙ sym (from_sorted y m))));
      ready = λ i l.
          subst (λ c. IsReady (sems (pos_part c))) (from_sorted i l)
            (a.exactly.0 g (sh.back i) (sh.back_below i l));
    },
    λ t. a.exactly.1 (λ i l.
        subst (λ c. IsReady (sems (pos_part c))) (sym (sh.same i l))
          (t.ready (sh.place i) (sh.place_below i l))),
  );
  each = λ g i l.
      subst (λ c. (r.1 (pos_part c)).resource_count ≡ pred_ℤ (sems (pos_part c)).resource_count)
        (from_sorted i l) (a.each g (sh.back i) (sh.back_below i l));
  others = λ g b h.
      a.others g b
        (λ i l e. h (sh.place i) (sh.place_below i l) (ap pos_part (sym (sh.same i l)) ∙ e));
  nothing = a.nothing;
}
  where
    from_sorted : (i : ℕ) → i < n → sorted (sh.back i) ≡ ids i
    from_sorted i l = sh.same (sh.back i) (sh.back_below i l) ∙ ap ids (sh.there i l)

-- The P operation on `n` ids, one or more, with the sort and the checks before it, goes through in its
-- first round exactly if the ids are those of `n` different semaphores, each allocated and with a
-- resource to give. It then takes one resource of each and leaves all other semaphores as they are;
-- in every other case, whether it fails or sleeps, all resource counts stay as they are.
pub p_multi-IsFair :
    (sems : ℕ → Sem) (limit : ℕ) (ids : ℕ → ℤ) (n pid : ℕ) (deadlock : Bool)
    → 1 ≤ n
    → IsFair sems limit n ids (p_multi sems limit ids n pid deadlock)
unfolding p_multi
p_multi-IsFair sems limit ids n pid deadlock one =
    elim (Bool-cases (ids_fit (sort_ids ids n) n limit)) [
      | inl e ↦ rw e (
          let d = fit_distinct (sort_ids ids n) n limit (sort_ids-IsAscending ids n) e in
          sorted_round sems limit n ids (sort_ids ids n) _ (sort_ids-IsShuffle ids n one) e d
            (p_multi_round-IsAllOrNone sems (λ i. pos_part (sort_ids ids n i)) n pid deadlock d))
      | inr e ↦ rw e (record {
        exactly = (
          λ g. cc g,
          λ t. absurd (
              cc (
                sym e
                ∙ takeable_fit sems limit n ids (sort_ids ids n) (sort_ids-IsShuffle ids n one) t)),
        );
        each = λ g. cc g;
        others = λ g. cc g;
        nothing = λ g b. refl;
      })
    ]
