-- ===== src/Fs/Directory/Grown.antt =====
-- The search of a directory that has a new entry.
use oops_os.Prelude.{
  ℕ, ◌≤◌, ◌<◌, ◌≡◌, ◌≢◌, ◌∙◌, false, Option, none, some, arith, Bool-cases, inl, inr, ap, subst,
  ℕ_discrete, some_inj,
}
use oops_os.Prelude.Arrays.{put_self, put_ne}
use oops_os.Prelude.Search.{
  first_from, IsFirst, first_from-IsFirst, first_from-some, first_from-none,
}
use oops_os.Fs.Directory.{Dirent, Dir, whole, is_ragged, matches, grown}
use oops_os.Fs.Directory.Names.{IsSameName, IsSameName-sym, IsSameName-trans}
use oops_os.Fs.Directory.Link.{IsOpen, matches-used, grown-whole}

matches_cong :
    (s t : ℕ → ℕ) (de : Dirent) → IsSameName s t → matches t de ≡ false → matches s de ≡ false
matches_cong s t de h e = elim (Bool-cases (matches s de)) [
  | inr q ↦ q
  | inl q ↦
      let u = (matches-used s de).0 q in
      absurd (
        cc
          ((matches-used t de).1 (u.0, IsSameName-trans t s de.name (IsSameName-sym s t h) u.1), e))
]

-- The search after the new entry `de`, which stands at `k`.
pub search-grown-same :
    (d : Dir) (k : ℕ) (de : Dirent) (name other : ℕ → ℕ)
    → IsOpen d name
    → k ≤ whole d
    → de.inum ≢ 0
    → IsSameName de.name name
    → IsSameName other name
    → first_from (λ j. matches other ((grown d k de).entries j)) 0 (whole (grown d k de)) ≡ some k
search-grown-same d k de name other o l z c h =
    first_from-some (λ j. matches other ((grown d k de).entries j)) 0 (whole (grown d k de)) k
      (
        omega arith,
        omega (arith, (grown-whole d k de o.even l).1),
        ap (matches other) (put_self d.entries k de)
            ∙ (matches-used other de).1
                (z, IsSameName-trans other name de.name h (IsSameName-sym de.name name c)),
        λ j a b.
            ap (matches other) (put_ne d.entries k de j (λ q. omega arith))
            ∙ matches_cong other name (d.entries j) h (none_found j a (omega arith)),
      )
  where
    none_found : IsFirst (λ j. matches name (d.entries j)) 0 (whole d) none
    none_found =
        subst (IsFirst (λ j. matches name (d.entries j)) 0 (whole d)) o.absent
          (first_from-IsFirst (λ j. matches name (d.entries j)) 0 (whole d))

pub search-grown-other :
    (d : Dir) (k : ℕ) (de : Dirent) (other : ℕ → ℕ) (r : Option ℕ)
    → is_ragged d ≡ false
    → k ≤ whole d
    → (k < whole d → (d.entries k).inum ≡ 0)
    → matches other de ≡ false
    → first_from (λ j. matches other (d.entries j)) 0 (whole d) ≡ r
    → (first_from (λ j. matches other ((grown d k de).entries j)) 0 (whole (grown d k de)) ≡ r)
      × (r ≢ some k)
search-grown-other d k de other r e l z m s = go r was s
  where
    was : IsFirst (λ j. matches other (d.entries j)) 0 (whole d) r
    was =
        subst (IsFirst (λ j. matches other (d.entries j)) 0 (whole d)) s
          (first_from-IsFirst (λ j. matches other (d.entries j)) 0 (whole d))

    kept :
        (j : ℕ)
        → (j ≢ k → matches other (d.entries j) ≡ false)
        → matches other ((grown d k de).entries j) ≡ false
    kept j h = elim (ℕ_discrete j k) [
      | yes q ↦ rw q (ap (matches other) (put_self d.entries k de) ∙ m)
      | no ne ↦ ap (matches other) (put_ne d.entries k de j ne) ∙ h ne
    ]

    go :
        (r : Option ℕ)
        → IsFirst (λ j. matches other (d.entries j)) 0 (whole d) r
        → first_from (λ j. matches other (d.entries j)) 0 (whole d) ≡ r
        → (first_from (λ j. matches other ((grown d k de).entries j)) 0 (whole (grown d k de)) ≡ r)
          × (r ≢ some k)
    go none f q = (
      first_from-none (λ j. matches other ((grown d k de).entries j)) 0 (whole (grown d k de))
          (λ j a b.
            kept j (λ ne. f j a (omega (arith, (grown-whole d k de e l).3 j ne (omega arith))))),
      λ x. cc x,
    )
    go (some i) f q =
        let used = (matches-used other (d.entries i)).0 f.2 in
        let ne : i ≢ k = λ x. used.0 (rw x (z (omega (arith, f.1, x)))) in
        (
          first_from-some (λ j. matches other ((grown d k de).entries j)) 0 (whole (grown d k de)) i
              (
                omega arith,
                omega (arith, f.1, (grown-whole d k de e l).2),
                ap (matches other) (put_ne d.entries k de i ne) ∙ f.2,
                λ j a b. kept j (λ x. f.3 j a b),
              ),
          λ x. ne (some_inj x),
        )
