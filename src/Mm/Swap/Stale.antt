-- ===== src/Mm/Swap/Stale.antt =====
-- The buffer of a slot that is freed and given out again.
use oops_os.Prelude.{ℕ, ◌<◌, ◌≡◌, sym, ◌∙◌, false, not, Option, some, arith, ap, subst}
use oops_os.Prelude.Arrays.{put, put_ne}
use oops_os.Prelude.Search.{first_from, IsFirst, first_from-IsFirst, first_from-some}
use oops_os.Mm.Swap.{
  swap_pages, pbuf_size, PbufEntry, Pbuf, Swap, probe, take_slot, swap_alloc, swapfree, pbuf_put,
  find_entry, pbuf_get,
}
use oops_os.Mm.Swap.Back.{matches, pbuf_get_found}

alloc_first :
    (s : Swap) (slot : ℕ)
    → slot < swap_pages
    → s.hint ≡ slot
    → s.swapmap slot ≡ false
    → swap_alloc s ≡ (some slot, take_slot s slot)
unfolding swap_alloc
alloc_first s slot l h f = rw (swap_alloc, first) (ap (λ (x : ℕ). (some x, take_slot s x)) at_slot)
  where
    at_slot : probe s 0 ≡ slot
    at_slot = unfold probe in (omega arith)

    first : first_from (λ i. not (s.swapmap (probe s i))) 0 swap_pages ≡ some 0
    first =
        first_from-some (λ i. not (s.swapmap (probe s i))) 0 swap_pages 0
          (omega arith, omega arith, rw (at_slot, f), λ j a b. absurd (omega arith))

same_pbuf : (s : Swap) (slot : ℕ) → (take_slot (swapfree s slot) slot).pbuf ≡ s.pbuf
unfolding swapfree take_slot
same_pbuf s slot = ground arith

swapfree-hint : (s : Swap) (slot : ℕ) → (swapfree s slot).hint ≡ s.hint
unfolding swapfree
swapfree-hint s slot = ground arith

swapfree-swapmap :
    (s : Swap) (slot : ℕ) → slot < swap_pages → (swapfree s slot).swapmap slot ≡ false
unfolding swapfree put
swapfree-swapmap s slot l = ground arith

-- An entry before the hand is found before the new one.
find_entry-put_older :
    (p : Pbuf) (slot pa i : ℕ)
    → find_entry p slot ≡ some i
    → i < p.hand
    → (find_entry (pbuf_put p slot pa).1 slot ≡ some i)
      × (((pbuf_put p slot pa).1.entry i).pa ≡ (p.entry i).pa)
unfolding find_entry pbuf_put
find_entry-put_older p slot pa i e b = (
  first_from-some _ 0 pbuf_size i (
    was.0,
    was.1,
    ap (matches slot) (put_ne p.entry p.hand _ i (λ q. omega arith)) ∙ was.2,
    λ j c d. ap (matches slot) (put_ne p.entry p.hand _ j (λ q. omega arith)) ∙ was.3 j c d,
  ),
  ap (λ (x : PbufEntry). x.pa) (put_ne p.entry p.hand _ i (λ q. omega arith)),
)
  where
    was : IsFirst (λ k. matches slot (p.entry k)) 0 pbuf_size (some i)
    was =
        subst (IsFirst (λ k. matches slot (p.entry k)) 0 pbuf_size) e
          (first_from-IsFirst (λ k. matches slot (p.entry k)) 0 pbuf_size)

stale_get :
    (p : Pbuf) (slot pa i : ℕ)
    → find_entry p slot ≡ some i
    → i < p.hand
    → (pbuf_get (pbuf_put p slot pa).1 slot).0 ≡ some (p.entry i).pa
stale_get p slot pa i e b =
    let f = find_entry-put_older p slot pa i e b in
    ap (λ (r : Option ℕ × Pbuf). r.0) ((pbuf_get_found (pbuf_put p slot pa).1 slot i f.0).1)
    ∙ ap some f.1

-- `swapfree` leaves the buffer alone. A slot whose page is still in the buffer, before the hand, and
-- that the next `swap_alloc` gives out again is served from the old page: after the new page has been
-- put into the buffer, `swap_pbuf_get` of the slot returns the old one.
pub swapfree_stale :
    (s : Swap) (slot pa i : ℕ)
    → slot < swap_pages
    → s.hint ≡ slot
    → find_entry s.pbuf slot ≡ some i
    → i < s.pbuf.hand
    → let got = swap_alloc (swapfree s slot) in
      (got.0 ≡ some slot)
      × ((pbuf_get (pbuf_put got.1.pbuf slot pa).1 slot).0 ≡ some (s.pbuf.entry i).pa)
swapfree_stale s slot pa i l h e b = (
  ap (λ (r : Option ℕ × Swap). r.0) given,
  subst (λ (x : Swap). (pbuf_get (pbuf_put x.pbuf slot pa).1 slot).0 ≡ some (s.pbuf.entry i).pa)
      (sym (ap (λ (r : Option ℕ × Swap). r.1) given))
      (subst (λ (x : Pbuf). (pbuf_get (pbuf_put x slot pa).1 slot).0 ≡ some (s.pbuf.entry i).pa)
        (sym (same_pbuf s slot)) (stale_get s.pbuf slot pa i e b)),
)
  where
    given : swap_alloc (swapfree s slot) ≡ (some slot, take_slot (swapfree s slot) slot)
    given =
        alloc_first (swapfree s slot) slot l (swapfree-hint s slot ∙ h) (swapfree-swapmap s slot l)
