-- ===== src/Mm/Swap/Back.antt =====
-- A page that is swapped in again while the buffer still has it.
use oops_os.Prelude.{
  ℕ, ◌+◌, ◌-◌, ◌<◌, ◌≡◌, refl, sym, ◌∙◌, Bool, true, false, ◌&&◌, Option, none, some, arith, ltb,
  leb, ◌==◌, if◌then◌else◌, Bool-cases, inl, inr, ap, subst, ℕ_discrete, ℤ, pos,
}
use oops_os.Prelude.Arrays.{put, put_self, put_ne}
use oops_os.Prelude.Search.{first_from-some}
use oops_os.Mm.Swap.{
  swap_pages, pbuf_size, PbufEntry, Pbuf, Swap, take_slot, swap_alloc, swapfree, swap_write,
  pbuf_put, find_entry, pbuf_get, Pte, World, move_out, swap_page, map_in, fetch_page, load_entry,
  swapin,
}

-- The buffer holds pages of slots in use only.
pub record IsFresh (s : Swap) : Type 0 where
  pub hint : s.hint < swap_pages
  pub hand : s.pbuf.hand < pbuf_size
  pub in_use :
      (i : ℕ)
      → i < pbuf_size
      → (s.pbuf.entry i).valid ≡ true
      → s.swapmap ((s.pbuf.entry i).slot) ≡ true

abbrev pub matches : ℕ → PbufEntry → Bool
matches slot e = e.valid && e.slot == slot

-- A page that is put into the buffer is found, if no earlier entry has its slot.
find_entry-put :
    (p : Pbuf) (slot pa : ℕ)
    → p.hand < pbuf_size
    → ((i : ℕ) → i < p.hand → matches slot (p.entry i) ≡ false)
    → find_entry (pbuf_put p slot pa).1 slot ≡ some p.hand
unfolding find_entry pbuf_put
find_entry-put p slot pa l h = first_from-some _ 0 pbuf_size p.hand (
  omega arith,
  omega arith,
  ap (matches slot) (put_self p.entry p.hand new) ∙ ground arith,
  λ j a b. ap (matches slot) (put_ne p.entry p.hand new j (λ e. omega arith)) ∙ h j b,
)
  where
    new : PbufEntry
    new = record { valid = true; slot = slot; pa = pa }

entry-put : (p : Pbuf) (slot pa : ℕ) → ((pbuf_put p slot pa).1.entry p.hand).pa ≡ pa
unfolding pbuf_put
entry-put p slot pa = ap (λ (e : PbufEntry). e.pa) (put_self p.entry p.hand _)

pub pbuf_get_found :
    (p : Pbuf) (slot i : ℕ)
    → find_entry p slot ≡ some i
    → (q : Pbuf) × (pbuf_get p slot ≡ (some (p.entry i).pa, q))
unfolding pbuf_get
pbuf_get_found p slot i e = (
  record p {
    entry = put p.entry i (record (p.entry i) { valid = false });
    cached = if ltb 0 p.cached then p.cached - 1 else p.cached;
    hits = p.hits + 1;
  },
  rw (pbuf_get, e),
)

no_match :
    (s : Swap) (slot : ℕ)
    → IsFresh s
    → s.swapmap slot ≡ false
    → (i : ℕ) → i < pbuf_size
    → matches slot (s.pbuf.entry i) ≡ false
no_match s slot v f i l = elim (Bool-cases (matches slot (s.pbuf.entry i))) [
  | inr e ↦ e
  | inl e ↦ absurd (cc (v.in_use i l (ground arith), ap s.swapmap (same e), f))
]
  where
    same : matches slot (s.pbuf.entry i) ≡ true → (s.pbuf.entry i).slot ≡ slot
    same e = ground arith

pub swap_page-none :
    (w : World) (va : ℕ) (e : Pte) {s : Swap}
    → swap_alloc w.swap ≡ (none, s)
    → swap_page w va e ≡ none
unfolding swap_page
swap_page-none w va e n = rw (swap_page, n)

pub swap_page-some :
    (w : World) (va : ℕ) (e : Pte) (slot : ℕ) (s : Swap)
    → swap_alloc w.swap ≡ (some slot, s)
    → swap_page w va e ≡ some (move_out w va e slot s)
unfolding swap_page
swap_page-some w va e slot s n =
    rw (swap_page, n)
      (ap (λ (x : Swap). some (move_out w va e slot x)) (ap (λ (r : Option ℕ × Swap). r.1) n))

-- After `swapin` the world is as it was: the answer, the entry, the pages' bytes and the slots in use.
pub record IsBack (w : World) (va : ℕ) (e : Pte) (back : ℤ × World) : Type 0 where
  pub answer : back.0 ≡ pos 0
  pub entry : back.1.pte va ≡ some e
  pub pages : (pa : ℕ) → back.1.page pa ≡ w.page pa
  pub slots : (b : ℕ) → back.1.swap.swapmap b ≡ w.swap.swapmap b

swapin_found :
    (w : World) (va : ℕ) (e : Pte) (fresh : Option ℕ) (mem : ℕ) (q : Pbuf)
    → w.pte va ≡ some e
    → e.swapped ≡ true
    → pbuf_get w.swap.pbuf e.target ≡ (some mem, q)
    → swapin w va fresh ≡ (pos 0, map_in w va e (record (w.swap) { pbuf = q }) mem (w.page mem))
unfolding swapin load_entry fetch_page
swapin_found w va e fresh mem q a b c = rw (swapin, a) (rw (load_entry, b) (rw (c, fetch_page)))

put_same : (f : ℕ → ℕ → ℕ) (i j : ℕ) → put f i (f i) j ≡ f j
unfolding put
put_same f i j = ground arith

restored :
    (e : Pte)
    → e.present ≡ true
    → e.swapped ≡ false
    → record e { present = true; swapped = false } ≡ e
restored e p q = ground arith

pub freed_again :
    (s : Swap) (slot b : ℕ) (t : Swap)
    → slot < swap_pages
    → s.swapmap slot ≡ false
    → t.swapmap ≡ put s.swapmap slot true
    → (swapfree t slot).swapmap b ≡ s.swapmap b
unfolding swapfree
freed_again s slot b t l f e = elim (ℕ_discrete b slot) [
  | yes q ↦ rw (kept, q) (put_self t.swapmap slot false ∙ sym f)
  | no ne ↦ rw kept (
      put_ne t.swapmap slot false b ne
      ∙ (ap (λ (g : ℕ → Bool). g b) e ∙ put_ne s.swapmap slot true b ne))
]
  where
    kept : leb swap_pages slot ≡ false
    kept = ground arith

pub move_out-IsBack :
    (w : World) (va : ℕ) (e : Pte) (slot : ℕ) (fresh : Option ℕ)
    → IsFresh w.swap
    → e.present ≡ true
    → e.swapped ≡ false
    → slot < swap_pages
    → w.swap.swapmap slot ≡ false
    → IsBack w va e (swapin (move_out w va e slot (take_slot w.swap slot)).1 va fresh)
unfolding move_out swap_write take_slot map_in
move_out-IsBack w va e slot fresh v p q l f =
    subst (IsBack w va e)
      (sym (
        swapin_found out va gone fresh e.target (got.0) (put_self w.pte va (some gone)) refl
          got_pa))
      (record {
        answer = refl;
        entry = (put_self _ va _ ∙ ap some (restored e p q));
        pages = λ pa. put_same w.page e.target pa;
        slots = λ b. freed_again w.swap slot b _ l f refl;
      })
  where
    out : World
    out = (move_out w va e slot (take_slot w.swap slot)).1

    gone : Pte
    gone = record e { present = false; swapped = true; target = slot }

    got :
        (q : Pbuf) × (pbuf_get out.swap.pbuf slot
          ≡ (some (out.swap.pbuf.entry w.swap.pbuf.hand).pa, q))
    got = pbuf_get_found (pbuf_put w.swap.pbuf slot e.target).1 slot w.swap.pbuf.hand (
        find_entry-put w.swap.pbuf slot e.target v.hand
          (λ i m. no_match w.swap slot v f i (omega (arith, v.hand))))

    got_pa : pbuf_get out.swap.pbuf slot ≡ (some e.target, got.0)
    got_pa = got.1 ∙ ap (λ (x : ℕ). (some x, got.0)) (entry-put w.swap.pbuf slot e.target)
