-- ===== src/Mm/Swap/Reread.antt =====
-- A page that is swapped in again from the disk.
use oops_os.Prelude.{
  ℕ, ◌+◌, ◌<◌, ◌≡◌, ◌≢◌, refl, sym, ◌∙◌, true, false, none, some, arith, ltb, if◌then◌else◌, ap,
  subst, ℤ, pos,
}
use oops_os.Prelude.Arrays.{put_self, put_ne}
use oops_os.Mm.Swap.{
  swap_pages, Pbuf, take_slot, swap_write, find_entry, pbuf_get, Pte, World, move_out, map_in,
  fetch_page, load_entry, swapin, swap_read,
}
use oops_os.Mm.Swap.Slots.{swap_read-swap_write}
use oops_os.Mm.Swap.Back.{freed_again}

-- After a `swapin` that reads the disk into the page `mem`, in a memory that holds `page` by then: the answer, the
-- entry, which leads to `mem`, the bytes that were swapped out, the other pages, and the slots in use.
pub record IsReread (w : World) (va : ℕ) (e : Pte) (page : ℕ → ℕ → ℕ) (mem : ℕ) (back : ℤ × World)
    : Type 0 where
  pub answer : back.0 ≡ pos 0
  pub entry : back.1.pte va ≡ some (record e { target = mem })
  pub bytes : (j : ℕ) → j < 4096 → back.1.page mem j ≡ w.page e.target j
  pub others : (pa : ℕ) → pa ≢ mem → back.1.page pa ≡ page pa
  pub slots : (b : ℕ) → back.1.swap.swapmap b ≡ w.swap.swapmap b

-- The world later: the buffer is `p` and the memory holds `page`.
abbrev pub later : World → Pbuf → (ℕ → ℕ → ℕ) → World
later w p page = record w { swap = record (w.swap) { pbuf = p }; page = page }

pbuf_get_missed :
    (p : Pbuf) (slot : ℕ)
    → find_entry p slot ≡ none
    → pbuf_get p slot ≡ (none, record p { misses = p.misses + 1 })
unfolding pbuf_get
pbuf_get_missed p slot e = rw (pbuf_get, e)

swapin_missed :
    (w : World) (va : ℕ) (e : Pte) (mem : ℕ) (q : Pbuf)
    → w.pte va ≡ some e
    → e.swapped ≡ true
    → pbuf_get w.swap.pbuf e.target ≡ (none, q)
    → swapin w va (some mem) ≡ (
      pos 0,
      map_in w va e (record (w.swap) { pbuf = q }) mem (swap_read w.swap e.target (w.page mem)),
    )
unfolding swapin load_entry fetch_page
swapin_missed w va e mem q a b c = rw (swapin, a) (rw (load_entry, b) (rw (c, fetch_page)))

retarget :
    (e : Pte) (mem slot : ℕ)
    → e.present ≡ true
    → e.swapped ≡ false
    → record (record e { present = false; swapped = true; target = slot }) {
      present = true;
      swapped = false;
      target = mem;
    }
      ≡ record e { target = mem }
retarget e mem slot p q = ground arith

pub move_out-IsReread :
    (w : World) (va : ℕ) (e : Pte) (slot : ℕ) (p : Pbuf) (page : ℕ → ℕ → ℕ) (mem : ℕ)
    → e.present ≡ true
    → e.swapped ≡ false
    → slot < swap_pages
    → w.swap.swapmap slot ≡ false
    → find_entry p slot ≡ none
    → IsReread w va e page mem
        (swapin (later (move_out w va e slot (take_slot w.swap slot)).1 p page) va (some mem))
unfolding move_out swap_write take_slot map_in
move_out-IsReread w va e slot p page mem a q l f miss =
    subst (IsReread w va e page mem)
      (sym (
        swapin_missed out va gone mem (record p { misses = p.misses + 1 })
          (put_self w.pte va (some gone)) refl (pbuf_get_missed p slot miss)))
      (record {
        answer = refl;
        entry = put_self _ va _ ∙ ap some (retarget e mem slot a q);
        bytes = λ j b.
            ap (λ (x : ℕ → ℕ). x j) (put_self page mem (swap_read out.swap slot (page mem)))
            ∙ (from_disk j ∙ in_page j b);
        others = λ pa ne. put_ne page mem _ pa ne;
        slots = λ b. freed_again w.swap slot b _ l f refl;
      })
  where
    gone : Pte
    gone = record e { present = false; swapped = true; target = slot }

    out : World
    out = later (move_out w va e slot (take_slot w.swap slot)).1 p page

    from_disk :
        (j : ℕ)
        → swap_read out.swap slot (page mem) j
          ≡ (if ltb j 4096 then w.page e.target j else page mem j)
    from_disk j =
        unfold swap_read swap_write in
        (swap_read-swap_write (take_slot w.swap slot) slot (w.page e.target) (page mem) j).0

    in_page :
        (j : ℕ)
        → j < 4096
        → (if ltb j 4096 then w.page e.target j else page mem j) ≡ w.page e.target j
    in_page j b = ground arith
