-- ===== src/Proc/Mail/Link.antt =====
-- A letter joins the list of a mailbox at its end, and leaves it at its head.
use oops_os.Prelude.{
  ℕ, ◌<◌, ◌≡◌, ◌≢◌, refl, sym, ◌∙◌, ap, true, false, List, [], ◌∷◌, ◌++◌, length, count, arith,
  ◌==◌, if◌then◌else◌, ℕ_discrete, subst,
}
use oops_os.Prelude.Arrays.{put, put_self, put_ne}
use oops_os.Proc.Mail.{Letter, Mailbox, link, unlink}
use oops_os.Proc.Mail.Chain.{
  Mail, mail_of, IsChain, last, Differ, contents, total, Holds, last-count, last-append, last-pos,
  Differ-rest, IsChain-append, contents-append, total-append, Differ-append, length_one,
}

-- The page is not in use by the list.
abbrev pub IsFresh : Mailbox → ℕ → Type 0
IsFresh b page = (0 < page) × ((xs : List ℕ) → IsChain b.nodes b.head xs → count page xs ≡ 0)

module _ (b : Mailbox) (page from len : ℕ) (text : ℕ → ℕ) (f : IsFresh b page) where
  abbrev letter : Letter
  letter = record { next = 0; len = len; sender = from; text = text }

  abbrev filled : ℕ → Letter
  filled = put b.nodes page letter

  abbrev chained : ℕ → Letter
  chained = put filled b.tail (record (filled b.tail) { next = page })

  -- Only the node of the last letter changes, and only its link.
  chained-same : (z : ℕ) → z ≢ page → z ≢ b.tail → chained z ≡ b.nodes z
  chained-same z ne nt = put_ne filled b.tail _ z nt ∙ put_ne b.nodes page letter z ne

  chained-mail : (z : ℕ) → z ≢ page → mail_of (chained z) ≡ mail_of (b.nodes z)
  chained-mail z ne = elim (ℕ_discrete z b.tail) [
    | no nt ↦ ap mail_of (chained-same z ne nt)
    | yes e ↦
        ap (λ (q : ℕ). mail_of (chained q)) e
        ∙ (ap mail_of (put_self filled b.tail (record (filled b.tail) { next = page }))
            ∙ (ap (λ (q : ℕ). mail_of (filled q)) (sym e)
                ∙ ap mail_of (put_ne b.nodes page letter z ne)))
  ]

  chained-page : page ≢ b.tail → chained page ≡ letter
  chained-page ne = put_ne filled b.tail _ page ne ∙ put_self b.nodes page letter

  link-places :
      (xs : List ℕ)
      → IsChain b.nodes b.head xs
      → b.tail ≡ last xs
      → Differ xs
      → b.held ≡ length (contents b.nodes xs)
      → b.bytes ≡ total (contents b.nodes xs)
      → Holds
          (link b page from len text)
          (contents b.nodes xs ++ (record { len = len; sender = from; text = text } ∷ []))
  unfolding link
  link-places [] c e d h y =
      let empty : (b.tail == 0) ≡ true = ground arith in
      let now = put_self b.nodes page letter in
      rw empty (record {
        places = page ∷ [];
        chain = (refl, f.0, ap (λ (l : Letter). l.next) now);
        end = refl;
        differ = λ x. ground arith;
        says = rw now refl;
        held = omega (arith, h);
        bytes = omega (arith, y);
      })
  link-places (x ∷ xs) c e d h y =
      let some_tail : (b.tail == 0) ≡ false = ground (arith, e, last-pos b.nodes b.head x xs c) in
      let unused = f.1 (x ∷ xs) c in
      let apart : page ≢ b.tail =
        λ q. omega (arith, unused, last-count x xs, ap (λ (z : ℕ). count z (x ∷ xs)) (q ∙ e)) in
      let now = chained-page apart in
      rw some_tail (record {
        places = (x ∷ xs) ++ (page ∷ []);
        chain =
            IsChain-append b.nodes chained b.head x xs page c d unused f.0
              (λ z n t. chained-same z n (λ q. t (q ∙ e)))
              (subst (λ (q : ℕ). (chained q).next ≡ page) e
                (ap (λ (l : Letter). l.next) (put_self filled b.tail _)))
              (ap (λ (l : Letter). l.next) now);
        end = sym (last-append (x ∷ xs) page);
        differ = Differ-append (x ∷ xs) page d unused;
        says =
            contents-append b.nodes chained (x ∷ xs) page (λ z k.
              chained-mail z (λ q. omega (arith, k, unused, ap (λ (n : ℕ). count n (x ∷ xs)) q)))
            ∙ ap (λ (m : Mail). contents b.nodes (x ∷ xs) ++ (m ∷ [])) (ap mail_of now);
        held = omega (arith, h, length_one (contents b.nodes (x ∷ xs)) (mail_of letter));
        bytes = omega (arith, y, total-append (contents b.nodes (x ∷ xs)) (mail_of letter));
      })

pub link-Holds :
    (b : Mailbox) (ms : List Mail) (page from len : ℕ) (text : ℕ → ℕ)
    → Holds b ms
    → IsFresh b page
    → Holds
        (link b page from len text)
        (ms ++ (record { len = len; sender = from; text = text } ∷ []))
link-Holds b ms page from len text h f =
    subst
      (λ (q : List Mail).
        Holds (link b page from len text)
          (q ++ (record { len = len; sender = from; text = text } ∷ [])))
      h.says
      (link-places b page from len text f h.places h.chain h.end h.differ
        (h.held ∙ ap length (sym h.says)) (h.bytes ∙ ap total (sym h.says)))

unlink-places :
    (b : Mailbox) (x : ℕ) (xs : List ℕ)
    → IsChain b.nodes b.head (x ∷ xs)
    → b.tail ≡ last (x ∷ xs)
    → Differ (x ∷ xs)
    → b.held ≡ length (contents b.nodes (x ∷ xs))
    → b.bytes ≡ total (contents b.nodes (x ∷ xs))
    → Holds (unlink b) (contents b.nodes xs)
unfolding unlink
unlink-places b x xs c e d h y = record {
  places = xs;
  chain = subst (λ (q : ℕ). IsChain b.nodes (b.nodes q).next xs) (sym c.0) (c.2);
  end = new_end xs c e;
  differ = Differ-rest x xs d;
  says = refl;
  held = omega (arith, h);
  bytes = omega (arith, y, ap (λ (q : ℕ). (b.nodes q).len) (c.0));
}
  where
    new_end :
        (xs : List ℕ)
        → IsChain b.nodes b.head (x ∷ xs)
        → b.tail ≡ last (x ∷ xs)
        → (if (b.nodes b.head).next == 0 then 0 else b.tail) ≡ last xs
    new_end [] c e =
        let none : ((b.nodes b.head).next == 0) ≡ true = rw (c.0) (ground (arith, c.2)) in
        rw none refl
    new_end (y ∷ ys) c e =
        let more : ((b.nodes b.head).next == 0) ≡ false =
          rw (c.0) (ground (arith, (c.2).0, (c.2).1)) in
        rw more e

-- The oldest letter is read and taken out.
pub unlink-Holds :
    (b : Mailbox) (m : Mail) (ms : List Mail)
    → Holds b (m ∷ ms)
    → (mail_of (b.nodes b.head) ≡ m) × Holds (unlink b) ms
unlink-Holds b m ms h = first h.places h.chain h.end h.differ h.says
  where
    first :
        (xs : List ℕ)
        → IsChain b.nodes b.head xs
        → b.tail ≡ last xs
        → Differ xs
        → contents b.nodes xs ≡ m ∷ ms
        → (mail_of (b.nodes b.head) ≡ m) × Holds (unlink b) ms
    first [] c e d s = absurd (cc s)
    first (x ∷ xs) c e d s =
        let heads : mail_of (b.nodes x) ≡ m = cc s in
        let tails : contents b.nodes xs ≡ ms = cc s in
        (
          ap (λ (q : ℕ). mail_of (b.nodes q)) (c.0) ∙ heads,
          subst (Holds (unlink b)) tails (
              unlink-places b x xs c e d (h.held ∙ ap length (sym s)) (h.bytes ∙ ap total (sym s))),
        )
