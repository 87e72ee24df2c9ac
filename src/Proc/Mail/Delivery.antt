-- ===== src/Proc/Mail/Delivery.antt =====
-- A mailbox delivers each letter once, in the order in which they were sent.
use oops_os.Prelude.{
  ℕ, ◌≤◌, ◌<◌, ◌≡◌, refl, sym, ◌∙◌, ap, inl, inr, Bool, ◌||◌, List, [], ◌∷◌, ◌++◌, some, arith, ltb,
  leb, ◌==◌, Bool-cases, subst,
}
use mathlib.Core.List.{append_assoc}
use oops_os.Proc.Mail.{
  Letter, Mailbox, queue_max, text_max, sent, received, link, link_page, dmsgsend, unlink, dmsgrcv,
}
use oops_os.Proc.Mail.Chain.{Mail, mail_of, Holds}
use oops_os.Proc.Mail.Link.{IsFresh, link-Holds, unlink-Holds}

-- The states of a mailbox that is open, with what was sent to it and what was received from it so far.
pub data Reach : Mailbox → List Mail → List Mail → Type 0 where
  start : (b : Mailbox) → b.head ≡ 0 → b.tail ≡ 0 → b.held ≡ 0 → b.bytes ≡ 0 → Reach b [] []
  send :
      (b b' : Mailbox) (s g : List Mail) (page from len : ℕ) (text : ℕ → ℕ)
      → Reach b s g
      → IsFresh b page
      → dmsgsend b (some page) from len text ≡ sent b'
      → Reach b' (s ++ (record { len = len; sender = from; text = text } ∷ [])) g
  receive :
      (b b' : Mailbox) (s g : List Mail) (killed : Bool) (room : ℕ) (l : Letter)
      → Reach b s g
      → dmsgrcv b killed room ≡ received l b'
      → Reach b' s (g ++ (mail_of l ∷ []))

dmsgsend-sent :
    (b b' : Mailbox) (page from len : ℕ) (text : ℕ → ℕ)
    → dmsgsend b (some page) from len text ≡ sent b'
    → (b.held < queue_max) × (link b page from len text ≡ b')
unfolding dmsgsend link_page
dmsgsend-sent b b' page from len text e = elim (Bool-cases (ltb text_max len)) [
  | inl q ↦ absurd (cc (rw q at e))
  | inr q ↦ elim (Bool-cases b.closed) [
    | inl c ↦ absurd (cc (rw (q, c) at e))
    | inr c ↦ elim (Bool-cases (leb queue_max b.held)) [
      | inl h ↦ absurd (cc (rw (q, c, h) at e))
      | inr h ↦ (ground (arith, h), cc (rw (q, c, h) at e))
    ]
  ]
]

dmsgrcv-received :
    (b b' : Mailbox) (killed : Bool) (room : ℕ) (l : Letter)
    → dmsgrcv b killed room ≡ received l b'
    → (0 < b.held) × (l.len ≤ room) × (b.nodes b.head ≡ l) × (unlink b ≡ b')
unfolding dmsgrcv
dmsgrcv-received b b' killed room l e = elim (Bool-cases (ltb text_max room)) [
  | inl q ↦ absurd (cc (rw q at e))
  | inr q ↦ elim (Bool-cases (b.held == 0)) [
    | inl z ↦ elim (Bool-cases (killed || b.closed)) [
      | inl k ↦ absurd (cc (rw (q, z, k) at e))
      | inr k ↦ absurd (cc (rw (q, z, k) at e))
    ]
    | inr z ↦ elim (Bool-cases (ltb room (b.nodes b.head).len)) [
      | inl r ↦ absurd (cc (rw (q, z, r) at e))
      | inr r ↦
          let same : b.nodes b.head ≡ l = cc (rw (q, z, r) at e) in
          (
            ground (arith, z),
            subst (λ (x : Letter). x.len ≤ room) same (ground (arith, r)),
            same,
            cc (rw (q, z, r) at e),
          )
    ]
  ]
]

held-nonempty :
    (b : Mailbox) (ms : List Mail)
    → Holds b ms
    → 0 < b.held
    → (m : Mail) × (rest : List Mail) × (ms ≡ m ∷ rest)
held-nonempty b [] h l = absurd (omega (arith, h.held, l))
held-nonempty b (m ∷ ms) h l = (m, ms, refl)

link-held :
    (b : Mailbox) (page from len : ℕ) (text : ℕ → ℕ)
    → b.held < queue_max
    → (link b page from len text).held ≤ queue_max
unfolding link
link-held b page from len text l = omega (arith, l)

unlink-held : (b : Mailbox) → b.held ≤ queue_max → (unlink b).held ≤ queue_max
unfolding unlink
unlink-held b l = omega (arith, l)

-- An open mailbox that started empty, after any sends and receives, of which each send had a page that the
-- mailbox does not use: it holds at most 16 letters, and what was sent is what was received, in the same
-- order, followed by the letters that its linked list holds.
pub delivered_in_order :
    (b : Mailbox) (s g : List Mail)
    → Reach b s g
    → (b.held ≤ queue_max) × ((ms : List Mail) × Holds b ms × (s ≡ g ++ ms))
delivered_in_order b _ _ (start _ h t n y) = (
  omega (arith, n),
  (
    [],
    record {
      places = [];
      chain = h;
      end = t;
      differ = λ x. omega arith;
      says = refl;
      held = n;
      bytes = y;
    },
    refl,
  ),
)
delivered_in_order b _ g (send b0 _ s _ page from len text r f e) =
    let (few, (ms, h, q)) = delivered_in_order b0 s g r in
    let (room, same) = dmsgsend-sent b0 b page from len text e in
    let letter : Mail = record { len = len; sender = from; text = text } in
    let now =
      subst (λ (x : Mailbox). Holds x (ms ++ (letter ∷ []))) same
        (link-Holds b0 ms page from len text h f) in
    (
      subst (λ (x : Mailbox). x.held ≤ queue_max) same (link-held b0 page from len text room),
      (
        ms ++ (letter ∷ []),
        now,
        ap (λ (x : List Mail). x ++ (letter ∷ [])) q ∙ append_assoc g ms (letter ∷ []),
      ),
    )
delivered_in_order b s _ (receive b0 _ _ g killed room l r e) =
    let (few, (ms, h, q)) = delivered_in_order b0 s g r in
    let (some_held, fits, same, next) = dmsgrcv-received b0 b killed room l e in
    let (m, rest, p) = held-nonempty b0 ms h some_held in
    let (heads, left) = unlink-Holds b0 m rest (subst (Holds b0) p h) in
    let now = subst (λ (x : Mailbox). Holds x rest) next left in
    let read : mail_of l ≡ m = sym (ap mail_of same) ∙ heads in
    (
      subst (λ (x : Mailbox). x.held ≤ queue_max) next (unlink-held b0 few),
      (
        rest,
        now,
        q
            ∙ (ap (λ (x : List Mail). g ++ x) p
                ∙ (ap (λ (x : Mail). g ++ (x ∷ rest)) (sym read)
                    ∙ sym (append_assoc g (mail_of l ∷ []) rest))),
      ),
    )
