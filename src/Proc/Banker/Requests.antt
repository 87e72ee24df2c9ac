-- ===== src/Proc/Banker/Requests.antt =====
-- `banker_request`: it ends, it grants only into safe states, and a refusal changes nothing.
use oops_os.Prelude.{
  ℕ, ◌+◌, ◌-◌, ◌≤◌, ◌<◌, ◌≡◌, sym, Bool, true, false, some, arith, ltb, fun_ext, if◌then◌else◌,
  Bool-cases, inl, inr, ◌⊎◌, subst, ℕ_discrete, ℤ, pos, pos_part, ok, err, not, Status, ap, ap₂,
  ◌↔◌, ◌∙◌, some_inj, ◌||◌,
}
use oops_os.Prelude.Arrays.{put, put_self, put_ne, all_below, all_below-elim, all_below-intro}
use oops_os.Proc.Banker.{
  Banker, Claim, nproc, bad_count, grant, take_back, req_ok, not_ready, decide_grant, is_safe,
  request,
}
use oops_os.Proc.Banker.Safety.{IsSafe}
use oops_os.Proc.Banker.Complete.{is_safe_decides}
use oops_os.Proc.Banker.Conserved.{IsConsistent, grant-IsConsistent}

req_ok-fits :
    (b : Banker) (p : ℕ) (req : ℕ → ℤ) (r : ℕ)
    → req_ok b p req r ≡ true
    → (pos_part (req r) ≤ b.avail r) × ((b.procs p).alloc r + pos_part (req r) ≤ (b.procs p).max r)
unfolding req_ok
req_ok-fits b p req r h = ground arith

-- Undoing a grant that was covered gives back the state before it.
take_back-grant :
    (b : Banker) (p n : ℕ) (amount : ℕ → ℕ)
    → ((r : ℕ) → r < n → amount r ≤ b.avail r)
    → take_back (grant b p n amount) p n amount ≡ b
unfolding take_back grant
take_back-grant b p n amount fits =
    ap₂ (λ (a : ℕ → ℕ) (q : ℕ → Claim). record b { avail = a; procs = q }) (fun_ext avail_same)
      (fun_ext procs_same)
  where
    avail_same :
        (r : ℕ)
        → (if ltb r n
            then (if ltb r n then b.avail r - amount r else b.avail r) + amount r
            else (if ltb r n then b.avail r - amount r else b.avail r))
          ≡ b.avail r
    avail_same r = elim (Bool-cases (ltb r n)) [
      | inl e ↦ rw e (omega (arith, fits r (ground arith)))
      | inr e ↦ rw e
    ]

    granted : Claim
    granted = record (b.procs p) {
      alloc = λ r. if ltb r n then (b.procs p).alloc r + amount r else (b.procs p).alloc r;
    }

    undo : Claim → Claim
    undo c = record c { alloc = λ r. if ltb r n then c.alloc r - amount r else c.alloc r }

    undone : undo granted ≡ b.procs p
    undone =
        ap (λ (a : ℕ → ℕ). record (b.procs p) { alloc = a })
          (fun_ext λ r. elim (Bool-cases (ltb r n)) [ inl e ↦ rw e (omega arith) | inr e ↦ rw e ])

    procs_same :
        (i : ℕ) → put (put b.procs p granted) p (undo (put b.procs p granted p)) i ≡ b.procs i
    procs_same i = elim (ℕ_discrete i p) [
      | yes e ↦
          rw
            (
              e,
              put_self (put b.procs p granted) p (undo (put b.procs p granted p)),
              put_self b.procs p granted,
            )
            undone
      | no ne ↦ rw (
        put_ne (put b.procs p granted) p (undo (put b.procs p granted p)) i ne,
        put_ne b.procs p granted i ne,
      )
    ]

-- The amount asked of type `r` is not negative, within the rest of the claim, and free.
abbrev pub Covers : Banker → ℕ → (ℕ → ℤ) → ℕ → Type 0
Covers b p req r =
    (amount : ℕ) × (req r ≡ pos amount)
    × (amount ≤ b.avail r)
    × ((b.procs p).alloc r + amount ≤ (b.procs p).max r)

-- What a request must meet before the safety check: the right number of types, a claim, and amounts
-- that are not negative, within the rest of the claim and free.
pub record IsAdmissible (b : Banker) (p : ℕ) (nres : ℤ) (req : ℕ → ℤ) : Type 0 where
  pub count : nres ≡ pos b.nres
  pub some_type : 0 < b.nres
  pub few : b.nres ≤ 8
  pub ready : b.inited ≡ true
  pub claimed : (b.procs p).active ≡ true
  pub amounts : (r : ℕ) → r < b.nres → Covers b p req r

req_ok_iff :
    (b : Banker) (p : ℕ) (req : ℕ → ℤ) (r : ℕ) → (req_ok b p req r ≡ true) ↔ Covers b p req r
unfolding req_ok
req_ok_iff b p req r =
    (λ h. (pos_part (req r), ground arith, ground arith, ground arith), λ h. rw h.1 (ground arith))

admit :
    (b : Banker) (p : ℕ) (nres : ℤ) (req : ℕ → ℤ)
    → bad_count nres ≡ false
    → not_ready b p (pos_part nres) ≡ false
    → all_below (pos_part nres) (req_ok b p req) ≡ true
    → IsAdmissible b p nres req
unfolding bad_count not_ready
admit b p nres req c d e = record {
  count = ground arith;
  some_type = ground arith;
  few = ground arith;
  ready = ground arith;
  claimed = ground arith;
  amounts = λ r l.
      (req_ok_iff b p req r).0 (all_below-elim (pos_part nres) (req_ok b p req) e r (ground arith));
}

guards_of_IsAdmissible :
    (b : Banker) (p : ℕ) (nres : ℤ) (req : ℕ → ℤ)
    → IsAdmissible b p nres req
    → (bad_count nres ≡ false)
      × (not_ready b p (pos_part nres) ≡ false)
      × (all_below (pos_part nres) (req_ok b p req) ≡ true)
unfolding bad_count not_ready
guards_of_IsAdmissible b p nres req a = (
  rw a.count (ground arith),
  rw a.count (ground arith),
  rw a.count
      (all_below-intro b.nres (req_ok b p req) (λ r l. (req_ok_iff b p req r).1 (a.amounts r l))),
)

abbrev pub granted : Banker → ℕ → (ℕ → ℤ) → Banker
granted b p req = grant b p b.nres (λ r. pos_part (req r))

request_of_IsAdmissible :
    (b : Banker) (p : ℕ) (nres : ℤ) (req : ℕ → ℤ)
    → IsAdmissible b p nres req
    → request b p nres req
      ≡ decide_grant (is_safe (granted b p req)) (granted b p req) p b.nres (λ r. pos_part (req r))
unfolding request
request_of_IsAdmissible b p nres req a =
    let (c, d, e) = guards_of_IsAdmissible b p nres req a in rw (c, d, e) (rw a.count)

abbrev refused : Banker → ℕ → ℤ → (ℕ → ℤ) → Bool
refused b p nres req =
    bad_count nres
    || not_ready b p (pos_part nres)
    || not (all_below (pos_part nres) (req_ok b p req))

request_of_refused :
    (b : Banker) (p : ℕ) (nres : ℤ) (req : ℕ → ℤ)
    → refused b p nres req ≡ true
    → request b p nres req ≡ some (err, b)
unfolding request
request_of_refused b p nres req x = elim (Bool-cases (bad_count nres)) [
  | inl c ↦ rw c
  | inr c ↦ elim (Bool-cases (not_ready b p (pos_part nres))) [
    | inl d ↦ rw (c, d)
    | inr d ↦ elim (Bool-cases (all_below (pos_part nres) (req_ok b p req))) [
      | inr e ↦ rw (c, d, e)
      | inl e ↦ absurd (ground arith)
    ]
  ]
]

-- `banker_request` returns, and it grants exactly the admissible requests after which the state
-- is safe: then the granted amounts have moved to the process. Otherwise it answers -1 and
-- leaves the state as it was, also where it had to undo the grant.
pub request_decides :
    (b : Banker) (p : ℕ) (nres : ℤ) (req : ℕ → ℤ)
    → ((request b p nres req ≡ some (ok, granted b p req))
        × IsAdmissible b p nres req
        × IsSafe (granted b p req))
      ⊎ ((request b p nres req ≡ some (err, b))
          × (¬ (IsAdmissible b p nres req × IsSafe (granted b p req))))
unfolding decide_grant
request_decides b p nres req = elim (Bool-cases (refused b p nres req)) [
  | inl x ↦
      inr
        (request_of_refused b p nres req x, λ q. never x (guards_of_IsAdmissible b p nres req q.0))
  | inr x ↦
      let a = admit b p nres req (ground arith) (ground arith) (ground arith) in
      elim (is_safe_decides (granted b p req)) [
        | inl q ↦ inl (request_of_IsAdmissible b p nres req a ∙ rw q.0, a, q.1)
        | inr q ↦ inr (
          request_of_IsAdmissible b p nres req a
              ∙ rw q.0 (
                  ap (λ (u : Banker). some (err, u))
                    (take_back-grant b p b.nres (λ r. pos_part (req r)) (λ r l. free a r l))),
          λ z. absurd (q.1 z.1),
        )
      ]
]
  where
    never :
        refused b p nres req ≡ true
        → (bad_count nres ≡ false)
          × (not_ready b p (pos_part nres) ≡ false)
          × (all_below (pos_part nres) (req_ok b p req) ≡ true)
        → ⊥
    never x g = ground arith

    free : IsAdmissible b p nres req → (r : ℕ) → r < b.nres → pos_part (req r) ≤ b.avail r
    free a r l = let c = a.amounts r l in rw c.1 (omega arith)

-- `banker_request` keeps a consistent state consistent.
pub request-IsConsistent :
    (b : Banker) (p : ℕ) (nres : ℤ) (req : ℕ → ℤ) (s : Status) (b' : Banker)
    → p < nproc
    → IsConsistent b
    → request b p nres req ≡ some (s, b')
    → IsConsistent b'
request-IsConsistent b p nres req s b' l v h = elim (request_decides b p nres req) [
  | inl q ↦ subst IsConsistent (ap (λ (o : Status × Banker). o.1) (some_inj (sym q.0 ∙ h))) (
      grant-IsConsistent b p (λ r. pos_part (req r)) l v q.1.claimed
        (λ r lr. covered (q.1.amounts r lr)))
  | inr q ↦ subst IsConsistent (ap (λ (o : Status × Banker). o.1) (some_inj (sym q.0 ∙ h))) v
]
  where
    covered :
        {r : ℕ}
        → Covers b p req r
        → (pos_part (req r) ≤ b.avail r)
          × ((b.procs p).alloc r + pos_part (req r) ≤ (b.procs p).max r)
    covered c = rw c.1 (omega arith)
