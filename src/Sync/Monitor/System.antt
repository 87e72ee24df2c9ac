-- ===== src/Sync/Monitor/System.antt =====
-- Processes at a monitor, and when at most one of them is inside.
use oops_os.Prelude.{
  ℕ, ◌≡◌, ◌≢◌, sym, ◌∙◌, Bool, true, false, some, inl, inr, ◌⊎◌, ℕ_discrete, subst,
}
use oops_os.Prelude.Arrays.{put, put_self, put_ne}
use oops_os.Sync.Monitor.{
  Monitor, Outcome, done, failed, waits_enter, waits_cond, waits_again, Caller, create, enter,
  enter_woken, exit, cond_create, cond_free, cond_wait, cond_woken, again_woken,
}

-- Where a process stands: outside of the monitor, inside, or asleep in one of the three loops.
pub data Place : Type 0 where
  outside : Place
  inside : Place
  in_enter : Place
  in_cond : ℕ → Place
  in_relock : Place

abbrev pub is_inside : Place → Bool
is_inside inside = true
is_inside _ = false

abbrev pub is_awake : Place → Bool
is_awake outside = true
is_awake inside = true
is_awake _ = false

-- Where a call that ends so leaves a process that would be at `old` if it fails.
unfoldable pub land : Place → Outcome → Place
land old done = inside
land old failed = old
land old waits_enter = in_enter
land old (waits_cond i) = in_cond i
land old waits_again = in_relock

-- Where `mon_exit` leaves its caller.
unfoldable pub leave : Place → Outcome → Place
leave old done = outside
leave old _ = old

pub record System : Type 0 where
  pub mon : Monitor
  pub place : ℕ → Place

-- One stretch of one call under the monitor's lock. Wake-ups may come at any time.
pub data Step (s : System) : System → Type 0 where
  enters :
      (c : Caller)
      → is_awake (s.place c.pid) ≡ true
      → Step s (record {
        mon = (enter s.mon c).1;
        place = put s.place c.pid (land (s.place c.pid) (enter s.mon c).0);
      })
  wakes_enter :
      (c : Caller)
      → s.place c.pid ≡ in_enter
      → Step s (record {
        mon = (enter_woken s.mon c).1;
        place = put s.place c.pid (land outside (enter_woken s.mon c).0);
      })
  exits :
      (c : Caller)
      → is_awake (s.place c.pid) ≡ true
      → Step s (record {
        mon = (exit s.mon c).1;
        place = put s.place c.pid (leave (s.place c.pid) (exit s.mon c).0);
      })
  waits :
      (c : Caller) (i : ℕ)
      → is_awake (s.place c.pid) ≡ true
      → Step s (record {
        mon = (cond_wait s.mon c i).1;
        place = put s.place c.pid (land (s.place c.pid) (cond_wait s.mon c i).0);
      })
  wakes_cond :
      (c : Caller) (i : ℕ)
      → s.place c.pid ≡ in_cond i
      → Step s (record {
        mon = (cond_woken s.mon c i).1;
        place = put s.place c.pid (land outside (cond_woken s.mon c i).0);
      })
  wakes_again :
      (c : Caller)
      → s.place c.pid ≡ in_relock
      → Step s (record {
        mon = (again_woken s.mon c).1;
        place = put s.place c.pid (land outside (again_woken s.mon c).0);
      })
  makes_cond :
      {i : ℕ} {m : Monitor} → cond_create s.mon ≡ some (i, m) → Step s (record s { mon = m })
  frees_cond : (i : ℕ) → Step s (record s { mon = (cond_free s.mon i).1 })

-- The life of a monitor from `mon_create` on, as long as it is not freed.
pub data Reach : System → Type 0 where
  created :
      (m : Monitor) {m' : Monitor}
      → create m ≡ some m'
      → Reach (record { mon = m'; place = λ p. outside })
  next : {s t : System} → Reach s → Step s t → Reach t

-- Exactly the owner is inside while the monitor is locked, and nobody otherwise.
pub record IsExclusive (s : System) : Type 0 where
  pub owner_inside : s.mon.locked ≡ true → is_inside (s.place s.mon.owner) ≡ true
  pub inside_owner :
      (p : ℕ) → is_inside (s.place p) ≡ true → (s.mon.locked ≡ true) × (s.mon.owner ≡ p)
  pub free_unowned : s.mon.locked ≡ false → s.mon.owner ≡ 0

-- What a stretch of process `p`, at `old` before and at `new` after, does to the lock.
pub data Effect (m : Monitor) (p : ℕ) (old new : Place) (m' : Monitor) : Type 0 where
  gains :
      m.locked ≡ false
      → m'.locked ≡ true
      → m'.owner ≡ p
      → is_inside new ≡ true
      → Effect m p old new m'
  keeps :
      m'.locked ≡ m.locked
      → m'.owner ≡ m.owner
      → is_inside new ≡ is_inside old
      → Effect m p old new m'
  loses :
      m.owner ≡ p → m'.locked ≡ false → m'.owner ≡ 0 → is_inside new ≡ false → Effect m p old new m'

inside_put :
    (place : ℕ → Place) (p : ℕ) (new : Place) (q : ℕ) (x : Bool)
    → (q ≡ p → is_inside new ≡ x)
    → (q ≢ p → is_inside (place q) ≡ x)
    → is_inside (put place p new q) ≡ x
inside_put place p new q x h k = elim (ℕ_discrete q p) [
  | yes e ↦ rw (e, put_self place p new) (h e)
  | no ne ↦ rw (put_ne place p new q ne) (k ne)
]

put_inside :
    (place : ℕ → Place) (p : ℕ) (new : Place) (q : ℕ)
    → is_inside (put place p new q) ≡ true
    → ((q ≡ p) × (is_inside new ≡ true)) ⊎ ((q ≢ p) × (is_inside (place q) ≡ true))
put_inside place p new q h = elim (ℕ_discrete q p) [
  | yes e ↦ inl (e, (rw (e, put_self place p new) at h))
  | no ne ↦ inr (ne, (rw (put_ne place p new q ne) at h))
]

pub Effect-IsExclusive :
    (s : System) (p : ℕ) (new : Place) (m' : Monitor)
    → IsExclusive s
    → Effect s.mon p (s.place p) new m'
    → IsExclusive (record { mon = m'; place = put s.place p new })
Effect-IsExclusive s p new m' v (gains a b c d) = record {
  owner_inside = λ l. inside_put s.place p new m'.owner true (λ e. d) (λ ne. absurd (ne c));
  inside_owner = λ q i. elim (put_inside s.place p new q i) [
    | inl r ↦ (b, c ∙ sym r.0)
    | inr r ↦ absurd (cc (a, (v.inside_owner q r.1).0))
  ];
  free_unowned = λ l. absurd (cc);
}
Effect-IsExclusive s p new m' v (keeps a b c) = record {
  owner_inside = λ l.
      inside_put s.place p new m'.owner true
        (λ e.
          c ∙ subst (λ q. is_inside (s.place q) ≡ true) (sym b ∙ e) (v.owner_inside (sym a ∙ l)))
        (λ ne. subst (λ q. is_inside (s.place q) ≡ true) (sym b) (v.owner_inside (sym a ∙ l)));
  inside_owner = λ q i. elim (put_inside s.place p new q i) [
    | inl r ↦ let w = v.inside_owner p (sym c ∙ r.1) in (a ∙ w.0, b ∙ w.1 ∙ sym r.0)
    | inr r ↦ let w = v.inside_owner q r.1 in (a ∙ w.0, b ∙ w.1)
  ];
  free_unowned = λ l. b ∙ v.free_unowned (sym a ∙ l);
}
Effect-IsExclusive s p new m' v (loses a b c d) = record {
  owner_inside = λ l. absurd (cc);
  inside_owner = λ q i. elim (put_inside s.place p new q i) [
    | inl r ↦ absurd (cc)
    | inr r ↦ absurd (r.0 (sym (v.inside_owner q r.1).1 ∙ a))
  ];
  free_unowned = λ l. c;
}

-- A monitor changed outside of its lock's fields.
pub same-IsExclusive :
    (s : System) (m' : Monitor)
    → IsExclusive s
    → m'.locked ≡ s.mon.locked
    → m'.owner ≡ s.mon.owner
    → IsExclusive (record s { mon = m' })
same-IsExclusive s m' v a b = record {
  owner_inside =
      λ l. subst (λ q. is_inside (s.place q) ≡ true) (sym b) (v.owner_inside (sym a ∙ l));
  inside_owner = λ q i. let w = v.inside_owner q i in (a ∙ w.0, b ∙ w.1);
  free_unowned = λ l. b ∙ v.free_unowned (sym a ∙ l);
}
