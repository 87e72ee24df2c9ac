-- ===== src/Sync/Monitor/Exclusion.antt =====
-- Processes that use one monitor, in any interleaving of their calls and wake-ups.
use oops_os.Prelude.{
  ℕ, ◌≡◌, refl, sym, ◌∙◌, true, false, some, arith, inl, inr, ◌⊎◌, ap, Bool-cases, not, ◌||◌, ◌==◌,
}
use oops_os.Sync.Monitor.{
  Monitor, failed, Caller, create, free, enter_loop, enter, enter_woken, exit, cond_create,
  with_cond, cond_free, cond_wait, relock, cond_woken, again_woken,
}
use oops_os.Sync.Monitor.System.{
  Place, outside, in_enter, in_cond, in_relock, is_inside, land, leave, System, Step, enters,
  wakes_enter, exits, waits, wakes_cond, wakes_again, makes_cond, frees_cond, Reach, created, next,
  IsExclusive, Effect, gains, keeps, loses, Effect-IsExclusive, same-IsExclusive,
}

enter_loop-Effect :
    (m m₀ : Monitor) (c : Caller) (old back : Place)
    → m.locked ≡ m₀.locked
    → m.owner ≡ m₀.owner
    → is_inside old ≡ false
    → is_inside back ≡ false
    → Effect m₀ c.pid old (land back (enter_loop m c).0) (enter_loop m c).1
unfolding enter_loop land
enter_loop-Effect m m₀ c old back a b o o' = elim (Bool-cases m.locked) [
  | inr e ↦ simp e (gains (sym a ∙ e) refl refl refl)
  | inl e ↦ elim (Bool-cases (c.killed || c.deadlock)) [
    | inl k ↦ simp (e, k) (keeps a b (o' ∙ sym o))
    | inr k ↦ simp (e, k) (keeps (sym e ∙ a) b (sym o))
  ]
]

relock-Effect :
    (m m₀ : Monitor) (c : Caller)
    → m.locked ≡ m₀.locked
    → m.owner ≡ m₀.owner
    → (old : Place) → is_inside old ≡ false
    → Effect m₀ c.pid old (land outside (relock m c).0) (relock m c).1
unfolding relock land
relock-Effect m m₀ c a b old o = elim (Bool-cases m.locked) [
  | inr e ↦ simp e (gains (sym a ∙ e) refl refl refl)
  | inl e ↦ simp e (keeps (sym e ∙ a) b (sym o))
]

-- Failing, or only changing what a process waits for, keeps the lock.
outside_of_place : (x : Place) {y : Place} → x ≡ y → is_inside y ≡ false → is_inside x ≡ false
outside_of_place x e h = ap is_inside e ∙ h

enter-Effect :
    (s : System) (c : Caller)
    → IsExclusive s
    → Effect s.mon c.pid (s.place c.pid) (land (s.place c.pid) (enter s.mon c).0) (enter s.mon c).1
unfolding enter
enter-Effect s c v = elim (Bool-cases (not s.mon.allocated || s.mon.owner == c.pid)) [
  | inl e ↦ simp e (unfold land in keeps refl refl refl)
  | inr e ↦ simp e (
      let away = not_inside (Bool-cases (is_inside (s.place c.pid))) e in
      enter_loop-Effect s.mon s.mon c (s.place c.pid) (s.place c.pid) refl refl away away)
]
  where
    not_inside :
        (is_inside (s.place c.pid) ≡ true) ⊎ (is_inside (s.place c.pid) ≡ false)
        → (not s.mon.allocated || s.mon.owner == c.pid) ≡ false
        → is_inside (s.place c.pid) ≡ false
    not_inside (inr h) e = h
    not_inside (inl h) e = let w = v.inside_owner c.pid h in ground arith

enter_woken-Effect :
    (s : System) (c : Caller)
    → s.place c.pid ≡ in_enter
    → Effect s.mon c.pid
        (s.place c.pid)
        (land outside (enter_woken s.mon c).0)
        (enter_woken s.mon c).1
unfolding enter_woken
enter_woken-Effect s c e =
    enter_loop-Effect _ s.mon c (s.place c.pid) outside refl refl (outside_of_place _ e refl) refl

exit-Effect :
    (s : System) (c : Caller)
    → Effect s.mon c.pid (s.place c.pid) (leave (s.place c.pid) (exit s.mon c).0) (exit s.mon c).1
unfolding exit leave
exit-Effect s c = elim (Bool-cases (not s.mon.allocated || not (s.mon.owner == c.pid))) [
  | inl e ↦ simp e (keeps refl refl refl)
  | inr e ↦ simp e (loses (ground arith) refl refl refl)
]

cond_wait-Effect :
    (s : System) (c : Caller) (i : ℕ)
    → Effect s.mon c.pid
        (s.place c.pid)
        (land (s.place c.pid) (cond_wait s.mon c i).0)
        (cond_wait s.mon c i).1
unfolding cond_wait land
cond_wait-Effect s c i =
    elim (Bool-cases
      (not s.mon.allocated || not (s.mon.conds i).allocated || not (s.mon.owner == c.pid))) [
        | inl e ↦ simp e (keeps refl refl refl)
        | inr e ↦ simp e (loses (ground arith) refl refl refl)
      ]

cond_woken-Effect :
    (s : System) (c : Caller) (i : ℕ)
    → s.place c.pid ≡ in_cond i
    → Effect s.mon c.pid
        (s.place c.pid)
        (land outside (cond_woken s.mon c i).0)
        (cond_woken s.mon c i).1
unfolding cond_woken
cond_woken-Effect s c i e = elim (Bool-cases c.killed) [
  | inl k ↦ simp k (unfold land in keeps refl refl (sym (outside_of_place _ e refl)))
  | inr k ↦ simp k (relock-Effect _ s.mon c refl refl (s.place c.pid) (outside_of_place _ e refl))
]

again_woken-Effect :
    (s : System) (c : Caller)
    → s.place c.pid ≡ in_relock
    → Effect s.mon c.pid
        (s.place c.pid)
        (land outside (again_woken s.mon c).0)
        (again_woken s.mon c).1
unfolding again_woken
again_woken-Effect s c e = elim (Bool-cases c.killed) [
  | inl k ↦ simp k (unfold land in keeps refl refl (sym (outside_of_place _ e refl)))
  | inr k ↦ simp k (relock-Effect _ s.mon c refl refl (s.place c.pid) (outside_of_place _ e refl))
]

cond_create_same :
    (m m' : Monitor) (i : ℕ)
    → cond_create m ≡ some (i, m')
    → (m'.locked ≡ m.locked) × (m'.owner ≡ m.owner)
unfolding cond_create with_cond
cond_create_same m m' i e = ground arith

cond_free_same :
    (m : Monitor) (i : ℕ)
    → ((cond_free m i).1.locked ≡ m.locked) × ((cond_free m i).1.owner ≡ m.owner)
unfolding cond_free
cond_free_same m i = ground arith

create_fresh : (m m' : Monitor) → create m ≡ some m' → (m'.locked ≡ false) × (m'.owner ≡ 0)
unfolding create
create_fresh m m' e = ground arith

Step-IsExclusive : {s t : System} → Step s t → IsExclusive s → IsExclusive t
Step-IsExclusive {s} (enters c a) v = Effect-IsExclusive s c.pid _ _ v (enter-Effect s c v)
Step-IsExclusive {s} (wakes_enter c e) v =
    Effect-IsExclusive s c.pid _ _ v (enter_woken-Effect s c e)
Step-IsExclusive {s} (exits c a) v = Effect-IsExclusive s c.pid _ _ v (exit-Effect s c)
Step-IsExclusive {s} (waits c i a) v = Effect-IsExclusive s c.pid _ _ v (cond_wait-Effect s c i)
Step-IsExclusive {s} (wakes_cond c i e) v =
    Effect-IsExclusive s c.pid _ _ v (cond_woken-Effect s c i e)
Step-IsExclusive {s} (wakes_again c e) v =
    Effect-IsExclusive s c.pid _ _ v (again_woken-Effect s c e)
Step-IsExclusive {s} (makes_cond {i} {m} e) v =
    let w = cond_create_same s.mon m i e in same-IsExclusive s m v w.0 w.1
Step-IsExclusive {s} (frees_cond i) v =
    let w = cond_free_same s.mon i in same-IsExclusive s (cond_free s.mon i).1 v w.0 w.1

Reach-IsExclusive : {s : System} → Reach s → IsExclusive s
Reach-IsExclusive (created m {m'} e) =
    let w = create_fresh m m' e in
    record {
      owner_inside = λ l. absurd (cc (l, w.0));
      inside_owner = λ p i. absurd (cc i);
      free_unowned = λ l. w.1;
    }
Reach-IsExclusive (next r st) = Step-IsExclusive st (Reach-IsExclusive r)

-- Mutual exclusion: in the life of a monitor, however its calls and wake-ups interleave, two
-- processes that are inside are the same, and while one is inside the monitor is locked, owned by it,
-- and cannot be freed.
pub mutual_exclusion :
    {s : System} (p q : ℕ)
    → Reach s
    → is_inside (s.place p) ≡ true
    → is_inside (s.place q) ≡ true
    → (p ≡ q) × (s.mon.locked ≡ true) × (s.mon.owner ≡ p) × ((free s.mon).0 ≡ failed)
unfolding free
mutual_exclusion {s} p q r i j =
    let v = Reach-IsExclusive r in
    let w = v.inside_owner p i in (sym w.1 ∙ (v.inside_owner q j).1, w.0, w.1, unfreed w.0)
  where
    unfreed : s.mon.locked ≡ true → (free s.mon).0 ≡ failed
    unfreed l = ground arith
