-- ===== src/Scheduler/OneShot/Runs.antt =====
-- Runs of src-tauri/src/core/scheduler/one_shot.rs: the invariant of its generations is kept.
use clash_verge_buty.Prelude.Assoc.{
  lookup, insert, length-insert_known, length-insert-le, length-remove-le,
}
use clash_verge_buty.Prelude.{
  ℕ, ◌+◌, ◌≤◌, ◌<◌, ◌≡◌, refl, String, none, List, [], ◌∷◌, inl, inr, arith, eq_nat, eq_string,
  length, Option-cases,
}
use clash_verge_buty.Scheduler.OneShot.{
  OneShotScheduler, OneShotEntry, init, u64_size, max_pending, cancel_pending, cancel_running,
  cancel_found, cancel,
}
use clash_verge_buty.Scheduler.OneShot.Work.{Event, step, run}
use clash_verge_buty.Scheduler.OneShot.Entries.{
  Jobs, Core, core, Change, same, wasted, placed, dropped, drained, fires, step-Change,
}
use clash_verge_buty.Scheduler.OneShot.Generations.{
  Inv, Dead, HasRoom, next_lem, lookup-placed, lookup-dropped, lookup-empty, Change-Dead,
}

placed-limited :
    (key : String) (entry : OneShotEntry) (m : Jobs)
    → (lookup key m ≡ none → length m < max_pending)
    → length m ≤ max_pending
    → length (insert key entry m) ≤ max_pending
placed-limited key entry m room h = elim (Option-cases (lookup key m)) [
  | inl e ↦ omega (arith, room e, length-insert-le key entry m)
  | inr (old, e) ↦ rw (length-insert_known key entry old m e) h
]

Change-Inv : (c d : Core) → Change c d → HasRoom c → Inv c → Inv d
Change-Inv c d same r x = x
Change-Inv c d wasted r x = record {
  below = λ k f h. omega (arith, x.below k f h, next_lem c.next r);
  unfired = x.unfired;
  single = x.single;
  fired_below = λ g h. omega (arith, x.fired_below g h, next_lem c.next r);
  once = x.once;
  limited = x.limited;
}
Change-Inv c d (placed key entry e room) r x = record {
  below = λ k f h. elim (lookup-placed key k entry f c.jobs h) [
    | inl (q, p) ↦ ground (arith, next_lem c.next r)
    | inr (q, p) ↦ omega (arith, x.below k f p, next_lem c.next r)
  ];
  unfired = λ k f h. elim (lookup-placed key k entry f c.jobs h) [
    | inl (q, p) ↦ ground (arith, x.fired_below f.generation)
    | inr (q, p) ↦ x.unfired k f p
  ];
  single = λ k j f g h i same_generation. elim (lookup-placed key k entry f c.jobs h) [
    | inl (q, p) ↦ elim (lookup-placed key j entry g c.jobs i) [
      | inl (t, s) ↦ cc
      | inr (t, s) ↦ absurd (ground (arith, x.below j g s))
    ]
    | inr (q, p) ↦ elim (lookup-placed key j entry g c.jobs i) [
      | inl (t, s) ↦ absurd (ground (arith, x.below k f p))
      | inr (t, s) ↦ x.single k j f g p s same_generation
    ]
  ];
  fired_below = λ g h. omega (arith, x.fired_below g h, next_lem c.next r);
  once = x.once;
  limited = placed-limited key entry c.jobs room x.limited;
}
Change-Inv c d (dropped key) r x = record {
  below = λ k f h. x.below k f (lookup-dropped key k f c.jobs h).1;
  unfired = λ k f h. x.unfired k f (lookup-dropped key k f c.jobs h).1;
  single = λ k j f g h i.
      x.single k j f g (lookup-dropped key k f c.jobs h).1 (lookup-dropped key j g c.jobs i).1;
  fired_below = x.fired_below;
  once = x.once;
  limited = omega (arith, x.limited, length-remove-le key c.jobs);
}
Change-Inv c d drained r x = record {
  below = λ k f h. absurd (lookup-empty k f h);
  unfired = λ k f h. absurd (lookup-empty k f h);
  single = λ k j f g h i. absurd (lookup-empty k f h);
  fired_below = x.fired_below;
  once = x.once;
  limited = omega arith;
}
Change-Inv c d (fires key entry e) r x = record {
  below = λ k f h. x.below k f (lookup-dropped key k f c.jobs h).1;
  unfired = λ k f h.
      let (q, p) = lookup-dropped key k f c.jobs h in
      ground (arith, x.unfired k f p, x.single key k entry f e p);
  single = λ k j f g h i.
      x.single k j f g (lookup-dropped key k f c.jobs h).1 (lookup-dropped key j g c.jobs i).1;
  fired_below = λ g h. ground (arith, x.fired_below g, x.below key entry e);
  once = ground (arith, x.unfired key entry e, x.once);
  limited = omega (arith, x.limited, length-remove-le key c.jobs);
}

pub Change-next : (c d : Core) → Change c d → HasRoom c → d.next ≤ c.next + 1
Change-next c d same r = omega arith
Change-next c d wasted r = omega (arith, next_lem c.next r)
Change-next c d (placed key entry e room) r = omega (arith, next_lem c.next r)
Change-next c d (dropped key) r = omega arith
Change-next c d drained r = omega arith
Change-next c d (fires key entry e) r = omega arith

-- The counter cannot wrap while these events happen.
abbrev pub HasRoomFor : List (ℕ × Event) → OneShotScheduler → Type 0
HasRoomFor es s = s.next_generation + length es < u64_size

pub HasRoomFor-step :
    (now : ℕ) (e : Event) (es : List (ℕ × Event)) (s : OneShotScheduler)
    → HasRoomFor ((now, e) ∷ es) s
    → HasRoom (core s) × HasRoomFor es (step now e s)
HasRoomFor-step now e es s h =
    let here : HasRoom (core s) = omega arith in
    (here, omega (arith, Change-next (core s) (core (step now e s)) (step-Change now e s) here))

pub run-Inv :
    (es : List (ℕ × Event)) (s : OneShotScheduler)
    → HasRoomFor es s
    → Inv (core s)
    → Inv (core (run es s))
unfolding run
run-Inv [] s h x = x
run-Inv ((now, e) ∷ es) s h x =
    let (here, rest) = HasRoomFor-step now e es s h in
    run-Inv es (step now e s) rest
      (Change-Inv (core s) (core (step now e s)) (step-Change now e s) here x)

pub run-Dead :
    (g : ℕ) (es : List (ℕ × Event)) (s : OneShotScheduler)
    → HasRoomFor es s
    → Dead g (core s)
    → Dead g (core (run es s))
unfolding run
run-Dead g [] s h x = x
run-Dead g ((now, e) ∷ es) s h x =
    let (here, rest) = HasRoomFor-step now e es s h in
    run-Dead g es (step now e s) rest
      (Change-Dead g (core s) (core (step now e s)) (step-Change now e s) here x)

pub run-next :
    (es : List (ℕ × Event)) (s : OneShotScheduler)
    → HasRoomFor es s
    → (run es s).next_generation ≤ s.next_generation + length es
unfolding run
run-next [] s h = omega arith
run-next ((now, e) ∷ es) s h =
    let (here, rest) = HasRoomFor-step now e es s h in
    omega (
      arith,
      run-next es (step now e s) rest,
      Change-next (core s) (core (step now e s)) (step-Change now e s) here,
    )

pub cancel-next :
    (key : String) (s : OneShotScheduler) → (cancel key s).0.next_generation ≡ s.next_generation
unfolding cancel cancel_pending cancel_running cancel_found
cancel-next key s = elim (Option-cases (lookup key s.jobs)) [
  | inl e ↦ rw e refl
  | inr (entry, e) ↦ rw e refl
]

pub init-Inv : Inv (core init)
init-Inv = record {
  below = λ k f h. absurd (lookup-empty k f h);
  unfired = λ k f h. absurd (lookup-empty k f h);
  single = λ k j f g h i. absurd (lookup-empty k f h);
  fired_below = λ g h. ground arith;
  once = refl;
  limited = omega arith;
}
