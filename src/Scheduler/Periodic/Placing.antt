-- ===== src/Scheduler/Periodic/Placing.antt =====
-- The registry of src-tauri/src/core/scheduler/periodic.rs after a task is placed: the invariant.
use clash_verge_buty.Prelude.Assoc.{Assoc, lookup, insert, lookup-insert}
use clash_verge_buty.Prelude.{
  ℕ, ◌+◌, ◌%◌, ◌<◌, ◌≡◌, ◌≢◌, String, Bool, true, false, ◌||◌, Option, none, some, ◌⊎◌, List, [],
  ◌∷◌, ◌==◌, eq_nat, eq_string, eq_iff, if◌then◌else◌, arith, Bool-cases, inl, inr,
}
use clash_verge_buty.Scheduler.Periodic.{
  Scheduler, JobEntry, Schedule, Call, added, removed, u64_size, place,
}

abbrev pub Jobs : Type 0
Jobs = Assoc String JobEntry

-- Whether the timer holds a task, by the calls made, the last one first.
abbrev pub is_active : ℕ → List Call → Bool
is_active id [] = false
is_active id (added j ∷ calls) = j == id || is_active id calls
is_active id (removed j ∷ calls) = if j == id then false else is_active id calls

pub record Inv (s : Scheduler) : Type 0 where
  pub below : (k : String) (e : JobEntry) → lookup k s.jobs ≡ some e → e.task_id < s.next_task_id
  pub single :
      (k j : String) (e f : JobEntry)
      → lookup k s.jobs ≡ some e
      → lookup j s.jobs ≡ some f
      → e.task_id ≡ f.task_id
      → k ≡ j
  pub live :
      (k : String) (e : JobEntry) → lookup k s.jobs ≡ some e → is_active e.task_id s.calls ≡ true
  pub known :
      (id : ℕ)
      → is_active id s.calls ≡ true
      → (k : String) × (e : JobEntry) × (lookup k s.jobs ≡ some e) × (e.task_id ≡ id)

known-below : (s : Scheduler) (id : ℕ) → Inv s → is_active id s.calls ≡ true → id < s.next_task_id
known-below s id x a = let (k, e, p, q) = x.known id a in omega (arith, x.below k e p)

placed_cases :
    (key k : String) (new e : JobEntry) (m : Jobs)
    → lookup k (insert key new m) ≡ some e
    → ((key ≡ k) × (e ≡ new)) ⊎ ((key ≢ k) × (lookup k m ≡ some e))
placed_cases key k new e m h = elim (Bool-cases (key == k)) [
  | inl t ↦ inl (ground (arith, eq_iff key k), ground (arith, lookup-insert key k new m))
  | inr n ↦ inr (ground (arith, eq_iff key k), ground (arith, lookup-insert key k new m))
]

placed_at : (key : String) (new : JobEntry) (m : Jobs) → lookup key (insert key new m) ≡ some new
placed_at key new m = ground (arith, lookup-insert key key new m, eq_iff key key)

placed_beside :
    (key k : String) (new e : JobEntry) (m : Jobs)
    → key ≢ k
    → lookup k m ≡ some e
    → lookup k (insert key new m) ≡ some e
placed_beside key k new e m n h = ground (arith, lookup-insert key k new m, eq_iff key k)

pub next_lem : (n : ℕ) → n + 1 < u64_size → (n + 1) % u64_size ≡ n + 1
next_lem n h = omega arith

-- The registry after a task is placed, whatever the trace.
module _ (s : Scheduler) (key : String) (schedule : Schedule) (x : Inv s) where
  abbrev new_entry : JobEntry
  new_entry = record { task_id = s.next_task_id; schedule = schedule }

  placed-below :
      (k : String) (e : JobEntry)
      → lookup k (insert key new_entry s.jobs) ≡ some e
      → e.task_id < s.next_task_id + 1
  placed-below k e h = elim (placed_cases key k new_entry e s.jobs h) [
    | inl (q, p) ↦ ground arith
    | inr (q, p) ↦ omega (arith, x.below k e p)
  ]

  placed-single :
      (k j : String) (e f : JobEntry)
      → lookup k (insert key new_entry s.jobs) ≡ some e
      → lookup j (insert key new_entry s.jobs) ≡ some f
      → e.task_id ≡ f.task_id
      → k ≡ j
  placed-single k j e f h i same_id = elim (placed_cases key k new_entry e s.jobs h) [
    | inl (q, p) ↦ elim (placed_cases key j new_entry f s.jobs i) [
      | inl (t, r) ↦ cc
      | inr (t, r) ↦ absurd (ground (arith, x.below j f r))
    ]
    | inr (q, p) ↦ elim (placed_cases key j new_entry f s.jobs i) [
      | inl (t, r) ↦ absurd (ground (arith, x.below k e p))
      | inr (t, r) ↦ x.single k j e f p r same_id
    ]
  ]

pub place-Inv :
    (s : Scheduler) (key : String) (schedule : Schedule) (found : Option JobEntry)
    → s.next_task_id + 1 < u64_size
    → lookup key s.jobs ≡ found
    → Inv s
    → Inv (place s.next_task_id key schedule found (record s { next_task_id = s.next_task_id + 1 }))
place-Inv s key schedule none r e x = record {
  below = placed-below s key schedule x;
  single = placed-single s key schedule x;
  live = λ k f h. elim (placed_cases key k (new_entry s key schedule x) f s.jobs h) [
    | inl (q, p) ↦ ground arith
    | inr (q, p) ↦ ground (arith, x.live k f p)
  ];
  known = λ id a. elim (Bool-cases (s.next_task_id == id)) [
    | inl t ↦ (
      key,
      new_entry s key schedule x,
      placed_at key (new_entry s key schedule x) s.jobs,
      ground arith,
    )
    | inr n ↦
        let (k, f, p, q) = x.known id (ground arith) in
        (k, f, placed_beside key k (new_entry s key schedule x) f s.jobs (ground arith) p, q)
  ];
}
place-Inv s key schedule (some old) r e x = record {
  below = placed-below s key schedule x;
  single = placed-single s key schedule x;
  live = λ k f h. elim (placed_cases key k (new_entry s key schedule x) f s.jobs h) [
    | inl (q, p) ↦ ground (arith, x.below key old e)
    | inr (q, p) ↦ ground (arith, x.live k f p, x.single key k old f e p)
  ];
  known = λ id a. elim (Bool-cases (s.next_task_id == id)) [
    | inl t ↦ (
      key,
      new_entry s key schedule x,
      placed_at key (new_entry s key schedule x) s.jobs,
      ground arith,
    )
    | inr n ↦
        let (k, f, p, q) = x.known id (ground arith) in
        (k, f, placed_beside key k (new_entry s key schedule x) f s.jobs (λ is. ground arith) p, q)
  ];
}

pub counted-Inv : (s : Scheduler) → Inv s → Inv (record s { next_task_id = s.next_task_id + 1 })
counted-Inv s x = record {
  below = λ k e h. omega (arith, x.below k e h);
  single = x.single;
  live = x.live;
  known = x.known;
}
