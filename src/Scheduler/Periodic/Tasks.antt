-- ===== src/Scheduler/Periodic/Tasks.antt =====
-- The tasks of src-tauri/src/core/scheduler/periodic.rs: the timer holds those that are registered.
use clash_verge_buty.Prelude.Assoc.{lookup, remove, lookup-remove}
use clash_verge_buty.Prelude.{
  ℕ, ◌+◌, ◌<◌, ◌≤◌, ◌≡◌, ◌≢◌, refl, String, true, Option, none, some, List, [], ◌∷◌, ◌==◌, eq_nat,
  eq_string, eq_iff, length, arith, Bool-cases, inl, inr,
}
use clash_verge_buty.Scheduler.Periodic.{
  Scheduler, JobEntry, Timer, Schedule, Call, removed, Op, upserts, removes_key, shuts_down, step,
  run, init, u64_size, upsert, install, install_found, remove_task, remove_found, shutdown,
  removals, unchanged, is_valid,
}
use clash_verge_buty.Scheduler.Periodic.Placing.{
  Jobs, is_active, Inv, place-Inv, counted-Inv, next_lem,
}

dropped :
    (key k : String) (f : JobEntry) (m : Jobs)
    → lookup k (remove key m) ≡ some f
    → (key ≢ k) × (lookup k m ≡ some f)
dropped key k f m h =
    (ground (arith, eq_iff key k, lookup-remove key k m), ground (arith, lookup-remove key k m))

remains :
    (key k : String) (f : JobEntry) (m : Jobs)
    → key ≢ k
    → lookup k m ≡ some f
    → lookup k (remove key m) ≡ some f
remains key k f m n h = ground (arith, eq_iff key k, lookup-remove key k m)

remove_found-Inv :
    (t : Timer) (s : Scheduler) (key : String) (found : Option JobEntry)
    → lookup key s.jobs ≡ found
    → Inv s
    → Inv (remove_found t key found s).0
unfolding remove_found
remove_found-Inv t s key none e x = x
remove_found-Inv t s key (some old) e x = record {
  below = λ k f h. x.below k f (dropped key k f s.jobs h).1;
  single =
      λ k j f g h i. x.single k j f g (dropped key k f s.jobs h).1 (dropped key j g s.jobs i).1;
  live = λ k f h.
      let (n, p) = dropped key k f s.jobs h in
      ground (arith, x.live k f p, x.single key k old f e p);
  known = λ id a.
      let (k, f, p, q) = x.known id (ground arith) in
      (k, f, remains key k f s.jobs (λ is. ground arith) p, q);
}

removals-active :
    (id : ℕ) (m : Jobs) (calls : List Call)
    → is_active id (removals m calls) ≡ true
    → (is_active id calls ≡ true)
      × ((k : String) (e : JobEntry) → lookup k m ≡ some e → e.task_id ≢ id)
unfolding lookup
removals-active id [] calls a = (a, λ k e h. absurd (ground arith))
removals-active id ((key, entry) ∷ m) calls a =
    let (b, others) = removals-active id m (removed entry.task_id ∷ calls) a in
    (
      ground arith,
      λ k e h. elim (Bool-cases (key == k)) [
        | inl t ↦ ground arith
        | inr f ↦ others k e (ground arith)
      ],
    )

empty_lem : (k : String) (e : JobEntry) → lookup k [] ≡ some e → ⊥
unfolding lookup
empty_lem k e h = cc

shutdown-Inv : (t : Timer) (s : Scheduler) → Inv s → Inv (shutdown t s).0
unfolding shutdown
shutdown-Inv t s x = record {
  below = λ k e h. absurd (empty_lem k e h);
  single = λ k j e f h i same_id. absurd (empty_lem k e h);
  live = λ k e h. absurd (empty_lem k e h);
  known = λ id a.
      let (b, others) = removals-active id s.jobs s.calls a in
      let (k, e, p, q) = x.known id b in absurd (others k e p q);
}

install_found-Inv :
    (t : Timer) (s : Scheduler) (key : String) (schedule : Schedule) (found : Option JobEntry)
    → s.next_task_id + 1 < u64_size
    → lookup key s.jobs ≡ found
    → Inv s
    → Inv (install_found t key schedule found s).0
unfolding install_found
install_found-Inv t s key schedule found r e x = elim (Bool-cases (unchanged schedule found)) [
  | inl u ↦ rw u x
  | inr n ↦ elim (Bool-cases (t.builds s.next_task_id schedule)) [
    | inl b ↦ elim (Bool-cases (t.adds s.next_task_id)) [
      | inl a ↦ rw (n, b, a, next_lem s.next_task_id r) (place-Inv s key schedule found r e x)
      | inr a ↦ rw (n, b, a, next_lem s.next_task_id r) (counted-Inv s x)
    ]
    | inr b ↦ rw (n, b, next_lem s.next_task_id r) (counted-Inv s x)
  ]
]

install_found-next :
    (t : Timer) (s : Scheduler) (key : String) (schedule : Schedule) (found : Option JobEntry)
    → s.next_task_id + 1 < u64_size
    → (install_found t key schedule found s).0.next_task_id ≤ s.next_task_id + 1
unfolding install_found
install_found-next t s key schedule none r = ground (arith, next_lem s.next_task_id r)
install_found-next t s key schedule (some old) r = ground (arith, next_lem s.next_task_id r)

remove_found-next :
    (t : Timer) (s : Scheduler) (key : String) (found : Option JobEntry)
    → (remove_found t key found s).0.next_task_id ≤ s.next_task_id + 1
unfolding remove_found
remove_found-next t s key none = omega arith
remove_found-next t s key (some old) = omega arith

shutdown-next : (t : Timer) (s : Scheduler) → (shutdown t s).0.next_task_id ≤ s.next_task_id + 1
unfolding shutdown
shutdown-next t s = omega arith

install_lem :
    (t : Timer) (s : Scheduler) (key : String) (schedule : Schedule)
    → s.next_task_id + 1 < u64_size
    → Inv s
    → Inv (install t key schedule s).0
      × ((install t key schedule s).0.next_task_id ≤ s.next_task_id + 1)
unfolding install
install_lem t s key schedule r x = elim (Bool-cases (is_valid schedule)) [
  | inl v ↦ rw v (
    install_found-Inv t s key schedule (lookup key s.jobs) r refl x,
    install_found-next t s key schedule (lookup key s.jobs) r,
  )
  | inr v ↦ rw v (x, omega arith)
]

step_lem :
    (t : Timer) (op : Op) (s : Scheduler)
    → s.next_task_id + 1 < u64_size
    → Inv s
    → Inv (step t op s) × ((step t op s).next_task_id ≤ s.next_task_id + 1)
unfolding step upsert remove_task
step_lem t (upserts key schedule) s r x = install_lem t s key schedule r x
step_lem t (removes_key key) s r x = (
  remove_found-Inv t s key (lookup key s.jobs) refl x,
  remove_found-next t s key (lookup key s.jobs),
)
step_lem t shuts_down s r x = (shutdown-Inv t s x, shutdown-next t s)

run-Inv :
    (ops : List (Timer × Op)) (s : Scheduler)
    → s.next_task_id + length ops < u64_size
    → Inv s
    → Inv (run ops s)
unfolding run
run-Inv [] s r x = x
run-Inv ((t, op) ∷ ops) s r x =
    let (y, n) = step_lem t op s (omega arith) x in run-Inv ops (step t op s) (omega (arith, n)) y

init-Inv : Inv init
init-Inv = record {
  below = λ k e h. absurd (empty_lem k e h);
  single = λ k j e f h i same_id. absurd (empty_lem k e h);
  live = λ k e h. absurd (empty_lem k e h);
  known = λ id a. absurd (ground arith);
}

-- After any calls, fewer than the counter of task ids holds, and whichever of the timer's answers
-- were errors: the task of every registered key has been added to the timer, and its removal has not
-- been asked for since.
pub run-active :
    (ops : List (Timer × Op)) (k : String) (e : JobEntry)
    → 1 + length ops < u64_size
    → lookup k (run ops init).jobs ≡ some e
    → is_active e.task_id (run ops init).calls ≡ true
run-active ops k e r h = (run-Inv ops init r init-Inv).live k e h

-- After any calls, fewer than the counter of task ids holds, and whichever of the timer's answers
-- were errors: no task is left behind. One that was added, and whose removal was not asked for, is
-- the task of a registered key.
pub run-no_orphans :
    (ops : List (Timer × Op)) (id : ℕ)
    → 1 + length ops < u64_size
    → is_active id (run ops init).calls ≡ true
    → (k : String) × (e : JobEntry) × (lookup k (run ops init).jobs ≡ some e) × (e.task_id ≡ id)
run-no_orphans ops id r a = (run-Inv ops init r init-Inv).known id a
