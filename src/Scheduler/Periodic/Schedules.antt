-- ===== src/Scheduler/Periodic/Schedules.antt =====
-- The registry of src-tauri/src/core/scheduler/periodic.rs as a map of keys to schedules.
use clash_verge_buty.Prelude.Assoc.{lookup, lookup-insert, lookup-remove}
use clash_verge_buty.Prelude.{
  ℕ, ◌≡◌, ◌≢◌, refl, String, true, Option, none, some, ◌==◌, eq_nat, eq_string, eq_iff,
  if◌then◌else◌, arith, Bool-cases, inl, inr, ◌%◌, ◌+◌,
}
use clash_verge_buty.Scheduler.Periodic.{
  Scheduler, JobEntry, Timer, Schedule, seconds, minutes, cron, same_schedule, upsert, install,
  install_found, remove_task, remove_found, unchanged, is_valid, place, u64_size,
}

abbrev pub schedule_of : Option JobEntry → Option Schedule
schedule_of none = none
schedule_of (some entry) = some entry.schedule

abbrev pub scheduled : Scheduler → String → Option Schedule
scheduled s key = schedule_of (lookup key s.jobs)

-- A timer that does what it is asked to.
pub record Obedient (t : Timer) : Type 0 where
  pub builds : (id : ℕ) (schedule : Schedule) → t.builds id schedule ≡ true
  pub adds : (id : ℕ) → t.adds id ≡ true
  pub removes : (id : ℕ) → t.removes id ≡ true

same_schedule_lem : (a b : Schedule) → same_schedule a b ≡ true → a ≡ b
same_schedule_lem (seconds m) (seconds n) h = ground arith
same_schedule_lem (minutes m) (minutes n) h = ground arith
same_schedule_lem (cron x) (cron y) h = ground (arith, eq_iff x y)
same_schedule_lem (seconds m) (minutes n) h = absurd (ground arith)
same_schedule_lem (seconds m) (cron y) h = absurd (ground arith)
same_schedule_lem (minutes m) (seconds n) h = absurd (ground arith)
same_schedule_lem (minutes m) (cron y) h = absurd (ground arith)
same_schedule_lem (cron x) (seconds n) h = absurd (ground arith)
same_schedule_lem (cron x) (minutes n) h = absurd (ground arith)

remove_found-scheduled :
    (t : Timer) (key k : String) (found : Option JobEntry) (s : Scheduler)
    → lookup key s.jobs ≡ found
    → scheduled (remove_found t key found s).0 k ≡ (if key == k then none else scheduled s k)
unfolding remove_found
remove_found-scheduled t key k none s e = ground (arith, eq_iff key k)
remove_found-scheduled t key k (some entry) s e =
    ground (arith, eq_iff key k, lookup-remove key k s.jobs)

-- Also where the call fails.
pub remove_task-scheduled :
    (t : Timer) (key k : String) (s : Scheduler)
    → scheduled (remove_task t key s).0 k ≡ (if key == k then none else scheduled s k)
unfolding remove_task
remove_task-scheduled t key k s = remove_found-scheduled t key k (lookup key s.jobs) s refl

remove_found_lem :
    (t : Timer) (key : String) (found : Option JobEntry) (s : Scheduler)
    → Obedient t
    → (remove_found t key found s).1 ≡ none
unfolding remove_found
remove_found_lem t key none s o = refl
remove_found_lem t key (some entry) s o = ground (arith, o.removes entry.task_id)

pub remove_task_lem :
    (t : Timer) (key : String) (s : Scheduler) → Obedient t → (remove_task t key s).1 ≡ none
unfolding remove_task
remove_task_lem t key s o = remove_found_lem t key (lookup key s.jobs) s o

place-scheduled :
    (id : ℕ) (key k : String) (schedule : Schedule) (found : Option JobEntry) (s : Scheduler)
    → scheduled (place id key schedule found s) k
      ≡ (if key == k then some schedule else scheduled s k)
place-scheduled id key k schedule none s =
    ground (arith, lookup-insert key k (record { task_id = id; schedule = schedule }) s.jobs)
place-scheduled id key k schedule (some old) s =
    ground (arith, lookup-insert key k (record { task_id = id; schedule = schedule }) s.jobs)

unchanged-scheduled :
    (key k : String) (schedule : Schedule) (found : Option JobEntry) (s : Scheduler)
    → lookup key s.jobs ≡ found
    → unchanged schedule found ≡ true
    → scheduled s k ≡ (if key == k then some schedule else scheduled s k)
unchanged-scheduled key k schedule none s e u = absurd (ground arith)
unchanged-scheduled key k schedule (some entry) s e u =
    ground (arith, eq_iff key k, same_schedule_lem entry.schedule schedule)

install_found-scheduled :
    (t : Timer) (key k : String) (schedule : Schedule) (found : Option JobEntry) (s : Scheduler)
    → lookup key s.jobs ≡ found
    → (install_found t key schedule found s).1 ≡ none
    → scheduled (install_found t key schedule found s).0 k
      ≡ (if key == k then some schedule else scheduled s k)
unfolding install_found
install_found-scheduled t key k schedule found s e =
    let counted = record s { next_task_id = (s.next_task_id + 1) % u64_size } in
    elim (Bool-cases (unchanged schedule found)) [
      | inl u ↦ rw u (λ h. unchanged-scheduled key k schedule found s e u)
      | inr n ↦ elim (Bool-cases (t.builds s.next_task_id schedule)) [
        | inl b ↦ elim (Bool-cases (t.adds s.next_task_id)) [
          | inl a ↦ rw (n, b, a) (λ h. place-scheduled s.next_task_id key k schedule found counted)
          | inr a ↦ rw (n, b, a) (λ h. absurd (ground arith))
        ]
        | inr b ↦ rw (n, b) (λ h. absurd (ground arith))
      ]
    ]

pub upsert-scheduled :
    (t : Timer) (key k : String) (schedule : Schedule) (s : Scheduler)
    → (upsert t key schedule s).1 ≡ none
    → scheduled (upsert t key schedule s).0 k ≡ (if key == k then some schedule else scheduled s k)
unfolding upsert install
upsert-scheduled t key k schedule s = elim (Bool-cases (is_valid schedule)) [
  | inl v ↦ rw v (install_found-scheduled t key k schedule (lookup key s.jobs) s refl)
  | inr n ↦ rw n (λ h. absurd (ground arith))
]

install_found-others :
    (t : Timer) (key k : String) (schedule : Schedule) (found : Option JobEntry) (s : Scheduler)
    → key ≢ k
    → scheduled (install_found t key schedule found s).0 k ≡ scheduled s k
unfolding install_found
install_found-others t key k schedule none s n = ground (
  arith,
  eq_iff key k,
  lookup-insert key k (record { task_id = s.next_task_id; schedule = schedule }) s.jobs,
)
install_found-others t key k schedule (some old) s n = ground (
  arith,
  eq_iff key k,
  lookup-insert key k (record { task_id = s.next_task_id; schedule = schedule }) s.jobs,
)

-- Also where the call fails.
pub upsert-others :
    (t : Timer) (key k : String) (schedule : Schedule) (s : Scheduler)
    → key ≢ k
    → scheduled (upsert t key schedule s).0 k ≡ scheduled s k
unfolding upsert install
upsert-others t key k schedule s n = elim (Bool-cases (is_valid schedule)) [
  | inl v ↦ rw v (install_found-others t key k schedule (lookup key s.jobs) s n)
  | inr i ↦ rw i refl
]

pub upsert_lem :
    (t : Timer) (key : String) (schedule : Schedule) (s : Scheduler)
    → Obedient t
    → is_valid schedule ≡ true
    → (upsert t key schedule s).1 ≡ none
unfolding upsert install install_found
upsert_lem t key schedule s o v = elim (Bool-cases (unchanged schedule (lookup key s.jobs))) [
  | inl u ↦ rw (v, u) refl
  | inr n ↦ rw (v, n, o.builds s.next_task_id schedule, o.adds s.next_task_id) refl
]
