-- ===== src/Scheduler/OneShot/Entries.antt =====
-- What each step of src-tauri/src/core/scheduler/one_shot.rs does to the waiting tasks, to the trace
-- and to the generation counter.
use clash_verge_buty.Prelude.Assoc.{Assoc, lookup, insert, remove}
use clash_verge_buty.Prelude.{
  ℕ, ◌+◌, ◌%◌, ◌<◌, ◌≡◌, refl, String, Option, none, some, List, [], ◌∷◌, inl, inr, arith, leb,
  ◌==◌, eq_nat, eq_string, length, Option-cases, Bool-cases,
}
use clash_verge_buty.Scheduler.OneShot.{
  OneShotScheduler, OneShotEntry, OneShotJob, Worker, Phase, ready, waiting, executing, plain,
  cancellable, schedule_one_shot, cancel_pending, cancel_running, cancel_all_pending,
  cancel_all_running, cancel_found, u64_size, max_pending,
}
use clash_verge_buty.Scheduler.OneShot.Work.{
  WorkerStep, poll, wake, finish, reap, Event, schedules, cancels_pending, cancels_running,
  cancels_all_pending, cancels_all_running, works, step, work, worker_step, read_entry,
  deadline_passed, fire_found, work_found, enter_running, leave_running,
}

abbrev pub Jobs : Type 0
Jobs = Assoc String OneShotEntry

-- The part of the state that the generations live in.
pub record Core : Type 0 where
  pub jobs : Jobs
  pub next : ℕ
  pub fired : List ℕ

abbrev pub core : OneShotScheduler → Core
core s = record { jobs = s.jobs; next = s.next_generation; fired = s.fired }

-- Every event does one of these to it: nothing; a counter taken in vain; a task placed under a key
-- with the generation taken; a task or all tasks dropped; a task fired.
pub data Change (c : Core) : Core → Type 0 where
  same : Change c c
  wasted : Change c (record c { next = (c.next + 1) % u64_size })
  placed :
      (key : String) (entry : OneShotEntry)
      → entry.generation ≡ c.next
      → (lookup key c.jobs ≡ none → length c.jobs < max_pending)
      → Change c (record c { next = (c.next + 1) % u64_size; jobs = insert key entry c.jobs })
  dropped : (key : String) → Change c (record c { jobs = remove key c.jobs })
  drained : Change c (record c { jobs = [] })
  fires :
      (key : String) (entry : OneShotEntry)
      → lookup key c.jobs ≡ some entry
      → Change c (record c { jobs = remove key c.jobs; fired = entry.generation ∷ c.fired })

schedule-Change :
    (now : ℕ) (key : String) (delay : ℕ) (job : OneShotJob) (s : OneShotScheduler)
    → Change (core s) (core (schedule_one_shot now key delay job s).0)
unfolding schedule_one_shot
schedule-Change now key delay job s = elim (Bool-cases (delay == 0)) [
  | inl z ↦ rw z same
  | inr nz ↦ rw nz (elim (Option-cases (lookup key s.jobs)) [
    | inl e ↦ elim (Bool-cases (leb max_pending (length s.jobs))) [
      | inl full ↦ rw (e, full) wasted
      | inr room ↦ rw (e, room) (placed key _ refl (λ h. ground arith))
    ]
    | inr (entry, e) ↦ rw e (placed key _ refl (λ h. absurd (ground arith)))
  ])
]

enter_running-core :
    (key : String) (generation : ℕ) (job : OneShotJob) (s : OneShotScheduler)
    → core (enter_running key generation job s) ≡ core s
unfolding enter_running
enter_running-core key generation (plain r) s = refl
enter_running-core key generation (cancellable r) s = refl

leave_running-core :
    (key : String) (generation : ℕ) (s : OneShotScheduler)
    → core (leave_running key generation s) ≡ core s
unfolding leave_running
leave_running-core key generation s = elim (Option-cases (lookup key s.running)) [
  | inl e ↦ rw e
  | inr (rs, e) ↦ rw e
]

fire_found-Change :
    (id : ℕ) (w : Worker) (generation : ℕ) (found : Option OneShotEntry) (s : OneShotScheduler)
    → lookup w.key s.jobs ≡ found
    → Change (core s) (core (fire_found id w generation found s))
unfolding fire_found
fire_found-Change id w generation none s e = same
fire_found-Change id w generation (some entry) s e =
    elim (Bool-cases (entry.generation == generation)) [
      | inl t ↦
          let is : entry.generation ≡ generation = ground arith in
          rw
            (
              t,
              enter_running-core w.key generation entry.job
                  (record s { jobs = remove w.key s.jobs; fired = generation ∷ s.fired }),
            )
            (rw (← is) (fires w.key entry e))
      | inr f ↦ rw f same
    ]

worker_step-Change :
    (now : ℕ) (kind : WorkerStep) (id : ℕ) (w : Worker) (p : Phase) (s : OneShotScheduler)
    → Change (core s) (core (worker_step now kind id w p s))
unfolding worker_step read_entry deadline_passed
worker_step-Change now poll id w ready s = elim (Option-cases (lookup w.key s.jobs)) [
  | inl e ↦ rw e same
  | inr (entry, e) ↦ rw e same
]
worker_step-Change now poll id w (waiting generation deadline) s =
    elim (Bool-cases (leb deadline now)) [
      | inl t ↦ rw t (fire_found-Change id w generation (lookup w.key s.jobs) s refl)
      | inr f ↦ rw f same
    ]
worker_step-Change now poll id w (executing generation job) s = same
worker_step-Change now wake id w (waiting generation deadline) s = same
worker_step-Change now wake id w ready s = same
worker_step-Change now wake id w (executing generation job) s = same
worker_step-Change now finish id w (executing generation job) s =
    rw (leave_running-core w.key generation s) same
worker_step-Change now finish id w ready s = same
worker_step-Change now finish id w (waiting generation deadline) s = same
worker_step-Change now reap id w ready s = same
worker_step-Change now reap id w (waiting generation deadline) s = elim (Bool-cases w.aborted) [
  | inl t ↦ rw t same
  | inr f ↦ rw f same
]
worker_step-Change now reap id w (executing generation job) s = elim (Bool-cases w.aborted) [
  | inl t ↦ rw (t, leave_running-core w.key generation s) same
  | inr f ↦ rw f same
]

cancel_found-Change :
    (key : String) (found : Option OneShotEntry) (s : OneShotScheduler)
    → Change (core s) (core (cancel_found key found s).0)
unfolding cancel_found
cancel_found-Change key none s = same
cancel_found-Change key (some entry) s = dropped key

work_found-Change :
    (now : ℕ) (kind : WorkerStep) (id : ℕ) (found : Option Worker) (s : OneShotScheduler)
    → Change (core s) (core (work_found now kind id found s))
unfolding work_found
work_found-Change now kind id none s = same
work_found-Change now kind id (some w) s = worker_step-Change now kind id w w.phase s

-- Every event, in every state, changes the waiting tasks, the trace and the counter in one of the
-- ways of `Change`.
pub step-Change :
    (now : ℕ) (e : Event) (s : OneShotScheduler) → Change (core s) (core (step now e s))
unfolding step work cancel_pending cancel_running cancel_all_pending cancel_all_running
step-Change now (schedules key delay job) s = schedule-Change now key delay job s
step-Change now (cancels_pending key) s = cancel_found-Change key (lookup key s.jobs) s
step-Change now (cancels_running key) s = same
step-Change now cancels_all_pending s = drained
step-Change now cancels_all_running s = same
step-Change now (works kind id) s = work_found-Change now kind id (lookup id s.workers) s
