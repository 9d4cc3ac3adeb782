-- ===== src/Scheduler/OneShot/Work.antt =====
-- The workers of src-tauri/src/core/scheduler/one_shot.rs, one step at a time, and the runs of the
-- scheduler: any events in any order.
use clash_verge_buty.Prelude.Assoc.{lookup, insert, remove}
use clash_verge_buty.Prelude.{
  ℕ, ◌+◌, String, Option, none, some, List, [], ◌∷◌, ◌++◌, ◌!=◌, leb, eq_nat, eq_string,
  if◌then◌else◌, retain,
}
use clash_verge_buty.Scheduler.OneShot.{
  OneShotScheduler, OneShotEntry, OneShotJob, plain, cancellable, RunningEntry, Phase, ready,
  waiting, executing, Worker, schedule_one_shot, cancel_pending, cancel_running, cancel_all_pending,
  cancel_all_running, entries_of, is_empty,
}

-- `RunningTaskGuard::new`, with the token that a cancellable job is given.
unfoldable pub enter_running : String → ℕ → OneShotJob → OneShotScheduler → OneShotScheduler
enter_running key generation (plain run) s =
    let entry : RunningEntry = record { generation = generation; token = none } in
    record s { running = insert key (entries_of (lookup key s.running) ++ entry ∷ []) s.running }
enter_running key generation (cancellable run) s =
    let entry : RunningEntry = record { generation = generation; token = some s.next_token } in
    record s {
      running = insert key (entries_of (lookup key s.running) ++ entry ∷ []) s.running;
      next_token = s.next_token + 1;
    }

-- `drop` of the guard.
unfoldable pub leave_found :
    String → ℕ → Option (List RunningEntry) → OneShotScheduler → OneShotScheduler
leave_found key generation none s = s
leave_found key generation (some rs) s =
    let kept = retain (λ r. r.generation != generation) rs in
    record s { running = if is_empty kept then remove key s.running else insert key kept s.running }

unfoldable pub leave_running : String → ℕ → OneShotScheduler → OneShotScheduler
unfolding leave_found
leave_running key generation s = leave_found key generation (lookup key s.running) s

abbrev set_phase : ℕ → Worker → Phase → OneShotScheduler → OneShotScheduler
set_phase id w phase s = record s { workers = insert id (record w { phase = phase }) s.workers }

abbrev exit : ℕ → OneShotScheduler → OneShotScheduler
exit id s = record s { workers = remove id s.workers }

-- The top of the worker's loop.
unfoldable pub read_found : ℕ → Worker → Option OneShotEntry → OneShotScheduler → OneShotScheduler
read_found id w none s = exit id s
read_found id w (some entry) s = set_phase id w (waiting entry.generation entry.deadline) s

unfoldable pub read_entry : ℕ → Worker → OneShotScheduler → OneShotScheduler
unfolding read_found
read_entry id w s = read_found id w (lookup w.key s.jobs) s

-- The branch of the `select!` in which the deadline has passed.
unfoldable pub fire_found :
    ℕ → Worker → ℕ → Option OneShotEntry → OneShotScheduler → OneShotScheduler
fire_found id w generation none s = exit id s
fire_found id w generation (some entry) s =
    if entry.generation != generation
    then set_phase id w ready s
    else set_phase id w (executing generation entry.job) (
        enter_running w.key generation entry.job
          (record s { jobs = remove w.key s.jobs; fired = generation ∷ s.fired }))

unfoldable pub deadline_passed : ℕ → Worker → ℕ → OneShotScheduler → OneShotScheduler
unfolding fire_found
deadline_passed id w generation s = fire_found id w generation (lookup w.key s.jobs) s

-- One step of a worker. `poll` goes on at the loop's top, or on a passed deadline; `wake` is a
-- notification, which may come at any time; `finish` is the end of its job; `reap` ends an aborted
-- worker at a wait.
pub data WorkerStep : Type 0 where
  poll wake finish reap : WorkerStep

unfoldable pub worker_step :
    ℕ → WorkerStep → ℕ → Worker → Phase → OneShotScheduler → OneShotScheduler
worker_step now poll id w ready s = read_entry id w s
worker_step now poll id w (waiting generation deadline) s =
    if leb deadline now then deadline_passed id w generation s else s
worker_step now poll id w (executing generation job) s = s
worker_step now wake id w (waiting generation deadline) s = set_phase id w ready s
worker_step now wake id w other s = s
worker_step now finish id w (executing generation job) s =
    exit id (leave_running w.key generation s)
worker_step now finish id w other s = s
worker_step now reap id w ready s = s
worker_step now reap id w (waiting generation deadline) s = if w.aborted then exit id s else s
worker_step now reap id w (executing generation job) s =
    if w.aborted then exit id (leave_running w.key generation s) else s

unfoldable pub work_found : ℕ → WorkerStep → ℕ → Option Worker → OneShotScheduler → OneShotScheduler
work_found now kind id none s = s
work_found now kind id (some w) s = worker_step now kind id w w.phase s

unfoldable pub work : ℕ → WorkerStep → ℕ → OneShotScheduler → OneShotScheduler
unfolding work_found
work now kind id s = work_found now kind id (lookup id s.workers) s

-- What happens to the scheduler, in any order.
pub data Event : Type 0 where
  schedules : String → ℕ → OneShotJob → Event
  cancels_pending cancels_running : String → Event
  cancels_all_pending cancels_all_running : Event
  works : WorkerStep → ℕ → Event

unfoldable pub step : ℕ → Event → OneShotScheduler → OneShotScheduler
step now (schedules key delay job) s = (schedule_one_shot now key delay job s).0
step now (cancels_pending key) s = (cancel_pending key s).0
step now (cancels_running key) s = (cancel_running key s).0
step now cancels_all_pending s = cancel_all_pending s
step now cancels_all_running s = cancel_all_running s
step now (works kind id) s = work now kind id s

unfoldable pub run : List (ℕ × Event) → OneShotScheduler → OneShotScheduler
run [] s = s
run ((now, e) ∷ es) s = run es (step now e s)
