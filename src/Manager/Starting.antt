-- ===== src/Manager/Starting.antt =====
-- `start_core_locked` of src-tauri/src/core/manager/process.rs and its two callers, step by step.
use clash_verge_buty.Prelude.{
  ℕ, ◌+◌, ◌%◌, Bool, true, false, ◌&&◌, ◌||◌, not, Option, none, some, ◌∷◌, ◌==◌, ◌!=◌, eq_nat,
  if◌then◌else◌,
}
use clash_verge_buty.Manager.{
  CoreManager, stopping_old, launching_service, confirming, publishing, Caller, by_run, by_recovery,
  looping, sleeping, locking, starting, retire, schedule_core_recovery, end_recovery, u64_size,
}

-- The lock is given back after an error: `run_core` schedules a recovery, and the recovery task goes
-- back to the top of its loop.
unfoldable pub fail_start : Caller → CoreManager → CoreManager
unfolding schedule_core_recovery
fail_start by_run s =
    let s' = record s { holder = none } in
    if s.desired_running && not s.core_ready then schedule_core_recovery s' else s'
fail_start by_recovery s = record s { holder = none; recovery = some looping }

-- The lock is given back after success.
unfoldable pub succeed_start : Caller → CoreManager → CoreManager
unfolding end_recovery
succeed_start by_run s = record s { holder = none }
succeed_start by_recovery s = end_recovery (record s { holder = none })

-- Up to the first wait. `generated` says whether the configuration's file could be written.
unfoldable pub begin_start : Bool → Caller → CoreManager → CoreManager
unfolding fail_start
begin_start false caller s = fail_start caller s
begin_start true caller s =
    let g = (s.generation + 1) % u64_size in
    record s {
      core_ready = false;
      generation = g;
      active_generation = g;
      sidecar = none;
      holder = some (stopping_old g caller);
    }

-- The old core has ended. The service is asked if `enable_service_mode` says so; otherwise the core
-- is spawned, as the child given, or not.
unfoldable pub choose_mode : ℕ → Caller → Bool → Option ℕ → CoreManager → CoreManager
unfolding fail_start
choose_mode g caller true spawned s = record s {
  use_service_mode = true;
  holder = some (launching_service g caller);
}
choose_mode g caller false none s =
    fail_start caller (retire g (record s { use_service_mode = false }))
choose_mode g caller false (some child) s = record s {
  use_service_mode = false;
  sidecar = some child;
  listening = g ∷ s.listening;
  holder = some (confirming g caller);
}

-- The service has answered whether it runs the core.
unfoldable pub service_answered : ℕ → Caller → Bool → CoreManager → CoreManager
unfolding fail_start succeed_start
service_answered g caller true s =
    succeed_start caller (record s { core_ready = true; monitored = g ∷ s.monitored })
service_answered g caller false s = fail_start caller (record (retire g s) { core_ready = false })

-- The wait for the core to be ready is over. The generation is read, and then the flag is stored; in
-- between others may run.
unfoldable pub readiness_answered : ℕ → Caller → Bool → CoreManager → CoreManager
unfolding fail_start
readiness_answered g caller true s =
    if s.active_generation != g
    then fail_start caller s
    else record s { holder = some (publishing g caller) }
readiness_answered g caller false s = fail_start caller (
    if s.active_generation == g
    then record s { active_generation = 0; sidecar = none; core_ready = false }
    else record s { core_ready = false })

-- The store of `core_ready`, and the end.
unfoldable pub publish_ready : Caller → CoreManager → CoreManager
unfolding succeed_start
publish_ready caller s = succeed_start caller (record s { core_ready = true })

-- `run_core` up to its wait for the lock.
unfoldable pub run_core : CoreManager → CoreManager
run_core s = record s { desired_running = true; queued_runs = s.queued_runs + 1 }

-- `recover_core_if_needed`, once the recovery task has the lock.
unfoldable pub recover_core : Bool → CoreManager → CoreManager
unfolding begin_start end_recovery
recover_core generated s =
    if not s.desired_running || s.core_ready
    then end_recovery s
    else begin_start generated by_recovery (record s { recovery = some starting })

-- The recovery task at the top of its loop, and after its `sleep`.
unfoldable pub recovery_loop : CoreManager → CoreManager
recovery_loop s =
    if s.desired_running && not s.core_ready
    then record s { recovery = some sleeping }
    else end_recovery s

unfoldable pub recovery_woken : CoreManager → CoreManager
recovery_woken s =
    if not s.desired_running || s.core_ready
    then end_recovery s
    else record s { recovery = some locking }
