-- ===== src/Manager.antt =====
-- src-tauri/src/core/manager/process.rs, and the state of mod.rs: who runs the Mihomo core, from
-- start to recovery. What a task does between two of its waits is one step; the answers of the
-- system, of the service and of the core are arguments.
pub mod Starting
pub mod Runs
pub mod Ready
pub mod Generations
pub mod Current
pub mod Upgrade
pub mod Change
pub mod Choosing
pub mod Executables
mod Tests
use clash_verge_buty.Prelude.{
  ℕ, ◌+◌, ◌%◌, Bool, true, false, ◌&&◌, not, Option, none, some, List, [], ltb, ◌==◌, eq_nat,
  if◌then◌else◌,
}

abbrev pub u64_size : ℕ
u64_size = 18446744073709551616

-- Who holds `core_operation` while it starts the core.
pub data Caller : Type 0 where
  by_run by_recovery : Caller

-- Where the holder of `core_operation` is: it waits for the old core to end, for the service to start
-- the core of a generation, or for the spawned core of a generation to be ready; or it has read that
-- the generation is still the active one, and is about to store that the core is ready.
pub data Progress : Type 0 where
  stopping_old launching_service confirming publishing : ℕ → Caller → Progress

-- Where the recovery task is: at the top of its loop, in its `sleep`, or waiting for the lock.
pub data Recovery : Type 0 where
  looping sleeping locking starting : Recovery

-- A child process by a number. `listening` holds the generations whose child has a listener, and
-- `monitored` those with a service monitor.
pub record CoreManager : Type 0 where
  pub sidecar : Option ℕ
  pub use_service_mode : Bool
  pub generation : ℕ
  pub active_generation : ℕ
  pub desired_running : Bool
  pub core_ready : Bool
  pub recovery_scheduled : Bool
  pub holder : Option Progress
  pub queued_runs : ℕ
  pub recovery : Option Recovery
  pub listening : List ℕ
  pub monitored : List ℕ

abbrev pub init : CoreManager
init = record {
  sidecar = none;
  use_service_mode = false;
  generation = 0;
  active_generation = 0;
  desired_running = false;
  core_ready = false;
  recovery_scheduled = false;
  holder = none;
  queued_runs = 0;
  recovery = none;
  listening = [];
  monitored = [];
}

-- `active_generation.compare_exchange(generation, 0, ..)`, for its effect.
abbrev pub retire : ℕ → CoreManager → CoreManager
retire g s = if s.active_generation == g then record s { active_generation = 0 } else s

unfoldable pub schedule_core_recovery : CoreManager → CoreManager
schedule_core_recovery s =
    if s.recovery_scheduled
    then s
    else record s { recovery_scheduled = true; recovery = some looping }

-- The end of the recovery task, after its loop.
unfoldable pub end_recovery : CoreManager → CoreManager
unfolding schedule_core_recovery
end_recovery s =
    let s' = record s { recovery_scheduled = false; recovery = none } in
    if s.desired_running && not s.core_ready then schedule_core_recovery s' else s'

-- The listener of the child of generation `g` is told that it has ended.
unfoldable pub handle_core_terminated : ℕ → CoreManager → CoreManager
unfolding schedule_core_recovery
handle_core_terminated g s =
    let ended = record s { active_generation = 0; sidecar = none; core_ready = false } in
    if s.active_generation == g
    then (if s.desired_running then schedule_core_recovery ended else ended)
    else s

-- The service does not run the core; the argument says whether this is less than the third failure.
unfoldable pub monitor_failed : Bool → ℕ → ℕ → CoreManager → CoreManager × Option ℕ
unfolding schedule_core_recovery
monitor_failed true g failures s = (s, some (failures + 1))
monitor_failed false g failures s =
    if s.active_generation == g
    then (schedule_core_recovery (record s { active_generation = 0; core_ready = false }), none)
    else (s, none)

-- The rest of the tick, with what the service answers. `failures` counts the failures in a row
-- before it; the answer is the count that the next tick is scheduled with, if there is one.
unfoldable pub monitor_answered : ℕ → Bool → ℕ → CoreManager → CoreManager × Option ℕ
unfolding monitor_failed
monitor_answered g true failures s = (s, some 0)
monitor_answered g false failures s = monitor_failed (ltb (failures + 1) 3) g failures s

-- `stop_core_async`: the lock is free. `true` as the answer says that the service is asked to stop.
unfoldable pub stop_core : CoreManager → CoreManager × Bool
stop_core s =
    let s' = record s { desired_running = false; core_ready = false; active_generation = 0 } in
    if s.use_service_mode then (s', true) else (record s' { sidecar = none }, false)
