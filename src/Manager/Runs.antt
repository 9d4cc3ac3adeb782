-- ===== src/Manager/Runs.antt =====
-- The interleavings of the tasks of src-tauri/src/core/manager/process.rs: any steps in any order.
use clash_verge_buty.Prelude.{
  ℕ, ◌-◌, Bool, true, false, Option, none, some, List, [], ◌∷◌, contains, retain, ◌!=◌, ◌==◌,
  eq_nat, if◌then◌else◌,
}
use clash_verge_buty.Manager.{
  CoreManager, Progress, stopping_old, launching_service, confirming, publishing, by_run, looping,
  sleeping, locking, Recovery, handle_core_terminated, monitor_answered, stop_core,
}
use clash_verge_buty.Manager.Starting.{
  begin_start, choose_mode, service_answered, readiness_answered, publish_ready, run_core,
  recover_core, recovery_loop, recovery_woken,
}

-- A step that cannot happen in a state leaves it as it is.
pub data Event : Type 0 where
  runs : Event
  locks_run locks_recovery : Bool → Event
  stops : Event
  chooses : Bool → Option ℕ → Event
  service_answers core_answers : Bool → Event
  publishes : Event
  terminates : ℕ → Event
  monitors : ℕ → Bool → ℕ → Event
  recovers : Event

-- The step of the holder of the lock.
unfoldable pub held_step : Event → Option Progress → CoreManager → CoreManager
unfolding choose_mode service_answered readiness_answered publish_ready
held_step (chooses enable spawned) (some (stopping_old g caller)) s =
    choose_mode g caller enable spawned s
held_step (service_answers ok) (some (launching_service g caller)) s =
    service_answered g caller ok s
held_step (core_answers ok) (some (confirming g caller)) s = readiness_answered g caller ok s
held_step publishes (some (publishing g caller)) s = publish_ready caller s
held_step other holder s = s

-- The step of the recovery task that does not need the lock.
unfoldable pub free_recovery_step : Option Recovery → CoreManager → CoreManager
unfolding recovery_loop recovery_woken
free_recovery_step (some looping) s = recovery_loop s
free_recovery_step (some sleeping) s = recovery_woken s
free_recovery_step other s = s

unfoldable pub lock_run : Bool → ℕ → Option Progress → CoreManager → CoreManager
unfolding begin_start
lock_run generated queued none s =
    if queued == 0 then s else begin_start generated by_run (record s { queued_runs = queued - 1 })
lock_run generated queued (some p) s = s

unfoldable pub lock_recovery : Bool → Option Recovery → Option Progress → CoreManager → CoreManager
unfolding recover_core
lock_recovery generated (some locking) none s = recover_core generated s
lock_recovery generated other holder s = s

unfoldable pub lock_stop : Option Progress → CoreManager → CoreManager
unfolding stop_core
lock_stop none s = (stop_core s).0
lock_stop (some p) s = s

-- A child ends once.
unfoldable pub terminated : Bool → ℕ → CoreManager → CoreManager
unfolding handle_core_terminated
terminated true g s =
    handle_core_terminated g (record s { listening = retain (λ h. h != g) s.listening })
terminated false g s = s

unfoldable pub monitored_step : Bool → ℕ → Bool → ℕ → CoreManager → CoreManager
monitored_step true g is_running failures s = (monitor_answered g is_running failures s).0
monitored_step false g is_running failures s = s

unfoldable pub step : Event → CoreManager → CoreManager
unfolding held_step free_recovery_step lock_run lock_recovery lock_stop run_core terminated
    monitored_step
step runs s = run_core s
step (locks_run generated) s = lock_run generated s.queued_runs s.holder s
step (locks_recovery generated) s = lock_recovery generated s.recovery s.holder s
step stops s = lock_stop s.holder s
step (chooses enable spawned) s = held_step (chooses enable spawned) s.holder s
step (service_answers ok) s = held_step (service_answers ok) s.holder s
step (core_answers ok) s = held_step (core_answers ok) s.holder s
step publishes s = held_step publishes s.holder s
step (terminates g) s = terminated (contains s.listening g) g s
step (monitors g is_running failures) s =
    monitored_step (contains s.monitored g) g is_running failures s
step recovers s = free_recovery_step s.recovery s

unfoldable pub run : List Event → CoreManager → CoreManager
run [] s = s
run (e ∷ es) s = run es (step e s)
