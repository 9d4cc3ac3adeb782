-- ===== src/Scheduler/OneShot/Tests.antt =====
-- Tests of src-tauri/src/core/scheduler/one_shot.rs, and its theorems at concrete inputs.
use clash_verge_buty.Prelude.Assoc.{lookup, insert, remove}
use clash_verge_buty.Prelude.{
  ℕ, ◌≡◌, ◌≤◌, eq_string, eq_nat, refl, true, false, some, List, [], ◌∷◌, arith, length, contains,
}
use clash_verge_buty.Scheduler.OneShot.{
  OneShotEntry, init, max_pending, plain, cancel, schedule_one_shot,
}
use clash_verge_buty.Scheduler.OneShot.Work.{
  Event, schedules, works, poll, wake, run, step, work, worker_step, read_entry, deadline_passed,
  enter_running,
}
use clash_verge_buty.Scheduler.OneShot.Generations.{distinct}
use clash_verge_buty.Scheduler.OneShot.Firing.{run-fires_once, cancel-prevents}

-- A save is scheduled, read by its worker, and scheduled again before its deadline.
abbrev save_twice : List (ℕ × Event)
save_twice =
    (0, schedules "save" 100 (plain 1))
    ∷ (1, works poll 0)
    ∷ (50, schedules "save" 100 (plain 2))
    ∷ (51, works wake 0)
    ∷ (52, works poll 0)
    ∷ (100, works poll 0)
    ∷ []

fires_late : (run ((150, works poll 0) ∷ []) (run save_twice init)).fired ≡ 2 ∷ []
unfolding run step work lookup schedule_one_shot insert worker_step read_entry deadline_passed
    enter_running remove
fires_late = refl

not_yet : (run save_twice init).fired ≡ []
unfolding run step work lookup schedule_one_shot insert worker_step read_entry
not_yet = refl

abbrev two_waiting : List (ℕ × Event)
two_waiting = (0, schedules "save" 100 (plain 1)) ∷ (1, schedules "tray" 30 (plain 2)) ∷ []

abbrev save_entry : OneShotEntry
save_entry = record { generation = 1; deadline = 100; job = plain 1; handle = 0 }

abbrev tray_entry : OneShotEntry
tray_entry = record { generation = 2; deadline = 31; job = plain 2; handle = 1 }

save_waits : lookup "save" (run two_waiting init).jobs ≡ some save_entry
unfolding run step lookup schedule_one_shot insert
save_waits = refl

tray_waits : lookup "tray" (run two_waiting init).jobs ≡ some tray_entry
unfolding run step lookup schedule_one_shot insert
tray_waits = refl

run-fires_once_example :
    (distinct (run save_twice init).fired ≡ true)
    × (length (run save_twice init).jobs ≤ max_pending)
run-fires_once_example = run-fires_once save_twice (omega arith)

cancel-prevents_example :
    contains (run save_twice (cancel "save" (run two_waiting init)).0).fired 1 ≡ false
cancel-prevents_example =
    cancel-prevents two_waiting save_twice "save" save_entry (omega arith) save_waits
