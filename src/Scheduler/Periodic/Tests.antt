-- ===== src/Scheduler/Periodic/Tests.antt =====
-- Tests of src-tauri/src/core/scheduler/periodic.rs, and its theorems at concrete inputs.
use clash_verge_buty.Prelude.Assoc.{lookup, insert}
use clash_verge_buty.Prelude.{
  ◌≡◌, refl, String, true, false, some, List, [], ◌∷◌, arith, eq_string, eq_nat,
}
use clash_verge_buty.Scheduler.Periodic.{
  Timer, JobEntry, Op, upserts, minutes, cron, seconds, run, init, is_valid, step, upsert, install,
}
use clash_verge_buty.Scheduler.Periodic.Placing.{is_active}
use clash_verge_buty.Scheduler.Periodic.Tasks.{run-active, run-no_orphans}

-- A timer that cannot remove anything.
abbrev stubborn : Timer
stubborn = record {
  builds = λ id schedule. true;
  adds = λ id. true;
  removes = λ id. false;
  advances = λ id. true;
}

blank_cron : is_valid (cron "   ") ≡ false
unfolding is_valid
blank_cron = refl

abbrev replaced : List (Timer × Op)
replaced =
    (stubborn, upserts "a" (minutes 5))
    ∷ (stubborn, upserts "b" (seconds 10))
    ∷ (stubborn, upserts "a" (minutes 7))
    ∷ []

abbrev last_entry : JobEntry
last_entry = record { task_id = 3; schedule = minutes 7 }

a_waits : lookup "a" (run replaced init).jobs ≡ some last_entry
unfolding run step lookup insert upsert install is_valid
a_waits = refl

holds_third : is_active 3 (run replaced init).calls ≡ true
unfolding run step lookup insert upsert install is_valid
holds_third = refl

run-active_example : is_active 3 (run replaced init).calls ≡ true
run-active_example = run-active replaced "a" last_entry (omega arith) a_waits

run-no_orphans_example :
    (k : String) × (e : JobEntry) × (lookup k (run replaced init).jobs ≡ some e) × (e.task_id ≡ 3)
run-no_orphans_example = run-no_orphans replaced 3 (omega arith) holds_third
