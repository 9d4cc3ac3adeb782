-- ===== src/Manager/Tests.antt =====
-- Runs of the core manager at concrete events, and the theorems on them at these.
use clash_verge_buty.Prelude.{
  ◌≡◌, refl, true, false, some, none, ℕ, Option, String, ◌+◌, ◌==◌, eq_nat, not, List, [], ◌∷◌,
}
use clash_verge_buty.Verge.{mihomo_core, mihomo_alpha_core, template}
use clash_verge_buty.Manager.{init}
use clash_verge_buty.Manager.Runs.{
  Event, run, step, runs, locks_run, locks_recovery, chooses, core_answers, publishes, terminates,
  recovers,
}
use clash_verge_buty.Manager.Ready.{run-recovers, is_task}
use clash_verge_buty.Manager.Upgrade.{
  Answers, State, updated, upgrade_core, core_update_channel, roll_back, activate,
  stop_core_after_self_update, error,
}
use clash_verge_buty.Manager.Executables.{Held, upgrade_core-Held}
use clash_verge_buty.Config.Draft.{from, latest, update_draft, apply, discard}
use clash_verge_buty.Manager.Change.{Program, Trial, change_core, attempt, rollback, generate}
use clash_verge_buty.Manager.Choosing.{Changed, change_core-Transaction}

-- A core is started as a child, becomes ready and crashes.
abbrev crash : List Event
crash =
    runs
    ∷ locks_run true
    ∷ chooses false (some 42)
    ∷ core_answers true
    ∷ publishes
    ∷ terminates 1
    ∷ []

-- The recovery starts it again, while a second start waits and takes its place.
abbrev restart : List Event
restart =
    runs
    ∷ locks_run true
    ∷ chooses false (some 42)
    ∷ core_answers true
    ∷ publishes
    ∷ terminates 1
    ∷ recovers
    ∷ runs
    ∷ recovers
    ∷ locks_recovery true
    ∷ chooses false (some 43)
    ∷ core_answers true
    ∷ publishes
    ∷ locks_run true
    ∷ terminates 2
    ∷ chooses false (some 44)
    ∷ core_answers true
    ∷ publishes
    ∷ []

restart_state :
    ((run restart init).sidecar ≡ some 44)
    × ((run restart init).generation ≡ 3)
    × ((run restart init).core_ready ≡ true)
unfolding run step
restart_state = (refl, refl, refl)

-- The child ends just before the core is said to be ready: the recovery ends, and no core runs.
abbrev stale : List Event
stale =
    runs
    ∷ locks_run true
    ∷ chooses false (some 42)
    ∷ core_answers true
    ∷ terminates 1
    ∷ publishes
    ∷ recovers
    ∷ []

stale_state :
    ((run stale init).core_ready ≡ true)
    × ((run stale init).active_generation ≡ 0)
    × ((run stale init).sidecar ≡ none)
    × ((run stale init).recovery_scheduled ≡ false)
unfolding run step
stale_state = (refl, refl, refl, refl)

run-recovers_example :
    ((run crash init).recovery_scheduled ≡ true) × (is_task (run crash init).recovery ≡ true)
unfolding run step
run-recovers_example = run-recovers crash refl refl refl refl

-- The core brings a new executable, 2, which does not start.
abbrev bad_core : Answers
bad_core = record {
  removes_stale = true;
  upgrades = λ f. (record f { core = some 2; backup = f.core }, updated);
  checks = true;
  starts = λ m. (m, false);
  removes_failed = true;
  preserves = true;
  brings_back = true;
  undoes = true;
  checks_restored = true;
  starts_restored = λ m. (m, true);
  cleans_failed = true;
  removes_backup = true;
}

abbrev ready : State
ready = record {
  manager = record init { core_ready = true; desired_running = true; active_generation = 1 };
  files = record { core = some 1; backup = some 0; failed = none };
}

restored_state : upgrade_core bad_core mihomo_core ready ≡ (
  record {
    manager = record init { core_ready = false; desired_running = true; active_generation = 0 };
    files = record { core = some 1; backup = none; failed = none };
  },
  error,
)
unfolding upgrade_core core_update_channel roll_back activate stop_core_after_self_update
restored_state = refl

upgrade_core-Held_example : Held (some 1) (upgrade_core bad_core mihomo_core ready)
upgrade_core-Held_example = upgrade_core-Held bad_core mihomo_core ready refl

-- The first start fails; the second, with the old core, does not. The world counts the starts, and the
-- configuration is the name of the core with the number of starts.
abbrev first_fails : Program
first_fails = record {
  World = ℕ;
  Runtime = Option String × ℕ;
  enhance = λ v w. (v.clash_core, w);
  check_config = λ v r w. (w, true);
  clear_log = λ w. w;
  run_core = λ v r w. (w + 1, not (w == 0));
  save_file = λ v w. (w, true);
}

abbrev before : Trial first_fails
before = record { verge = from template; runtime = from (none, 0); world = 0 }

taken_back :
    (change_core first_fails (some mihomo_alpha_core) before).0.runtime ≡ from (some mihomo_core, 1)
unfolding change_core attempt rollback generate from latest update_draft apply discard
taken_back = refl

change_core-Transaction_example :
    Changed first_fails
      (some mihomo_alpha_core)
      before
      (change_core first_fails (some mihomo_alpha_core) before)
change_core-Transaction_example =
    change_core-Transaction first_fails (some mihomo_alpha_core) before

-- When the restored core does not start either, it should run, and no recovery is scheduled.
forgotten :
    let r =
      upgrade_core (record bad_core { starts_restored = λ m. (m, false) }) mihomo_core ready in
    (r.0.manager.desired_running ≡ true)
    × (r.0.manager.core_ready ≡ false)
    × (r.0.manager.recovery_scheduled ≡ false)
unfolding upgrade_core core_update_channel roll_back activate stop_core_after_self_update
forgotten = (refl, refl, refl)
