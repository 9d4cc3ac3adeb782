-- ===== src/Manager/Upgrade.antt =====
-- `upgrade_core` of src-tauri/src/core/manager/update.rs, with its roll-back: the core replaces its own
-- executable. What the core does, and `check_config` and `start_core_locked`, are parameters.
use clash_verge_buty.Prelude.{
  ℕ, String, Bool, true, false, ◌&&◌, not, Option, none, some, ◌∷◌, ◌==◌, eq_nat, eq_string,
  if◌then◌else◌,
}
use clash_verge_buty.Verge.{mihomo_core, mihomo_alpha_core}
use clash_verge_buty.Manager.{CoreManager, schedule_core_recovery}

unfoldable pub core_update_channel : String → Option String
core_update_channel core =
    if core == mihomo_core
    then some "release"
    else if core == mihomo_alpha_core
    then some "alpha"
    else none

-- The executables by their contents: in place, as the backup that the core makes, and as rejected.
pub record Files : Type 0 where
  pub core : Option ℕ
  pub backup : Option ℕ
  pub failed : Option ℕ

pub data Status : Type 0 where
  already_current updated upgrade_failed : Status

-- What answers during one upgrade. A Boolean says whether a call succeeds. The call
-- `remove_file_if_exists` succeeds too where there is no file.
pub record Answers : Type 0 where
  pub removes_stale : Bool
  pub upgrades : Files → Files × Status
  pub checks : Bool
  pub starts : CoreManager → CoreManager × Bool
  pub removes_failed : Bool
  pub preserves : Bool
  pub brings_back : Bool
  pub undoes : Bool
  pub checks_restored : Bool
  pub starts_restored : CoreManager → CoreManager × Bool
  pub cleans_failed : Bool
  pub removes_backup : Bool

pub record State : Type 0 where
  pub manager : CoreManager
  pub files : Files

-- `true` is a new executable that runs.
pub data Outcome : Type 0 where
  done : Bool → Outcome
  error : Outcome

unfoldable pub restore_running_state : Bool → Bool → Bool → ℕ → CoreManager → CoreManager
unfolding schedule_core_recovery
restore_running_state desired ready service generation m =
    let still_active = not (generation == 0) && m.active_generation == generation in
    let ready' = ready && still_active in
    let m' = record m { desired_running = desired; core_ready = ready' } in
    if desired && ready' && service
    then record m' { monitored = generation ∷ m.monitored }
    else if desired && not ready'
    then schedule_core_recovery m'
    else m'

unfoldable pub stop_core_after_self_update : CoreManager → CoreManager
stop_core_after_self_update m = record m {
  active_generation = 0;
  core_ready = false;
  sidecar = none;
}

abbrev pub is_file : Option ℕ → Bool
is_file none = false
is_file (some content) = true

-- `activate_updated_core_locked`
unfoldable pub activate :
    Bool → (CoreManager → CoreManager × Bool) → Bool → CoreManager → CoreManager × Bool
activate false starts should_run m = (m, false)
activate true starts should_run m =
    let m' = record m { desired_running = should_run } in
    if should_run then starts m' else (m', true)

module _ (a : Answers) where
  abbrev pub restored : CoreManager × Bool → Files → State × Bool
  restored (m, false) f = (record { manager = m; files = f }, false)
  restored (m, true) f =
      if a.cleans_failed
      then (record { manager = m; files = record f { failed = none } }, true)
      else (record { manager = m; files = f }, false)

  abbrev pub undone : Option ℕ → Files → Files
  undone none f = f
  undone (some content) f = if a.undoes then record f { core = some content; failed = none } else f

  -- The backup takes the place of the executable.
  abbrev pub bring_back : Option ℕ → Bool → CoreManager → Files → State × Bool
  bring_back old should_run m f =
      if a.brings_back
      then restored (activate a.checks_restored a.starts_restored should_run m)
          (record f { core = old; backup = none })
      else (record { manager = m; files = undone f.failed f }, false)

  abbrev pub preserve : Option ℕ → Bool → CoreManager → Files → State × Bool
  preserve none should_run m f = bring_back f.backup should_run m f
  preserve (some content) should_run m f =
      if a.preserves
      then bring_back f.backup should_run m (record f { core = none; failed = some content })
      else (record { manager = m; files = f }, false)

  -- `rollback_core_update_locked`
  unfoldable pub roll_back : Bool → State → State × Bool
  unfolding activate stop_core_after_self_update
  roll_back should_run s =
      let m = stop_core_after_self_update (record s.manager { desired_running = false }) in
      if is_file s.files.backup
      then if a.removes_failed
        then preserve s.files.core should_run m (record s.files { failed = none })
        else (record { manager = m; files = s.files }, false)
      else (record { manager = m; files = s.files }, false)

  abbrev pub activated : Bool → CoreManager × Bool → Files → State × Outcome
  activated should_run (m, false) f =
      ((roll_back should_run (record { manager = m; files = f })).0, error)
  activated should_run (m, true) f = (
    record { manager = m; files = if a.removes_backup then record f { backup = none } else f },
    done true,
  )

  -- After the core has answered. The first four arguments are what was read before the call.
  abbrev pub answered : Bool → Bool → Bool → ℕ → CoreManager → Files × Status → State × Outcome
  answered desired ready service generation m (f, already_current) = (
    record { manager = restore_running_state desired ready service generation m; files = f },
    done false,
  )
  answered desired ready service generation m (f, upgrade_failed) =
      if is_file f.backup
      then ((roll_back desired (record { manager = m; files = f })).0, error)
      else (
        record { manager = restore_running_state desired ready service generation m; files = f },
        error,
      )
  answered desired ready service generation m (f, updated) =
      activated desired (activate a.checks a.starts desired (stop_core_after_self_update m)) f

  abbrev pub found : Option String → State → State × Outcome
  found none s = (s, error)
  found (some channel) s =
      if is_file s.files.core
      then if a.removes_stale
        then answered s.manager.desired_running s.manager.core_ready s.manager.use_service_mode
            s.manager.active_generation (record s.manager { desired_running = false })
            (a.upgrades (record s.files { backup = none }))
        else (s, error)
      else (s, error)

  -- The lock is held throughout. `core` is the name of the chosen core.
  unfoldable pub upgrade_core : String → State → State × Outcome
  unfolding core_update_channel roll_back activate restore_running_state
  upgrade_core core s =
      if s.manager.core_ready then found (core_update_channel core) s else (s, error)
