-- ===== src/Manager/Change.antt =====
-- `change_core` of src-tauri/src/core/manager/update.rs: another core is tried, and kept or taken back.
-- What the calls of other parts answer is a parameter.
use clash_verge_buty.Prelude.{
  String, Bool, true, false, ◌||◌, Option, none, some, ◌==◌, eq_string, if◌then◌else◌,
}
use clash_verge_buty.Config.Draft.{Draft, latest, update_draft, apply, discard}
use clash_verge_buty.Verge.{IVerge, mihomo_core, mihomo_alpha_core}

-- `enhance` makes the configuration of the core from the settings and the files. The calls that start
-- or check the core read the latest settings and the latest configuration.
pub record Program : Type 1 where
  pub World : Type 0
  pub Runtime : Type 0
  pub enhance : IVerge → World → Runtime
  pub check_config : IVerge → Runtime → World → World × Bool
  pub clear_log : World → World
  pub run_core : IVerge → Runtime → World → World × Bool
  pub save_file : IVerge → World → World × Bool

abbrev pub is_valid : String → Bool
is_valid core = (core == mihomo_core) || (core == mihomo_alpha_core)

-- How far the change has come.
pub data Stop : Type 0 where
  complete fail_before_restart fail_after_restart : Stop

module _ (p : Program) where
  open p use {World, Runtime, enhance, check_config, clear_log, run_core, save_file}

  pub record Trial : Type 0 where
    pub verge : Draft IVerge
    pub runtime : Draft Runtime
    pub world : World

  -- `Config::generate`
  unfoldable pub generate : Trial → Trial
  unfolding update_draft
  generate s = record s {
    runtime = update_draft (λ old. enhance (latest s.verge) s.world) s.runtime;
  }

  abbrev pub with_world : Trial → World × Bool → Trial × Bool
  with_world s (w, ok) = (record s { world = w }, ok)

  abbrev pub saved : Trial × Bool → Trial × Stop
  saved (s, false) = (s, fail_after_restart)
  saved (s, true) = (s, complete)

  abbrev pub started : Trial × Bool → Trial × Stop
  started (s, false) = (s, fail_after_restart)
  started (s, true) = saved (with_world s (save_file (latest s.verge) s.world))

  abbrev pub checked : Trial × Bool → Trial × Stop
  checked (s, false) = (s, fail_before_restart)
  checked (s, true) =
      started (with_world s (run_core (latest s.verge) (latest s.runtime) (clear_log s.world)))

  unfoldable pub attempt : Trial → Trial × Stop
  attempt s =
      let s' = generate s in
      checked (with_world s' (check_config (latest s'.verge) (latest s'.runtime) s'.world))

  abbrev pub apply_runtime : Trial → Trial
  apply_runtime s = record s { runtime = (apply s.runtime).0 }

  abbrev pub discarded : Trial → Trial
  discarded s = record s { verge = (discard s.verge).0; runtime = (discard s.runtime).0 }

  -- The previous core has been started again, or not.
  abbrev pub restarted : Trial × Bool → Trial
  restarted (s, false) = s
  restarted (s, true) = apply_runtime s

  unfoldable pub rollback : Trial → Trial
  rollback s =
      let s' = generate s in
      restarted (with_world s' (run_core (latest s'.verge) (latest s'.runtime) s'.world))

  abbrev pub ended : Trial × Stop → Trial × Bool
  ended (s, complete) = (apply_runtime (record s { verge = (apply s.verge).0 }), true)
  ended (s, fail_before_restart) = (discarded s, false)
  ended (s, fail_after_restart) = (rollback (discarded s), false)

  abbrev pub chosen : String → Trial → Trial × Bool
  chosen core s = ended (
      attempt
        (record s { verge = update_draft (λ v. record v { clash_core = some core }) s.verge }))

  unfoldable pub change_core : Option String → Trial → Trial × Bool
  unfolding attempt rollback generate
  change_core none s = (s, false)
  change_core (some core) s = if is_valid core then chosen core s else (s, false)
