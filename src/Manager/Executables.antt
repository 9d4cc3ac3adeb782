-- ===== src/Manager/Executables.antt =====
-- The executables in `upgrade_core` of src-tauri/src/core/manager/update.rs: the old one is not lost.
use clash_verge_buty.Prelude.{
  ℕ, ◌≡◌, refl, ◌⊎◌, inl, inr, String, Bool, true, false, Option, none, some, if◌then◌else◌, arith,
}
use clash_verge_buty.Manager.{CoreManager}
use clash_verge_buty.Manager.Upgrade.{
  Files, Status, already_current, updated, upgrade_failed, Answers, State, Outcome, done, error,
  core_update_channel, is_file, activate, restored, undone, bring_back, preserve, roll_back,
  activated, answered, found, upgrade_core, stop_core_after_self_update,
}

-- The old executable is in its place, or is the backup.
abbrev pub Kept : Option ℕ → Files → Type 0
Kept old f = (f.core ≡ old) ⊎ (f.backup ≡ old)

-- After an upgrade: with success another executable may be in the place, and has been started.
abbrev pub Held : Option ℕ → State × Outcome → Type 0
Held old (s, done true) = Unit
Held old (s, done false) = Kept old s.files
Held old (s, error) = Kept old s.files

-- What the core does to its executable: it leaves it and makes no backup, or its backup is the old one.
abbrev pub BacksUp : Option ℕ → Files × Status → Type 0
BacksUp old (f, already_current) = f.core ≡ old
BacksUp old (f, updated) = f.backup ≡ old
BacksUp old (f, upgrade_failed) = (is_file f.backup ≡ false × f.core ≡ old) ⊎ (f.backup ≡ old)

either :
    {A : Type 0} → (P : A → Type 0) → (b : Bool) → {r t : A} → P r → P t → P (if b then r else t)
either P true r t = r
either P false r t = t

module _ (a : Answers) (old : Option ℕ) where
  abbrev RolledBack : State × Bool → Type 0
  RolledBack r = Kept old r.0.files

  restored-Kept : (r : CoreManager × Bool) (f : Files) → f.core ≡ old → RolledBack (restored a r f)
  restored-Kept (m, false) f k = inl k
  restored-Kept (m, true) f k = either RolledBack a.cleans_failed (inl k) (inl k)

  undone-backup : (failed : Option ℕ) (f : Files) → f.backup ≡ old → Kept old (undone a failed f)
  undone-backup none f k = inr k
  undone-backup (some content) f k = either (Kept old) a.undoes (inr k) (inr k)

  bring_back-Kept :
      (backup : Option ℕ) (b : Bool) (m : CoreManager) (f : Files)
      → backup ≡ old
      → f.backup ≡ old
      → RolledBack (bring_back a backup b m f)
  bring_back-Kept backup b m f k h =
      either RolledBack a.brings_back
        (restored-Kept (activate a.checks_restored a.starts_restored b m)
          (record f { core = backup; backup = none }) k)
        (undone-backup f.failed f h)

  preserve-Kept :
      (core : Option ℕ) (b : Bool) (m : CoreManager) (f : Files)
      → f.backup ≡ old
      → RolledBack (preserve a core b m f)
  preserve-Kept none b m f h = bring_back-Kept f.backup b m f h h
  preserve-Kept (some content) b m f h =
      either RolledBack a.preserves
        (bring_back-Kept f.backup b m (record f { core = none; failed = some content }) h h) (inr h)

  roll_back-Kept : (b : Bool) (s : State) → s.files.backup ≡ old → RolledBack (roll_back a b s)
  unfolding roll_back
  roll_back-Kept b s h =
      either RolledBack (is_file s.files.backup)
        (either RolledBack a.removes_failed
          (preserve-Kept s.files.core b
            (stop_core_after_self_update (record s.manager { desired_running = false }))
            (record s.files { failed = none }) h)
          (inr h))
        (inr h)

  activated-Held :
      (b : Bool) (r : CoreManager × Bool) (f : Files)
      → f.backup ≡ old
      → Held old (activated a b r f)
  activated-Held b (m, false) f h = roll_back-Kept b (record { manager = m; files = f }) h
  activated-Held b (m, true) f h = tt

  in_place :
      (x : Option ℕ)
      → is_file x ≡ false
      → (r t : State × Outcome) → Held old t
      → Held old (if is_file x then r else t)
  in_place none e r t h = h
  in_place (some content) e r t h = absurd (ground arith)

  answered-Held :
      (desired ready service : Bool) (generation : ℕ) (m : CoreManager) (r : Files × Status)
      → BacksUp old r
      → Held old (answered a desired ready service generation m r)
  answered-Held desired ready service generation m (f, already_current) h = inl h
  answered-Held desired ready service generation m (f, updated) h =
      activated-Held desired (activate a.checks a.starts desired (stop_core_after_self_update m)) f
        h
  answered-Held desired ready service generation m (f, upgrade_failed) (inl h) =
      in_place f.backup h.0 _ _ (inl h.1)
  answered-Held desired ready service generation m (f, upgrade_failed) (inr h) =
      either (Held old) (is_file f.backup)
        (roll_back-Kept desired (record { manager = m; files = f }) h) (inr h)

found-Held :
    (a : Answers) (c : Option String) (s : State)
    → BacksUp s.files.core (a.upgrades (record s.files { backup = none }))
    → Held s.files.core (found a c s)
found-Held a none s h = inl refl
found-Held a (some channel) s h =
    either (Held s.files.core) (is_file s.files.core)
      (either (Held s.files.core) a.removes_stale
        (answered-Held a s.files.core s.manager.desired_running s.manager.core_ready
          s.manager.use_service_mode s.manager.active_generation
          (record s.manager { desired_running = false })
          (a.upgrades (record s.files { backup = none })) h)
        (inl refl))
      (inl refl)

-- When what the core did with its executable fits `BacksUp`, an upgrade that does not bring a new
-- executable that runs leaves the old one in its place or as the backup, whichever of the steps fail.
pub upgrade_core-Held :
    (a : Answers) (core : String) (s : State)
    → BacksUp s.files.core (a.upgrades (record s.files { backup = none }))
    → Held s.files.core (upgrade_core a core s)
unfolding upgrade_core
upgrade_core-Held a core s h =
    either (Held s.files.core) s.manager.core_ready (found-Held a (core_update_channel core) s h)
      (inl refl)
