-- ===== src/Manager/Choosing.antt =====
-- `change_core` of src-tauri/src/core/manager/update.rs: what the settings and the configuration are
-- after it, whichever call fails.
use clash_verge_buty.Prelude.{
  String, Bool, true, false, Option, none, some, ◌≡◌, refl, ap, ◌⊎◌, inl, inr, if◌then◌else◌,
}
use clash_verge_buty.Config.Draft.{Draft, from, latest, update_draft, apply, discard}
use clash_verge_buty.Verge.{IVerge}
use clash_verge_buty.Manager.Change.{
  Program, Trial, Stop, complete, fail_before_restart, fail_after_restart, is_valid, generate,
  with_world, saved, started, checked, attempt, discarded, restarted, rollback, ended, chosen,
  change_core,
}

abbrev pub with_core : String → IVerge → IVerge
with_core core v = record v { clash_core = some core }

-- The configuration that the settings give, in some world.
abbrev pub Generated : (p : Program) → IVerge → Program.Runtime p → Type 0
Generated p v r = (w : Program.World p) × (r ≡ Program.enhance p v w)

abbrev pub Taken : (p : Program) → String → Trial p → Trial p → Type 0
Taken p core s s' =
    (is_valid core ≡ true)
    × (s'.verge ≡ from (with_core core (latest s.verge)))
    × (s'.runtime ≡ from (Program.enhance p (with_core core (latest s.verge)) s.world))

abbrev pub TakenBack : (p : Program) → Trial p → Trial p → Type 0
TakenBack p s s' =
    (s'.verge ≡ from s.verge.committed)
    × ((s'.runtime.committed ≡ s.runtime.committed)
        ⊎ Generated p s.verge.committed s'.runtime.committed)

abbrev pub Changed : (p : Program) → Option String → Trial p → Trial p × Bool → Type 0
Changed p none s r = r ≡ (s, false)
Changed p (some core) s (s', true) = Taken p core s s'
Changed p (some core) s (s', false) = (s' ≡ s) ⊎ TakenBack p s s'

module _ (p : Program) (core : String) (s : Trial p) (valid : is_valid core ≡ true) where
  -- While the change is tried: the new settings and the configuration from them are drafts.
  abbrev Trying : Trial p → Type 0
  Trying t =
      (t.verge ≡ update_draft (with_core core) s.verge)
      × (t.runtime
          ≡ update_draft (λ old. Program.enhance p (with_core core (latest s.verge)) s.world)
              s.runtime)

  saved-Trying : (r : Trial p × Bool) → Trying r.0 → Trying (saved p r).0
  saved-Trying (t, false) h = h
  saved-Trying (t, true) h = h

  started-Trying : (r : Trial p × Bool) → Trying r.0 → Trying (started p r).0
  started-Trying (t, false) h = h
  started-Trying (t, true) h =
      saved-Trying (with_world p t (Program.save_file p (latest t.verge) t.world)) h

  checked-Trying : (r : Trial p × Bool) → Trying r.0 → Trying (checked p r).0
  checked-Trying (t, false) h = h
  checked-Trying (t, true) h =
      started-Trying
        (with_world p t
          (Program.run_core p (latest t.verge) (latest t.runtime) (Program.clear_log p t.world)))
        h

  restarted-TakenBack :
      (r : Trial p × Bool)
      → (r.0.verge ≡ from s.verge.committed)
      → (w : Program.World p)
      → (r.0.runtime ≡ record {
        committed = s.runtime.committed;
        pending = some (Program.enhance p s.verge.committed w);
      })
      → TakenBack p s (restarted p r)
  unfolding apply
  restarted-TakenBack (t, false) h w g = (h, inl (ap Draft.committed g))
  restarted-TakenBack (t, true) h w g = (h, inr (w, ap (λ d. (apply d).0.committed) g))

  ended_lem : (r : Trial p × Stop) → Trying r.0 → Changed p (some core) s (ended p r)
  unfolding apply discard rollback generate update_draft latest from
  ended_lem (t, complete) (h, g) = (valid, ap (λ d. (apply d).0) h, ap (λ d. (apply d).0) g)
  ended_lem (t, fail_before_restart) (h, g) =
      inr (ap (λ d. (discard d).0) h, inl (ap Draft.committed g))
  ended_lem (t, fail_after_restart) (h, g) = inr (
      restarted-TakenBack
        (let d = generate p (discarded p t) in
          with_world p d (Program.run_core p (latest d.verge) (latest d.runtime) d.world))
        (ap (λ d. (discard d).0) h) t.world
        (λ i. record {
          committed = (g i).committed;
          pending = some (Program.enhance p (h i).committed t.world);
        }))

decided :
    (p : Program) (core : String) (s : Trial p) (b : Bool)
    → is_valid core ≡ b
    → Changed p (some core) s (if b then chosen p core s else (s, false))
unfolding attempt generate latest
decided p core s false e = inl refl
decided p core s true e =
    let tried : Trial p = record s { verge = update_draft (with_core core) s.verge } in
    let made : Trial p = generate p tried in
    ended_lem p core s e (attempt p tried) (
      checked-Trying p core s e
        (with_world p made
          (Program.check_config p (latest made.verge) (latest made.runtime) made.world))
        (refl, refl))

-- A change of the core is a transaction, whichever call fails. With success the settings are the old
-- ones with the chosen core, which is a valid one, and the configuration is the one that they give;
-- nothing is pending. With an error nothing has changed; or the committed settings are the old ones
-- and nothing of them is pending, and the committed configuration is the old one or one that the old
-- settings give.
pub change_core-Transaction :
    (p : Program) (core : Option String) (s : Trial p) → Changed p core s (change_core p core s)
unfolding change_core
change_core-Transaction p none s = refl
change_core-Transaction p (some core) s = decided p core s (is_valid core) refl
