-- ===== src/Proxy/Restoring.antt =====
-- A session of src-tauri/src/core/sysopt: the settings at its end are those before it.
use clash_verge_buty.Prelude.{
  ◌≡◌, refl, sym, ◌∙◌, ap, Bool, true, false, Option, none, some, List, if◌then◌else◌, arith,
}
use clash_verge_buty.Proxy.{
  System, Sysproxy, Settings, Attempt, target_proxy, wait_for_local_proxy,
  set_system_proxy_with_retry, clear_windows_proxy_recovery, rearm_windows_proxy_recovery,
}
use clash_verge_buty.Proxy.Taking.{
  State, was_prepared, was_set, now_owned, enable_sysproxy, enable_captured,
}
use clash_verge_buty.Proxy.Giving.{
  update_sysproxy, disable_sysproxy, parsed_owned, reset_sysproxy, reset_world, exited,
}
use clash_verge_buty.Proxy.Exit.{fresh}

-- What the crate documents: `capture` reads the settings, the journal is apart from them, and
-- `restore_if_unchanged`, when it succeeds on settings that are those the program wrote, restores the
-- original. It may fail.
pub record Faithful (sys : System) : Type 0 where
  pub settings : System.World sys → System.Snapshot sys
  pub captures :
      (w : System.World sys) (s : System.Snapshot sys) → sys.capture w ≡ some s → s ≡ settings w
  pub records :
      (s : System.Snapshot sys) (proxy : Sysproxy) (w : System.World sys)
      → settings (sys.record_owned_recovery s proxy w).0 ≡ settings w
  pub clears : (w : System.World sys) → settings (sys.clear_recovery w).0 ≡ settings w
  pub restores :
      (original : System.Snapshot sys) (w : System.World sys)
      → (sys.restore_if_unchanged original (settings w) w).1 ≡ true
      → settings (sys.restore_if_unchanged original (settings w) w).0 ≡ original

module _ (sys : System) (f : Faithful sys) where
  open sys use {World, Snapshot, get_system_proxy, capture, restore_if_unchanged, prepare_recovery}

  -- The program owns the settings, and remembers those of `w`.
  record Session (w : World) (s : State sys) : Type 0 where
    original : s.old_windows_proxy ≡ some (f.settings w)
    owned : s.owned_windows_proxy ≡ some (f.settings s.world)

  module _ (journal : World → World) (target : Sysproxy) (snapshot : Snapshot)
      (before : Option Sysproxy) (w : World) (same : snapshot ≡ f.settings w) where
    owned-Session :
        (found : Option Snapshot) (v : World) (s : State sys)
        → capture v ≡ found
        → (now_owned sys true journal target snapshot before found v s).1 ≡ true
        → Session w (now_owned sys true journal target snapshot before found v s).0
    owned-Session none v s e h = absurd (ground arith)
    owned-Session (some owned) v s e h = record {
      original = ap some same;
      owned = ap some (f.captures v owned e ∙ sym (f.records owned target v));
    }

    set-Session :
        (r : World × Bool) (s : State sys)
        → (was_set sys true journal target snapshot before r s).1 ≡ true
        → Session w (was_set sys true journal target snapshot before r s).0
    set-Session (v, false) s h = absurd (ground arith)
    set-Session (v, true) s h = owned-Session (capture v) v s refl h

    prepared-Session :
        (r : World × Bool) (s : State sys)
        → (was_prepared sys true journal target snapshot before r s).1 ≡ true
        → Session w (was_prepared sys true journal target snapshot before r s).0
    prepared-Session (v, false) s h = absurd (ground arith)
    prepared-Session (v, true) s h = set-Session (set_system_proxy_with_retry sys target true v) s h

  captured-Session :
      (found : Option Snapshot) (target : Sysproxy) (w : World)
      → capture w ≡ found
      → (enable_captured sys found target (fresh sys w)).1 ≡ true
      → Session w (enable_captured sys found target (fresh sys w)).0
  captured-Session none target w e h = absurd (ground arith)
  captured-Session (some snapshot) target w e h =
      prepared-Session (rearm_windows_proxy_recovery sys none snapshot none) target snapshot
        (get_system_proxy w) w (f.captures w snapshot e) (prepare_recovery snapshot target w)
        (fresh sys w) h

  chosen-Session :
      (b : Bool) (r t : State sys × Bool) (w : World)
      → b ≡ true
      → (r.1 ≡ true → Session w r.0)
      → (if b then r else t).1 ≡ true
      → Session w (if b then r else t).0
  chosen-Session true r t w e k h = k h
  chosen-Session false r t w e k h = absurd (ground arith)

  succeeded-Session :
      (b : Bool) (r : State sys × Bool) (s : State sys) (w : World)
      → (r.1 ≡ true → Session w r.0)
      → (if b then r else (s, false)).1 ≡ true
      → Session w (if b then r else (s, false)).0
  succeeded-Session true r s w k h = k h
  succeeded-Session false r s w k h = absurd (ground arith)

  enabled-Session :
      (c : Settings) (attempts : List Attempt) (w : World)
      → (target_proxy c).enable ≡ true
      → (update_sysproxy sys c attempts (fresh sys w)).1 ≡ true
      → Session w (update_sysproxy sys c attempts (fresh sys w)).0
  unfolding update_sysproxy enable_sysproxy
  enabled-Session c attempts w e =
      let target = target_proxy c in
      let r = enable_captured sys (capture w) target (fresh sys w) in
      let waited : State sys × Bool =
        if wait_for_local_proxy attempts then r else (fresh sys w, false) in
      chosen-Session target.enable waited (disable_sysproxy sys target (fresh sys w)) w e (
        succeeded-Session (wait_for_local_proxy attempts) r (fresh sys w) w
          (captured-Session (capture w) target w refl))

  -- How an exit ends that asks for `original` to be restored, by what the crate answers.
  abbrev pub Restored : Snapshot → World × Bool → World × Bool → Type 0
  Restored original (v, true) (w, ok) = (ok ≡ true) × (f.settings w ≡ original)
  Restored original (v, false) (w, ok) = (ok ≡ false) × (w ≡ v)

  exited-Restored :
      (r : World × Bool) (s : Snapshot)
      → (r.1 ≡ true → f.settings r.0 ≡ s)
      → Restored s r (exited sys r)
  unfolding clear_windows_proxy_recovery
  exited-Restored (v, true) s p = (refl, f.clears v ∙ p refl)
  exited-Restored (v, false) s p = (refl, refl)

  ended_lem :
      (cur old : Option Sysproxy) (original owned : Option Snapshot) (v : World) (s : Snapshot)
      → original ≡ some s
      → owned ≡ some (f.settings v)
      → parsed_owned sys cur (get_system_proxy v) ≡ true
      → Restored s
          (restore_if_unchanged s (f.settings v) v)
          (reset_world sys cur old original owned v)
  ended_lem cur old original owned v s p q r =
      rw (p, q, r) (exited-Restored (restore_if_unchanged s (f.settings v) v) s (f.restores s v))

-- A session leaves no trace: when a new program has enabled the proxy with success, and ends while the
-- proxy is still read as the one it has set and nobody has changed the settings, then the exit asks the
-- crate to put back the settings from before the session. Where the crate does so, the exit succeeds
-- and the settings are those before the session; where the crate fails, the exit fails, and the
-- settings and the recovery journal are as the crate has left them. (The crate keeps to `Faithful`.)
pub session-restores :
    (sys : System) (f : Faithful sys) (c : Settings) (attempts : List Attempt)
    (w v : System.World sys)
    → (target_proxy c).enable ≡ true
    → (update_sysproxy sys c attempts (fresh sys w)).1 ≡ true
    → f.settings v ≡ f.settings (update_sysproxy sys c attempts (fresh sys w)).0.world
    → parsed_owned sys
        (update_sysproxy sys c attempts (fresh sys w)).0.cur_sysproxy
        (sys.get_system_proxy v)
      ≡ true
    → let r =
        reset_sysproxy sys
          (record (update_sysproxy sys c attempts (fresh sys w)).0 { world = v }) in
      Restored sys f
        (f.settings w)
        (sys.restore_if_unchanged (f.settings w) (f.settings v) v)
        (r.0.world, r.1)
unfolding reset_sysproxy
session-restores sys f c attempts w v e h u p =
    let s = (update_sysproxy sys c attempts (fresh sys w)).0 in
    let x = enabled-Session sys f c attempts w e h in
    ended_lem sys f s.cur_sysproxy s.old_sysproxy s.old_windows_proxy s.owned_windows_proxy v
      (f.settings w) x.original (x.owned ∙ ap some (sym u)) p
