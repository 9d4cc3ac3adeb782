-- ===== src/Proxy/Taking.antt =====
-- `init_sysproxy`, and `update_sysproxy` where the proxy is enabled, of
-- src-tauri/src/core/sysopt/proxy.rs: the settings are taken over.
use clash_verge_buty.Prelude.{Bool, true, false, not, Option, none, some, List, if◌then◌else◌}
use clash_verge_buty.Proxy.{
  System, Sysopt, Sysproxy, Settings, Attempt, is_sysproxy_match, wait_for_local_proxy,
  target_proxy, set_system_proxy_with_retry, clear_windows_proxy_recovery,
  rearm_windows_proxy_recovery, unwrap_or,
}

module _ (sys : System) where
  open sys use {
    World, Snapshot, get_system_proxy, capture, restore, prepare_recovery, record_owned_recovery,
    recover_pending,
  }

  abbrev pub State : Type 0
  State = Sysopt sys

  abbrev pub owning :
      Bool → Sysproxy → Snapshot → Option Sysproxy → Snapshot → World → State → State
  owning true target snapshot before owned w s = record {
    cur_sysproxy = some target;
    old_sysproxy = before;
    old_windows_proxy = some snapshot;
    owned_windows_proxy = some owned;
    world = w;
  }
  owning false target snapshot before owned w s = record s {
    cur_sysproxy = some target;
    owned_windows_proxy = some owned;
    world = w;
  }

  -- After `prepare_recovery`, `set_system_proxy_with_retry` and the second `capture`. The argument
  -- `journal` is what is done with the journal when the settings have been restored.
  module _ (save : Bool) (journal : World → World) (target : Sysproxy) (snapshot : Snapshot)
      (before : Option Sysproxy) where
    abbrev rolled_back : World → State → State × Bool
    rolled_back w s = (record s { world = journal (restore snapshot w).0 }, false)

    abbrev pub now_owned : Option Snapshot → World → State → State × Bool
    now_owned none w s = rolled_back w s
    now_owned (some owned) w s =
        (owning save target snapshot before owned (record_owned_recovery owned target w).0 s, true)

    abbrev pub was_set : World × Bool → State → State × Bool
    was_set (w, false) s = rolled_back w s
    was_set (w, true) s = now_owned (capture w) w s

    abbrev pub was_prepared : World × Bool → State → State × Bool
    was_prepared (w, false) s = (record s { world = w }, false)
    was_prepared (w, true) s = was_set (set_system_proxy_with_retry sys target true w) s

  abbrev pub differs : Sysproxy → Option Sysproxy → Bool
  differs target none = true
  differs target (some old) = not (is_sysproxy_match old target)

  abbrev pub init_captured : Option Snapshot → Sysproxy → State → State × Bool
  init_captured none target s = (s, false)
  init_captured (some snapshot) target s =
      let old = get_system_proxy s.world in
      was_prepared (differs target old) (clear_windows_proxy_recovery sys) target snapshot old
        (prepare_recovery snapshot target s.world) s

  abbrev pub init_recovered : Settings → List Attempt → World × Bool → State → State × Bool
  init_recovered c attempts (w, false) s = (record s { world = w }, false)
  init_recovered c attempts (w, true) s =
      let target = target_proxy c in
      let s' = record s { world = w } in
      if target.enable
      then if wait_for_local_proxy attempts
        then init_captured (capture w) target s'
        else (s', false)
      else (record s' { cur_sysproxy = some target }, true)

  -- Up to the call of `guard_proxy`.
  unfoldable pub init_sysproxy : Settings → List Attempt → State → State × Bool
  init_sysproxy c attempts s = init_recovered c attempts (recover_pending s.world) s

  unfoldable pub recover_pending_sysproxy : State → State × Bool
  recover_pending_sysproxy s = let r = recover_pending s.world in (record s { world = r.0 }, r.1)

  abbrev pub current_was_owned : Option Sysproxy → Option Sysproxy → Bool
  current_was_owned (some expected) (some actual) =
      if expected.enable then is_sysproxy_match actual expected else false
  current_was_owned none before = false
  current_was_owned (some expected) none = false

  abbrev pub enable_captured : Option Snapshot → Sysproxy → State → State × Bool
  enable_captured none target s = (s, false)
  enable_captured (some snapshot) target s =
      let before = get_system_proxy s.world in
      let save = not (current_was_owned s.cur_sysproxy before) in
      let original = if save then snapshot else unwrap_or snapshot s.old_windows_proxy in
      was_prepared save
        (rearm_windows_proxy_recovery sys s.old_windows_proxy snapshot s.cur_sysproxy) target
        snapshot before (prepare_recovery original target s.world) s

  -- `update_sysproxy` where the proxy is enabled.
  unfoldable pub enable_sysproxy : Sysproxy → List Attempt → State → State × Bool
  enable_sysproxy target attempts s =
      if wait_for_local_proxy attempts
      then enable_captured (capture s.world) target s
      else (s, false)
