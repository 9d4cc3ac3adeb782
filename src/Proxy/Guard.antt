-- ===== src/Proxy/Guard.antt =====
-- `run_guard_cycle` of src-tauri/src/core/sysopt/guard.rs and `heal_sysproxy` of proxy.rs.
use clash_verge_buty.Prelude.{
  ℕ, ◌&&◌, max, Bool, true, false, Option, none, some, List, if◌then◌else◌,
}
use clash_verge_buty.Proxy.{
  System, Sysproxy, Settings, Attempt, is_sysproxy_match, wait_for_local_proxy, target_proxy,
  set_system_proxy_with_retry, unwrap_or,
}
use clash_verge_buty.Proxy.Taking.{State}
use clash_verge_buty.Proxy.Giving.{update_sysproxy}

unfoldable pub system_proxy_guard_enabled : Bool → Bool → Bool
system_proxy_guard_enabled enable_system_proxy enable_proxy_guard =
    enable_system_proxy && enable_proxy_guard

abbrev pub is_guarded : Settings → Bool
is_guarded c =
    system_proxy_guard_enabled (unwrap_or false c.enable_system_proxy)
      (unwrap_or false c.enable_proxy_guard)

-- The proxy that a cycle sets.
unfoldable pub guarded_proxy : Settings → Sysproxy
unfolding target_proxy
guarded_proxy c = record (target_proxy c) { enable = true }

module _ (sys : System) where
  open sys use {World, Snapshot, get_system_proxy, record_owned_recovery, refresh_app_owned_values}

  abbrev pub refreshed : Sysproxy → Option Snapshot → State sys → State sys
  refreshed proxy none s = s
  refreshed proxy (some snapshot) s = record s {
    owned_windows_proxy = some snapshot;
    world = (record_owned_recovery snapshot proxy s.world).0;
  }

  abbrev pub refresh : Sysproxy → Option Snapshot → State sys → State sys
  refresh proxy none s = s
  refresh proxy (some snapshot) s = refreshed proxy (refresh_app_owned_values snapshot s.world) s

  abbrev pub guarded : Sysproxy → World × Bool → State sys → State sys
  guarded proxy (w, true) s = refresh proxy s.owned_windows_proxy (record s { world = w })
  guarded proxy (w, false) s = record s { world = w }

  -- The settings are read again after the wait. The answer is the delay of the next cycle, if there
  -- is one.
  unfoldable pub run_guard_cycle :
      Settings → List Attempt → Settings → State sys → State sys × Option ℕ
  unfolding system_proxy_guard_enabled
  run_guard_cycle c attempts later s =
      let interval = max (unwrap_or 10 c.proxy_guard_duration) 1 in
      let proxy = guarded_proxy c in
      if is_guarded c
      then if wait_for_local_proxy attempts
        then if is_guarded later
          then (guarded proxy (set_system_proxy_with_retry sys proxy true s.world) s, some interval)
          else (s, none)
        else (s, some interval)
      else (s, none)

  abbrev pub heal_found : Settings → List Attempt → Option Sysproxy → State sys → State sys × Bool
  heal_found c attempts none s = (s, false)
  heal_found c attempts (some actual) s =
      if is_sysproxy_match actual (target_proxy c)
      then (s, false)
      else update_sysproxy sys c attempts s

  -- The answer says whether `guard_proxy` is called.
  unfoldable pub heal_sysproxy : Settings → List Attempt → State sys → State sys × Bool
  heal_sysproxy c attempts s =
      if unwrap_or false c.enable_system_proxy
      then heal_found c attempts (get_system_proxy s.world) s
      else (s, false)
