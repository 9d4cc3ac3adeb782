-- ===== src/Proxy/Giving.antt =====
-- `update_sysproxy` where the proxy is disabled, and `reset_sysproxy`, of
-- src-tauri/src/core/sysopt/proxy.rs: the settings are given back.
use clash_verge_buty.Prelude.{
  ◌&&◌, Bool, true, false, Option, none, some, List, if◌then◌else◌, ◌==◌, Eq, eq_nat,
}
use clash_verge_buty.Proxy.{
  System, Sysproxy, Settings, Attempt, is_sysproxy_match, target_proxy, set_system_proxy_with_retry,
  clear_windows_proxy_recovery, unwrap_or, disabled,
}
use clash_verge_buty.Proxy.Taking.{State, enable_sysproxy}

module _ (sys : System) where
  open sys use {
    World, Snapshot, eq_snapshot, get_system_proxy, set_system_proxy, capture, restore_if_unchanged,
  }

  abbrev pub is_owned : Option Sysproxy → Sysproxy → Bool
  is_owned none before = false
  is_owned (some expected) before = is_sysproxy_match before expected

  -- A call that fails ends the method; otherwise the caches are cleared, and the journal too.
  abbrev pub disowned : Sysproxy → World × Bool → State sys → State sys × Bool
  disowned target (w, false) s = (record s { world = w }, false)
  disowned target (w, true) s = (
    record {
      cur_sysproxy = some target;
      old_sysproxy = none;
      old_windows_proxy = none;
      owned_windows_proxy = none;
      world = clear_windows_proxy_recovery sys w;
    },
    true,
  )

  -- Without snapshots `old_sysproxy` stays as it is.
  abbrev pub disabled_plainly : Sysproxy → World × Bool → State sys → State sys × Bool
  disabled_plainly target (w, false) s = (record s { world = w }, false)
  disabled_plainly target (w, true) s = (
    record s {
      cur_sysproxy = some target;
      owned_windows_proxy = none;
      world = clear_windows_proxy_recovery sys w;
    },
    true,
  )

  abbrev pub disable_own :
      Sysproxy → Sysproxy → Snapshot → Option Snapshot → State sys → State sys × Bool
  disable_own target before owned none s = (s, false)
  disable_own target before owned (some current) s =
      if Eq.eqb eq_snapshot current owned
      then disowned target (set_system_proxy_with_retry sys (disabled before) false s.world) s
      else disowned target (s.world, true) s

  abbrev pub give_back :
      Sysproxy → Sysproxy → Option Snapshot → Option Snapshot → State sys → State sys × Bool
  give_back target before (some original) (some owned) s =
      disowned target (restore_if_unchanged original owned s.world) s
  give_back target before (some original) none s =
      disowned target (set_system_proxy_with_retry sys (disabled before) false s.world) s
  give_back target before none (some owned) s = disable_own target before owned (capture s.world) s
  give_back target before none none s =
      disabled_plainly target
        (set_system_proxy_with_retry sys (unwrap_or (disabled before) s.old_sysproxy) false s.world)
        s

  abbrev pub disable_found : Sysproxy → Option Sysproxy → State sys → State sys × Bool
  disable_found target none s = (s, false)
  disable_found target (some before) s =
      if is_owned s.cur_sysproxy before
      then give_back target before s.old_windows_proxy s.owned_windows_proxy s
      else disowned target (s.world, true) s

  unfoldable pub disable_sysproxy : Sysproxy → State sys → State sys × Bool
  disable_sysproxy target s = disable_found target (get_system_proxy s.world) s

  unfoldable pub update_sysproxy : Settings → List Attempt → State sys → State sys × Bool
  unfolding disable_sysproxy enable_sysproxy
  update_sysproxy c attempts s =
      let target = target_proxy c in
      if target.enable then enable_sysproxy sys target attempts s else disable_sysproxy target s

  -- Whether what is read is the program's proxy.
  abbrev pub parsed_owned : Option Sysproxy → Option Sysproxy → Bool
  parsed_owned none actual = false
  parsed_owned (some cur) none = false
  parsed_owned (some cur) (some actual) = is_sysproxy_match actual cur

  abbrev registry_owned : Snapshot → Option Snapshot → Bool
  registry_owned owned none = false
  registry_owned owned (some current) = Eq.eqb eq_snapshot current owned

  -- The journal is cleared unless the call before failed.
  abbrev pub exited : World × Bool → World × Bool
  exited (w, false) = (w, false)
  exited (w, true) = (clear_windows_proxy_recovery sys w, true)

  abbrev pub set_disabled : Option Sysproxy → World → World × Bool
  set_disabled none w = (w, true)
  set_disabled (some current) w = set_system_proxy (disabled current) w

  abbrev port_same : Sysproxy → Option Sysproxy → Bool
  port_same old none = true
  port_same old (some cur) = old.port == cur.port

  abbrev pub reset_plainly : Option Sysproxy → Option Sysproxy → World → World × Bool
  reset_plainly cur (some old) w =
      set_system_proxy (if old.enable && port_same old cur then disabled old else old) w
  reset_plainly none none w = (w, true)
  reset_plainly (some cur) none w =
      if cur.enable then set_system_proxy (disabled cur) w else (w, true)

  abbrev pub reset_snapshot : Option Sysproxy → Snapshot → Option Snapshot → World → World × Bool
  reset_snapshot cur snapshot (some owned) w = restore_if_unchanged snapshot owned w
  reset_snapshot cur snapshot none w = set_disabled cur w

  abbrev pub reset_world :
      Option Sysproxy → Option Sysproxy → Option Snapshot → Option Snapshot → World → World × Bool
  reset_world cur old (some snapshot) owned w = exited (
      if parsed_owned cur (get_system_proxy w)
      then reset_snapshot cur snapshot owned w
      else (w, true))
  reset_world cur old none (some owned) w = exited (
      if parsed_owned cur (get_system_proxy w) && registry_owned owned (capture w)
      then set_disabled cur w
      else (w, true))
  reset_world cur old none none w = exited (reset_plainly cur old w)

  unfoldable pub reset_sysproxy : State sys → State sys × Bool
  reset_sysproxy s =
      let r =
        reset_world s.cur_sysproxy s.old_sysproxy s.old_windows_proxy s.owned_windows_proxy
          s.world in
      (
        record {
          cur_sysproxy = none;
          old_sysproxy = none;
          old_windows_proxy = none;
          owned_windows_proxy = none;
          world = r.0;
        },
        r.1,
      )
