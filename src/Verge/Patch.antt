-- ===== src/Verge/Patch.antt =====
-- `patch_verge` of src-tauri/src/features/verge_config.rs, for a build on Windows: new settings are
-- tried, and kept or taken back. What other parts of the program do is a parameter.
use clash_verge_buty.Prelude.{
  String, Bool, true, false, ◌&&◌, ◌||◌, not, Option, none, some, List, [], if◌then◌else◌,
}
use clash_verge_buty.Config.Draft.{Draft, latest, update_draft, apply, discard}
use clash_verge_buty.Verge.{IVerge, patch_config}

-- The calls that `patch_verge` makes. Most of them read the latest settings, which are an argument. A
-- Boolean says whether the call succeeds.
pub record Program : Type 1 where
  pub World : Type 0
  pub is_current_process_elevated : World → Option Bool
  pub check_service : World → Option Bool
  pub ensure_service_ready : World → World × Bool
  pub generate : IVerge → World → World × Bool
  pub run_core : IVerge → World → World × Bool
  pub stop_service_if_idle : World → World × Bool
  pub update_core_config : IVerge → World → World × Bool
  pub update_config : IVerge → World → World × Bool
  pub update_launch : IVerge → World → World × Bool
  pub update_sysproxy : IVerge → World → World × Bool
  pub guard_proxy : IVerge → World → World
  pub update_hotkeys : List String → World → World × Bool
  pub update_systray : IVerge → World → World × Bool
  pub update_systray_part : IVerge → World → World × Bool
  pub save_file : IVerge → World → World × Bool
  pub apply_runtime : World → World
  pub discard_runtime : World → World

-- What has been tried, and is to be done again with the old settings after an error.
pub record Attempts : Type 0 where
  pub core_restart : Bool
  pub core_config_update : Bool
  pub auto_launch_update : Bool
  pub sysproxy_update : Bool
  pub hotkey_update : Bool
  pub systray_update : Bool

abbrev no_attempts : Attempts
no_attempts = record {
  core_restart = false;
  core_config_update = false;
  auto_launch_update = false;
  sysproxy_update = false;
  hotkey_update = false;
  systray_update = false;
}

abbrev pub unwrap_or_false : Option Bool → Bool
unwrap_or_false none = false
unwrap_or_false (some b) = b

abbrev pub is_some {ℓ} : {A : Type ℓ} → Option A → Bool
is_some none = false
is_some (some a) = true

module _ (p : Program) where
  open p use {
    World, is_current_process_elevated, check_service, ensure_service_ready, generate, run_core,
    stop_service_if_idle, update_core_config, update_config, update_launch, update_sysproxy,
    guard_proxy, update_hotkeys, update_systray, update_systray_part, save_file, apply_runtime,
    discard_runtime,
  }

  -- The guards on service mode and TUN mode. The answer of a guard that ends the method is false.
  abbrev pub is_elevated : World → Bool
  is_elevated w = unwrap_or_false (is_current_process_elevated w)

  abbrev pub is_installed : World → Bool
  is_installed w = unwrap_or_false (check_service w)

  abbrev pub tun_guard : Option Bool → Option Bool → Bool → World → World × Bool
  tun_guard (some true) service current w =
      if is_installed w && (elim service [ none ↦ current | some b ↦ b ])
      then ensure_service_ready w
      else (w, false)
  tun_guard (some false) service current w = (w, true)
  tun_guard none service current w = (w, true)

  abbrev pub service_guard : Option Bool → World → Bool
  service_guard (some true) w = is_installed w
  service_guard (some false) w = true
  service_guard none w = true

  unfoldable pub validate : IVerge → IVerge → World → World × Bool
  validate patch current w =
      let service = patch.enable_service_mode in
      let tun = patch.enable_tun_mode in
      if (unwrap_or_false service || unwrap_or_false tun) && not (is_elevated w)
      then (w, false)
      else if unwrap_or_false current.enable_tun_mode && is_some service
      then (w, false)
      else if service_guard service w
      then tun_guard tun service (unwrap_or_false current.enable_service_mode) w
      else (w, false)

  -- The work after the draft is made: a call that fails ends it.
  pub record Work : Type 0 where
    pub world : World
    pub tried : Attempts

  abbrev then_do : Work × Bool → (Work → Work × Bool) → Work × Bool
  then_do (k, false) next = (k, false)
  then_do (k, true) next = next k

  abbrev call : (World → World × Bool) → Work → Work × Bool
  call f k = let r = f k.world in (record k { world = r.0 }, r.1)

  abbrev mark : (Attempts → Attempts) → Work → Work
  mark f k = record k { tried = f k.tried }

  abbrev idle_service : Option Bool → Work → Work × Bool
  idle_service (some false) k = (record k { world = (stop_service_if_idle k.world).0 }, true)
  idle_service (some true) k = (k, true)
  idle_service none k = (k, true)

  abbrev core_stage : IVerge → IVerge → Work → Work × Bool
  core_stage patch v k =
      if is_some patch.enable_service_mode
      then then_do (call (generate v) k) (λ k'.
        then_do (call (run_core v) (mark (λ a. record a { core_restart = true }) k'))
          (idle_service patch.enable_service_mode))
      else if is_some patch.enable_tun_mode
      then call (update_core_config v) (mark (λ a. record a { core_config_update = true }) k)
      else (k, true)

  abbrev launch_stage : IVerge → IVerge → Work → Work × Bool
  launch_stage patch v k =
      if is_some patch.enable_auto_launch
      then call (update_launch v) (mark (λ a. record a { auto_launch_update = true }) k)
      else (k, true)

  abbrev guard_again : IVerge → Work → Work × Bool
  guard_again v k = (record k { world = guard_proxy v k.world }, true)

  abbrev sysproxy_stage : IVerge → IVerge → Work → Work × Bool
  sysproxy_stage patch v k =
      if is_some patch.enable_system_proxy
        || (is_some patch.system_proxy_bypass || is_some patch.verge_mixed_port)
      then then_do (call (update_sysproxy v) (mark (λ a. record a { sysproxy_update = true }) k))
          (guard_again v)
      else (k, true)

  abbrev guard_stage : IVerge → IVerge → Work → Work × Bool
  guard_stage patch v k = if is_some patch.enable_proxy_guard then guard_again v k else (k, true)

  abbrev hotkey_stage : Option (List String) → Work → Work × Bool
  hotkey_stage none k = (k, true)
  hotkey_stage (some hotkeys) k =
      call (update_hotkeys hotkeys) (mark (λ a. record a { hotkey_update = true }) k)

  abbrev tray_stage : IVerge → IVerge → Work → Work × Bool
  tray_stage patch v k =
      let marked = mark (λ a. record a { systray_update = true }) k in
      if is_some patch.language
      then call (update_systray v) marked
      else if is_some patch.enable_system_proxy
          || (is_some patch.enable_tun_mode
              || (is_some patch.common_tray_icon
                  || (is_some patch.sysproxy_tray_icon || is_some patch.tun_tray_icon)))
      then call (update_systray_part v) marked
      else (k, true)

  unfoldable pub attempt : IVerge → IVerge → World → Work × Bool
  attempt patch v w =
      then_do (core_stage patch v (record { world = w; tried = no_attempts })) (λ k1.
        then_do (launch_stage patch v k1) (λ k2. then_do (sysproxy_stage patch v k2) (λ k3.
          then_do (guard_stage patch v k3) (λ k4.
            then_do (hotkey_stage patch.hotkeys k4)
              (λ k5. then_do (tray_stage patch v k5) (call (save_file v)))))))

  -- What follows an error, with the settings as they were. Failures here are only reported.
  abbrev when_ok : World × Bool → (World → World) → World
  when_ok (w, false) next = w
  when_ok (w, true) next = next w

  abbrev restore_core : Attempts → IVerge → World → World
  restore_core a v w =
      if a.core_restart || a.core_config_update
      then when_ok (generate v w) (λ w'.
        when_ok (if a.core_restart then run_core v w' else update_config v w') apply_runtime)
      else w

  abbrev restore_sysproxy : Attempts → IVerge → World → World
  restore_sysproxy a v w =
      if a.sysproxy_update then when_ok (update_sysproxy v w) (guard_proxy v) else w

  abbrev hotkeys_of : Option (List String) → List String
  hotkeys_of none = []
  hotkeys_of (some hotkeys) = hotkeys

  unfoldable pub roll_back : Attempts → IVerge → World → World
  roll_back a v w =
      let w1 = restore_core a v w in
      let w2 = restore_sysproxy a v w1 in
      let w3 = if a.auto_launch_update then (update_launch v w2).0 else w2 in
      let w4 = if a.hotkey_update then (update_hotkeys (hotkeys_of v.hotkeys) w3).0 else w3 in
      if a.systray_update then (update_systray v w4).0 else w4

  pub record App : Type 0 where
    pub verge : Draft IVerge
    pub world : World

  abbrev pub settled : Draft IVerge → Work × Bool → App × Bool
  settled d (k, true) = (record { verge = (apply d).0; world = apply_runtime k.world }, true)
  settled d (k, false) =
      let kept = (discard d).0 in
      (
        record { verge = kept; world = roll_back k.tried (latest kept) (discard_runtime k.world) },
        false,
      )

  abbrev pub validated : IVerge → Draft IVerge → World × Bool → App × Bool
  validated patch d (w, false) = (record { verge = d; world = w }, false)
  validated patch d (w, true) =
      let d' = update_draft (patch_config patch) d in settled d' (attempt patch (latest d') w)

  -- The settings are read first, then the service is asked, and then the draft is written, with no lock
  -- held: `meanwhile` is what other tasks do to the settings in between. From the draft to the end the
  -- method is one step here.
  unfoldable pub patch_verge : IVerge → (Draft IVerge → Draft IVerge) → App → App × Bool
  unfolding validate attempt roll_back
  patch_verge patch meanwhile s =
      validated patch (meanwhile s.verge) (validate patch (latest s.verge) s.world)
