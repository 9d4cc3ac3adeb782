-- ===== src/Verge/Tests.antt =====
-- Tests of src-tauri/src/config/verge.rs and of `patch_verge`, and their theorems at concrete inputs.
use clash_verge_buty.Prelude.Int.{negsuc}
use clash_verge_buty.Prelude.{ℕ, ◌+◌, ◌≡◌, refl, true, false, none, some, List, [], ◌∷◌}
use clash_verge_buty.Config.Draft.{from, latest, update_draft, apply, discard}
use clash_verge_buty.Scheduler.Periodic.{is_blank}
use clash_verge_buty.Verge.{
  IVerge, template, patch_config, normalize_default_latency_test, default_latency_test_url,
  new_settings, normalize_auto_log_clean,
}
use clash_verge_buty.Verge.Patch.{Program, patch_verge, validate, attempt, roll_back}
use clash_verge_buty.Verge.Applying.{
  tun_served, run_patches, run_patches-tun_served, Transaction, patch_verge-Transaction,
}

blank_url :
    (normalize_default_latency_test
      (record template { default_latency_test = some "   " })).0.default_latency_test
    ≡ some default_latency_test_url
unfolding normalize_default_latency_test is_blank
blank_url = refl

wrong_clean : (new_settings (some (record template { auto_log_clean = some (negsuc 0) }))).1 ≡ true
unfolding new_settings normalize_auto_log_clean normalize_default_latency_test is_blank
wrong_clean = refl

-- A program in which all goes well, and which counts the starts of the core.
abbrev lucky : Program
lucky = record {
  World = ℕ;
  is_current_process_elevated = λ w. some true;
  check_service = λ w. some true;
  ensure_service_ready = λ w. (w, true);
  generate = λ v w. (w, true);
  run_core = λ v w. (w + 1, true);
  stop_service_if_idle = λ w. (w, true);
  update_core_config = λ v w. (w, true);
  update_config = λ v w. (w, true);
  update_launch = λ v w. (w, true);
  update_sysproxy = λ v w. (w, true);
  guard_proxy = λ v w. w;
  update_hotkeys = λ keys w. (w, true);
  update_systray = λ v w. (w, true);
  update_systray_part = λ v w. (w, true);
  save_file = λ v w. (w, true);
  apply_runtime = λ w. w;
  discard_runtime = λ w. w;
}

-- A patch that sets nothing.
abbrev nothing : IVerge
nothing = record {
  app_singleton_port = none;
  app_log_level = none;
  language = none;
  theme_mode = none;
  tray_event = none;
  env_type = none;
  start_page = none;
  startup_script = none;
  traffic_graph = none;
  enable_memory_usage = none;
  enable_group_icon = none;
  common_tray_icon = none;
  sysproxy_tray_icon = none;
  tun_tray_icon = none;
  enable_tun_mode = none;
  enable_service_mode = none;
  enable_auto_launch = none;
  enable_silent_start = none;
  enable_custom_frameless_window = none;
  enable_system_proxy = none;
  enable_proxy_guard = none;
  system_proxy_bypass = none;
  proxy_guard_duration = none;
  theme_setting = none;
  web_ui_list = none;
  clash_core = none;
  hotkeys = none;
  auto_close_connection = none;
  default_latency_test = none;
  default_latency_timeout = none;
  enable_builtin_enhanced = none;
  proxy_layout_column = none;
  test_list = none;
  auto_log_clean = none;
  window_size_position = none;
  window_is_maximized = none;
  window_size_locked = none;
  enable_random_port = none;
  verge_mixed_port = none;
  verge_socks_port = none;
  verge_port = none;
}

abbrev with_service : IVerge
with_service = record nothing { enable_service_mode = some true }

abbrev with_tun : IVerge
with_tun = record nothing { enable_tun_mode = some true }

abbrev without_service : IVerge
without_service = record nothing { enable_service_mode = some false }

-- The service, then TUN mode, then an attempt to turn the service off, which is refused.
abbrev patches : List ((ℕ → ℕ) × IVerge)
patches = ((λ w. w), with_service) ∷ ((λ w. w), with_tun) ∷ ((λ w. w), without_service) ∷ []

tun_is_on :
    (latest
      (run_patches lucky patches
        (record { verge = from template; world = 0 })).verge).enable_tun_mode
    ≡ some true
unfolding run_patches patch_verge validate attempt patch_config from latest update_draft apply
    discard
tun_is_on = refl

-- Another program, on which the core does not start: it is tried with the old settings again.
abbrev unlucky : Program
unlucky = record lucky { run_core = λ v w. (w + 1, false) }

tried_twice :
    (patch_verge unlucky with_service
      (λ d. d)
      (record { verge = from template; world = 0 })).0.world
    ≡ 2
unfolding patch_verge validate attempt roll_back patch_config from latest update_draft apply discard
tried_twice = refl

-- While a patch that turns TUN mode on asks the service, another patch turns service mode off.
overlapping :
    tun_served (
      latest
        (patch_verge lucky with_tun
          (λ d. from (patch_config without_service (latest d)))
          (record { verge = from (patch_config with_service template); world = 0 })).0.verge)
    ≡ false
unfolding patch_verge validate attempt patch_config from latest update_draft apply discard
overlapping = refl

run_patches-tun_served_example :
    tun_served
      (latest (run_patches lucky patches (record { verge = from template; world = 0 })).verge)
    ≡ true
run_patches-tun_served_example = run_patches-tun_served lucky patches template 0 refl

patch_verge-Transaction_example :
    Transaction with_tun
      (from template)
      (patch_verge lucky with_tun (λ d. d) (record { verge = from template; world = 0 }))
patch_verge-Transaction_example =
    patch_verge-Transaction lucky with_tun (λ d. d) (record { verge = from template; world = 0 })
