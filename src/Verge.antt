-- ===== src/Verge.antt =====
-- src-tauri/src/config/verge.rs: the settings of the program. An `f64` stands as its 64 bits.
pub mod Patch
pub mod Applying
mod Tests
use clash_verge_buty.Prelude.Int.{ℤ, pos, negsuc, eq_int}
use clash_verge_buty.Prelude.{
  ℕ, String, Bool, true, false, Option, none, some, List, ◌==◌, ◌!=◌, ◌||◌, eq_option, eq_string,
  if◌then◌else◌, leb,
}
use clash_verge_buty.Config.Profiles.Item.{or_else}
use clash_verge_buty.Scheduler.Periodic.{is_blank}

abbrev pub mihomo_core : String
mihomo_core = "mihomo"

abbrev pub mihomo_alpha_core : String
mihomo_alpha_core = "mihomo-alpha"

abbrev pub default_latency_test_url : String
default_latency_test_url = "http://cp.cloudflare.com/generate_204"

pub record IVergeTestItem : Type 0 where
  pub uid : Option String
  pub name : Option String
  pub icon : Option String
  pub url : Option String

pub record IVergeTheme : Type 0 where
  pub primary_color : Option String
  pub secondary_color : Option String
  pub primary_text : Option String
  pub secondary_text : Option String
  pub info_color : Option String
  pub error_color : Option String
  pub warning_color : Option String
  pub success_color : Option String
  pub css_injection : Option String

pub record IVerge : Type 0 where
  pub app_singleton_port : Option ℕ
  pub app_log_level : Option String
  pub language : Option String
  pub theme_mode : Option String
  pub tray_event : Option String
  pub env_type : Option String
  pub start_page : Option String
  pub startup_script : Option String
  pub traffic_graph : Option Bool
  pub enable_memory_usage : Option Bool
  pub enable_group_icon : Option Bool
  pub common_tray_icon : Option Bool
  pub sysproxy_tray_icon : Option Bool
  pub tun_tray_icon : Option Bool
  pub enable_tun_mode : Option Bool
  pub enable_service_mode : Option Bool
  pub enable_auto_launch : Option Bool
  pub enable_silent_start : Option Bool
  pub enable_custom_frameless_window : Option Bool
  pub enable_system_proxy : Option Bool
  pub enable_proxy_guard : Option Bool
  pub system_proxy_bypass : Option String
  pub proxy_guard_duration : Option ℕ
  pub theme_setting : Option IVergeTheme
  pub web_ui_list : Option (List String)
  pub clash_core : Option String
  pub hotkeys : Option (List String)
  pub auto_close_connection : Option Bool
  pub default_latency_test : Option String
  pub default_latency_timeout : Option ℤ
  pub enable_builtin_enhanced : Option Bool
  pub proxy_layout_column : Option ℤ
  pub test_list : Option (List IVergeTestItem)
  pub auto_log_clean : Option ℤ
  pub window_size_position : Option (List ℕ)
  pub window_is_maximized : Option Bool
  pub window_size_locked : Option Bool
  pub enable_random_port : Option Bool
  pub verge_mixed_port : Option ℕ
  pub verge_socks_port : Option ℕ
  pub verge_port : Option ℕ

-- `Self::default()` with the fields that the template sets.
abbrev pub template : IVerge
template = record {
  app_singleton_port = none;
  app_log_level = none;
  language = some "zh";
  theme_mode = some "system";
  tray_event = none;
  env_type = some "powershell";
  start_page = some "/";
  startup_script = none;
  traffic_graph = some true;
  enable_memory_usage = some true;
  enable_group_icon = some true;
  common_tray_icon = some false;
  sysproxy_tray_icon = some false;
  tun_tray_icon = some false;
  enable_tun_mode = none;
  enable_service_mode = none;
  enable_auto_launch = some false;
  enable_silent_start = some false;
  enable_custom_frameless_window = none;
  enable_system_proxy = some false;
  enable_proxy_guard = some false;
  system_proxy_bypass = none;
  proxy_guard_duration = some 30;
  theme_setting = none;
  web_ui_list = none;
  clash_core = some mihomo_core;
  hotkeys = none;
  auto_close_connection = some true;
  default_latency_test = some default_latency_test_url;
  default_latency_timeout = none;
  enable_builtin_enhanced = some true;
  proxy_layout_column = none;
  test_list = none;
  auto_log_clean = some (pos 1);
  window_size_position = none;
  window_is_maximized = none;
  window_size_locked = none;
  enable_random_port = some false;
  verge_mixed_port = some 7897;
  verge_socks_port = some 7898;
  verge_port = some 7899;
}

unfoldable pub patch_config : IVerge → IVerge → IVerge
patch_config patch v = record v {
  app_log_level = or_else patch.app_log_level v.app_log_level;
  language = or_else patch.language v.language;
  theme_mode = or_else patch.theme_mode v.theme_mode;
  tray_event = or_else patch.tray_event v.tray_event;
  env_type = or_else patch.env_type v.env_type;
  start_page = or_else patch.start_page v.start_page;
  startup_script = or_else patch.startup_script v.startup_script;
  traffic_graph = or_else patch.traffic_graph v.traffic_graph;
  enable_memory_usage = or_else patch.enable_memory_usage v.enable_memory_usage;
  enable_group_icon = or_else patch.enable_group_icon v.enable_group_icon;
  common_tray_icon = or_else patch.common_tray_icon v.common_tray_icon;
  sysproxy_tray_icon = or_else patch.sysproxy_tray_icon v.sysproxy_tray_icon;
  tun_tray_icon = or_else patch.tun_tray_icon v.tun_tray_icon;
  enable_tun_mode = or_else patch.enable_tun_mode v.enable_tun_mode;
  enable_service_mode = or_else patch.enable_service_mode v.enable_service_mode;
  enable_auto_launch = or_else patch.enable_auto_launch v.enable_auto_launch;
  enable_silent_start = or_else patch.enable_silent_start v.enable_silent_start;
  enable_custom_frameless_window =
      or_else patch.enable_custom_frameless_window v.enable_custom_frameless_window;
  enable_random_port = or_else patch.enable_random_port v.enable_random_port;
  verge_mixed_port = or_else patch.verge_mixed_port v.verge_mixed_port;
  verge_socks_port = or_else patch.verge_socks_port v.verge_socks_port;
  verge_port = or_else patch.verge_port v.verge_port;
  enable_system_proxy = or_else patch.enable_system_proxy v.enable_system_proxy;
  enable_proxy_guard = or_else patch.enable_proxy_guard v.enable_proxy_guard;
  system_proxy_bypass = or_else patch.system_proxy_bypass v.system_proxy_bypass;
  proxy_guard_duration = or_else patch.proxy_guard_duration v.proxy_guard_duration;
  theme_setting = or_else patch.theme_setting v.theme_setting;
  web_ui_list = or_else patch.web_ui_list v.web_ui_list;
  clash_core = or_else patch.clash_core v.clash_core;
  hotkeys = or_else patch.hotkeys v.hotkeys;
  auto_close_connection = or_else patch.auto_close_connection v.auto_close_connection;
  default_latency_test = or_else patch.default_latency_test v.default_latency_test;
  default_latency_timeout = or_else patch.default_latency_timeout v.default_latency_timeout;
  enable_builtin_enhanced = or_else patch.enable_builtin_enhanced v.enable_builtin_enhanced;
  proxy_layout_column = or_else patch.proxy_layout_column v.proxy_layout_column;
  test_list = or_else patch.test_list v.test_list;
  auto_log_clean = or_else patch.auto_log_clean v.auto_log_clean;
  window_size_position = or_else patch.window_size_position v.window_size_position;
  window_is_maximized = or_else patch.window_is_maximized v.window_is_maximized;
  window_size_locked = or_else patch.window_size_locked v.window_size_locked;
}

abbrev clean_choice : Option ℤ → Option ℤ
clean_choice none = some (pos 1)
clean_choice (some (pos n)) = if leb n 3 then some (pos n) else some (pos 1)
clean_choice (some (negsuc n)) = some (pos 1)

-- The answer says whether the settings have changed.
unfoldable pub normalize_auto_log_clean : IVerge → IVerge × Bool
normalize_auto_log_clean v =
    let normalized = clean_choice v.auto_log_clean in
    if v.auto_log_clean != normalized
    then (record v { auto_log_clean = normalized }, true)
    else (v, false)

abbrev test_url : Option String → Option String
test_url none = some default_latency_test_url
test_url (some url) = if is_blank url then some default_latency_test_url else some url

unfoldable pub normalize_default_latency_test : IVerge → IVerge × Bool
normalize_default_latency_test v =
    let normalized = test_url v.default_latency_test in
    if v.default_latency_test != normalized
    then (record v { default_latency_test = normalized }, true)
    else (v, false)

-- `IVerge::new`: what the file holds, if it can be read. The second answer says whether it is saved.
abbrev normalized : IVerge × Bool → IVerge × Bool
normalized (v, changed) = let r = normalize_default_latency_test v in (r.0, changed || r.1)

unfoldable pub new_settings : Option IVerge → IVerge × Bool
unfolding normalize_auto_log_clean normalize_default_latency_test
new_settings none = (template, false)
new_settings (some v) = normalized (normalize_auto_log_clean v)
