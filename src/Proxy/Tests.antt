-- ===== src/Proxy/Tests.antt =====
-- Tests of src-tauri/src/core/sysopt, and its theorems at concrete inputs: the settings of a system
-- are one proxy.
use clash_verge_buty.Prelude.{
  ℕ, ◌≡◌, refl, true, false, none, some, List, [], ◌∷◌, arith, eq_nat, ◌==◌, if◌then◌else◌,
}
use clash_verge_buty.Proxy.{
  System, Sysproxy, Settings, Attempt, is_sysproxy_match, eq_ignore_ascii_case, target_proxy,
  wait_for_local_proxy, set_system_proxy_with_retry, set_attempts, set_system_proxy_once,
  clear_windows_proxy_recovery,
}
use clash_verge_buty.Proxy.Taking.{init_sysproxy, enable_sysproxy}
use clash_verge_buty.Proxy.Giving.{update_sysproxy, reset_sysproxy}
use clash_verge_buty.Proxy.Exit.{Op, updates, guards, fresh, left, run, step, reset-foreign}
use clash_verge_buty.Proxy.Guard.{run_guard_cycle}
use clash_verge_buty.Proxy.Restoring.{Faithful, session-restores}
use clash_verge_buty.Proxy.Failing.{update-keeps}

-- The settings are the port of the proxy that is on, or 0.
abbrev proxy_at : ℕ → Sysproxy
proxy_at port = record {
  enable = if port == 0 then false else true;
  host = "127.0.0.1";
  port = port;
  bypass = "local";
}

abbrev port_of : Sysproxy → ℕ
port_of proxy = if proxy.enable then proxy.port else 0

abbrev simple : System
simple = record {
  World = ℕ;
  Snapshot = ℕ;
  eq_snapshot = eq_nat;
  get_system_proxy = λ w. some (proxy_at w);
  set_system_proxy = λ proxy w. (port_of proxy, true);
  set_system_proxy_registry = λ proxy w. (port_of proxy, true);
  capture = λ w. some w;
  restore = λ s w. (s, true);
  restore_if_unchanged = λ s owned w. (if w == owned then s else w, true);
  prepare_recovery = λ s proxy w. (w, true);
  record_owned_recovery = λ s proxy w. (w, true);
  clear_recovery = λ w. (w, true);
  recover_pending = λ w. (w, true);
  refresh_app_owned_values = λ s w. some w;
}

abbrev on : Settings
on = record {
  enable_system_proxy = some true;
  enable_proxy_guard = none;
  proxy_guard_duration = none;
  system_proxy_bypass = some "local";
  verge_mixed_port = some 7897;
  mixed_port = 7890;
}

abbrev listening : List Attempt
listening =
    record { core_ready = true; connects = false; late = false }
    ∷ record { core_ready = true; connects = true; late = false }
    ∷ []

-- The start, a guard, and an update to another port while another program turns its proxy on.
abbrev calls : List ((ℕ → ℕ) × Op)
calls =
    ((λ w. w), guards on listening on)
    ∷ ((λ w. 1080), updates (record on { verge_mixed_port = some 7891 }) listening)
    ∷ []

another : (left simple on listening 3128 calls (λ w. 8080)).cur_sysproxy ≡ some (proxy_at 7891)
unfolding run step run_guard_cycle init_sysproxy update_sysproxy enable_sysproxy
    set_system_proxy_with_retry set_attempts set_system_proxy_once wait_for_local_proxy target_proxy
    is_sysproxy_match eq_ignore_ascii_case
another = refl

reset-foreign_example :
    ((reset_sysproxy simple (left simple on listening 3128 calls (λ w. 8080))).0.world
      ≡ clear_windows_proxy_recovery simple (left simple on listening 3128 calls (λ w. 8080)).world)
    × ((reset_sysproxy simple (left simple on listening 3128 calls (λ w. 8080))).1 ≡ true)
unfolding run step run_guard_cycle init_sysproxy update_sysproxy enable_sysproxy
    set_system_proxy_with_retry set_attempts set_system_proxy_once wait_for_local_proxy target_proxy
    is_sysproxy_match eq_ignore_ascii_case
reset-foreign_example = reset-foreign simple on listening 3128 calls (λ w. 8080) refl

simple_laws : Faithful simple
simple_laws = record {
  settings = λ w. w;
  captures = λ w s e. ground arith;
  records = λ s proxy w. refl;
  clears = λ w. refl;
  restores = λ original w h. ground arith;
}

session-restores_example :
    let r =
      reset_sysproxy simple
        (record (update_sysproxy simple on listening (fresh simple 3128)).0 { world = 7897 }) in
    (r.1 ≡ true) × (r.0.world ≡ 3128)
unfolding update_sysproxy enable_sysproxy set_system_proxy_with_retry set_attempts
    set_system_proxy_once wait_for_local_proxy target_proxy is_sysproxy_match eq_ignore_ascii_case
    simple_laws
session-restores_example =
    session-restores simple simple_laws on listening 3128 7897 refl refl refl refl

-- A system on which nothing can be written.
abbrev locked : System
locked = record simple {
  set_system_proxy = λ proxy w. (w, false);
  set_system_proxy_registry = λ proxy w. (w, false);
}

update-keeps_example :
    (update_sysproxy locked on listening (fresh locked 3128)).0 ≡ record (fresh locked 3128) {
      world = (update_sysproxy locked on listening (fresh locked 3128)).0.world;
    }
unfolding update_sysproxy enable_sysproxy set_system_proxy_with_retry set_attempts
    set_system_proxy_once wait_for_local_proxy target_proxy
update-keeps_example = update-keeps locked on listening (fresh locked 3128) refl
