-- ===== src/Proxy.antt =====
-- src-tauri/src/core/sysopt: the system proxy that the program takes over, guards and gives back. The
-- crate sysproxy, which reads and writes the settings of Windows, is a parameter.
pub mod Taking
pub mod Giving
pub mod Guard
pub mod Sessions
pub mod Exit
pub mod Restoring
pub mod Failing
mod Tests
use Prim.Native.Char.{Char, code}
use Prim.Native.String.{[] as end_of_text, ◌∷◌ as ◌⊳◌}
use clash_verge_buty.Prelude.{
  ℕ, suc, zero, ◌+◌, ◌&&◌, String, Bool, true, false, not, Option, none, some, List, [], ◌∷◌, ◌==◌,
  Eq, eq_nat, eq_string, leb, if◌then◌else◌,
}

pub record Sysproxy : Type 0 where
  pub enable : Bool
  pub host : String
  pub port : ℕ
  pub bypass : String

-- The crate's calls on the settings and on the recovery journal, which are a `World`. A Boolean says
-- whether the call succeeds.
pub record System : Type 1 where
  pub World : Type 0
  pub Snapshot : Type 0
  pub eq_snapshot : Eq Snapshot
  pub get_system_proxy : World → Option Sysproxy
  pub set_system_proxy : Sysproxy → World → World × Bool
  pub set_system_proxy_registry : Sysproxy → World → World × Bool
  pub capture : World → Option Snapshot
  pub restore : Snapshot → World → World × Bool
  pub restore_if_unchanged : Snapshot → Snapshot → World → World × Bool
  pub prepare_recovery : Snapshot → Sysproxy → World → World × Bool
  pub record_owned_recovery : Snapshot → Sysproxy → World → World × Bool
  pub clear_recovery : World → World × Bool
  pub recover_pending : World → World × Bool
  pub refresh_app_owned_values : Snapshot → World → Option Snapshot

-- The fields of `Sysopt` for the proxy, and what the crate works on.
pub record Sysopt (sys : System) : Type 0 where
  pub cur_sysproxy : Option Sysproxy
  pub old_sysproxy : Option Sysproxy
  pub old_windows_proxy : Option (System.Snapshot sys)
  pub owned_windows_proxy : Option (System.Snapshot sys)
  pub world : System.World sys

-- What the configuration says.
pub record Settings : Type 0 where
  pub enable_system_proxy : Option Bool
  pub enable_proxy_guard : Option Bool
  pub proxy_guard_duration : Option ℕ
  pub system_proxy_bypass : Option String
  pub verge_mixed_port : Option ℕ
  pub mixed_port : ℕ

abbrev pub default_bypass : String
default_bypass = "localhost;127.*;192.168.*;10.*;172.16.*;<local>"

abbrev pub unwrap_or {ℓ} : {A : Type ℓ} → A → Option A → A
unwrap_or a none = a
unwrap_or a (some b) = b

abbrev lower : Char → ℕ
lower c = let n = code c in if leb 65 n && leb n 90 then n + 32 else n

-- `str::eq_ignore_ascii_case`
unfoldable pub eq_ignore_ascii_case : String → String → Bool
eq_ignore_ascii_case end_of_text end_of_text = true
eq_ignore_ascii_case end_of_text (d ⊳ t) = false
eq_ignore_ascii_case (c ⊳ s) end_of_text = false
eq_ignore_ascii_case (c ⊳ s) (d ⊳ t) =
    let rest = eq_ignore_ascii_case s t in lower c == lower d && rest

abbrev same_enable : Bool → Bool → Bool
same_enable true b = b
same_enable false b = not b

unfoldable pub is_sysproxy_match : Sysproxy → Sysproxy → Bool
unfolding eq_ignore_ascii_case
is_sysproxy_match actual expected =
    if not (same_enable actual.enable expected.enable)
    then false
    else if not expected.enable
    then true
    else eq_ignore_ascii_case actual.host expected.host
      && (actual.port == expected.port && actual.bypass == expected.bypass)

-- One turn of the loop that waits for the listener.
pub record Attempt : Type 0 where
  pub core_ready : Bool
  pub connects : Bool
  pub late : Bool

-- The loop ends at the first attempt that is late, so that a list is long enough that has one.
unfoldable pub wait_for_local_proxy : List Attempt → Bool
wait_for_local_proxy [] = false
wait_for_local_proxy (attempt ∷ attempts) =
    let rest = wait_for_local_proxy attempts in
    if attempt.core_ready
    then if attempt.connects then true else if attempt.late then false else rest
    else false

unfoldable pub target_proxy : Settings → Sysproxy
target_proxy c = record {
  enable = unwrap_or false c.enable_system_proxy;
  host = "127.0.0.1";
  port = unwrap_or c.mixed_port c.verge_mixed_port;
  bypass = unwrap_or default_bypass c.system_proxy_bypass;
}

abbrev pub disabled : Sysproxy → Sysproxy
disabled proxy = record proxy { enable = false }

module _ (sys : System) where
  open sys use {
    World, Snapshot, get_system_proxy, set_system_proxy, set_system_proxy_registry,
    prepare_recovery, record_owned_recovery, clear_recovery,
  }

  abbrev fallen_back : Bool → Sysproxy → World × Bool → World × Bool
  fallen_back fallback target (w, true) = (w, true)
  fallen_back true target (w, false) = set_system_proxy_registry target w
  fallen_back false target (w, false) = (w, false)

  unfoldable pub set_system_proxy_once : Sysproxy → Bool → World → World × Bool
  set_system_proxy_once target fallback w = fallen_back fallback target (set_system_proxy target w)

  -- Whether what is read back ends the attempts.
  abbrev pub accepted : Sysproxy → Option Sysproxy → Bool
  accepted target none = true
  accepted target (some actual) = is_sysproxy_match actual target

  abbrev pub retried : Sysproxy → World × Bool → (World → World × Bool) → World × Bool
  retried target (w, false) again = again w
  retried target (w, true) again =
      if accepted target (get_system_proxy w) then (w, true) else again w

  unfoldable pub set_attempts : ℕ → Sysproxy → Bool → World → World × Bool
  unfolding set_system_proxy_once
  set_attempts zero target fallback w = (w, false)
  set_attempts (suc n) target fallback w =
      retried target (set_system_proxy_once target fallback w) (set_attempts n target fallback)

  unfoldable pub set_system_proxy_with_retry : Sysproxy → Bool → World → World × Bool
  unfolding set_attempts
  set_system_proxy_with_retry target fallback w = set_attempts 3 target fallback w

  unfoldable pub clear_windows_proxy_recovery : World → World
  clear_windows_proxy_recovery w = (clear_recovery w).0

  abbrev recorded : Snapshot → Sysproxy → World × Bool → World
  recorded owned target (w, false) = w
  recorded owned target (w, true) = (record_owned_recovery owned target w).0

  unfoldable pub rearm_windows_proxy_recovery :
      Option Snapshot → Snapshot → Option Sysproxy → World → World
  unfolding clear_windows_proxy_recovery
  rearm_windows_proxy_recovery original owned none w = clear_windows_proxy_recovery w
  rearm_windows_proxy_recovery original owned (some target) w =
      if target.enable
      then recorded owned target (prepare_recovery (unwrap_or owned original) target w)
      else clear_windows_proxy_recovery w
