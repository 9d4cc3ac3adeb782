-- ===== src/Proxy/Failing.antt =====
-- `update_sysproxy` of src-tauri/src/core/sysopt/proxy.rs where it fails, and the writes that are
-- checked by reading back.
use clash_verge_buty.Prelude.{
  ℕ, zero, suc, ◌≡◌, refl, Bool, true, false, not, Option, none, some, List, if◌then◌else◌, arith,
  Bool-cases, inl, inr, Eq,
}
use clash_verge_buty.Proxy.{
  System, Sysproxy, Settings, Attempt, target_proxy, wait_for_local_proxy,
  set_system_proxy_with_retry, set_system_proxy_once, set_attempts, retried, accepted,
  rearm_windows_proxy_recovery, unwrap_or, disabled,
}
use clash_verge_buty.Proxy.Taking.{
  State, now_owned, was_set, was_prepared, enable_sysproxy, enable_captured, current_was_owned,
}
use clash_verge_buty.Proxy.Giving.{
  is_owned, disowned, disabled_plainly, disable_own, give_back, disable_found, disable_sysproxy,
  update_sysproxy,
}

module _ (sys : System) where
  open sys use {World, Snapshot, get_system_proxy, capture, prepare_recovery}

  abbrev Keeps : State sys → State sys × Bool → Type 0
  Keeps s r = r.1 ≡ false → r.0 ≡ record s { world = r.0.world }

  either-Keeps :
      (b : Bool) (s : State sys) (r t : State sys × Bool)
      → Keeps s r
      → Keeps s t
      → Keeps s (if b then r else t)
  either-Keeps true s r t x y = x
  either-Keeps false s r t x y = y

  module _ (save : Bool) (journal : World → World) (target : Sysproxy) (snapshot : Snapshot)
      (before : Option Sysproxy) where
    owned-Keeps :
        (found : Option Snapshot) (w : World) (s : State sys)
        → Keeps s (now_owned sys save journal target snapshot before found w s)
    owned-Keeps none w s h = refl
    owned-Keeps (some owned) w s h = absurd (ground arith)

    set-Keeps :
        (r : World × Bool) (s : State sys)
        → Keeps s (was_set sys save journal target snapshot before r s)
    set-Keeps (w, false) s h = refl
    set-Keeps (w, true) s h = owned-Keeps (capture w) w s h

    prepared-Keeps :
        (r : World × Bool) (s : State sys)
        → Keeps s (was_prepared sys save journal target snapshot before r s)
    prepared-Keeps (w, false) s h = refl
    prepared-Keeps (w, true) s h = set-Keeps (set_system_proxy_with_retry sys target true w) s h

  enable-Keeps :
      (found : Option Snapshot) (target : Sysproxy) (s : State sys)
      → Keeps s (enable_captured sys found target s)
  enable-Keeps none target s h = refl
  enable-Keeps (some snapshot) target s h =
      let before = get_system_proxy s.world in
      let save = not (current_was_owned sys s.cur_sysproxy before) in
      prepared-Keeps save
        (rearm_windows_proxy_recovery sys s.old_windows_proxy snapshot s.cur_sysproxy) target
        snapshot before
        (prepare_recovery (if save then snapshot else unwrap_or snapshot s.old_windows_proxy) target
          s.world)
        s h

  disowned-Keeps :
      (target : Sysproxy) (r : World × Bool) (s : State sys) → Keeps s (disowned sys target r s)
  disowned-Keeps target (w, false) s h = refl
  disowned-Keeps target (w, true) s h = absurd (ground arith)

  plain-Keeps :
      (target : Sysproxy) (r : World × Bool) (s : State sys)
      → Keeps s (disabled_plainly sys target r s)
  plain-Keeps target (w, false) s h = refl
  plain-Keeps target (w, true) s h = absurd (ground arith)

  own-Keeps :
      (target before : Sysproxy) (owned : Snapshot) (found : Option Snapshot) (s : State sys)
      → Keeps s (disable_own sys target before owned found s)
  own-Keeps target before owned none s = λ h. refl
  own-Keeps target before owned (some current) s =
      let r = set_system_proxy_with_retry sys (disabled before) false s.world in
      either-Keeps (Eq.eqb sys.eq_snapshot current owned) s (disowned sys target r s)
        (disowned sys target (s.world, true) s) (disowned-Keeps target r s)
        (disowned-Keeps target (s.world, true) s)

  give_back-Keeps :
      (target before : Sysproxy) (original owned : Option Snapshot) (s : State sys)
      → Keeps s (give_back sys target before original owned s)
  give_back-Keeps target before (some original) (some owned) s =
      disowned-Keeps target (sys.restore_if_unchanged original owned s.world) s
  give_back-Keeps target before (some original) none s =
      disowned-Keeps target (set_system_proxy_with_retry sys (disabled before) false s.world) s
  give_back-Keeps target before none (some owned) s =
      own-Keeps target before owned (capture s.world) s
  give_back-Keeps target before none none s =
      plain-Keeps target
        (set_system_proxy_with_retry sys (unwrap_or (disabled before) s.old_sysproxy) false s.world)
        s

  disable-Keeps :
      (target : Sysproxy) (found : Option Sysproxy) (s : State sys)
      → Keeps s (disable_found sys target found s)
  disable-Keeps target none s = λ h. refl
  disable-Keeps target (some before) s =
      either-Keeps (is_owned sys s.cur_sysproxy before) s
        (give_back sys target before s.old_windows_proxy s.owned_windows_proxy s)
        (disowned sys target (s.world, true) s)
        (give_back-Keeps target before s.old_windows_proxy s.owned_windows_proxy s)
        (disowned-Keeps target (s.world, true) s)

  -- An update that fails, at whichever call, leaves all that the program remembers of the settings and
  -- of their owner as it was, so that it can be tried again.
  pub update-keeps :
      (c : Settings) (attempts : List Attempt) (s : State sys)
      → (update_sysproxy sys c attempts s).1 ≡ false
      → (update_sysproxy sys c attempts s).0
        ≡ record s { world = (update_sysproxy sys c attempts s).0.world }
  unfolding update_sysproxy enable_sysproxy disable_sysproxy
  update-keeps c attempts s =
      let target = target_proxy c in
      let r = enable_captured sys (capture s.world) target s in
      let waited : State sys × Bool = if wait_for_local_proxy attempts then r else (s, false) in
      either-Keeps target.enable s waited (disable_found sys target (get_system_proxy s.world) s)
        (either-Keeps (wait_for_local_proxy attempts) s r (s, false)
          (enable-Keeps (capture s.world) target s) (λ h. refl))
        (disable-Keeps target (get_system_proxy s.world) s)

  retried-accepted :
      (target : Sysproxy) (r : World × Bool) (again : World → World × Bool)
      → ((w : World)
          → (again w).1 ≡ true
          → accepted sys target (get_system_proxy (again w).0) ≡ true)
      → (retried sys target r again).1 ≡ true
      → accepted sys target (get_system_proxy (retried sys target r again).0) ≡ true
  retried-accepted target (w, false) again k = k w
  retried-accepted target (w, true) again k =
      elim (Bool-cases (accepted sys target (get_system_proxy w))) [
        | inl y ↦ rw y (λ h. y)
        | inr n ↦ rw n (k w)
      ]

  attempts-accepted :
      (n : ℕ) (target : Sysproxy) (fallback : Bool) (w : World)
      → (set_attempts sys n target fallback w).1 ≡ true
      → accepted sys target (get_system_proxy (set_attempts sys n target fallback w).0) ≡ true
  unfolding set_attempts
  attempts-accepted zero target fallback w = λ h. absurd (ground arith)
  attempts-accepted (suc n) target fallback w =
      retried-accepted target (set_system_proxy_once sys target fallback w)
        (set_attempts sys n target fallback) (attempts-accepted n target fallback)

  -- A write of the proxy that succeeds has been read back as the wanted one, or could not be read.
  pub retry-accepted :
      (target : Sysproxy) (fallback : Bool) (w : World)
      → (set_system_proxy_with_retry sys target fallback w).1 ≡ true
      → accepted sys target (get_system_proxy (set_system_proxy_with_retry sys target fallback w).0)
        ≡ true
  unfolding set_system_proxy_with_retry
  retry-accepted target fallback w h = attempts-accepted 3 target fallback w h
