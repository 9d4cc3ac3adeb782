-- ===== src/Proxy/Sessions.antt =====
-- Sessions of src-tauri/src/core/sysopt: who owns the settings of the system proxy, over any calls.
use clash_verge_buty.Prelude.{
  ℕ, max, ◌≡◌, refl, sym, ◌∙◌, ap, Bool, true, false, not, Option, none, some, List, if◌then◌else◌,
  arith, Bool-cases, inl, inr, Eq,
}
use clash_verge_buty.Proxy.{
  System, Sysproxy, Settings, Attempt, is_sysproxy_match, target_proxy, wait_for_local_proxy,
  set_system_proxy_with_retry, rearm_windows_proxy_recovery, unwrap_or, disabled,
}
use clash_verge_buty.Proxy.Taking.{
  State, owning, now_owned, was_set, was_prepared, enable_sysproxy, enable_captured,
  current_was_owned,
}
use clash_verge_buty.Proxy.Giving.{
  is_owned, disowned, disabled_plainly, disable_own, give_back, disable_found, disable_sysproxy,
  update_sysproxy, reset_sysproxy,
}
use clash_verge_buty.Proxy.Guard.{
  refreshed, refresh, guarded, run_guard_cycle, heal_sysproxy, heal_found, guarded_proxy,
  is_guarded,
}

abbrev pub is_some {ℓ} : {A : Type ℓ} → Option A → Bool
is_some none = false
is_some (some a) = true

abbrev pub is_enabled : Option Sysproxy → Bool
is_enabled none = false
is_enabled (some proxy) = proxy.enable

module _ (sys : System) where
  open sys use {
    World, Snapshot, capture, restore, prepare_recovery, record_owned_recovery, recover_pending,
    get_system_proxy,
  }

  pub record Inv (s : State sys) : Type 0 where
    pub owned : is_some s.owned_windows_proxy ≡ is_enabled s.cur_sysproxy
    pub original : is_some s.old_windows_proxy ≡ true → is_some s.owned_windows_proxy ≡ true
    pub old : is_some s.old_sysproxy ≡ true → is_some s.old_windows_proxy ≡ true

  elsewhere : (s : State sys) (w : World) → Inv s → Inv (record s { world = w })
  elsewhere s w x = record { owned = x.owned; original = x.original; old = x.old }

  owning-Inv :
      (save : Bool) (target : Sysproxy) (snapshot owned : Snapshot) (before : Option Sysproxy)
      (w : World) (s : State sys)
      → target.enable ≡ true
      → Inv s
      → Inv (owning sys save target snapshot before owned w s)
  owning-Inv true target snapshot owned before w s e x = record {
    owned = sym e;
    original = λ h. refl;
    old = λ h. refl;
  }
  owning-Inv false target snapshot owned before w s e x = record {
    owned = sym e;
    original = λ h. refl;
    old = x.old;
  }

  module _ (save : Bool) (journal : World → World) (target : Sysproxy) (snapshot : Snapshot)
      (before : Option Sysproxy) (e : target.enable ≡ true) where
    now_owned-Inv :
        (found : Option Snapshot) (w : World) (s : State sys)
        → Inv s
        → Inv (now_owned sys save journal target snapshot before found w s).0
    now_owned-Inv none w s x = elsewhere s (journal (restore snapshot w).0) x
    now_owned-Inv (some owned) w s x =
        owning-Inv save target snapshot owned before (record_owned_recovery owned target w).0 s e x

    was_set-Inv :
        (r : World × Bool) (s : State sys)
        → Inv s
        → Inv (was_set sys save journal target snapshot before r s).0
    was_set-Inv (w, false) s x = elsewhere s (journal (restore snapshot w).0) x
    was_set-Inv (w, true) s x = now_owned-Inv (capture w) w s x

    pub was_prepared-Inv :
        (r : World × Bool) (s : State sys)
        → Inv s
        → Inv (was_prepared sys save journal target snapshot before r s).0
    was_prepared-Inv (w, false) s x = elsewhere s w x
    was_prepared-Inv (w, true) s x = was_set-Inv (set_system_proxy_with_retry sys target true w) s x

  enable-Inv :
      (found : Option Snapshot) (target : Sysproxy) (s : State sys)
      → target.enable ≡ true
      → Inv s
      → Inv (enable_captured sys found target s).0
  enable-Inv none target s e x = x
  enable-Inv (some snapshot) target s e x =
      let before = get_system_proxy s.world in
      let save = not (current_was_owned sys s.cur_sysproxy before) in
      was_prepared-Inv save
        (rearm_windows_proxy_recovery sys s.old_windows_proxy snapshot s.cur_sysproxy) target
        snapshot before e
        (prepare_recovery (if save then snapshot else unwrap_or snapshot s.old_windows_proxy) target
          s.world)
        s x

  disowned-Inv :
      (target : Sysproxy) (r : World × Bool) (s : State sys)
      → target.enable ≡ false
      → Inv s
      → Inv (disowned sys target r s).0
  disowned-Inv target (w, false) s e x = elsewhere s w x
  disowned-Inv target (w, true) s e x = record {
    owned = sym e;
    original = λ h. absurd (ground arith);
    old = λ h. absurd (ground arith);
  }

  pub either-Inv :
      {X : Type 0} (b : Bool) (r t : State sys × X) → Inv r.0 → Inv t.0 → Inv (if b then r else t).0
  either-Inv true r t x y = x
  either-Inv false r t x y = y

  disable_own-Inv :
      (target before : Sysproxy) (owned : Snapshot) (found : Option Snapshot) (s : State sys)
      → target.enable ≡ false
      → Inv s
      → Inv (disable_own sys target before owned found s).0
  disable_own-Inv target before owned none s e x = x
  disable_own-Inv target before owned (some current) s e x =
      let r = set_system_proxy_with_retry sys (disabled before) false s.world in
      either-Inv (Eq.eqb sys.eq_snapshot current owned) (disowned sys target r s)
        (disowned sys target (s.world, true) s) (disowned-Inv target r s e x)
        (disowned-Inv target (s.world, true) s e x)

  plain-Inv :
      (target : Sysproxy) (r : World × Bool) (s : State sys)
      → target.enable ≡ false
      → s.old_windows_proxy ≡ none
      → Inv s
      → Inv (disabled_plainly sys target r s).0
  plain-Inv target (w, false) s e p x = elsewhere s w x
  plain-Inv target (w, true) s e p x = record {
    owned = sym e;
    original = λ h. absurd (ground arith);
    old = x.old;
  }

  give_back-Inv :
      (target before : Sysproxy) (original owned : Option Snapshot) (s : State sys)
      → target.enable ≡ false
      → s.old_windows_proxy ≡ original
      → Inv s
      → Inv (give_back sys target before original owned s).0
  give_back-Inv target before (some original) (some owned) s e p x =
      disowned-Inv target (sys.restore_if_unchanged original owned s.world) s e x
  give_back-Inv target before (some original) none s e p x =
      disowned-Inv target (set_system_proxy_with_retry sys (disabled before) false s.world) s e x
  give_back-Inv target before none (some owned) s e p x =
      disable_own-Inv target before owned (capture s.world) s e x
  give_back-Inv target before none none s e p x =
      plain-Inv target
        (set_system_proxy_with_retry sys (unwrap_or (disabled before) s.old_sysproxy) false s.world)
        s e p x

  disable-Inv :
      (target : Sysproxy) (found : Option Sysproxy) (s : State sys)
      → target.enable ≡ false
      → Inv s
      → Inv (disable_found sys target found s).0
  disable-Inv target none s e x = x
  disable-Inv target (some before) s e x = elim (Bool-cases (is_owned sys s.cur_sysproxy before)) [
    | inl y ↦
        rw y (give_back-Inv target before s.old_windows_proxy s.owned_windows_proxy s e refl x)
    | inr n ↦ rw n (disowned-Inv target (s.world, true) s e x)
  ]

  update_to-Inv :
      (b : Bool) (target : Sysproxy) (attempts : List Attempt) (s : State sys)
      → target.enable ≡ b
      → Inv s
      → Inv (if b then enable_sysproxy sys target attempts s else disable_sysproxy sys target s).0
  unfolding disable_sysproxy enable_sysproxy
  update_to-Inv true target attempts s e x =
      let r = enable_captured sys (capture s.world) target s in
      either-Inv (wait_for_local_proxy attempts) r (s, false)
        (enable-Inv (capture s.world) target s e x) x
  update_to-Inv false target attempts s e x = disable-Inv target (get_system_proxy s.world) s e x

  pub update-Inv :
      (c : Settings) (attempts : List Attempt) (s : State sys)
      → Inv s
      → Inv (update_sysproxy sys c attempts s).0
  unfolding update_sysproxy
  update-Inv c attempts s x =
      update_to-Inv (target_proxy c).enable (target_proxy c) attempts s refl x

  pub reset-Inv : (s : State sys) → Inv (reset_sysproxy sys s).0
  unfolding reset_sysproxy
  reset-Inv s = record {
    owned = refl;
    original = λ h. absurd (ground arith);
    old = λ h. absurd (ground arith);
  }

  refreshed-Inv :
      (proxy : Sysproxy) (found : Option Snapshot) (s : State sys)
      → is_some s.owned_windows_proxy ≡ true
      → Inv s
      → Inv (refreshed sys proxy found s)
  refreshed-Inv proxy none s e x = x
  refreshed-Inv proxy (some snapshot) s e x = record {
    owned = sym e ∙ x.owned;
    original = λ h. refl;
    old = x.old;
  }

  refresh-Inv :
      (proxy : Sysproxy) (owned : Option Snapshot) (s : State sys)
      → s.owned_windows_proxy ≡ owned
      → Inv s
      → Inv (refresh sys proxy owned s)
  refresh-Inv proxy none s e x = x
  refresh-Inv proxy (some snapshot) s e x =
      refreshed-Inv proxy (sys.refresh_app_owned_values snapshot s.world) s (ap is_some e) x

  guarded-Inv :
      (proxy : Sysproxy) (r : World × Bool) (s : State sys) → Inv s → Inv (guarded sys proxy r s)
  guarded-Inv proxy (w, false) s x = elsewhere s w x
  guarded-Inv proxy (w, true) s x =
      refresh-Inv proxy s.owned_windows_proxy (record s { world = w }) refl (elsewhere s w x)

  pub guard-Inv :
      (c later : Settings) (attempts : List Attempt) (s : State sys)
      → Inv s
      → Inv (run_guard_cycle sys c attempts later s).0
  unfolding run_guard_cycle
  guard-Inv c later attempts s x =
      let r = set_system_proxy_with_retry sys (guarded_proxy c) true s.world in
      let next = some (max (unwrap_or 10 c.proxy_guard_duration) 1) in
      let checked : State sys × Option ℕ =
        if is_guarded later then (guarded sys (guarded_proxy c) r s, next) else (s, none) in
      let waited : State sys × Option ℕ =
        if wait_for_local_proxy attempts then checked else (s, next) in
      either-Inv (is_guarded c) waited (s, none)
        (either-Inv (wait_for_local_proxy attempts) checked (s, next)
          (either-Inv (is_guarded later) (guarded sys (guarded_proxy c) r s, next) (s, none)
            (guarded-Inv (guarded_proxy c) r s x) x)
          x)
        x

  heal_found-Inv :
      (c : Settings) (attempts : List Attempt) (found : Option Sysproxy) (s : State sys)
      → Inv s
      → Inv (heal_found sys c attempts found s).0
  heal_found-Inv c attempts none s x = x
  heal_found-Inv c attempts (some actual) s x =
      either-Inv (is_sysproxy_match actual (target_proxy c)) (s, false)
        (update_sysproxy sys c attempts s) x (update-Inv c attempts s x)

  pub heal-Inv :
      (c : Settings) (attempts : List Attempt) (s : State sys)
      → Inv s
      → Inv (heal_sysproxy sys c attempts s).0
  unfolding heal_sysproxy
  heal-Inv c attempts s x =
      either-Inv (unwrap_or false c.enable_system_proxy)
        (heal_found sys c attempts (get_system_proxy s.world) s) (s, false)
        (heal_found-Inv c attempts (get_system_proxy s.world) s x) x
