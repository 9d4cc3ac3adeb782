-- ===== src/Proxy/Exit.antt =====
-- What the exit of the program does to the settings of the system proxy, after any calls of
-- src-tauri/src/core/sysopt.
use clash_verge_buty.Prelude.{
  ◌≡◌, refl, sym, ap, Bool, true, false, Option, none, some, List, [], ◌∷◌, if◌then◌else◌, arith,
}
use clash_verge_buty.Proxy.{
  System, Sysproxy, Settings, Attempt, target_proxy, wait_for_local_proxy,
  clear_windows_proxy_recovery,
}
use clash_verge_buty.Proxy.Taking.{State, init_sysproxy, init_recovered, init_captured, differs}
use clash_verge_buty.Proxy.Giving.{
  update_sysproxy, parsed_owned, exited, reset_plainly, reset_world, reset_sysproxy,
}
use clash_verge_buty.Proxy.Guard.{run_guard_cycle, heal_sysproxy}
use clash_verge_buty.Proxy.Sessions.{
  is_some, is_enabled, Inv, update-Inv, guard-Inv, heal-Inv, reset-Inv, was_prepared-Inv,
  either-Inv,
}

pub data Op : Type 0 where
  updates heals : Settings → List Attempt → Op
  guards : Settings → List Attempt → Settings → Op
  resets : Op

module _ (sys : System) where
  open sys use {World, Snapshot, get_system_proxy, capture, prepare_recovery, recover_pending}

  -- What other programs do to the settings between two calls is a function.
  abbrev pub disturb : (World → World) → State sys → State sys
  disturb others s = record s { world = others s.world }

  unfoldable pub step : Op → State sys → State sys
  step (updates c attempts) s = (update_sysproxy sys c attempts s).0
  step (heals c attempts) s = (heal_sysproxy sys c attempts s).0
  step (guards c attempts later) s = (run_guard_cycle sys c attempts later s).0
  step resets s = (reset_sysproxy sys s).0

  unfoldable pub run : List ((World → World) × Op) → State sys → State sys
  run [] s = s
  run ((others, op) ∷ ops) s = run ops (step op (disturb others s))

  abbrev pub fresh : World → State sys
  fresh w = record {
    cur_sysproxy = none;
    old_sysproxy = none;
    old_windows_proxy = none;
    owned_windows_proxy = none;
    world = w;
  }

  fresh-Inv : (w : World) → Inv sys (fresh w)
  fresh-Inv w = record {
    owned = refl;
    original = λ h. absurd (ground arith);
    old = λ h. absurd (ground arith);
  }

  init_captured-Inv :
      (found : Option Snapshot) (target : Sysproxy) (w : World)
      → target.enable ≡ true
      → Inv sys (init_captured sys found target (fresh w)).0
  init_captured-Inv none target w e = fresh-Inv w
  init_captured-Inv (some snapshot) target w e =
      was_prepared-Inv sys (differs sys target (get_system_proxy w))
        (clear_windows_proxy_recovery sys) target snapshot (get_system_proxy w) e
        (prepare_recovery snapshot target w) (fresh w) (fresh-Inv w)

  init_to-Inv :
      (b : Bool) (target : Sysproxy) (attempts : List Attempt) (w : World)
      → target.enable ≡ b
      → Inv sys
          (if b
            then if wait_for_local_proxy attempts
              then init_captured sys (capture w) target (fresh w)
              else (fresh w, false)
            else (record (fresh w) { cur_sysproxy = some target }, true)).0
  init_to-Inv true target attempts w e =
      either-Inv sys (wait_for_local_proxy attempts)
        (init_captured sys (capture w) target (fresh w)) (fresh w, false)
        (init_captured-Inv (capture w) target w e) (fresh-Inv w)
  init_to-Inv false target attempts w e = record {
    owned = sym e;
    original = λ h. absurd (ground arith);
    old = λ h. absurd (ground arith);
  }

  init_recovered-Inv :
      (c : Settings) (attempts : List Attempt) (r : World × Bool) (w : World)
      → Inv sys (init_recovered sys c attempts r (fresh w)).0
  init_recovered-Inv c attempts (v, false) w = fresh-Inv v
  init_recovered-Inv c attempts (v, true) w =
      init_to-Inv (target_proxy c).enable (target_proxy c) attempts v refl

  init-Inv :
      (c : Settings) (attempts : List Attempt) (w : World)
      → Inv sys (init_sysproxy sys c attempts (fresh w)).0
  unfolding init_sysproxy
  init-Inv c attempts w = init_recovered-Inv c attempts (recover_pending w) w

  disturb-Inv : (others : World → World) (s : State sys) → Inv sys s → Inv sys (disturb others s)
  disturb-Inv others s x = record { owned = x.owned; original = x.original; old = x.old }

  run-Inv : (ops : List ((World → World) × Op)) (s : State sys) → Inv sys s → Inv sys (run ops s)
  unfolding run step
  run-Inv [] s x = x
  run-Inv ((others, updates c attempts) ∷ ops) s x =
      run-Inv ops _ (update-Inv sys c attempts (disturb others s) (disturb-Inv others s x))
  run-Inv ((others, heals c attempts) ∷ ops) s x =
      run-Inv ops _ (heal-Inv sys c attempts (disturb others s) (disturb-Inv others s x))
  run-Inv ((others, guards c attempts later) ∷ ops) s x =
      run-Inv ops _ (guard-Inv sys c later attempts (disturb others s) (disturb-Inv others s x))
  run-Inv ((others, resets) ∷ ops) s x = run-Inv ops _ (reset-Inv sys (disturb others s))

  plain_lem :
      (cur old : Option Sysproxy) (w : World)
      → is_enabled cur ≡ false
      → is_some old ≡ false
      → exited sys (reset_plainly sys cur old w) ≡ (clear_windows_proxy_recovery sys w, true)
  plain_lem none none w e o = refl
  plain_lem (some cur) none w e o = rw e refl
  plain_lem cur (some old) w e o = absurd (ground arith)

  foreign_lem :
      (cur old : Option Sysproxy) (original owned : Option Snapshot) (w : World)
      → is_some owned ≡ is_enabled cur
      → (is_some original ≡ true → is_some owned ≡ true)
      → (is_some old ≡ true → is_some original ≡ true)
      → parsed_owned sys cur (get_system_proxy w) ≡ false
      → reset_world sys cur old original owned w ≡ (clear_windows_proxy_recovery sys w, true)
  foreign_lem cur old (some snapshot) owned w p q r f = rw f refl
  foreign_lem cur old none (some snapshot) w p q r f = rw f refl
  foreign_lem cur old none none w p q r f = plain_lem cur old w (sym p) (ground (arith, r))

  -- The state after the start, the calls, and what the others do last.
  abbrev pub left :
      Settings → List Attempt → World → List ((World → World) × Op) → (World → World) → State sys
  left c attempts w ops others = disturb others (run ops (init_sysproxy sys c attempts (fresh w)).0)

  -- Whatever the program did since its start, whatever failed, and whatever other programs did to the
  -- settings meanwhile: if the proxy that is read at the exit is not the one that the program has
  -- set, or cannot be read, the exit writes no setting. It only clears the recovery journal, and
  -- succeeds.
  pub reset-foreign :
      (c : Settings) (attempts : List Attempt) (w : World) (ops : List ((World → World) × Op))
      (others : World → World)
      → parsed_owned sys
          (left c attempts w ops others).cur_sysproxy
          (get_system_proxy (left c attempts w ops others).world)
        ≡ false
      → ((reset_sysproxy sys (left c attempts w ops others)).0.world
          ≡ clear_windows_proxy_recovery sys (left c attempts w ops others).world)
        × ((reset_sysproxy sys (left c attempts w ops others)).1 ≡ true)
  unfolding reset_sysproxy
  reset-foreign c attempts w ops others f =
      let t = run ops (init_sysproxy sys c attempts (fresh w)).0 in
      let x = run-Inv ops (init_sysproxy sys c attempts (fresh w)).0 (init-Inv c attempts w) in
      let e =
        foreign_lem t.cur_sysproxy t.old_sysproxy t.old_windows_proxy t.owned_windows_proxy
          (others t.world) x.owned x.original x.old f in
      (ap (λ r. r.0) e, ap (λ r. r.1) e)
