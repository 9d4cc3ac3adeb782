-- ===== src/Window/Backoff.antt =====
-- The back-off of src-tauri/src/window/state.rs after unexpected destructions of the main window.
use clash_verge_buty.Prelude.{
  ℕ, ◌+◌, ◌≤◌, ◌<◌, ◌≡◌, true, false, some, ◌⊎◌, inr, ◌↔◌, List, [], ◌∷◌, arith,
}
use clash_verge_buty.Window.{
  Window, state_recreate_backoff, state_unexpected_destroyed, state_missing, destroy_window_ms,
  recreate_backoff_ms, should_force_reliable_fallback, on_main_window_destroyed,
  main_window_recreate_allowed, creating_try_lock, showing_try_lock,
}

abbrev pub destroyed : ℕ → Window → Window
destroyed now w = (on_main_window_destroyed now w).0

-- A third unexpected destruction within a minute of the first stops the automatic rebuild: whatever
-- the clock says afterwards, recreation is refused. (The counting starts with the first of them,
-- the clock is set, and the application is not quitting.)
pub three_destroys_back_off :
    (w : Window) (t₁ t₂ t₃ now : ℕ)
    → w.is_app_quitting ≡ false
    → w.destroy_window_start_ms ≡ 0
    → 0 < t₁
    → t₁ ≤ t₂
    → t₂ ≤ t₃
    → t₃ ≤ t₁ + destroy_window_ms
    → let w' = destroyed t₃ (destroyed t₂ (destroyed t₁ w)) in
      (w'.state ≡ state_recreate_backoff) × (main_window_recreate_allowed now w' ≡ false)
unfolding on_main_window_destroyed main_window_recreate_allowed
three_destroys_back_off w t₁ t₂ t₃ now q e h₁ h₂ h₃ h₄ = ground arith

-- After the first unexpected destruction the window may be made again exactly when no creation was
-- attempted within the last three seconds, or none was ever attempted; and then it is made in the
-- reliable fallback mode.
pub one_destroy_waits :
    (w : Window) (t now : ℕ)
    → w.is_app_quitting ≡ false
    → w.destroy_window_start_ms ≡ 0
    → 0 < t
    → let w' = destroyed t w in
      ((main_window_recreate_allowed now w' ≡ true)
        ↔ ((w.last_create_attempt_ms ≡ 0) ⊎ (w.last_create_attempt_ms + recreate_backoff_ms ≤ now)))
      × (should_force_reliable_fallback now w' ≡ true)
unfolding on_main_window_destroyed main_window_recreate_allowed should_force_reliable_fallback
one_destroy_waits w t now q e h = ((λ a. ground arith, λ a. ground arith), ground arith)

-- Every unexpected destruction gives the two locks back: creating and showing the window can be
-- started again, whoever held them. While the application quits, the handler changes the state
-- alone, and schedules the saving of the window's position.
pub destroyed-unlocks :
    (w : Window) (now : ℕ)
    → let w' = destroyed now w in
      (w.is_app_quitting ≡ false
        → ((creating_try_lock w').1 ≡ true)
          × ((showing_try_lock w').1 ≡ true)
          × (w'.show_pending_id ≡ 0))
      × (w.is_app_quitting ≡ true
          → on_main_window_destroyed now w ≡ (record w { state = state_missing }, some 250))
unfolding on_main_window_destroyed creating_try_lock showing_try_lock
destroyed-unlocks w now = (λ q. ground arith, λ q. ground arith)

-- Unexpected destructions, the first at the head.
abbrev pub destroyed_all : List ℕ → Window → Window
destroyed_all [] w = w
destroyed_all (t ∷ ts) w = destroyed_all ts (destroyed t w)

-- Each time lies more than a minute after the one before.
abbrev pub Spaced : ℕ → List ℕ → Type 0
Spaced t [] = Unit
Spaced t (u ∷ us) = (t + destroy_window_ms < u) × Spaced u us

pub rare_destroys :
    (ts : List ℕ) (w : Window) (t : ℕ)
    → w.is_app_quitting ≡ false
    → (w.destroy_window_start_ms ≡ 0) ⊎ (w.destroy_window_start_ms ≡ t)
    → 0 < t
    → Spaced t ts
    → (w.destroy_count ≡ 1)
    → (w.state ≡ state_unexpected_destroyed)
    → ((destroyed_all ts w).destroy_count ≡ 1)
      × ((destroyed_all ts w).state ≡ state_unexpected_destroyed)
rare_destroys [] w t q s h sp c e = (c, e)
rare_destroys (u ∷ us) w t q s h sp c e =
    rare_destroys us (destroyed u w) u (unfold on_main_window_destroyed in ground arith)
      (inr (unfold on_main_window_destroyed in ground arith)) (omega (arith, sp.0)) sp.1
      (unfold on_main_window_destroyed in ground (arith, sp.0))
      (unfold on_main_window_destroyed in ground (arith, sp.0))

-- A window that dies now and then, each time more than a minute after the last, is never given up:
-- after any number of such destructions it counts one, and the back-off state is not entered.
pub rare_destroys_recover :
    (w : Window) (t : ℕ) (ts : List ℕ)
    → w.is_app_quitting ≡ false
    → w.destroy_window_start_ms ≡ 0
    → 0 < t
    → Spaced t ts
    → ((destroyed_all (t ∷ ts) w).destroy_count ≡ 1)
      × ((destroyed_all (t ∷ ts) w).state ≡ state_unexpected_destroyed)
unfolding on_main_window_destroyed
rare_destroys_recover w t ts q e h sp =
    rare_destroys ts (destroyed t w) t (ground arith) (inr (ground arith)) h sp (ground arith)
      (ground arith)
