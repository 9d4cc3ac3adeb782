-- ===== src/Window.antt =====
-- src-tauri/src/window/state.rs: the lifecycle of the main window. The atomics are the fields of a
-- record, and `current_time_millis` is an argument.
pub mod Backoff
mod Tests
use clash_verge_buty.Prelude.{
  ℕ, ◌+◌, ◌-◌, ◌%◌, ◌^◌, ◌≤◌, ◌<◌, min, Bool, true, false, ◌&&◌, ◌||◌, not, Option, none, some, ltb,
  leb, ◌==◌, eq_nat, if◌then◌else◌, String,
}

abbrev pub state_missing : ℕ
state_missing = 0

abbrev pub state_creating : ℕ
state_creating = 1

abbrev pub state_alive : ℕ
state_alive = 2

abbrev pub state_unexpected_destroyed : ℕ
state_unexpected_destroyed = 3

abbrev pub state_recreate_backoff : ℕ
state_recreate_backoff = 4

abbrev pub recreate_backoff_ms : ℕ
recreate_backoff_ms = 3000

abbrev pub destroy_window_ms : ℕ
destroy_window_ms = 60000

abbrev pub max_recreate_destroys : ℕ
max_recreate_destroys = 3

abbrev pub u64_size : ℕ
u64_size = 18446744073709551616

pub record Window : Type 0 where
  pub creating : Bool
  pub ready_handled : Bool
  pub showing : Bool
  pub show_pending_id : ℕ
  pub is_app_quitting : Bool
  pub state : ℕ
  pub destroy_count : ℕ
  pub destroy_window_start_ms : ℕ
  pub last_destroy_ms : ℕ
  pub last_create_attempt_ms : ℕ
  pub hide_until_ms : ℕ

pub data WindowBuildMode : Type 0 where
  normal_configured forced_reliable_fallback : WindowBuildMode

-- `configured` is what `configured_reliable_mode` reads from the configuration.
unfoldable pub effective_reliable_mode : Bool → WindowBuildMode → Bool
effective_reliable_mode configured forced_reliable_fallback = true
effective_reliable_mode configured normal_configured = configured

unfoldable pub unexpected_destroy_count_in_window : ℕ → Window → ℕ
unexpected_destroy_count_in_window now w =
    if ltb 0 w.destroy_window_start_ms && leb (now - w.destroy_window_start_ms) destroy_window_ms
    then w.destroy_count
    else 0

unfoldable pub should_force_reliable_fallback : ℕ → Window → Bool
unfolding unexpected_destroy_count_in_window
should_force_reliable_fallback now w =
    w.state == state_unexpected_destroyed || leb 1 (unexpected_destroy_count_in_window now w)

-- The counting of one unexpected destruction.
count_destroy : ℕ → Window → Window
count_destroy now w =
    if w.destroy_window_start_ms == 0 || ltb destroy_window_ms (now - w.destroy_window_start_ms)
    then record w { destroy_window_start_ms = now; destroy_count = 1 }
    else record w { destroy_count = (w.destroy_count + 1) % u64_size }

reset_after_destroy : ℕ → Window → Window
reset_after_destroy now w = record w {
  last_destroy_ms = now;
  state =
      if leb max_recreate_destroys w.destroy_count
      then state_recreate_backoff
      else state_unexpected_destroyed;
  creating = false;
  showing = false;
  show_pending_id = 0;
  ready_handled = false;
}

-- The second component is the delay of the state save that the handler schedules.
unfoldable pub on_main_window_destroyed : ℕ → Window → Window × Option ℕ
unfolding count_destroy reset_after_destroy
on_main_window_destroyed now w =
    if w.is_app_quitting
    then (record w { state = state_missing }, some 250)
    else (reset_after_destroy now (count_destroy now w), none)

unfoldable pub main_window_recreate_allowed : ℕ → Window → Bool
unfolding unexpected_destroy_count_in_window
main_window_recreate_allowed now w =
    if w.creating
    then false
    else if w.state == state_recreate_backoff
        || leb max_recreate_destroys (unexpected_destroy_count_in_window now w)
    then false
    else if ltb 0 w.last_destroy_ms
        && (ltb 0 w.last_create_attempt_ms
            && ltb (now - w.last_create_attempt_ms) recreate_backoff_ms)
    then false
    else true

-- `saturating_add` of the two `u64`; `as u64` wraps the duration's milliseconds.
unfoldable pub mark_window_hiding_for : ℕ → ℕ → Window → Window
mark_window_hiding_for now millis w = record w {
  hide_until_ms = min (now + millis % u64_size) (u64_size - 1);
}

unfoldable pub is_window_hiding_in_progress : ℕ → Window → Bool
is_window_hiding_in_progress now w = ltb 0 w.hide_until_ms && ltb now w.hide_until_ms

unfoldable pub set_app_quitting : Bool → Window → Window
set_app_quitting value w = record w { is_app_quitting = value }

-- `MainWindowCreatingGuard::try_lock`, and the guard's `drop`.
unfoldable pub creating_try_lock : Window → Window × Bool
creating_try_lock w =
    if w.creating then (w, false) else (record w { creating = true; state = state_creating }, true)

unfoldable pub creating_drop : Window → Window
creating_drop w = record w { creating = false }

-- `MainWindowShowingGuard::try_lock`, and the guard's `drop`.
unfoldable pub showing_try_lock : Window → Window × Bool
showing_try_lock w = if w.showing then (w, false) else (record w { showing = true }, true)

unfoldable pub showing_drop : Window → Window
showing_drop w = record w { showing = false }
