-- ===== src/Window/Tests.antt =====
-- Instances of the theorems about src-tauri/src/window/state.rs, and tests.
use clash_verge_buty.Prelude.{◌≡◌, refl, true, false, [], ◌∷◌, arith}
use clash_verge_buty.Window.{
  Window, main_window_recreate_allowed, mark_window_hiding_for, is_window_hiding_in_progress,
}
use clash_verge_buty.Window.Backoff.{
  destroyed, destroyed_all, three_destroys_back_off, rare_destroys_recover,
}

abbrev alive : Window
alive = record {
  creating = true;
  ready_handled = true;
  showing = true;
  show_pending_id = 4;
  is_app_quitting = false;
  state = 2;
  destroy_count = 0;
  destroy_window_start_ms = 0;
  last_destroy_ms = 0;
  last_create_attempt_ms = 900;
  hide_until_ms = 0;
}

three_destroys_back_off_example :
    let w' = destroyed 9000 (destroyed 5000 (destroyed 1000 alive)) in
    (w'.state ≡ 4) × (main_window_recreate_allowed 99000 w' ≡ false)
three_destroys_back_off_example =
    three_destroys_back_off alive 1000 5000 9000 99000 refl refl (omega arith) (omega arith)
      (omega arith) (omega arith)

rare_destroys_recover_example :
    ((destroyed_all (1000 ∷ 70000 ∷ []) alive).destroy_count ≡ 1)
    × ((destroyed_all (1000 ∷ 70000 ∷ []) alive).state ≡ 3)
rare_destroys_recover_example =
    rare_destroys_recover alive 1000 (70000 ∷ []) refl refl (omega arith) (omega arith)

hiding_ends : is_window_hiding_in_progress 1300 (mark_window_hiding_for 1000 300 alive) ≡ false
unfolding is_window_hiding_in_progress mark_window_hiding_for
hiding_ends = refl
