-- ===== src/Watchdog/Tests.antt =====
-- Instances of the theorems about src-tauri/watchdog/src/main.rs, and tests.
use clash_verge_buty.Prelude.Int.{pos, negsuc}
use clash_verge_buty.Prelude.{ℕ, ◌*◌, ◌≤◌, ◌≡◌, refl, List, [], ◌∷◌, arith, some, length, retain}
use clash_verge_buty.Watchdog.{
  Outcome, launch, exited, not_run, start, on_exit, supervise, is_recent,
}
use clash_verge_buty.Watchdog.Restarts.{granted, granted-rate}
use clash_verge_buty.Watchdog.Failures.{failures-supervise}

-- One second, in nanoseconds.
abbrev sec : ℕ
sec = 1000000000

abbrev crashes : List (ℕ × Outcome)
crashes =
    (sec, exited (negsuc 0))
    ∷ (2 * sec, not_run)
    ∷ (3 * sec, exited (pos 7))
    ∷ (4 * sec, exited (pos 9))
    ∷ []

abbrev requests : List (ℕ × Outcome)
requests = (sec, exited (pos 42)) ∷ (4 * sec, exited (pos 42)) ∷ []

failures-supervise_example : supervise start crashes ≡ some (pos 9)
failures-supervise_example = failures-supervise start crashes (omega arith) refl

granted-rate_example : length (retain (is_recent (5 * sec)) (granted start requests)) ≤ 5
granted-rate_example = granted-rate requests (5 * sec) (omega arith)

-- A restart that the GUI asks for is delayed by two seconds.
restart_delayed :
    on_exit sec (exited (pos 42)) start
    ≡ launch 2 (record { retries = 0; restart_times = sec ∷ [] })
unfolding on_exit
restart_delayed = refl

-- The sixth request within a minute ends the supervision.
restart_loop :
    supervise start (
      (1, exited (pos 42))
      ∷ (2, exited (pos 42))
      ∷ (3, exited (pos 42))
      ∷ (4, exited (pos 42))
      ∷ (5, exited (pos 42))
      ∷ (6, exited (pos 42))
      ∷ [])
    ≡ some (pos 42)
unfolding supervise on_exit
restart_loop = refl
