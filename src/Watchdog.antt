-- ===== src/Watchdog.antt =====
-- src-tauri/watchdog/src/main.rs: the loop of `run` that supervises the GUI process. A child run is
-- an event: the time at which it ended and how. Times are nanoseconds of a monotonic clock.
pub mod Restarts
pub mod Failures
mod Tests
use clash_verge_buty.Prelude.Int.{ℤ, pos, eq_int}
use clash_verge_buty.Prelude.{
  ℕ, ◌+◌, ◌-◌, ◌*◌, Bool, true, false, Option, none, some, List, [], ◌∷◌, ◌++◌, ltb, leb, ◌==◌,
  eq_nat, if◌then◌else◌, length, retain,
}
use Prim.Native.Nat.{◌/◌}

abbrev pub max_retries : ℕ
max_retries = 3

abbrev pub retry_delay_secs : ℕ
retry_delay_secs = 10

abbrev pub restart_delay_secs : ℕ
restart_delay_secs = 2

abbrev pub restart_window_secs : ℕ
restart_window_secs = 60

abbrev pub restart_limit_per_window : ℕ
restart_limit_per_window = 5

abbrev pub restart_exit_code : ℤ
restart_exit_code = pos 42

-- `io::Result<i32>` of `process::run_child`.
pub data Outcome : Type 0 where
  exited : ℤ → Outcome
  not_run : Outcome

pub record Supervisor : Type 0 where
  pub retries : ℕ
  pub restart_times : List ℕ

abbrev pub start : Supervisor
start = record { retries = 0; restart_times = [] }

-- How one round of the loop ends: the watchdog exits, or sleeps and launches the GUI again.
pub data Verdict : Type 0 where
  stop : ℤ → Verdict
  launch : ℕ → Supervisor → Verdict

abbrev pub nanos_per_sec : ℕ
nanos_per_sec = 1000000000

-- `now.duration_since(*t).as_secs() < RESTART_WINDOW_SECS`
abbrev pub is_recent : ℕ → ℕ → Bool
is_recent now t = ltb ((now - t) / nanos_per_sec) restart_window_secs

unfoldable pub on_restart_request : ℕ → Supervisor → Verdict
on_restart_request now s =
    let recent = retain (is_recent now) s.restart_times in
    if leb restart_limit_per_window (length recent)
    then stop restart_exit_code
    else launch restart_delay_secs (record { retries = 0; restart_times = recent ++ now ∷ [] })

unfoldable pub on_failure : ℤ → Supervisor → Verdict
on_failure exit_code s =
    if s.retries == max_retries
    then stop exit_code
    else launch retry_delay_secs (record s { retries = s.retries + 1 })

unfoldable pub on_exit : ℕ → Outcome → Supervisor → Verdict
unfolding on_restart_request on_failure
on_exit now (exited c) s =
    if c == pos 0
    then stop (pos 0)
    else if c == restart_exit_code
    then on_restart_request now s
    else on_failure c s
on_exit now not_run s = on_failure (pos 1) s

-- The loop over the child runs: the exit code of the watchdog, or `none` while it still supervises.
unfoldable pub supervise : Supervisor → List (ℕ × Outcome) → Option ℤ
supervise s [] = none
supervise s ((now, o) ∷ rest) = elim (on_exit now o s) [
  | stop c ↦ some c
  | launch delay s' ↦ supervise s' rest
]
