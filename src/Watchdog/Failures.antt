-- ===== src/Watchdog/Failures.antt =====
-- The limit on failures in a row, in src-tauri/watchdog/src/main.rs.
use clash_verge_buty.Prelude.Int.{ℤ, pos, eq_int}
use clash_verge_buty.Prelude.{
  ℕ, suc, ◌+◌, ◌-◌, ◌≡◌, refl, Bool, true, ◌&&◌, List, [], ◌∷◌, arith, ◌!=◌, get_elem?, all, map,
  ◌≢◌, ◌≤◌, eq_nat,
}
use clash_verge_buty.Watchdog.{
  Supervisor, Outcome, exited, not_run, on_failure, on_exit, supervise, max_retries,
  restart_exit_code,
}

-- Any end of the GUI but a normal exit and a request to restart.
abbrev pub fails : Outcome → Bool
fails (exited c) = c != pos 0 && c != restart_exit_code
fails not_run = true

-- What the watchdog reports of a failed run.
abbrev pub failure_code : Outcome → ℤ
failure_code (exited c) = c
failure_code not_run = pos 1

on_exit_of_failure :
    (now : ℕ) (o : Outcome) (s : Supervisor)
    → fails o ≡ true
    → on_exit now o s ≡ on_failure (failure_code o) s
unfolding on_exit
on_exit_of_failure now (exited c) s h = ground arith
on_exit_of_failure now not_run s h = refl

index : (r : ℕ) → r ≤ max_retries → r ≢ max_retries → max_retries - r ≡ suc (max_retries - (r + 1))
index r h k = omega arith

abbrev pub all_fail : List (ℕ × Outcome) → Bool
all_fail = all (λ e. fails e.1)

abbrev pub codes : List (ℕ × Outcome) → List ℤ
codes = map (λ e. failure_code e.1)

-- While every run fails, the watchdog starts the GUI again as often as retries are left, and then
-- exits with the code of the failure that came when none was left: of `fs` failures in a row it
-- answers the one at index `max_retries - retries`, and goes on supervising if there are no more
-- than that many.
pub failures-supervise :
    (s : Supervisor) (fs : List (ℕ × Outcome))
    → s.retries ≤ max_retries
    → all_fail fs ≡ true
    → supervise s fs ≡ get_elem? (codes fs) (max_retries - s.retries)
unfolding supervise on_failure
failures-supervise s [] v h = refl
failures-supervise s ((now, o) ∷ fs) v h = ground (
  arith,
  on_exit_of_failure now o s,
  failures-supervise (record s { retries = s.retries + 1 }) fs,
  index s.retries,
)
