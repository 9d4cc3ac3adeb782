-- ===== src/Logging/Tests.antt =====
-- Instances of the theorems about src-tauri/src/logging/buffer.rs, and tests.
use clash_verge_buty.Prelude.{◌+◌, ◌-◌, ◌≤◌, ◌≡◌, refl, List, [], ◌∷◌, String, length, drop, arith}
use clash_verge_buty.Logging.{set_log, log_all}
use clash_verge_buty.Logging.Bounds.{log_all-last_lines}

abbrev two_lines : List String
two_lines = "start" ∷ "ready" ∷ []

log_all-last_lines_example :
    (log_all two_lines ("warn" ∷ []) ≡ drop (2 + 1 - 100) ("start" ∷ "ready" ∷ "warn" ∷ []))
    × (length (log_all two_lines ("warn" ∷ [])) ≤ 100)
log_all-last_lines_example = log_all-last_lines two_lines ("warn" ∷ []) (omega arith)

set_log_appends : set_log "warn" two_lines ≡ "start" ∷ "ready" ∷ "warn" ∷ []
unfolding set_log
set_log_appends = refl
