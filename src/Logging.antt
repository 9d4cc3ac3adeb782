-- ===== src/Logging.antt =====
-- src-tauri/src/logging/buffer.rs: the ring of the core's last log lines.
pub mod Bounds
mod Tests
use clash_verge_buty.Prelude.{ℕ, String, List, [], ◌∷◌, ◌++◌, leb, length, if◌then◌else◌}

abbrev pub logs_queue_len : ℕ
logs_queue_len = 100

abbrev pop_front : List String → List String
pop_front [] = []
pop_front (x ∷ xs) = xs

pub set_log : String → List String → List String
set_log text logs = (if leb logs_queue_len (length logs) then pop_front logs else logs) ++ text ∷ []

pub clear_log : List String → List String
clear_log logs = []

-- A sequence of `set_log` calls.
pub log_all : List String → List String → List String
log_all logs [] = logs
log_all logs (t ∷ ts) = log_all (set_log t logs) ts
