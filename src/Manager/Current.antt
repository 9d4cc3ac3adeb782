-- ===== src/Manager/Current.antt =====
-- Runs of src-tauri/src/core/manager/process.rs: a core that counts as ready is the one started last.
use clash_verge_buty.Prelude.{eq_nat}
