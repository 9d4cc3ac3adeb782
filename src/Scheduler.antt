-- ===== src/Scheduler.antt =====
-- src-tauri/src/core/scheduler: the one-shot tasks, the periodic tasks, and the update timer.
pub mod OneShot
pub mod Periodic
