-- ===== src/Config.antt =====
-- src-tauri/src/config: the four configurations of the program and their drafts.
pub mod Draft
pub mod Profiles
mod Tests
