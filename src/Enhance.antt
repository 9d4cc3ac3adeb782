-- ===== src/Enhance.antt =====
-- src-tauri/src/enhance: the pipeline that makes the configuration of the core.
pub mod Yaml
pub mod Tun
pub mod Field
pub mod Merge
pub mod Merging
pub mod Chain
pub mod Pipeline
pub mod Sorting
pub mod Sections
pub mod Toggle
pub mod Tests
