-- ===== src/Config/Profiles.antt =====
-- src-tauri/src/config/profiles.rs and prfitem.rs: the list of profiles, its chain and its current
-- entry. The modules below hold the items, the store that the methods work on, the methods, and
-- what is proved of them.
pub mod Item
pub mod Store
pub mod Lookup
pub mod Found
pub mod Changes
pub mod Methods
pub mod Reorder
pub mod Delete
pub mod Update
pub mod Effects
pub mod EnsureScript
mod Tests
pub mod GlobalScript
