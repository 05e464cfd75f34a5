-- ===== src/Engine/Service.antt =====
-- Registration of the daemon at login: engine/crates/muxdeck-engine/src/service.rs. The tools of the
-- system, its files and its environment are arguments.
pub mod Escape
pub mod Texts
pub mod Bytes
pub mod Outputs
pub mod Tool
pub mod Linux
pub mod Macos
pub mod Names
pub mod Windows
pub mod Targets
pub mod Removal
pub mod Unregistered
pub mod Keeping
pub mod Registered
