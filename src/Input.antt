-- ===== src/Input.antt =====
-- The input crate: engine/crates/muxdeck-input/src. Its interface and its backends for tests are
-- beside the engine's dispatch; these are the backends of the three systems.
pub mod Lookup
pub mod Held
pub mod Effects
pub mod Linux
pub mod Windows
pub mod Macos
pub mod Tables
