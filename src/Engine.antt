-- ===== src/Engine.antt =====
-- The engine: engine/crates/muxdeck-engine/src.
pub mod Errors
pub mod Crypto
pub mod Disk
pub mod Identity
pub mod Registry
pub mod ConstantTime
pub mod Pairing
pub mod Session
pub mod Dispatch
pub mod Store
pub mod Backend
pub mod InputDispatch
pub mod Actions
pub mod Host
pub mod Server
pub mod Service
pub mod Discovery
pub mod Secrets
pub mod Telemetry
