-- ===== src/Protocol.antt =====
-- The wire protocol: engine/crates/muxdeck-core/src.
pub mod KnownOps
pub mod Errors
pub mod Ops
pub mod Envelope
pub mod Session
pub mod Signing
pub mod Pairing
pub mod Settings
pub mod Actions
pub mod Profiles
pub mod Keys
pub mod Input
