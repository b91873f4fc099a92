-- ===== src/Federation.antt =====
-- crates/identity-core/src/federation.rs and federation/credentials.rs
pub mod Errors
pub mod Settings
pub mod Upstream
pub mod State
mod Examples
