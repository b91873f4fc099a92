-- ===== src/Session.antt =====
-- crates/identity-core/src/session.rs
pub mod Secret
pub mod Lifetime
mod Examples
