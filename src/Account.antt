-- ===== src/Account.antt =====
-- crates/identity-core/src/account.rs and account/policy.rs
pub mod Policy
pub mod Kdf
pub mod Login
mod Examples
