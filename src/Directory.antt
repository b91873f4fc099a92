-- ===== src/Directory.antt =====
-- crates/identity-core/src/directory.rs: fields, lists of names and the values of filters.
pub mod Fields
pub mod Value
pub mod Quoting
pub mod Names
pub mod Filter
pub mod Query
mod Examples
