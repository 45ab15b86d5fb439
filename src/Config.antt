-- ===== src/Config.antt =====
-- crates/steel/src/config.rs: the hard forks of a chain, and the digest of its configuration.
pub mod Spec
pub mod Fork
pub mod Digest
pub mod Binding
