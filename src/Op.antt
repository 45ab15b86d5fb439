-- ===== src/Op.antt =====
-- crates/op-steel: the environment for chains of the OP stack.
pub mod Chains
pub mod L1
pub mod Portal
pub mod Builder
pub mod Guest
