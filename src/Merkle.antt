-- ===== src/Merkle.antt =====
-- crates/steel/src/merkle.rs: Merkle proofs. The tree that produces them is in Merkle/Tree.
pub mod Log
pub mod Proof
pub mod Binding
pub mod Tree
pub mod Loop
pub mod Complete
