-- ===== src/Host.antt =====
-- crates/steel/src/host: the environment on the host, whose database records what a run reads.
pub mod Database
pub mod Provider
pub mod Proof
pub mod Chunks
pub mod Transparent
pub mod Node
pub mod Recorded
pub mod Merged
pub mod Proven
pub mod Ancestry
pub mod Input
pub mod BlockId
pub mod Env
pub mod Builder
pub mod Accepted
pub mod EndToEnd
pub mod Exclusion
pub mod Beacon
pub mod History
pub mod Consensus
pub mod Queries
