-- ===== src/History.antt =====
-- crates/steel/src/history: commitments to a block by way of the state of a later block.
pub mod Contract
pub mod BeaconRoots
pub mod HistoryStorage
pub mod Commit
pub mod Eip2935
pub mod Binding
pub mod Chain
pub mod Host
pub mod Links
pub mod Forward
