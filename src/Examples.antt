-- ===== src/Examples.antt =====
-- Concrete inputs of the theorems.
pub mod Data
mod Tries
mod Hashes
mod Environments
mod Histories
pub mod Node
mod Hosts
mod Optimism
mod Wires
mod Calls
