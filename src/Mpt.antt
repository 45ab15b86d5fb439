-- ===== src/Mpt.antt =====
-- crates/steel/src/mpt.rs: the sparse Merkle Patricia trie.
pub mod Node
pub mod Encode
pub mod Decode
pub mod Resolve
pub mod Trie
pub mod Lookup
pub mod Hash
pub mod Laws
pub mod Toy
pub mod ToyLaws
pub mod Items
pub mod Views
pub mod Paths
pub mod References
pub mod Binding
pub mod Hydrate
pub mod Terminates
