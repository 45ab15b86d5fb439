-- ===== src/Lib.antt =====
-- A model of Steel (crates/steel, crates/op-steel): a library that proves claims about Ethereum state
-- inside a zkVM. It has a guest, which runs in the zkVM, and a host, which prepares its input.
--
-- A host collects what a call reads of the chain as sparse Merkle Patricia tries, headers and
-- proofs. The guest gets them as an input, checks them against the header of a block, and makes a
-- commitment that a verifier compares with the chain. Here is which file models which part.
--
--   Prelude, Outcome     shared names and tests; results with errors, panics and lack of fuel
--   Codec, Mpt           crates/steel/src/mpt.rs: Mpt/Node is `Node::get` and `Node::size`,
--                        Mpt/Encode `rlp_encoded` and `NodeRef`, Mpt/Decode `decode`, `decode_path`
--                        and `parse_node`, Mpt/Resolve `resolve_digests`, Mpt/Trie `MerkleTrie`
--   Merkle               crates/steel/src/merkle.rs (Merkle/Proof) and the `MerkleTree` of
--                        crates/steel/src/beacon/host/mod.rs (Merkle/Tree)
--   Header, Commitment   the traits and `Commitment` of crates/steel/src/lib.rs
--   Env, Input           `EvmEnv`, `ComposeInput` and `EvmInput` of crates/steel/src/lib.rs
--   Config               crates/steel/src/config.rs: the forks of a chain and their digest
--   Beacon               crates/steel/src/beacon/mod.rs
--   State, Account       crates/steel/src/state.rs and account.rs
--   Event                crates/steel/src/event.rs
--   Block                crates/steel/src/block.rs: `BlockInput::into_env`
--   History              crates/steel/src/history: the contracts that hold old roots and hashes, the
--                        walks over them, and `from_headers` of history/eip2935
--   Verifier             crates/steel/src/verifier.rs and precompiles.rs
--   Serde                crates/steel/src/serde.rs
--   Ethereum             the chains and forks of crates/steel/src/ethereum.rs
--   Rpc                  the answers of an RPC provider
--   Host/Database        the reads of a run, and the run as a sequence of them
--   Host/Provider, Proof crates/steel/src/host/db: `ProviderDb`, `ProofDb`, its merge (Proof/Merge)
--                        and the proofs that it requests (Proof/Requests); Host/Chunks, Transparent,
--                        Node, Recorded, Merged, Proven, Ancestry and Exclusion are about them
--   Host/BlockId, Env,   crates/steel/src/host/mod.rs, with `from_proof_db` of
--        Input           crates/steel/src/block.rs
--   Host/Builder,        crates/steel/src/host/builder.rs: the setters and the four `build`s;
--        Consensus       Host/Accepted and Host/EndToEnd follow a run from the builder to the guest
--   Host/Beacon          crates/steel/src/beacon/host: commitments by EIP-4788 and by slot
--   Host/History         `from_headers` of crates/steel/src/history/mod.rs, and the host's calls of
--                        crates/steel/src/history/beacon_roots.rs
--   Host/Queries         the host parts of account.rs, event.rs and verifier.rs of crates/steel/src
--   Contract             crates/steel/src/contract.rs: Contract is the guest and what both sides share,
--                        Contract/Preflight the host; Contract/Runs, EndToEnd and Replay are about
--                        them
--   Sync                 crates/steel/src/sync.rs
--   Game                 the commitment of crates/op-steel/src/game.rs
--   Op                   crates/op-steel/src: Op/Chains is optimism/spec.rs and the chains of
--                        optimism/mod.rs, Op/L1 is l1.rs, Op/Portal the host part of game.rs,
--                        Op/Builder is optimism/host.rs, Op/Guest the input of
--                        optimism/mod.rs
--   Examples             concrete inputs of the theorems
--
-- Conventions. Bytes and hashes are lists of numbers, integers are native numbers, with the bounds
-- of the machine types as hypotheses where they matter and the wrap of a 64-bit sum or shift
-- written out; the sums, differences and products of crates/op-steel/src/l1.rs panic outside of 64
-- bits, as they do with overflow checks. A hash map of the guest is its lookup. A panic, an error
-- and a run that does not end are values (Outcome). The guest mutates no shared object but the map
-- of storage tries in `WrapStateDb`, which is passed on, as the records of the host's database
-- are. An operation that fails drops the state that it was given. The database of an environment
-- is there always: the option around it is empty only while a task of the host holds it. A hash
-- map of the host is a list of entries with one value for each key, since the order of its entries
-- decides the order of requests; that order is not specified by the program, and no theorem
-- depends on it.
--
-- Parameters. The RLP library, the hash functions and the hex-prefix code are a record (Codec),
-- and what is relied on of them is another (Mpt/Laws), which a toy codec satisfies (Mpt/ToyLaws).
-- The decoders of accounts and values, the filters of logs and the root of receipts are the record
-- Platform; headers, forks, receipts, the run of the EVM, the RPC provider, the beacon API and the
-- contracts of the OP chains are records or functions too. That a hash does not collide is no
-- hypothesis anywhere; Collision in Codec is what stands for it.
--
-- Fuel. Decoding a node has the length of the buffer as fuel, since an item of a list is shorter
-- than the list. Resolving digests has the depth of digests as fuel, which the code bounds only
-- by the map being free of cycles. The schedule of a history has the number of its last block as
-- fuel, and each of its steps is longer than one. The binary search over L2 blocks has the size of
-- its range as fuel, which is enough. The probing before it and the walk of Host/History have a number
-- of rounds that the caller chooses, since the program bounds neither.
--
-- Not modelled: the EVM, the network clients and the tasks they run in, the text of debug output,
-- the block environment of revm, the URL forms of the builders' setters (they are the setters of a
-- provider), the Solidity contracts. They are input and output, glue around other libraries, or in
-- another language.
pub mod Prelude
pub mod Outcome
pub mod Codec
pub mod Mpt
pub mod Merkle
pub mod Words
pub mod Header
pub mod Commitment
pub mod Config
pub mod Beacon
pub mod Platform
pub mod Event
pub mod State
pub mod Account
pub mod Env
pub mod Host
pub mod Rpc
pub mod Block
pub mod History
pub mod Input
pub mod Verifier
pub mod Serde
pub mod Ethereum
pub mod Game
pub mod Op
pub mod Examples
pub mod Contract
pub mod Sync
