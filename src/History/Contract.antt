-- ===== src/History/Contract.antt =====
-- crates/steel/src/history/state.rs: the state of one contract, as a proof of its account tells it.
use steel.Prelude.{ℕ, Bytes, B256, Address, Option, some, List, [], ◌∷◌, ◌++◌, bytes_eq}
use steel.Outcome.{
  Outcome, ok, guard, invalid_address, invalid_state, invalid_contract, ◌>>=◌, ◌>>◌,
}
use steel.Words.{to_be_bytes}
use steel.Platform.{Platform, AccountInfo}
use steel.Mpt.Trie.{MerkleTrie, from_rlp_nodes, get_rlp, hash_slow}
use steel.State.{or_default}

pub record SingleContractState : Type 0 where
  pub address : Address
  pub state_trie : MerkleTrie
  pub storage_trie : MerkleTrie

-- what `from_proof` reads of `EIP1186AccountProofResponse`: the proofs of the slots, one by one
pub record AccountProof : Type 0 where
  pub account_proof : List Bytes
  pub storage_proof : List (List Bytes)

unfoldable pub flatten : List (List Bytes) → List Bytes
flatten [] = []
flatten (proof ∷ proofs) = proof ++ flatten proofs

module _ (p : Platform) where
  -- the fuel is that of `from_rlp_nodes`
  unfoldable pub from_proof : ℕ → Address → AccountProof → Outcome SingleContractState
  unfolding flatten
  from_proof fuel address proof = do
    state_trie ← from_rlp_nodes p.codec fuel proof.account_proof
    storage_trie ← from_rlp_nodes p.codec fuel (flatten proof.storage_proof)
    ok (record { address = address; state_trie = state_trie; storage_trie = storage_trie })

  unfoldable pub root : SingleContractState → B256
  root self = hash_slow p.codec self.state_trie

  unfoldable pub basic : SingleContractState → Address → Outcome (Option AccountInfo)
  basic self address = do
    guard (bytes_eq address self.address) invalid_address
    found ← get_rlp p.codec p.decode_account self.state_trie (p.codec.keccak256 self.address)
    let account = or_default p.default_account found
    guard (bytes_eq account.storage_root (hash_slow p.codec self.storage_trie)) invalid_state
    ok (
        some (record {
          balance = account.balance;
          nonce = account.nonce;
          code_hash = account.code_hash;
        }))

  unfoldable pub storage : SingleContractState → Address → ℕ → Outcome ℕ
  unfolding to_be_bytes
  storage self address index = do
    guard (bytes_eq address self.address) invalid_address
    value ←
        get_rlp p.codec p.decode_u256 self.storage_trie (p.codec.keccak256 (to_be_bytes 32 index))
    ok (or_default 0 value)

  -- the account that a contract's `new` reads, whose code must be the contract's
  unfoldable pub check_code : SingleContractState → Address → B256 → Outcome (Unit {0})
  unfolding basic
  check_code self address code_hash = do
    info ← basic self address
    guard (bytes_eq (or_default p.default_info info).code_hash code_hash) invalid_contract
