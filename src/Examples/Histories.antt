-- ===== src/Examples/Histories.antt =====
-- Examples of the theorems on histories.
use steel.Prelude.{
  ℕ, ◌+◌, ◌*◌, ◌≤◌, ◌≡◌, ◌⊎◌, inl, refl, sym, ap, ◌∙◌, B256, Address, List, [], ◌∷◌, arith,
  bytes_eq,
}
use steel.Outcome.{Outcome, ok, ok-injective}
use steel.Codec.{Collision}
use steel.Header.{Sealed}
use steel.Words.{to_be_bytes}
use steel.Mpt.Node
use steel.Mpt.Node.{IsNode}
use steel.Mpt.Encode.{rlp_encoded, encode_list_header}
use steel.Mpt.Decode.{decode_node, parse_node}
use steel.Mpt.Resolve.{resolve_digests}
use steel.Mpt.Trie.{hash_slow, get_rlp, from_rlp_nodes}
use steel.Mpt.Toy.{toy, toy_keccak256, toy_decode_raw, toy_decode_bytes, weigh, zeros}
use steel.Mpt.ToyLaws.{toy-Laws}
use steel.Commitment
use steel.Commitment.{Commitment, as_u16, block}
use steel.History.Contract.{SingleContractState, AccountProof, from_proof, root}
use steel.History.HistoryStorage
use steel.History.Binding.{IsState}
use steel.History.Eip2935.{HistoryCommit, commit}
use steel.History.Chain.{commit-binding, commit_window}
use steel.History.Host.{Provider, from_headers}
use steel.History.Links.{from_headers-commit}
use steel.Examples.Data.{platform, ops, storage_example, state_example}

-- Block 7 holds the hash of block 5.
abbrev execution : Sealed ℕ
execution = record { inner = 5; seal = to_be_bytes 32 9 }

abbrev later : Sealed ℕ
later = record { inner = 7; seal = 7 ∷ zeros }

abbrev contract : SingleContractState
contract = record {
  address = HistoryStorage.address;
  state_trie = state_example;
  storage_trie = storage_example;
}

abbrev history : HistoryCommit ℕ
history = record { state_commits = record { state = contract; header = 7 } ∷ [] }

abbrev commitment : Commitment
commitment = Commitment.new 0 7 (7 ∷ zeros) zeros

history-commit : commit platform ops history execution zeros ≡ ok commitment
unfolding commit Node.get get_rlp toy_keccak256 bytes_eq rlp_encoded encode_list_header hash_slow
    weigh as_u16
history-commit = refl

contract-IsState : IsState contract
unfolding IsNode toy_keccak256 bytes_eq to_be_bytes
contract-IsState = (omega arith, omega arith)

headers_eq : (x y : ℕ) → (x ∷ zeros) ≡ (y ∷ zeros) → (x ≡ y) ⊎ Collision toy_keccak256
headers_eq x y h = inl cc

commit-binding_example : (to_be_bytes 32 9 ≡ to_be_bytes 32 9) ⊎ Collision toy_keccak256
commit-binding_example =
    commit-binding platform ops toy-Laws headers_eq history history execution execution zeros zeros
      commitment commitment refl refl (contract-IsState, tt) (contract-IsState, tt) history-commit
      history-commit refl

commit_window_example :
    (number : ℕ) × (digest : B256) × (commitment
      ≡ Commitment.new (as_u16 block) number digest zeros)
    × (5 + 1 ≤ number)
    × (number ≤ 5 + 8191 * 1)
commit_window_example = commit_window platform ops history execution zeros commitment history-commit

abbrev proof_example : AccountProof
proof_example = record {
  account_proof = rlp_encoded toy state_example.root ∷ [];
  storage_proof = (rlp_encoded toy storage_example.root ∷ []) ∷ [];
}

abbrev provider : Provider ℕ
provider = record {
  get_header = λ number. ok number;
  get_proof = λ place address slots. ok (HistoryStorage.code_hash, proof_example);
}

built : from_headers platform ops provider 1 execution later ≡ ok history
unfolding from_headers Node.get get_rlp toy_keccak256 bytes_eq rlp_encoded encode_list_header
    hash_slow weigh decode_node parse_node resolve_digests toy_decode_raw toy_decode_bytes
    from_rlp_nodes
built = refl

number_asked : (number header : ℕ) → ◌≡◌ {A = Outcome ℕ} (ok number) (ok header) → header ≡ number
number_asked number header e = sym (ok-injective e)

example-from_proof :
    (address : Address)
    → from_proof platform 1 address proof_example
      ≡ ok
          (record { address = address; state_trie = state_example; storage_trie = storage_example })
unfolding from_proof toy_keccak256 bytes_eq rlp_encoded encode_list_header decode_node parse_node
    resolve_digests toy_decode_raw toy_decode_bytes from_rlp_nodes to_be_bytes
example-from_proof address = refl

state_proven :
    (header : ℕ) (address : Address) (slots : List ℕ) (code_hash : B256) (proof : AccountProof)
    (state : SingleContractState)
    → provider.get_proof (ops.hash_slow header) address slots ≡ ok (code_hash, proof)
    → from_proof platform 1 address proof ≡ ok state
    → root platform state ≡ ops.state_root header
unfolding root
state_proven header address slots code_hash proof state sent parsed =
    let same = ap (λ x. x.1) (ok-injective sent) in
    let state_eq =
      ok-injective
        (sym (example-from_proof address) ∙ ap (from_proof platform 1 address) same ∙ parsed) in
    ap (λ (s : SingleContractState). hash_slow toy s.state_trie) (sym state_eq)

from_headers-commit_example :
    (number : ℕ) × (commit platform ops history execution zeros
      ≡ ok (Commitment.new (as_u16 block) number (7 ∷ zeros) zeros))
from_headers-commit_example =
    from_headers-commit platform ops provider 1 number_asked state_proven execution later history
      zeros (omega arith) built
