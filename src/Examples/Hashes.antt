-- ===== src/Examples/Hashes.antt =====
-- Examples of the theorems on proofs by hashes, on configurations and on commitments.
use steel.Prelude.{
  ℕ, ◌+◌, ◌^◌, ◌≤◌, ◌<◌, ◌≡◌, ◌⊎◌, refl, B256, Bool, true, false, some, List, [], ◌∷◌, ◌++◌, All,
  arith, bytes_eq, if◌then◌else◌,
}
use steel.Outcome.{ok}
use steel.Codec.{Collision}
use steel.Header.{EvmSpecId, Sealed}
use steel.Mpt.Toy.{toy, toy_keccak256, zeros}
use steel.Mpt.ToyLaws.{length-toy_keccak256}
use steel.Merkle.Proof
use steel.Merkle.Proof.{process_proof, verify}
use steel.Merkle.Tree
use steel.Merkle.Binding.{process_proof-binding}
use steel.Merkle.Complete.{process_proof-proof}
use steel.Commitment
use steel.Commitment.{Commitment, decode_id, as_u16, beacon}
use steel.Commitment.Packing.{decode_id-new}
use steel.Config.Spec.{ForkCondition, block, timestamp, ChainSpec, active, active_fork}
use steel.Config.Digest.{digest, chain_bytes}
use steel.Config.Binding.{digest-binding}
use steel.Config.Fork.{IsAscending, Any, active_fork_lem, from-IsAscending}
use steel.Config.Spec
use steel.Beacon
use steel.Beacon.{BeaconCommit, BeaconBlockId, eip4788, as_id, as_version}
use steel.Beacon.Binding.{commit_lem, commit-seal}
use steel.Event.{SolEvent, Event, new}
use steel.Examples.Data.{ids, chain}

abbrev one : B256
one = toy_keccak256 (1 ∷ [])

abbrev two : B256
two = toy_keccak256 (2 ∷ [])

abbrev pair : B256
pair = toy_keccak256 (one ++ two)

pair-process_proof : process_proof toy one (two ∷ []) 2 ≡ ok pair
unfolding process_proof toy_keccak256 bytes_eq
pair-process_proof = refl

process_proof-binding_example : (one ≡ one) ⊎ Collision toy_keccak256
process_proof-binding_example =
    process_proof-binding toy length-toy_keccak256 one one (two ∷ []) (two ∷ []) 2 pair
      (length-toy_keccak256 (1 ∷ [])) (length-toy_keccak256 (1 ∷ []))
      (length-toy_keccak256 (2 ∷ []), tt) (length-toy_keccak256 (2 ∷ []), tt) pair-process_proof
      pair-process_proof

abbrev three_leaves : List B256
three_leaves = one ∷ two ∷ pair ∷ []

process_proof-proof_example :
    (branch : List B256) × (Tree.proof (Tree.new toy three_leaves) 1 ≡ ok branch)
    × (process_proof toy two branch (Tree.num_leaves (Tree.new toy three_leaves) + 1)
        ≡ ok (Tree.root (Tree.new toy three_leaves)))
process_proof-proof_example = process_proof-proof toy three_leaves 1 two refl

decode_id-new_example : ◌≡◌ {A = ℕ × ℕ} (decode_id (Commitment.new 1 12 one two)) (12, 1)
decode_id-new_example = decode_id-new 1 12 one two (omega arith) (omega arith)

-- a fork is a flag here
abbrev flags : EvmSpecId Bool
flags = record {
  rank = λ b. if b then 1 else 0;
  has_eip4788 = λ b. b;
  has_eip2935 = λ b. b;
  to_u32 = λ b. if b then 1 else 0;
}

flags-injective : (a b : Bool) → flags.to_u32 a ≡ flags.to_u32 b → a ≡ b
flags-injective false false h = refl
flags-injective true true h = refl
flags-injective false true h = absurd (omega (arith, h))
flags-injective true false h = absurd (omega (arith, h))

flags-lt : (a : Bool) → flags.to_u32 a < 2 ^ 32
flags-lt false = omega arith
flags-lt true = omega arith

abbrev flag_chain : ChainSpec Bool
flag_chain = record { chain_id = 1; forks = (false, block 0) ∷ (true, timestamp 100) ∷ [] }

flag_chain-digest :
    digest toy flags flag_chain ≡ ok (toy_keccak256 (chain_bytes toy flags flag_chain))
unfolding digest
flag_chain-digest = refl

digest-binding_example :
    (◌≡◌ {A = ℕ} 1 1 × (flag_chain.forks ≡ flag_chain.forks)) ⊎ Collision toy_keccak256
digest-binding_example =
    digest-binding toy length-toy_keccak256 flags flags-injective flags-lt flag_chain flag_chain
      (toy_keccak256 (chain_bytes toy flags flag_chain)) (omega arith) (omega arith)
      (omega arith, (omega arith, tt)) (omega arith, (omega arith, tt)) flag_chain-digest
      flag_chain-digest

chain-IsAscending : IsAscending ids chain.forks
chain-IsAscending = ((omega arith, tt), (tt, tt))

chain-active_fork : active_fork chain 5 0 ≡ ok 0
unfolding active_fork
chain-active_fork = refl

active_fork_lem_example :
    Any (λ e. (e.0 ≡ 0) × (active e.1 5 0 ≡ true)) chain.forks
    × All (λ e. active e.1 5 0 ≡ true → e.0 ≤ 0) chain.forks
active_fork_lem_example = active_fork_lem ids chain 5 0 0 chain-IsAscending chain-active_fork

from-IsAscending_example : IsAscending ids (Spec.from ids ((1, block 100) ∷ (0, block 0) ∷ []))
from-IsAscending_example = from-IsAscending ids ((1, block 100) ∷ (0, block 0) ∷ [])

abbrev beacon_commit : BeaconCommit
beacon_commit = record { proof = two ∷ []; block_id = eip4788 12 }

abbrev sealed_one : Sealed ℕ
sealed_one = record { inner = 5; seal = one }

abbrev beacon_commitment : Commitment
beacon_commitment = Commitment.new 1 12 pair zeros

beacon_commit-commit : Beacon.commit toy 2 beacon_commit sealed_one zeros ≡ ok beacon_commitment
unfolding Beacon.commit as_version as_id Proof.process_proof toy_keccak256 bytes_eq
beacon_commit-commit = refl

commit_lem_example :
    (process_proof toy one (two ∷ []) 2 ≡ ok beacon_commitment.digest)
    × ◌≡◌ {A = ℕ × ℕ} (decode_id beacon_commitment) (as_id (eip4788 12), as_version (eip4788 12))
    × (beacon_commitment.config_id ≡ zeros)
unfolding as_id
commit_lem_example =
    commit_lem toy 2 beacon_commit sealed_one zeros beacon_commitment (omega arith)
      beacon_commit-commit

commit-seal_example : (one ≡ one) ⊎ Collision toy_keccak256
commit-seal_example =
    commit-seal toy 2 length-toy_keccak256 beacon_commit beacon_commit sealed_one sealed_one zeros
      zeros beacon_commitment beacon_commitment (length-toy_keccak256 (1 ∷ []))
      (length-toy_keccak256 (1 ∷ [])) (length-toy_keccak256 (2 ∷ []), tt)
      (length-toy_keccak256 (2 ∷ []), tt) beacon_commit-commit beacon_commit-commit refl

abbrev transfer : SolEvent
transfer = record { anonymous = false; signature_hash = one }

abbrev transfer_query : Event
transfer_query = record {
  filter = record { block_hash = some one; address = []; topics = (one ∷ []) ∷ [] ∷ [] ∷ [] ∷ [] };
}

transfer-new : new transfer sealed_one ≡ ok transfer_query
unfolding new
transfer-new = refl
