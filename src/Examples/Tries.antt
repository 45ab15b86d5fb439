-- ===== src/Examples/Tries.antt =====
-- Examples of the theorems on tries.
use steel.Prelude.{
  ◌<◌, ◌≡◌, ◌⊎◌, refl, sym, subst, ap, ◌∙◌, Bytes, none, some, [], ◌∷◌, arith, bytes_eq,
}
use steel.Outcome.{ok, ok-injective}
use steel.Codec.{Collision}
use steel.Mpt.Node
use steel.Mpt.Node.{Node, leaf, extension, digest, IsNode}
use steel.Mpt.Encode.{
  rlp_encoded, encode, encode_list_header, as_ref, refs_length, ref_length, encode_refs,
}
use steel.Mpt.Decode.{decode_node, parse_node}
use steel.Mpt.Resolve.{NodeMap, resolve_digests}
use steel.Mpt.Trie
use steel.Mpt.Trie.{
  MerkleTrie, hash_slow, node_hash, get_rlp, hydrate_from_rlp_nodes, from_rlp_nodes,
}
use steel.Mpt.Binding.{get-hash_slow}
use steel.Mpt.Hydrate.{IsCanonical, get-hydrate, hash_slow-from_rlp_nodes}
use steel.Mpt.Terminates.{resolve_digests_ends, AllDigests, IsRanked}
use steel.Mpt.Toy.{toy, toy_keccak256, toy_decode_raw, toy_decode_bytes, zeros}
use steel.Mpt.ToyLaws.{toy-Laws}
use steel.Examples.Data.{second_leaf, full_trie, sparse_trie}

full_trie-IsNode : IsNode full_trie.root
unfolding IsNode
full_trie-IsNode = (refl, (refl, (omega arith, tt), (refl, (omega arith, tt), tt)))

sparse_trie-IsNode : IsNode sparse_trie.root
unfolding IsNode
sparse_trie-IsNode = (
  refl,
  (refl, (omega arith, tt), (refl, toy-Laws.length-keccak256 (rlp_encoded toy second_leaf), tt)),
)

sparse_trie-hash_slow : hash_slow toy sparse_trie ≡ hash_slow toy full_trie
unfolding hash_slow toy_keccak256 rlp_encoded encode_list_header as_ref refs_length ref_length
    encode_refs encode bytes_eq
sparse_trie-hash_slow = refl

sparse_trie-get : Trie.get toy sparse_trie (1 ∷ 5 ∷ []) ≡ ok (some zeros)
unfolding Trie.get Node.get bytes_eq
sparse_trie-get = refl

full_trie-get : Trie.get toy full_trie (1 ∷ 5 ∷ []) ≡ ok (some zeros)
unfolding Trie.get Node.get bytes_eq
full_trie-get = refl

get-hash_slow_example : (some zeros ≡ some zeros) ⊎ Collision toy_keccak256
get-hash_slow_example =
    get-hash_slow toy toy-Laws sparse_trie full_trie (1 ∷ 5 ∷ []) (some zeros) (some zeros)
      sparse_trie-IsNode full_trie-IsNode sparse_trie-hash_slow sparse_trie-get full_trie-get

sparse_trie-get_rlp :
    get_rlp toy (λ bytes. ok (bytes, [])) sparse_trie (1 ∷ 5 ∷ []) ≡ ok (some zeros)
unfolding get_rlp Node.get bytes_eq
sparse_trie-get_rlp = refl

full_trie-get_rlp : get_rlp toy (λ bytes. ok (bytes, [])) full_trie (1 ∷ 5 ∷ []) ≡ ok (some zeros)
unfolding get_rlp Node.get bytes_eq
full_trie-get_rlp = refl

abbrev second_rlp : Bytes
second_rlp = rlp_encoded toy second_leaf

decode_second : decode_node toy second_rlp ≡ ok second_leaf
unfolding decode_node rlp_encoded encode_list_header toy_decode_raw toy_decode_bytes
decode_second = refl

second-IsCanonical : IsCanonical toy second_rlp
second-IsCanonical n e = ap (rlp_encoded toy) (sym (ok-injective (sym decode_second ∙ e)))

sparse_trie-hydrate : hydrate_from_rlp_nodes toy 2 sparse_trie (second_rlp ∷ []) ≡ ok full_trie
unfolding hydrate_from_rlp_nodes decode_node parse_node resolve_digests rlp_encoded
    encode_list_header toy_keccak256 bytes_eq toy_decode_raw toy_decode_bytes
sparse_trie-hydrate = refl

get-hydrate_example : Trie.get toy full_trie (1 ∷ 5 ∷ []) ≡ ok (some zeros)
get-hydrate_example =
    get-hydrate toy 2 sparse_trie full_trie (second_rlp ∷ []) (1 ∷ 5 ∷ []) (some zeros)
      sparse_trie-hydrate sparse_trie-get

second_trie : from_rlp_nodes toy 1 (second_rlp ∷ []) ≡ ok (record { root = second_leaf })
unfolding from_rlp_nodes decode_node parse_node resolve_digests rlp_encoded encode_list_header
    toy_keccak256 bytes_eq toy_decode_raw toy_decode_bytes
second_trie = refl

hash_slow-from_rlp_nodes_example :
    hash_slow toy (record { root = second_leaf }) ≡ node_hash toy second_leaf
hash_slow-from_rlp_nodes_example =
    hash_slow-from_rlp_nodes toy 1 second_rlp [] second_leaf (record { root = second_leaf })
      (second-IsCanonical, tt) decode_second second_trie

abbrev all_second : NodeMap
all_second d = some second_leaf

resolved :
    resolve_digests all_second 2 (extension (1 ∷ []) (digest zeros))
    ≡ ok (extension (1 ∷ []) second_leaf)
unfolding resolve_digests
resolved = refl

all_second-IsRanked : IsRanked all_second (λ d. 0)
unfolding AllDigests
all_second-IsRanked d n e = subst (AllDigests (λ k. 0 < 0)) (some-injective second_leaf n e) tt
  where
    some-injective : (a b : Node) → some a ≡ some b → a ≡ b
    some-injective a b h = cc

resolve_digests_ends_example :
    (n : Node) × (resolve_digests all_second 2 (extension (1 ∷ []) (digest zeros)) ≡ ok n)
unfolding AllDigests
resolve_digests_ends_example =
    resolve_digests_ends all_second (λ d. 0) 1 (extension (1 ∷ []) (digest zeros))
      all_second-IsRanked (omega arith)

other_key : Node.get (extension (1 ∷ []) (digest zeros)) (2 ∷ []) ≡ ok none
unfolding Node.get Node.strip_prefix
other_key = refl
