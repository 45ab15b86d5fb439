-- ===== src/Mpt/Hydrate.antt =====
-- What `hydrate_from_rlp_nodes` and `from_rlp_nodes` keep: answers and root hashes.
use steel.Prelude.{
  ℕ, ◌≤◌, ◌≡◌, refl, sym, ap, ◌∙◌, Bytes, B256, Bool, true, false, Option, none, some, List, [],
  ◌∷◌, length, leb, leb→le, if◌then◌else◌, bytes_eq, bytes_eq→eq, All,
}
use steel.Outcome.{Outcome, ok, >>=-eq-ok, ok-injective}
use steel.Codec.{Codec}
use steel.Mpt.Node.{Node}
use steel.Mpt.Encode.{rlp_encoded}
use steel.Mpt.Decode.{decode_node, parse_node}
use steel.Mpt.Resolve.{NodeMap, resolve_digests}
use steel.Mpt.Trie
use steel.Mpt.Trie.{
  MerkleTrie, node_hash, hash_slow, insert, insert_hashed, no_nodes, first_or_null, collect_nodes,
  collect_with_root, hydrate_from_rlp_nodes, from_rlp_nodes,
}
use steel.Mpt.Lookup.{get-resolve_digests}
use steel.Mpt.Hash.{IsConsistent, resolve_digests-SameHash}

module _ (c : Codec) where
  -- The node that is read from the bytes is encoded by the same bytes.
  abbrev pub IsCanonical : Bytes → Type 0
  IsCanonical bytes = (n : Node) → decode_node c bytes ≡ ok n → rlp_encoded c n ≡ bytes

  no_nodes-IsConsistent : IsConsistent c no_nodes
  no_nodes-IsConsistent = record { hashed = λ d n e. cc; long = λ d n e. cc }

  insert-IsConsistent :
      (m : NodeMap) (bytes : Bytes) (n : Node)
      → IsConsistent c m
      → rlp_encoded c n ≡ bytes
      → 32 ≤ length bytes
      → IsConsistent c (insert m (c.keccak256 bytes) n)
  unfolding insert
  insert-IsConsistent m bytes n good same long = record {
    hashed = λ d k e. at_hash d k (bytes_eq (c.keccak256 bytes) d) refl e;
    long = λ d k e. at_long d k (bytes_eq (c.keccak256 bytes) d) refl e;
  }
    where
      at_hash :
          (d : B256) (k : Node) (b : Bool)
          → bytes_eq (c.keccak256 bytes) d ≡ b
          → (if b then some n else m d) ≡ some k
          → c.keccak256 (rlp_encoded c k) ≡ d
      at_hash d k true p e = cc (same, bytes_eq→eq _ _ p)
      at_hash d k false p e = good.hashed d k e

      at_long :
          (d : B256) (k : Node) (b : Bool)
          → bytes_eq (c.keccak256 bytes) d ≡ b
          → (if b then some n else m d) ≡ some k
          → 32 ≤ length (rlp_encoded c k)
      at_long d k true p e = let one : n ≡ k = cc in rw (sym one) (rw same long)
      at_long d k false p e = good.long d k e

  -- What `parse_node` inserts keeps the map consistent.
  parsed-IsConsistent :
      (m : NodeMap) (bytes : Bytes) {hash : Option B256} {n : Node}
      → IsConsistent c m
      → IsCanonical bytes
      → parse_node c bytes ≡ ok (hash, n)
      → IsConsistent c (insert_hashed m hash n)
  unfolding parse_node insert_hashed
  parsed-IsConsistent m bytes {hash} {n} good canonical e =
      let (k, d, p) = >>=-eq-ok (decode_node c bytes) _ e in
      by_length k d (leb 32 (length bytes)) refl p
    where
      by_length :
          (k : Node)
          → decode_node c bytes ≡ ok k
          → (b : Bool) → leb 32 (length bytes) ≡ b
          → ◌≡◌ {A = Outcome (Option B256 × Node)}
              (ok ((if b then some (c.keccak256 bytes) else none), k))
              (ok (hash, n))
          → IsConsistent c (insert_hashed m hash n)
      by_length k d true l q =
          let hashes : some (c.keccak256 bytes) ≡ hash = cc in
          let nodes : k ≡ n = cc in
          rw (sym hashes, sym nodes)
            (insert-IsConsistent m bytes k good (canonical k d) (leb→le 32 (length bytes) l))
      by_length k d false l q = let hashes : none ≡ hash = cc in rw (sym hashes) good

  collect_nodes-IsConsistent :
      (m : NodeMap) (nodes : List Bytes) {m' : NodeMap}
      → IsConsistent c m
      → All IsCanonical nodes
      → collect_nodes c m nodes ≡ ok m'
      → IsConsistent c m'
  unfolding collect_nodes
  collect_nodes-IsConsistent m [] good all e = rw (sym (ok-injective e)) good
  collect_nodes-IsConsistent m (bytes ∷ nodes) good all e =
      let ((hash, n), p, q) = >>=-eq-ok (parse_node c bytes) _ e in
      collect_nodes-IsConsistent (insert_hashed m hash n) nodes
        (parsed-IsConsistent m bytes good all.0 p) all.1 q

  -- Whatever the nodes, a trie still gives every answer, present or absent, after it was hydrated
  -- with them.
  pub get-hydrate :
      (fuel : ℕ) (t t' : MerkleTrie) (nodes : List Bytes) (key : Bytes) (a : Option Bytes)
      → hydrate_from_rlp_nodes c fuel t nodes ≡ ok t'
      → Trie.get c t key ≡ ok a
      → Trie.get c t' key ≡ ok a
  unfolding hydrate_from_rlp_nodes Trie.get
  get-hydrate fuel t t' nodes key a e g =
      let (m, p, q) = >>=-eq-ok (collect_nodes c no_nodes nodes) _ e in
      let (root, r, s) = >>=-eq-ok (resolve_digests m fuel t.root) _ q in
      rw (sym (ok-injective s)) (get-resolve_digests m fuel t.root root (c.unpack key) a r g)

  -- Hydrating a trie with canonically encoded nodes keeps its root hash.
  pub hash_slow-hydrate :
      (fuel : ℕ) (t t' : MerkleTrie) (nodes : List Bytes)
      → All IsCanonical nodes
      → hydrate_from_rlp_nodes c fuel t nodes ≡ ok t'
      → hash_slow c t' ≡ hash_slow c t
  unfolding hydrate_from_rlp_nodes hash_slow
  hash_slow-hydrate fuel t t' nodes all e =
      let (m, p, q) = >>=-eq-ok (collect_nodes c no_nodes nodes) _ e in
      let (root, r, s) = >>=-eq-ok (resolve_digests m fuel t.root) _ q in
      let good = collect_nodes-IsConsistent no_nodes nodes no_nodes-IsConsistent all p in
      rw (sym (ok-injective s)) ((resolve_digests-SameHash c m good fuel t.root root r).hash)

  -- The first node stays the root, and the map is consistent.
  collect_with_root-some :
      (root : Node) (m : NodeMap) (nodes : List Bytes) {o : Option Node} {m' : NodeMap}
      → IsConsistent c m
      → All IsCanonical nodes
      → collect_with_root c (some root) m nodes ≡ ok (o, m')
      → (o ≡ some root) × IsConsistent c m'
  unfolding collect_with_root
  collect_with_root-some root m [] good all e =
      let maps : m ≡ _ = ap (λ x. x.1) (ok-injective e) in
      (sym (ap (λ x. x.0) (ok-injective e)), rw (sym maps) good)
  collect_with_root-some root m (bytes ∷ nodes) good all e =
      let ((hash, n), p, q) = >>=-eq-ok (parse_node c bytes) _ e in
      collect_with_root-some root (insert_hashed m hash n) nodes
        (parsed-IsConsistent m bytes good all.0 p) all.1 q

  parsed_node :
      (bytes : Bytes) {hash : Option B256} {n root : Node}
      → parse_node c bytes ≡ ok (hash, n)
      → decode_node c bytes ≡ ok root
      → n ≡ root
  unfolding parse_node
  parsed_node bytes e d = let (k, d', p) = >>=-eq-ok (decode_node c bytes) _ e in cc

  -- The trie read from canonically encoded nodes has the hash of the first of them.
  pub hash_slow-from_rlp_nodes :
      (fuel : ℕ) (bytes : Bytes) (nodes : List Bytes) (root : Node) (t : MerkleTrie)
      → All IsCanonical (bytes ∷ nodes)
      → decode_node c bytes ≡ ok root
      → from_rlp_nodes c fuel (bytes ∷ nodes) ≡ ok t
      → hash_slow c t ≡ node_hash c root
  unfolding from_rlp_nodes collect_with_root hash_slow
  hash_slow-from_rlp_nodes fuel bytes nodes root t all d e =
      let ((o, m), p, q) = >>=-eq-ok (collect_with_root c none no_nodes (bytes ∷ nodes)) _ e in
      let ((hash, n), p', q') = >>=-eq-ok (parse_node c bytes) _ p in
      let good = parsed-IsConsistent no_nodes bytes no_nodes-IsConsistent all.0 p' in
      let (first, good') =
        collect_with_root-some n (insert_hashed no_nodes hash n) nodes good all.1 q' in
      let (root', r, s) = >>=-eq-ok (resolve_digests m fuel (first_or_null o)) _ q in
      let kept = (resolve_digests-SameHash c m good' fuel n root' (rw first at r)).hash in
      rw (sym (ok-injective s)) (kept ∙ ap (node_hash c) (parsed_node bytes p' d))
