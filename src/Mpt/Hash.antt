-- ===== src/Mpt/Hash.antt =====
-- Resolving digests changes no hash, as long as each node that takes a digest's place has it.
use steel.Prelude.{
  ℕ, zero, suc, ◌≤◌, ◌≡◌, refl, sym, ap, ◌∙◌, Option, none, some, B256, arith, length, le→leb,
  false,
}
use steel.Outcome.{Outcome, ok, >>=-eq-ok, ok-injective}
use steel.Codec.{Codec, Nibbles}
use steel.Mpt.Node.{
  Node, Children, null, leaf, extension, branch, digest, no_more, vacant, child, is_digest,
}
use steel.Mpt.Encode.{
  NodeRef, encode, ref_length, encode_refs, refs_length, rlp_encoded, child_refs, from_node,
}
use steel.Mpt.Resolve.{
  NodeMap, unless_digest, take_place, walk, walk_children, replacement, resolve_digests,
}
use steel.Mpt.Trie.{node_hash}

module _ (c : Codec) where
  -- Each node of the map is long enough to be referenced by its hash, and stands under it.
  pub record IsConsistent (m : NodeMap) : Type 0 where
    pub hashed : (d : B256) (n : Node) → m d ≡ some n → c.keccak256 (rlp_encoded c n) ≡ d
    pub long : (d : B256) (n : Node) → m d ≡ some n → 32 ≤ length (rlp_encoded c n)

  -- `n'` can stand wherever `n` stood: as the root and below another node.
  pub record SameHash (n n' : Node) : Type 0 where
    pub ref : encode c (from_node c n') ≡ encode c (from_node c n)
    pub size : ref_length c (from_node c n') ≡ ref_length c (from_node c n)
    pub hash : node_hash c n' ≡ node_hash c n

  pub record SameRefs (cs cs' : Children) : Type 0 where
    pub refs : encode_refs c (child_refs c cs') ≡ encode_refs c (child_refs c cs)
    pub sizes : refs_length c (child_refs c cs') ≡ refs_length c (child_refs c cs)

  rlp_encoded-extension :
      (prefix : Nibbles) (n n' : Node)
      → SameHash n n'
      → rlp_encoded c (extension prefix n') ≡ rlp_encoded c (extension prefix n)
  unfolding from_node rlp_encoded
  rlp_encoded-extension prefix n n' s = rw (s.ref, s.size)

  rlp_encoded-branch :
      (cs cs' : Children) → SameRefs cs cs' → rlp_encoded c (branch cs') ≡ rlp_encoded c (branch cs)
  unfolding rlp_encoded
  rlp_encoded-branch cs cs' s = rw (s.refs, s.sizes)

  extension-SameHash :
      (prefix : Nibbles) (n n' : Node)
      → SameHash n n'
      → SameHash (extension prefix n) (extension prefix n')
  unfolding from_node node_hash
  extension-SameHash prefix n n' s =
      let same = rlp_encoded-extension prefix n n' s in
      record {
        ref = ap (λ rlp. encode c (NodeRef.node rlp)) same;
        size = ap (λ rlp. ref_length c (NodeRef.node rlp)) same;
        hash = ap c.keccak256 same;
      }

  branch-SameHash : (cs cs' : Children) → SameRefs cs cs' → SameHash (branch cs) (branch cs')
  unfolding from_node node_hash
  branch-SameHash cs cs' s =
      let same = rlp_encoded-branch cs cs' s in
      record {
        ref = ap (λ rlp. encode c (NodeRef.node rlp)) same;
        size = ap (λ rlp. ref_length c (NodeRef.node rlp)) same;
        hash = ap c.keccak256 same;
      }

  SameHash-refl : (n : Node) → SameHash n n
  SameHash-refl n = record { ref = refl; size = refl; hash = refl }

  vacant-SameRefs : (cs cs' : Children) → SameRefs cs cs' → SameRefs (vacant cs) (vacant cs')
  unfolding rlp_encoded encode_refs refs_length
  vacant-SameRefs cs cs' s = record { refs = rw s.refs; sizes = rw s.sizes }

  child-SameRefs :
      (n n' : Node) (cs cs' : Children)
      → SameHash n n'
      → SameRefs cs cs'
      → SameRefs (child n cs) (child n' cs')
  unfolding rlp_encoded encode_refs refs_length from_node
  child-SameRefs n n' cs cs' h s = record {
    refs = rw (h.ref, s.refs);
    sizes = rw (h.size, s.sizes);
  }

  -- A long node is referenced by its hash, and hashes to it.
  digest-SameHash :
      (d : B256) (n : Node)
      → is_digest n ≡ false
      → c.keccak256 (rlp_encoded c n) ≡ d
      → 32 ≤ length (rlp_encoded c n)
      → SameHash (digest d) n
  unfolding from_node node_hash encode ref_length
  digest-SameHash d null p h l = absurd (unfold rlp_encoded in omega arith)
  digest-SameHash d (digest e) p h l = cc
  digest-SameHash d (leaf x v) p h l = record {
    ref = rw (le→leb _ _ l) (ap c.encode_string h);
    size = rw (le→leb _ _ l);
    hash = h;
  }
  digest-SameHash d _ p h l = record {
    ref = rw (le→leb _ _ l) (ap c.encode_string h);
    size = rw (le→leb _ _ l);
    hash = h;
  }

  SameHash-trans : (a b d : Node) → SameHash a b → SameHash b d → SameHash a d
  SameHash-trans a b d x y = record {
    ref = y.ref ∙ x.ref;
    size = y.size ∙ x.size;
    hash = y.hash ∙ x.hash;
  }

  abbrev Keeps : (Node → Outcome Node) → Type 0
  Keeps again = (n n' : Node) → again n ≡ ok n' → SameHash n n'

  unless_digest-eq-some :
      (o : Option Node) (n : Node) → unless_digest o ≡ some n → (o ≡ some n) × (is_digest n ≡ false)
  unless_digest-eq-some none n h = cc
  unless_digest-eq-some (some (digest e)) n h = cc
  unless_digest-eq-some (some null) n h = ground arith
  unless_digest-eq-some (some k) n h = ground arith

  module _ (m : NodeMap) (good : IsConsistent m) (again : Node → Outcome Node)
      (keeps : Keeps again) where
    digest-walk :
        (d : B256) (n' : Node) (o : Option Node)
        → replacement m d ≡ o
        → take_place again d o ≡ ok n'
        → SameHash (digest d) n'
    digest-walk d n' none e h = rw (sym (ok-injective h)) (SameHash-refl (digest d))
    digest-walk d n' (some n) e h =
        let (found, plain) = unless_digest-eq-some (m d) n (unfold replacement in e) in
        SameHash-trans (digest d) n n'
          (digest-SameHash d n plain (good.hashed d n found) (good.long d n found)) (keeps n n' h)

    mutual
      unfolding walk

      walk-SameHash : (n n' : Node) → walk m again n ≡ ok n' → SameHash n n'
      walk-SameHash null n' h = rw (sym (ok-injective h)) (SameHash-refl null)
      walk-SameHash (leaf prefix value) n' h =
          rw (sym (ok-injective h)) (SameHash-refl (leaf prefix value))
      walk-SameHash (extension prefix n) n' h =
          let (node', e, p) = >>=-eq-ok (walk m again n) _ h in
          rw (sym (ok-injective p)) (extension-SameHash prefix n node' (walk-SameHash n node' e))
      walk-SameHash (branch cs) n' h =
          let (cs', e, p) = >>=-eq-ok (walk_children m again cs) _ h in
          rw (sym (ok-injective p)) (branch-SameHash cs cs' (walk_children-SameRefs cs cs' e))
      walk-SameHash (digest d) n' h = digest-walk d n' (replacement m d) refl h

      walk_children-SameRefs :
          (cs cs' : Children) → walk_children m again cs ≡ ok cs' → SameRefs cs cs'
      walk_children-SameRefs no_more cs' h =
          rw (sym (ok-injective h)) (record { refs = refl; sizes = refl })
      walk_children-SameRefs (vacant cs) cs' h =
          let (rest, e, p) = >>=-eq-ok (walk_children m again cs) _ h in
          rw (sym (ok-injective p)) (vacant-SameRefs cs rest (walk_children-SameRefs cs rest e))
      walk_children-SameRefs (child n cs) cs' h =
          let (n', en, q) = >>=-eq-ok (walk m again n) _ h in
          let (rest, e, p) = >>=-eq-ok (walk_children m again cs) _ q in
          rw (sym (ok-injective p))
            (child-SameRefs n n' cs rest (walk-SameHash n n' en) (walk_children-SameRefs cs rest e))

  -- Resolving with a consistent map keeps the hash of the trie and every reference to it.
  pub resolve_digests-SameHash :
      (m : NodeMap)
      → IsConsistent m
      → (fuel : ℕ) (n n' : Node) → resolve_digests m fuel n ≡ ok n'
      → SameHash n n'
  unfolding resolve_digests
  resolve_digests-SameHash m good zero n n' h = cc
  resolve_digests-SameHash m good (suc fuel) n n' h =
      walk-SameHash m good (resolve_digests m fuel) (resolve_digests-SameHash m good fuel) n n' h
