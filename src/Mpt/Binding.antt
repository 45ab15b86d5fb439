-- ===== src/Mpt/Binding.antt =====
-- A root hash fixes the answers of every trie that has it.
use steel.Prelude.{
  ℕ, zero, suc, ◌≡◌, ◌⊎◌, inl, inr, refl, sym, ◌∙◌, Bytes, false, Option, none, some, [], ◌∷◌,
}
use steel.Outcome.{Outcome, ok, ok-injective, >>=-eq-ok, ◌>>=◌}
use steel.Codec.{Codec, Nibbles, Collision}
use steel.Mpt.Node.{
  Node, Children, null, leaf, extension, branch, digest, no_more, vacant, child, is_digest, IsNode,
  AreNodes, get, get_child,
}
use steel.Mpt.Encode.{rlp_encoded}
use steel.Mpt.Laws.{Laws}
use steel.Mpt.Items.{branch_items}
use steel.Mpt.Views.{payload_eq}
use steel.Mpt.Trie
use steel.Mpt.Trie.{MerkleTrie, node_hash, hash_slow, get_rlp}
use steel.Mpt.References.{
  Agree, answers-is_digest, same_ref, branch-ne-pair, ref-ne-empty, leaf_eq, leaf-ne-extension,
  extension_eq, keccak256_eq,
}

module _ (c : Codec) (laws : Laws c) where
  mutual
    unfolding get IsNode

    same_rlp :
        (n m : Node) (key : Nibbles) (a b : Option Bytes)
        → IsNode n
        → IsNode m
        → rlp_encoded c n ≡ rlp_encoded c m
        → get n key ≡ ok a
        → get m key ≡ ok b
        → Agree c laws a b
    same_rlp null null key a b hn hm e g g' = inl (cc)
    same_rlp null (leaf y w) key a b hn hm e g g' = cc (payload_eq c laws null (leaf y w) hn hm e)
    same_rlp null (extension y k) key a b hn hm e g g' =
        cc (payload_eq c laws null (extension y k) hn hm e)
    same_rlp null (branch ds) key a b hn hm e g g' = cc (payload_eq c laws null (branch ds) hn hm e)
    same_rlp null (digest d) key a b hn hm e g g' = cc
    same_rlp (leaf x v) null key a b hn hm e g g' = cc (payload_eq c laws (leaf x v) null hn hm e)
    same_rlp (leaf x v) (leaf y w) key a b hn hm e g g' =
        leaf_eq c laws x y v w key hn hm (payload_eq c laws (leaf x v) (leaf y w) hn hm e) g g'
    same_rlp (leaf x v) (extension y k) key a b hn hm e g g' = absurd (
        leaf-ne-extension c laws x y v k hn hm
          (payload_eq c laws (leaf x v) (extension y k) hn hm e))
    same_rlp (leaf x v) (branch ds) key a b hn hm e g g' =
        absurd
          (branch-ne-pair c laws ds _ _ hm.0 (payload_eq c laws (leaf x v) (branch ds) hn hm e))
    same_rlp (leaf x v) (digest d) key a b hn hm e g g' = cc
    same_rlp (extension x n) null key a b hn hm e g g' =
        cc (payload_eq c laws (extension x n) null hn hm e)
    same_rlp (extension x n) (leaf y w) key a b hn hm e g g' = absurd (
        leaf-ne-extension c laws y x w n hm hn
          (sym (payload_eq c laws (extension x n) (leaf y w) hn hm e)))
    same_rlp (extension x n) (extension y k) key a b hn hm e g g' =
        extension_eq c laws x y n k key hn hm
          (payload_eq c laws (extension x n) (extension y k) hn hm e) g g'
          (λ rest same h h'. same_rlp n k rest a b hn.2 hm.2 same h h')
    same_rlp (extension x n) (branch ds) key a b hn hm e g g' =
        absurd (
          branch-ne-pair c laws ds _ _ hm.0 (payload_eq c laws (extension x n) (branch ds) hn hm e))
    same_rlp (extension x n) (digest d) key a b hn hm e g g' = cc
    same_rlp (branch cs) null key a b hn hm e g g' = cc (payload_eq c laws (branch cs) null hn hm e)
    same_rlp (branch cs) (leaf y w) key a b hn hm e g g' =
        absurd (
          branch-ne-pair c laws cs _ _ hn.0
            (sym (payload_eq c laws (branch cs) (leaf y w) hn hm e)))
    same_rlp (branch cs) (extension y k) key a b hn hm e g g' = absurd (
        branch-ne-pair c laws cs _ _ hn.0
          (sym (payload_eq c laws (branch cs) (extension y k) hn hm e)))
    same_rlp (branch cs) (branch ds) [] a b hn hm e g g' = inl (cc)
    same_rlp (branch cs) (branch ds) (i ∷ key) a b hn hm e g g' =
        let items : branch_items c cs ≡ branch_items c ds =
          cc (payload_eq c laws (branch cs) (branch ds) hn hm e) in
        same_children cs ds i key a b hn.1 hm.1 items g g'
    same_rlp (branch cs) (digest d) key a b hn hm e g g' = cc
    same_rlp (digest d) m key a b hn hm e g g' = cc

    same_children :
        (cs ds : Children) (i : ℕ) (key : Nibbles) (a b : Option Bytes)
        → AreNodes cs
        → AreNodes ds
        → branch_items c cs ≡ branch_items c ds
        → get_child cs i key ≡ ok a
        → get_child ds i key ≡ ok b
        → Agree c laws a b
    same_children no_more ds i key a b hn hm e g g' = cc
    same_children (vacant cs) no_more i key a b hn hm e g g' = cc
    same_children (vacant cs) (vacant ds) zero key a b hn hm e g g' = inl (cc)
    same_children (vacant cs) (vacant ds) (suc i) key a b hn hm e g g' =
        same_children cs ds i key a b hn hm (cc) g g'
    same_children (vacant cs) (child m ds) i key a b hn hm e g g' =
        absurd (ref-ne-empty c laws m hm.1 hm.0 (cc))
    same_children (child n cs) no_more i key a b hn hm e g g' = cc
    same_children (child n cs) (vacant ds) i key a b hn hm e g g' =
        absurd (ref-ne-empty c laws n hn.1 hn.0 (cc))
    same_children (child n cs) (child m ds) zero key a b hn hm e g g' =
        same_ref c laws n m key hn.0 hm.0 (cc) g g'
          (λ same. same_rlp n m key a b hn.1 hm.1 same g g')
    same_children (child n cs) (child m ds) (suc i) key a b hn hm e g g' =
        same_children cs ds i key a b hn.2 hm.2 (cc) g g'

  -- The root hash is the hash of the root's encoding, also for the empty trie.
  node_hash-eq-keccak256 :
      (n : Node) → is_digest n ≡ false → node_hash c n ≡ c.keccak256 (rlp_encoded c n)
  unfolding node_hash
  node_hash-eq-keccak256 null p = unfold rlp_encoded in sym laws.keccak256-empty
  node_hash-eq-keccak256 (digest d) p = cc
  node_hash-eq-keccak256 (leaf x v) p = refl
  node_hash-eq-keccak256 (extension x n) p = refl
  node_hash-eq-keccak256 (branch cs) p = refl

  -- If two well-formed tries have the same root hash and both answer a key, present or absent,
  -- then their answers are the same, or there are two inputs, given here, on which keccak256 collides.
  pub get-hash_slow :
      (t u : MerkleTrie) (key : Bytes) (a b : Option Bytes)
      → IsNode t.root
      → IsNode u.root
      → hash_slow c t ≡ hash_slow c u
      → Trie.get c t key ≡ ok a
      → Trie.get c u key ≡ ok b
      → (a ≡ b) ⊎ Collision c.keccak256
  unfolding hash_slow Trie.get
  get-hash_slow t u key a b ht hu e g g' =
      let p = node_hash-eq-keccak256 t.root (answers-is_digest t.root (c.unpack key) g) in
      let q = node_hash-eq-keccak256 u.root (answers-is_digest u.root (c.unpack key) g') in
      elim (keccak256_eq c laws (rlp_encoded c t.root) (rlp_encoded c u.root) (sym p ∙ e ∙ q)) [
        | inl same ↦ same_rlp t.root u.root (c.unpack key) a b ht hu same g g'
        | inr collision ↦ inr collision
      ]

  get_rlp-of :
      {T : Type 0} (decode : Bytes → Outcome (T × Bytes)) (t : MerkleTrie) (key : Bytes)
      {a : Option T}
      → get_rlp c decode t key ≡ ok a
      → (found : Option Bytes) × (Trie.get c t key ≡ ok found)
        × ((elim found [
          | none ↦ ok none
          | some bytes ↦ (c.decode_exact decode bytes >>= λ v. ok (some v))
        ])
            ≡ ok a)
  unfolding get_rlp
  get_rlp-of decode t key e = >>=-eq-ok (Trie.get c t key) _ e

  -- The same for values that are read through their RLP decoder: two tries with one root hash that
  -- both yield a value for a key, or its absence, yield the same, or keccak256 collides.
  pub get_rlp-hash_slow :
      {T : Type 0} (decode : Bytes → Outcome (T × Bytes)) (t u : MerkleTrie) (key : Bytes)
      (a b : Option T)
      → IsNode t.root
      → IsNode u.root
      → hash_slow c t ≡ hash_slow c u
      → get_rlp c decode t key ≡ ok a
      → get_rlp c decode u key ≡ ok b
      → (a ≡ b) ⊎ Collision c.keccak256
  get_rlp-hash_slow decode t u key a b ht hu e g g' =
      let (x, p, q) = get_rlp-of decode t key g in
      let (y, p', q') = get_rlp-of decode u key g' in
      elim (get-hash_slow t u key x y ht hu e p p') [
        | inl same ↦ inl (ok-injective (sym q ∙ (rw same q')))
        | inr collision ↦ inr collision
      ]
