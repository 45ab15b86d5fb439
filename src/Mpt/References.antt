-- ===== src/Mpt/References.antt =====
-- References that are encoded alike, and nodes that are encoded alike, are of the same kind and agree.
use steel.Prelude.{
  ◌≡◌, ◌≢◌, ◌⊎◌, inl, inr, refl, sym, ap, ◌∙◌, Bytes, B256, Bool, true, false, Option, none, some,
  [], ◌∷◌, arith, length, leb, Bool-cases, bytes_eq, bytes_eq→eq, bytes_eq-ne,
}
use steel.Outcome.{ok}
use steel.Codec.{Codec, Nibbles, string, list, Collision}
use steel.Mpt.Node.{
  Node, Children, null, leaf, extension, branch, digest, is_null, is_digest, IsNode, get,
  strip_prefix, count,
}
use steel.Mpt.Encode.{NodeRef, encode, rlp_encoded, from_node}
use steel.Mpt.Laws.{Laws}
use steel.Mpt.Items.{payload, branch_items, from_node-plain, length-branch_items}
use steel.Mpt.Views.{payload_eq, encode_string-injective}
use steel.Mpt.Paths.{path_eq}

pub answers-is_digest :
    (k : Node) (key : Nibbles) {a : Option Bytes} → get k key ≡ ok a → is_digest k ≡ false
unfolding get
answers-is_digest (digest d) key g = cc
answers-is_digest _ key g = refl

module _ (c : Codec) (laws : Laws c) where
  abbrev pub Agree : {A : Type 0} → A → A → Type 0
  Agree a b = (a ≡ b) ⊎ Collision c.keccak256

  pub keccak256_eq : (x y : Bytes) → c.keccak256 x ≡ c.keccak256 y → Agree x y
  keccak256_eq x y e = elim (Bool-cases (bytes_eq x y)) [
    | inl same ↦ inl (bytes_eq→eq x y same)
    | inr other ↦ inr (x, y, bytes_eq-ne x y other, e)
  ]

  -- Two references to full nodes that are encoded alike refer to the same encoding.
  node_ref_eq : (x y : Bytes) → encode c (NodeRef.node x) ≡ encode c (NodeRef.node y) → Agree x y
  unfolding encode
  node_ref_eq x y e = elim (Bool-cases (leb 32 (length x))) [
    | inl lx ↦ elim (Bool-cases (leb 32 (length y))) [
      | inl ly ↦ keccak256_eq x y (encode_string-injective c laws _ _ (rw (lx, ly) at e))
      | inr ly ↦ absurd (mixed x y ly (rw (lx, ly) at e))
    ]
    | inr lx ↦ elim (Bool-cases (leb 32 (length y))) [
      | inl ly ↦ absurd (mixed y x lx (sym (rw (lx, ly) at e)))
      | inr ly ↦ inl (rw (lx, ly) at e)
    ]
  ]
    where
      mixed : (a b : Bytes) → leb 32 (length b) ≡ false → c.encode_string (c.keccak256 a) ≡ b → ⊥
      mixed a b short f = ground (
        arith,
        ap length f,
        laws.length-encode_string_digest (c.keccak256 a) (laws.length-keccak256 a),
      )

  -- Two nodes that answer a key, and are referenced alike, agree if nodes encoded alike do.
  pub same_ref :
      (n m : Node) (key : Nibbles) {a b : Option Bytes}
      → is_null n ≡ false
      → is_null m ≡ false
      → encode c (from_node c n) ≡ encode c (from_node c m)
      → get n key ≡ ok a
      → get m key ≡ ok b
      → (rlp_encoded c n ≡ rlp_encoded c m → Agree a b)
      → Agree a b
  same_ref n m key hn hm e g g' ih =
      elim (node_ref_eq _ _ (
        rw
          (
            from_node-plain c n hn (answers-is_digest n key g),
            from_node-plain c m hm (answers-is_digest m key g'),
          )
          at e)) [ inl same ↦ ih same | inr collision ↦ inr collision ]

  -- A branch never has the two items of a leaf or of an extension.
  pub branch-ne-pair :
      (cs : Children) (x y : Bytes) → count cs ≡ 16 → list (x ∷ y ∷ []) ≢ list (branch_items c cs)
  branch-ne-pair cs x y full e =
      let items : x ∷ y ∷ [] ≡ branch_items c cs = cc in
      omega (arith, full, length-branch_items c cs, ap length items)

  encode-empty : encode c NodeRef.empty ≡ c.encode_string []
  unfolding encode
  encode-empty = sym laws.encode_string-empty

  no_digest_empty : (d : B256) → length d ≡ 32 → c.encode_string d ≢ encode c NodeRef.empty
  no_digest_empty d h e =
      let same : d ≡ [] = encode_string-injective c laws d [] (e ∙ encode-empty) in
      omega (arith, h, ap length same)

  full-ne-empty :
      (n : Node)
      → IsNode n
      → is_null n ≡ false
      → is_digest n ≡ false
      → encode c (from_node c n) ≢ encode c NodeRef.empty
  unfolding encode rlp_encoded IsNode
  full-ne-empty n h p q e =
      cases (leb 32 (length (rlp_encoded c n))) refl (rw (from_node-plain c n p q) at e)
    where
      not_null : (k : Node) → is_null k ≡ false → is_digest k ≡ false → payload c k ≢ string []
      not_null null a b f = cc
      not_null (digest d) a b f = cc
      not_null (leaf x v) a b f = cc
      not_null _ a b f = cc

      cases :
          (b : Bool)
          → leb 32 (length (rlp_encoded c n)) ≡ b
          → encode c (NodeRef.node (rlp_encoded c n)) ≢ encode c NodeRef.empty
      cases true l f =
          no_digest_empty (c.keccak256 (rlp_encoded c n)) (laws.length-keccak256 _) (rw l at f)
      cases false l f = not_null n p q (payload_eq c laws n null h tt (rw l at f))

  -- The reference to a node that is not empty is not the encoding of an empty one.
  pub ref-ne-empty :
      (n : Node) → IsNode n → is_null n ≡ false → encode c (from_node c n) ≢ encode c NodeRef.empty
  ref-ne-empty null h p e = cc
  ref-ne-empty (digest d) h p e =
      no_digest_empty d (unfold IsNode in h) (unfold from_node encode in e)
  ref-ne-empty (leaf x v) h p e = full-ne-empty (leaf x v) h p refl e
  ref-ne-empty (extension x n) h p e = full-ne-empty (extension x n) h p refl e
  ref-ne-empty (branch cs) h p e = full-ne-empty (branch cs) h p refl e

  pub leaf_eq :
      (x y : Nibbles) (v w : Bytes) (key : Nibbles) {a b : Option Bytes}
      → IsNode (leaf x v)
      → IsNode (leaf y w)
      → payload c (leaf x v) ≡ payload c (leaf y w)
      → get (leaf x v) key ≡ ok a
      → get (leaf y w) key ≡ ok b
      → Agree a b
  unfolding IsNode get
  leaf_eq x y v w key hn hm e g g' =
      let (same, _) = path_eq c laws x y true true hn hm (cc) in
      let values : v ≡ w = encode_string-injective c laws v w (cc) in inl (cc)

  -- The kinds of node with a path are told apart by its flag.
  pub leaf-ne-extension :
      (x y : Nibbles) (v : Bytes) (n : Node)
      → IsNode (leaf x v)
      → IsNode (extension y n)
      → payload c (leaf x v) ≢ payload c (extension y n)
  unfolding IsNode
  leaf-ne-extension x y v n hn hm e = cc ((path_eq c laws x y true false hn hm.0 (cc)).1)

  pub extension_eq :
      (x y : Nibbles) (n m : Node) (key : Nibbles) {a b : Option Bytes}
      → IsNode (extension x n)
      → IsNode (extension y m)
      → payload c (extension x n) ≡ payload c (extension y m)
      → get (extension x n) key ≡ ok a
      → get (extension y m) key ≡ ok b
      → ((rest : Nibbles)
          → rlp_encoded c n ≡ rlp_encoded c m
          → get n rest ≡ ok a
          → get m rest ≡ ok b
          → Agree a b)
      → Agree a b
  unfolding IsNode get
  extension_eq x y n m key {a} {b} hn hm e g g' ih =
      let (same, _) = path_eq c laws x y false false hn.0 hm.0 (cc) in
      let refs : encode c (from_node c n) ≡ encode c (from_node c m) = cc in
      go refs (strip_prefix x key) g (rw (sym same) at g')
    where
      go :
          encode c (from_node c n) ≡ encode c (from_node c m)
          → (o : Option Nibbles) → (elim o [ none ↦ ok none | some r ↦ get n r ]) ≡ ok a
          → (elim o [ none ↦ ok none | some r ↦ get m r ]) ≡ ok b
          → Agree a b
      go refs none h h' = inl (cc)
      go refs (some r) h h' = same_ref n m r hn.1 hm.1 refs h h' (λ s. ih r s h h')
