-- ===== src/History/Forward.antt =====
-- What the commitment of a history by beacon roots fixes.
use steel.Prelude.{
  ℕ, ◌^◌, ◌%◌, ◌≡◌, ◌⊎◌, inl, inr, refl, sym, ap, subst, ◌∙◌, Bytes, B256, List, [], ◌∷◌, map, All,
  bytes_eq, bytes_eq→eq, ◌==◌,
}
use steel.Outcome.{ok, expect, assert->>, >>=-eq-ok, expect-eq-ok, ok-injective, ◌>>=◌}
use steel.Codec.{Collision}
use steel.Header.{Sealed}
use steel.Platform.{Platform}
use steel.Mpt.Node.{Node, null, leaf, extension, branch, digest, IsNode}
use steel.Mpt.Trie.{node_hash, hash_slow}
use steel.Mpt.Laws.{Laws}
use steel.Merkle.Proof
use steel.Merkle.Binding.{IsDigest, process_proof-binding}
use steel.Commitment
use steel.Commitment.{Commitment, decode_id, encode_id, as_u16, beacon}
use steel.Beacon
use steel.Beacon.{
  BeaconBlockId, eip4788, BeaconCommit, state_root_leaf_index, block_hash_leaf_index, into_commit,
  as_id, as_version,
}
use steel.Beacon.Binding.{rebuilt, commit-seal}
use steel.History.Contract.{SingleContractState, root}
use steel.History.BeaconRoots
use steel.History.Binding.{IsState, get-binding}
use steel.History.Commit.{StateCommit, HistoryCommit, timestamp_of, to_u64, step, walk, commit}

-- Well-formed tries and siblings of 32 bytes.
abbrev pub IsStep : StateCommit → Type 0
IsStep s = IsState s.state × All IsDigest s.state_commit.proof

abbrev pub block_ids : List StateCommit → List BeaconBlockId
block_ids xs = map (λ (s : StateCommit). s.state_commit.block_id) xs

decoded : (a b : Commitment) → a.id ≡ b.id → (decode_id a).0 ≡ (decode_id b).0
unfolding decode_id
decoded a b e = ap (λ id. id % 2 ^ 240) e

module _ (p : Platform) where
  -- what a step that succeeds has read and rebuilt
  abbrev Stepped : StateCommit → BeaconBlockId → B256 → BeaconBlockId → B256 → Type 0
  Stepped s id r next_id next =
      (ts : ℕ) × (timestamp_of id ≡ ok ts)
      × ((BeaconRoots.new p s.state >>= λ contract. BeaconRoots.get p contract ts) ≡ ok r)
      × (s.state_commit.block_id ≡ next_id)
      × (Proof.process_proof p.codec (root p s.state) s.state_commit.proof state_root_leaf_index
          ≡ ok next)

  step_lem :
      (s : StateCommit) (id next_id : BeaconBlockId) (r next : B256)
      → step p s id r ≡ ok (next_id, next)
      → Stepped s id r next_id next
  unfolding step into_commit Beacon.process_proof
  step_lem s id next_id r next e =
      let (ts, is_time, e1) = >>=-eq-ok (timestamp_of id) _ e in
      let (told, called, e2) = >>=-eq-ok (expect _ _) _ e1 in
      let (same, e3) = assert->> (bytes_eq told r) _ _ e2 in
      let (rebuilt, processed, pair) =
        >>=-eq-ok
          (expect
            (Proof.process_proof p.codec (root p s.state) s.state_commit.proof
              state_root_leaf_index)
            _)
          _ e3 in
      (
        ts,
        is_time,
        expect-eq-ok _ _ called ∙ ap ok (bytes_eq→eq _ _ same),
        ap (λ x. x.0) (ok-injective pair),
        expect-eq-ok _ _ processed ∙ ap ok (ap (λ x. x.1) (ok-injective pair)),
      )

  module _ (laws : Laws p.codec) (sized : (x : Bytes) → IsDigest (p.codec.sha256 x)) where
    abbrev Agree : B256 → B256 → Type 0
    Agree a b = (a ≡ b) ⊎ (Collision p.codec.keccak256 ⊎ Collision p.codec.sha256)

    node_hash-IsDigest : (n : Node) → IsNode n → IsDigest (node_hash p.codec n)
    unfolding node_hash IsNode
    node_hash-IsDigest null h = refl
    node_hash-IsDigest (leaf prefix value) h = laws.length-keccak256 _
    node_hash-IsDigest (extension prefix n) h = laws.length-keccak256 _
    node_hash-IsDigest (branch children) h = laws.length-keccak256 _
    node_hash-IsDigest (digest d) h = h

    root-IsDigest : (s : SingleContractState) → IsState s → IsDigest (root p s)
    unfolding root hash_slow
    root-IsDigest s h = node_hash-IsDigest s.state_trie.root (h.0)

    -- Steps to one root, looked up at one timestamp, are from one root.
    Stepped-Agree :
        (s t : StateCommit) (id next_id next_id' : BeaconBlockId) (r r' next : B256)
        → IsStep s
        → IsStep t
        → Stepped s id r next_id next
        → Stepped t id r' next_id' next
        → Agree r r'
    Stepped-Agree s t id next_id next_id' r r' next ws wt (ts, is_time, called, _, processed)
          (ts', is_time', called', _, processed') =
        let same_time : ts ≡ ts' = ok-injective (sym is_time ∙ is_time') in
        elim (process_proof-binding p.codec sized (root p s.state) (root p t.state)
          s.state_commit.proof t.state_commit.proof state_root_leaf_index next
          (root-IsDigest s.state (ws.0)) (root-IsDigest t.state (wt.0)) (ws.1) (wt.1) processed
          processed') [
            | inl roots ↦
                elim (get-binding p laws s.state t.state ts r r' (ws.0) (wt.0) roots called (
                  subst
                    (λ k.
                      (BeaconRoots.new p t.state >>= λ contract. BeaconRoots.get p contract k)
                      ≡ ok r')
                    (sym same_time) called')) [
                      | inl same ↦ inl same
                      | inr collision ↦ inr (inl collision)
                    ]
            | inr collision ↦ inr (inr collision)
          ]

    walk-Agree :
        (xs ys : List StateCommit) (id last_id last_id' : BeaconBlockId) (r r' last : B256)
        → block_ids xs ≡ block_ids ys
        → All IsStep xs
        → All IsStep ys
        → walk p xs id r ≡ ok (last_id, last)
        → walk p ys id r' ≡ ok (last_id', last)
        → Agree r r'
    unfolding walk
    walk-Agree [] [] id last_id last_id' r r' last ids wx wy e e' =
        inl (ap (λ x. x.1) (ok-injective e) ∙ sym (ap (λ x. x.1) (ok-injective e')))
    walk-Agree [] (t ∷ ys) id last_id last_id' r r' last ids wx wy e e' = cc
    walk-Agree (s ∷ xs) [] id last_id last_id' r r' last ids wx wy e e' = cc
    walk-Agree (s ∷ xs) (t ∷ ys) id last_id last_id' r r' last ids wx wy e e' =
        let ((next_id, next), stepped, rest) = >>=-eq-ok (step p s id r) _ e in
        let ((next_id', next'), stepped', rest') = >>=-eq-ok (step p t id r') _ e' in
        let was = step_lem s id next_id r next stepped in
        let was' = step_lem t id next_id' r' next' stepped' in
        let (here, later) = cons-injective ids in
        let same_id : next_id ≡ next_id' = sym (was.3) ∙ here ∙ was'.3 in
        elim (walk-Agree xs ys next_id last_id last_id' next next' last later (wx.1) (wy.1) rest
          (subst (λ i. walk p ys i next' ≡ ok (last_id', last)) (sym same_id) rest')) [
            | inl same ↦
                Stepped-Agree s t id next_id next_id' r r' next (wx.0) (wy.0) was
                  (subst (λ n. Stepped t id r' next_id' n) (sym same) was')
            | inr collision ↦ inr collision
          ]
      where
        cons-injective :
            {a b : BeaconBlockId} {ms ns : List BeaconBlockId}
            → (a ∷ ms) ≡ (b ∷ ns)
            → (a ≡ b) × (ms ≡ ns)
        cons-injective h = (cc, cc)

    -- what a commitment that is made has walked
    abbrev Walked : {H : Type 0} → HistoryCommit → Sealed H → B256 → Commitment → Type 0
    Walked self header config_id c =
        (first : Commitment) × (Beacon.commit p.codec block_hash_leaf_index self.evm_commit header
            config_id
          ≡ ok first)
        × (ts : ℕ) × (to_u64 (decode_id first).0 ≡ ok ts)
        × (last_id : BeaconBlockId) × (walk p self.state_commits (eip4788 ts) first.digest
            ≡ ok (last_id, c.digest))

    commit-Walked :
        {H : Type 0} (self : HistoryCommit) (header : Sealed H) (config_id : B256) (c : Commitment)
        → commit p self header config_id ≡ ok c
        → Walked self header config_id c
    unfolding commit Commitment.new
    commit-Walked self header config_id c e =
        let (first, made, e1) =
          >>=-eq-ok (Beacon.commit p.codec block_hash_leaf_index self.evm_commit header config_id) _
            e in
        let (_, e2) = assert->> ((decode_id first).1 == as_u16 beacon) _ _ e1 in
        let (ts, small, e3) = >>=-eq-ok (to_u64 (decode_id first).0) _ e2 in
        let ((last_id, last), walked, final) =
          >>=-eq-ok (walk p self.state_commits (eip4788 ts) first.digest) _ e3 in
        (
          first,
          made,
          ts,
          small,
          last_id,
          subst (λ d. walk p self.state_commits (eip4788 ts) first.digest ≡ ok (last_id, d))
              (ap (λ (k : Commitment). k.digest) (ok-injective final)) walked,
        )

    first_id :
        {H : Type 0} (self other : BeaconCommit) (x y : Sealed H) (config_id config_id' : B256)
        (c c' : Commitment)
        → self.block_id ≡ other.block_id
        → Beacon.commit p.codec block_hash_leaf_index self x config_id ≡ ok c
        → Beacon.commit p.codec block_hash_leaf_index other y config_id' ≡ ok c'
        → c.id ≡ c'.id
    unfolding Commitment.new
    first_id self other x y config_id config_id' c c' ids e e' =
        let (_, _, made) = rebuilt p.codec block_hash_leaf_index self x config_id c e in
        let (_, _, made') = rebuilt p.codec block_hash_leaf_index other y config_id' c' e' in
        sym (ap (λ (k : Commitment). k.id) made)
        ∙ ap (λ i. encode_id (as_id i) (as_version i)) ids
        ∙ ap (λ (k : Commitment). k.id) made'

    -- Two blocks committed to by histories with well-formed states and the same beacon block
    -- identifiers, whose commitments have one digest, have one hash, or keccak256 or sha256 collides on
    -- two inputs. Block hashes and siblings have 32 bytes.
    pub seal-binding :
        {H : Type 0} (self other : HistoryCommit) (x y : Sealed H) (config_id config_id' : B256)
        (c c' : Commitment)
        → IsDigest x.seal
        → IsDigest y.seal
        → All IsDigest self.evm_commit.proof
        → All IsDigest other.evm_commit.proof
        → self.evm_commit.block_id ≡ other.evm_commit.block_id
        → block_ids self.state_commits ≡ block_ids other.state_commits
        → All IsStep self.state_commits
        → All IsStep other.state_commits
        → commit p self x config_id ≡ ok c
        → commit p other y config_id' ≡ ok c'
        → c.digest ≡ c'.digest
        → (x.seal ≡ y.seal) ⊎ (Collision p.codec.keccak256 ⊎ Collision p.codec.sha256)
    seal-binding self other x y config_id config_id' c c' hx hy px py evm_id ids wx wy e e' same =
        let (first, made, ts, small, last_id, walked) = commit-Walked self x config_id c e in
        let (first', made', ts', small', last_id', walked') =
          commit-Walked other y config_id' c' e' in
        let id_eq =
          first_id self.evm_commit other.evm_commit x y config_id config_id' first first' evm_id
            made made' in
        let ts_eq : ts' ≡ ts =
          ok-injective (sym small' ∙ sym (ap to_u64 (decoded first first' id_eq)) ∙ small) in
        elim (walk-Agree self.state_commits other.state_commits (eip4788 ts) last_id last_id'
          first.digest first'.digest c.digest ids wx wy walked
          (subst
            (λ k. walk p other.state_commits (eip4788 k) first'.digest ≡ ok (last_id', c.digest))
            ts_eq
            (subst (λ d. walk p other.state_commits (eip4788 ts') first'.digest ≡ ok (last_id', d))
              (sym same) walked'))) [
                | inl digests ↦
                    elim (commit-seal p.codec block_hash_leaf_index sized self.evm_commit
                      other.evm_commit x y config_id config_id' first first' hx hy px py made made'
                      digests) [ inl seals ↦ inl seals | inr collision ↦ inr (inr collision) ]
                | inr collision ↦ inr collision
              ]
