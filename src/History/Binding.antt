-- ===== src/History/Binding.antt =====
-- A state root fixes what the two contracts answer.
use steel.Prelude.{
  ℕ, ◌+◌, ◌%◌, ◌≡◌, ◌⊎◌, inl, inr, sym, ap, subst, ◌∙◌, B256, Address, Option, ◌==◌, not, bytes_eq,
  bytes_eq→eq,
}
use steel.Outcome.{ok, guard->>, >>=-eq-ok, ok-injective, ◌>>=◌}
use steel.Codec.{Collision}
use steel.Words.{to_be_bytes}
use steel.Platform.{Platform, StateAccount, AccountInfo}
use steel.Mpt.Node.{IsNode}
use steel.Mpt.Trie.{get_rlp, hash_slow}
use steel.Mpt.Laws.{Laws}
use steel.Mpt.Binding.{get_rlp-hash_slow}
use steel.State.{or_default}
use steel.History.Contract.{SingleContractState, root, basic, storage, check_code}
use steel.History.BeaconRoots
use steel.History.HistoryStorage

-- A state whose tries are well formed.
abbrev pub IsState : SingleContractState → Type 0
IsState s = IsNode s.state_trie.root × IsNode s.storage_trie.root

module _ (p : Platform) where
  -- the storage trie is the one that the account of the contract names
  abbrev HasAccount : SingleContractState → Address → Type 0
  HasAccount s address =
      (address ≡ s.address)
      × (found : Option StateAccount) × (get_rlp p.codec p.decode_account s.state_trie
            (p.codec.keccak256 s.address)
          ≡ ok found)
      × ((or_default p.default_account found).storage_root ≡ hash_slow p.codec s.storage_trie)

  basic-HasAccount :
      (s : SingleContractState) (address : Address) (info : Option AccountInfo)
      → basic p s address ≡ ok info
      → HasAccount s address
  unfolding basic
  basic-HasAccount s address info e =
      let (here, e1) = guard->> (bytes_eq address s.address) _ _ e in
      let (found, g, e2) =
        >>=-eq-ok (get_rlp p.codec p.decode_account s.state_trie (p.codec.keccak256 s.address)) _
          e1 in
      let (matches, _) =
        guard->>
          (bytes_eq (or_default p.default_account found).storage_root
            (hash_slow p.codec s.storage_trie))
          _ _ e2 in
      (bytes_eq→eq _ _ here, found, g, bytes_eq→eq _ _ matches)

  check_code-HasAccount :
      (s : SingleContractState) (address : Address) (code_hash : B256) {u : Unit {0}}
      → check_code p s address code_hash ≡ ok u
      → HasAccount s address
  unfolding check_code
  check_code-HasAccount s address code_hash e =
      let (info, b, _) = >>=-eq-ok (basic p s address) _ e in basic-HasAccount s address info b

  storage_lem :
      (s : SingleContractState) (address : Address) (index v : ℕ)
      → storage p s address index ≡ ok v
      → (value : Option ℕ) × (get_rlp p.codec p.decode_u256 s.storage_trie
            (p.codec.keccak256 (to_be_bytes 32 index))
          ≡ ok value)
        × (or_default 0 value ≡ v)
  unfolding storage
  storage_lem s address index v e =
      let (_, e1) = guard->> (bytes_eq address s.address) _ _ e in
      let (value, g, d) = >>=-eq-ok (get_rlp p.codec p.decode_u256 s.storage_trie _) _ e1 in
      (value, g, ok-injective d)

  -- what a contract's call that succeeds has read
  abbrev Read : SingleContractState → Address → ℕ → B256 → Type 0
  Read s address index h =
      HasAccount s address × (v : ℕ) × (storage p s address index ≡ ok v) × (to_be_bytes 32 v ≡ h)

  hash_call :
      (s : SingleContractState) (number : ℕ) (h : B256)
      → (HistoryStorage.new p s >>= λ contract. HistoryStorage.get_unchecked p contract number)
        ≡ ok h
      → Read s HistoryStorage.address (number % HistoryStorage.history_serve_window) h
  unfolding HistoryStorage.new HistoryStorage.get_unchecked
  hash_call s number h e =
      let (c, made, call) = >>=-eq-ok (HistoryStorage.new p s) _ e in
      let (_, check, self) =
        >>=-eq-ok (check_code p s HistoryStorage.address HistoryStorage.code_hash) _ made in
      let (v, read, out) =
        >>=-eq-ok
          (storage p c HistoryStorage.address (number % HistoryStorage.history_serve_window)) _
          call in
      (
        check_code-HasAccount s _ _ check,
        v,
        subst
            (λ x.
              storage p x HistoryStorage.address (number % HistoryStorage.history_serve_window)
              ≡ ok v)
            (sym (ok-injective self)) read,
        ok-injective out,
      )

  root_call :
      (s : SingleContractState) (timestamp : ℕ) (h : B256)
      → (BeaconRoots.new p s >>= λ contract. BeaconRoots.get p contract timestamp) ≡ ok h
      → Read s BeaconRoots.address
          (timestamp % BeaconRoots.history_buffer_length + BeaconRoots.history_buffer_length)
          h
  unfolding BeaconRoots.new BeaconRoots.get
  root_call s timestamp h e =
      let (c, made, call) = >>=-eq-ok (BeaconRoots.new p s) _ e in
      let (_, check, self) =
        >>=-eq-ok (check_code p s BeaconRoots.address BeaconRoots.code_hash) _ made in
      let (_, call1) = guard->> (not (timestamp == 0)) _ _ call in
      let (stored, _, call2) =
        >>=-eq-ok (storage p c BeaconRoots.address (timestamp % BeaconRoots.history_buffer_length))
          _ call1 in
      let (_, call3) = guard->> (stored == timestamp) _ _ call2 in
      let (v, read, out) =
        >>=-eq-ok
          (storage p c BeaconRoots.address
            (timestamp % BeaconRoots.history_buffer_length + BeaconRoots.history_buffer_length))
          _ call3 in
      (
        check_code-HasAccount s _ _ check,
        v,
        subst
            (λ x.
              storage p x BeaconRoots.address
                (timestamp % BeaconRoots.history_buffer_length + BeaconRoots.history_buffer_length)
              ≡ ok v)
            (sym (ok-injective self)) read,
        ok-injective out,
      )

  module _ (laws : Laws p.codec) where
    storage_root-binding :
        (s t : SingleContractState) (address : Address)
        → IsState s
        → IsState t
        → root p s ≡ root p t
        → HasAccount s address
        → HasAccount t address
        → (hash_slow p.codec s.storage_trie ≡ hash_slow p.codec t.storage_trie)
          ⊎ Collision p.codec.keccak256
    unfolding root
    storage_root-binding s t address ws wt roots (here, found, g, r) (here', found', g', r') =
        let same : s.address ≡ t.address = sym here ∙ here' in
        elim (get_rlp-hash_slow p.codec laws p.decode_account s.state_trie t.state_trie
          (p.codec.keccak256 s.address) found found' (ws.0) (wt.0) roots g
          (subst
            (λ a. get_rlp p.codec p.decode_account t.state_trie (p.codec.keccak256 a) ≡ ok found')
            (sym same) g')) [
              | inl e ↦ inl (sym r ∙ ap (λ o. (or_default p.default_account o).storage_root) e ∙ r')
              | inr collision ↦ inr collision
            ]

    -- Two states with one root, whose accounts of the contract are right, agree on what is read.
    Read-binding :
        (s t : SingleContractState) (address : Address) (index : ℕ) (h k : B256)
        → IsState s
        → IsState t
        → root p s ≡ root p t
        → Read s address index h
        → Read t address index k
        → (h ≡ k) ⊎ Collision p.codec.keccak256
    Read-binding s t address index h k ws wt roots (a, v, e, out) (a', u, e', out') =
        let (value, g, d) = storage_lem s address index v e in
        let (value', g', d') = storage_lem t address index u e' in
        elim (storage_root-binding s t address ws wt roots a a') [
          | inl same ↦
              elim (get_rlp-hash_slow p.codec laws p.decode_u256 s.storage_trie t.storage_trie
                (p.codec.keccak256 (to_be_bytes 32 index)) value value' (ws.1) (wt.1) same g g') [
                  | inl o ↦
                      inl (sym out ∙ ap (to_be_bytes 32) (sym d ∙ ap (or_default 0) o ∙ d') ∙ out')
                  | inr collision ↦ inr collision
                ]
          | inr collision ↦ inr collision
        ]

    -- Two states with one root that both tell the hash of a block, after the check of the contract's
    -- account, tell the same hash, or keccak256 collides on two inputs.
    pub get_unchecked-binding :
        (s t : SingleContractState) (number : ℕ) (h k : B256)
        → IsState s
        → IsState t
        → root p s ≡ root p t
        → (HistoryStorage.new p s >>= λ contract. HistoryStorage.get_unchecked p contract number)
          ≡ ok h
        → (HistoryStorage.new p t >>= λ contract. HistoryStorage.get_unchecked p contract number)
          ≡ ok k
        → (h ≡ k) ⊎ Collision p.codec.keccak256
    get_unchecked-binding s t number h k ws wt roots e e' =
        Read-binding s t _ _ h k ws wt roots (hash_call s number h e) (hash_call t number k e')

    -- Two states with one root that both tell the beacon root of a timestamp, after the check of the
    -- contract's account, tell the same root, or keccak256 collides on two inputs.
    pub get-binding :
        (s t : SingleContractState) (timestamp : ℕ) (h k : B256)
        → IsState s
        → IsState t
        → root p s ≡ root p t
        → (BeaconRoots.new p s >>= λ contract. BeaconRoots.get p contract timestamp) ≡ ok h
        → (BeaconRoots.new p t >>= λ contract. BeaconRoots.get p contract timestamp) ≡ ok k
        → (h ≡ k) ⊎ Collision p.codec.keccak256
    get-binding s t timestamp h k ws wt roots e e' =
        Read-binding s t _ _ h k ws wt roots (root_call s timestamp h e)
          (root_call t timestamp k e')
