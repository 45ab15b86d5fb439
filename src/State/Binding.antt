-- ===== src/State/Binding.antt =====
-- The state root fixes what the database tells of accounts and of their storage.
use steel.Prelude.{
  ℕ, ◌≡◌, ◌⊎◌, inl, inr, refl, sym, ap, subst, ◌∙◌, Bytes, B256, Address, Option, none, some, List,
  [], ◌∷◌, All, bytes_eq, bytes_eq→eq, bytes_eq_refl, Bool-cases,
}
use steel.Outcome.{ok, expect, expect-eq-ok, >>=-eq-ok, ok-injective}
use steel.Codec.{Collision}
use steel.Header.{Sealed}
use steel.Words.{to_be_bytes}
use steel.Platform.{Platform, StateAccount, AccountInfo, Log}
use steel.Mpt.Node.{IsNode}
use steel.Mpt.Trie.{MerkleTrie, get_rlp, hash_slow}
use steel.Mpt.Laws.{Laws}
use steel.Mpt.Binding.{get_rlp-hash_slow}
use steel.State.{
  StateDb, WrapStateDb, insert, collect_by, new, account, storage_trie, wrap, link, link_storage,
  seen, basic, read_slot, storage, or_default,
}

module _ (p : Platform) where
  -- Well-formed tries, each storage trie under its own hash.
  pub record IsWellFormed (db : StateDb) : Type 0 where
    pub state : IsNode db.state_trie.root
    pub storage_hash :
        (r : B256) (t : MerkleTrie) → db.storage_tries r ≡ some t → hash_slow p.codec t ≡ r
    pub storage_node : (r : B256) (t : MerkleTrie) → db.storage_tries r ≡ some t → IsNode t.root

  abbrev GoodTries : (Bytes → Option MerkleTrie) → Type 0
  GoodTries m =
      (r : B256) (t : MerkleTrie) → m r ≡ some t → (hash_slow p.codec t ≡ r) × IsNode t.root

  insert-GoodTries :
      (m : Bytes → Option MerkleTrie) (u : MerkleTrie)
      → GoodTries m
      → IsNode u.root
      → GoodTries (insert m (hash_slow p.codec u) u)
  unfolding insert
  insert-GoodTries m u good h r t e = elim (Bool-cases (bytes_eq (hash_slow p.codec u) r)) [
    | inl here ↦
        let same : u ≡ t = cc (rw here at e) in (rw (← same) (bytes_eq→eq _ r here), rw (← same) h)
    | inr there ↦ good r t (rw there at e)
  ]

  collect_by-GoodTries :
      (m : Bytes → Option MerkleTrie) (tries : List MerkleTrie)
      → GoodTries m
      → All (λ t. IsNode t.root) tries
      → GoodTries (collect_by (hash_slow p.codec) m tries)
  unfolding collect_by
  collect_by-GoodTries m [] good all = good
  collect_by-GoodTries m (t ∷ tries) good all =
      collect_by-GoodTries (insert m (hash_slow p.codec t) t) tries
        (insert-GoodTries m t good all.0) all.1

  -- A database built from well-formed tries is well formed.
  pub new-IsWellFormed :
      (state_trie : MerkleTrie) (storage_tries : List MerkleTrie) (contracts : List Bytes)
      (block_hashes : ℕ → Option B256) (logs : Option (List Log))
      → IsNode state_trie.root
      → All (λ t. IsNode t.root) storage_tries
      → IsWellFormed (new p state_trie storage_tries contracts block_hashes logs)
  unfolding new
  new-IsWellFormed state_trie storage_tries contracts block_hashes logs h all =
      let good = collect_by-GoodTries (λ k. none) storage_tries (λ r t e. cc) all in
      record {
        state = h;
        storage_hash = λ r t e. (good r t e).0;
        storage_node = λ r t e. (good r t e).1;
      }

  module _ (laws : Laws p.codec) where
    -- Two well-formed databases with one state root that both answer for an account, present or
    -- absent, give the same answer, or keccak256 collides on the two inputs given.
    pub account-binding :
        (db other : StateDb) (address : Address) (a b : Option StateAccount)
        → IsWellFormed db
        → IsWellFormed other
        → hash_slow p.codec db.state_trie ≡ hash_slow p.codec other.state_trie
        → account p db address ≡ ok a
        → account p other address ≡ ok b
        → (a ≡ b) ⊎ Collision p.codec.keccak256
    unfolding account
    account-binding db other address a b good good' e g g' =
        get_rlp-hash_slow p.codec laws p.decode_account db.state_trie other.state_trie
          (p.codec.keccak256 address) a b good.state good'.state e (expect-eq-ok _ _ g)
          (expect-eq-ok _ _ g')

  slot_key : ℕ → B256
  slot_key index = p.codec.keccak256 (to_be_bytes 32 index)

  -- Where the value of a slot comes from.
  abbrev SlotOf : StateDb → ℕ → ℕ → Option StateAccount → Type 0
  SlotOf db index v none = v ≡ 0
  SlotOf db index v (some a) =
      (t : MerkleTrie) × (db.storage_tries a.storage_root ≡ some t)
      × (value : Option ℕ) × (get_rlp p.codec p.decode_u256 t (slot_key index) ≡ ok value)
      × (v ≡ or_default 0 value)

  linked_lem :
      {H : Type 0} (w : WrapStateDb H) (address : Address) (s : Option MerkleTrie)
      → (link w address s).account_storage address ≡ some s
  unfolding link
  linked_lem w address s = rw (bytes_eq_refl address)

  read_slot_lem :
      (t : MerkleTrie) (index v : ℕ)
      → read_slot p (some t) index ≡ ok v
      → (value : Option ℕ) × (get_rlp p.codec p.decode_u256 t (slot_key index) ≡ ok value)
        × (v ≡ or_default 0 value)
  unfolding read_slot slot_key
  read_slot_lem t index v e =
      let (value, g, d) = >>=-eq-ok (expect _ _) _ e in
      (value, expect-eq-ok _ _ g, sym (ok-injective d))

  linked_slot :
      {H : Type 0} (w : WrapStateDb H) (address : Address) (s : Option MerkleTrie) (index v : ℕ)
      → storage p (link w address s) address index ≡ ok v
      → read_slot p s index ≡ ok v
  unfolding storage
  linked_slot w address s index v e = rw (linked_lem w address s) at e

  unlinked_slot :
      {H : Type 0} (db : StateDb) (header : Sealed H) (address : Address) (index v : ℕ)
      → ¬ (storage p (wrap db header) address index ≡ ok v)
  unfolding wrap storage
  unlinked_slot db header address index v e = cc

  empty_slot : (index v : ℕ) → read_slot p none index ≡ ok v → v ≡ 0
  unfolding read_slot
  empty_slot index v e = sym (ok-injective e)

  trie_slot :
      {H : Type 0} (db : StateDb) (header : Sealed H) (address : Address) (index v : ℕ)
      (a : StateAccount) (o : Option MerkleTrie)
      → db.storage_tries a.storage_root ≡ o
      → storage p (link_storage (wrap db header) address o) address index ≡ ok v
      → SlotOf db index v (some a)
  unfolding link_storage
  trie_slot db header address index v a none o_eq e =
      absurd (unlinked_slot db header address index v e)
  trie_slot db header address index v a (some t) o_eq e =
      let (value, g, v_eq) =
        read_slot_lem t index v (linked_slot (wrap db header) address (some t) index v e) in
      (t, o_eq, value, g, v_eq)

  slot-account :
      {H : Type 0} (db : StateDb) (header : Sealed H) (address : Address) (index v : ℕ)
      (found : Option StateAccount)
      → storage p (seen (wrap db header) address found).1 address index ≡ ok v
      → SlotOf db index v found
  unfolding seen storage_trie wrap
  slot-account db header address index v none e =
      empty_slot index v (linked_slot (wrap db header) address none index v e)
  slot-account db header address index v (some a) e =
      trie_slot db header address index v a (db.storage_tries a.storage_root) refl e

  basic_lem :
      {H : Type 0} (db : StateDb) (header : Sealed H) (address : Address)
      (info : Option AccountInfo) (w : WrapStateDb H) (index v : ℕ)
      → basic p (wrap db header) address ≡ ok (info, w)
      → storage p w address index ≡ ok v
      → (found : Option StateAccount) × (account p db address ≡ ok found) × SlotOf db index v found
  unfolding basic wrap
  basic_lem db header address info w index v e e' =
      let (found, g, s) = >>=-eq-ok (account p db address) _ e in
      let after : (seen (wrap db header) address found).1 ≡ w = ap (λ r. r.1) (ok-injective s) in
      (
        found,
        g,
        slot-account db header address index v found
            (subst (λ x. storage p x address index ≡ ok v) (sym after) e'),
      )

  module _ (laws : Laws p.codec) where
    slot-binding :
        (db other : StateDb) (index v u : ℕ) (found : Option StateAccount)
        → IsWellFormed db
        → IsWellFormed other
        → SlotOf db index v found
        → SlotOf other index u found
        → (v ≡ u) ⊎ Collision p.codec.keccak256
    slot-binding db other index v u none good good' s s' = inl (cc (s, s'))
    slot-binding db other index v u (some a) good good' (t, in_db, value, read, v_eq)
          (t', in_other, value', read', u_eq) =
        let roots : hash_slow p.codec t ≡ hash_slow p.codec t' =
          good.storage_hash _ t in_db ∙ sym (good'.storage_hash _ t' in_other) in
        elim (get_rlp-hash_slow p.codec laws p.decode_u256 t t' (slot_key index) value value'
          (good.storage_node _ t in_db) (good'.storage_node _ t' in_other) roots read read') [
            | inl same ↦ inl (v_eq ∙ ap (or_default 0) same ∙ sym u_eq)
            | inr collision ↦ inr collision
          ]

    -- Two well-formed databases with one state root, wrapped afresh, that both answer for an account
    -- and then for one of its slots, give the same value, or keccak256 collides on two inputs.
    pub storage-binding :
        {H : Type 0} (db other : StateDb) (header header' : Sealed H) (address : Address)
        (index v u : ℕ) (info info' : Option AccountInfo) (w w' : WrapStateDb H)
        → IsWellFormed db
        → IsWellFormed other
        → hash_slow p.codec db.state_trie ≡ hash_slow p.codec other.state_trie
        → basic p (wrap db header) address ≡ ok (info, w)
        → basic p (wrap other header') address ≡ ok (info', w')
        → storage p w address index ≡ ok v
        → storage p w' address index ≡ ok u
        → (v ≡ u) ⊎ Collision p.codec.keccak256
    storage-binding db other header header' address index v u info info' w w' good good' roots b b'
          s s' =
        let (found, g, slot) = basic_lem db header address info w index v b s in
        let (found', g', slot') = basic_lem other header' address info' w' index u b' s' in
        elim (account-binding laws db other address found found' good good' roots g g') [
          | inl same ↦
              slot-binding db other index v u found good good' slot
                (subst (SlotOf other index u) (sym same) slot')
          | inr collision ↦ inr collision
        ]
