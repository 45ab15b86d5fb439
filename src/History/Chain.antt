-- ===== src/History/Chain.antt =====
-- What the commitment of an EIP-2935 history fixes.
use steel.Prelude.{
  ℕ, ◌+◌, ◌*◌, ◌≤◌, ◌≡◌, ◌⊎◌, inl, inr, sym, ap, subst, ◌∙◌, B256, true, List, [], ◌∷◌, map, length,
  All, bytes_eq, bytes_eq→eq, arith,
}
use steel.Outcome.{ok, expect, assert->>, >>=-eq-ok, expect-eq-ok, ok-injective, ◌>>=◌}
use steel.Codec.{Collision}
use steel.Header.{EvmBlockHeader, Sealed, seal_slow}
use steel.Platform.{Platform}
use steel.Mpt.Laws.{Laws}
use steel.Commitment
use steel.Commitment.{Commitment, as_u16, block}
use steel.History.Contract.{root}
use steel.History.HistoryStorage
use steel.History.Binding.{IsState, get_unchecked-binding}
use steel.History.Eip2935.{StateCommit, HistoryCommit, in_window, step, walk, commit}

module _ (p : Platform) {H : Type 0} (ops : EvmBlockHeader H) where
  -- what a step that succeeds has checked
  record IsStep (s : StateCommit H) (header next : Sealed H) : Type 0 where
    pub next_eq : next ≡ seal_slow ops s.header
    pub window : in_window (ops.number header.inner) (ops.number s.header) ≡ true
    pub state_root : root p s.state ≡ ops.state_root s.header
    pub stored :
        (HistoryStorage.new p s.state >>= λ contract.
        HistoryStorage.get_unchecked p contract (ops.number header.inner))
        ≡ ok header.seal

  step_lem :
      (s : StateCommit H) (header next : Sealed H)
      → step p ops s header ≡ ok next
      → IsStep s header next
  unfolding step
  step_lem s header next e =
      let (window, e1) =
        assert->> (in_window (ops.number header.inner) (ops.number s.header)) _ _ e in
      let (state_root, e2) =
        assert->> (bytes_eq (root p s.state) (ops.state_root s.header)) _ _ e1 in
      let (hash, told, e3) = >>=-eq-ok (expect _ _) _ e2 in
      let (same, last) = assert->> (bytes_eq hash header.seal) _ _ e3 in
      record {
        next_eq = sym (ok-injective last);
        window = window;
        state_root = bytes_eq→eq _ _ state_root;
        stored = expect-eq-ok _ _ told ∙ ap ok (bytes_eq→eq _ _ same);
      }

  window_lem : (a b : ℕ) → in_window a b ≡ true → (a + 1 ≤ b) × (b ≤ a + 8191)
  unfolding in_window
  window_lem a b h = ground arith

  walk_window :
      (xs : List (StateCommit H)) (x last : Sealed H)
      → walk p ops xs x ≡ ok last
      → (ops.number x.inner + length xs ≤ ops.number last.inner)
        × (ops.number last.inner ≤ ops.number x.inner + 8191 * length xs)
  unfolding walk
  walk_window [] x last e =
      let same = ap (λ (s : Sealed H). ops.number s.inner) (ok-injective e) in
      (omega arith, omega arith)
  walk_window (s ∷ xs) x last e =
      let (next, stepped, rest) = >>=-eq-ok (step p ops s x) _ e in
      let checked = step_lem s x next stepped in
      let at_next = ap (λ (t : Sealed H). ops.number t.inner) checked.next_eq in
      let near = window_lem (ops.number x.inner) (ops.number s.header) checked.window in
      let far = walk_window xs next last rest in
      (
        omega (arith, at_next, near.0, near.1, far.0, far.1),
        omega (arith, at_next, near.0, near.1, far.0, far.1),
      )

  abbrev numbers : List (StateCommit H) → List ℕ
  numbers xs = map (λ (s : StateCommit H). ops.number s.header) xs

  module _ (laws : Laws p.codec)
      (headers : (x y : H)
        → ops.hash_slow x ≡ ops.hash_slow y
        → (x ≡ y) ⊎ Collision p.codec.keccak256) where
    walk-binding :
        (xs ys : List (StateCommit H)) (x y last last' : Sealed H)
        → numbers xs ≡ numbers ys
        → ops.number x.inner ≡ ops.number y.inner
        → All (λ s. IsState s.state) xs
        → All (λ s. IsState s.state) ys
        → walk p ops xs x ≡ ok last
        → walk p ops ys y ≡ ok last'
        → last.seal ≡ last'.seal
        → (x.seal ≡ y.seal) ⊎ Collision p.codec.keccak256
    unfolding walk
    walk-binding [] [] x y last last' ns n wx wy e e' same = inl (
        ap (λ (s : Sealed H). s.seal) (ok-injective e)
        ∙ same
        ∙ sym (ap (λ (s : Sealed H). s.seal) (ok-injective e')))
    walk-binding [] (t ∷ ys) x y last last' ns n wx wy e e' same = cc
    walk-binding (s ∷ xs) [] x y last last' ns n wx wy e e' same = cc
    walk-binding (s ∷ xs) (t ∷ ys) x y last last' ns n wx wy e e' same =
        let (next, stepped, rest) = >>=-eq-ok (step p ops s x) _ e in
        let (next', stepped', rest') = >>=-eq-ok (step p ops t y) _ e' in
        let checked = step_lem s x next stepped in
        let checked' = step_lem t y next' stepped' in
        let seal_eq = ap (λ (r : Sealed H). r.seal) checked.next_eq in
        let seal_eq' = ap (λ (r : Sealed H). r.seal) checked'.next_eq in
        let number_eq = ap (λ (r : Sealed H). ops.number r.inner) checked.next_eq in
        let number_eq' = ap (λ (r : Sealed H). ops.number r.inner) checked'.next_eq in
        let (here, later) = cons-injective ns in
        elim (walk-binding xs ys next next' last last' later (number_eq ∙ here ∙ sym number_eq')
          (wx.1) (wy.1) rest rest' same) [
            | inl seals ↦ elim (headers s.header t.header (sym seal_eq ∙ seals ∙ seal_eq')) [
              | inl one ↦
                  get_unchecked-binding p laws s.state t.state (ops.number x.inner) x.seal y.seal
                    (wx.0) (wy.0)
                    (checked.state_root ∙ ap ops.state_root one ∙ sym checked'.state_root)
                    checked.stored
                    (subst
                      (λ k.
                        (HistoryStorage.new p t.state >>= λ contract.
                        HistoryStorage.get_unchecked p contract k)
                        ≡ ok y.seal)
                      (sym n) checked'.stored)
              | inr collision ↦ inr collision
            ]
            | inr collision ↦ inr collision
          ]
      where
        cons-injective : {a b : ℕ} {ms ns : List ℕ} → (a ∷ ms) ≡ (b ∷ ns) → (a ≡ b) × (ms ≡ ns)
        cons-injective h = (cc, cc)

    -- Two blocks with one number, committed to by histories with well-formed states, whose steps are
    -- blocks with the same numbers and whose commitments have one digest, have one hash, or keccak256
    -- collides on two inputs. Headers with one hash are one header, or else keccak256 collides.
    pub commit-binding :
        (self other : HistoryCommit H) (x y : Sealed H) (config_id config_id' : B256)
        (c c' : Commitment)
        → numbers self.state_commits ≡ numbers other.state_commits
        → ops.number x.inner ≡ ops.number y.inner
        → All (λ s. IsState s.state) self.state_commits
        → All (λ s. IsState s.state) other.state_commits
        → commit p ops self x config_id ≡ ok c
        → commit p ops other y config_id' ≡ ok c'
        → c.digest ≡ c'.digest
        → (x.seal ≡ y.seal) ⊎ Collision p.codec.keccak256
    unfolding commit Commitment.new
    commit-binding self other x y config_id config_id' c c' ns n wx wy e e' same =
        let (last, walked, made) = >>=-eq-ok (walk p ops self.state_commits x) _ e in
        let (last', walked', made') = >>=-eq-ok (walk p ops other.state_commits y) _ e' in
        let digest_eq = ap (λ (k : Commitment). k.digest) (ok-injective made) in
        let digest_eq' = ap (λ (k : Commitment). k.digest) (ok-injective made') in
        walk-binding self.state_commits other.state_commits x y last last' ns n wx wy walked walked'
          (digest_eq ∙ same ∙ sym digest_eq')

  -- The commitment of a history of k steps is to a block from k to 8191 * k blocks after the block it
  -- starts from, under the configuration given.
  pub commit_window :
      (self : HistoryCommit H) (header : Sealed H) (config_id : B256) (c : Commitment)
      → commit p ops self header config_id ≡ ok c
      → (number : ℕ) × (digest : B256) × (c ≡ Commitment.new (as_u16 block) number digest config_id)
        × (ops.number header.inner + length self.state_commits ≤ number)
        × (number ≤ ops.number header.inner + 8191 * length self.state_commits)
  unfolding commit
  commit_window self header config_id c e =
      let (last, walked, made) = >>=-eq-ok (walk p ops self.state_commits header) _ e in
      let (low, high) = walk_window self.state_commits header last walked in
      (ops.number last.inner, last.seal, sym (ok-injective made), low, high)
