-- ===== src/Mpt/Lookup.antt =====
-- Resolving digests changes no answer that the trie already gave.
use steel.Prelude.{ℕ, zero, suc, ◌≡◌, sym, Option, none, some, Bytes, [], ◌∷◌, arith}
use steel.Outcome.{Outcome, ok, >>=-eq-ok, ok-injective}
use steel.Codec.{Nibbles}
use steel.Mpt.Node.{
  Node, Children, null, leaf, extension, branch, digest, no_more, vacant, child, get, get_child,
  strip_prefix,
}
use steel.Mpt.Resolve.{NodeMap, walk, walk_children, resolve_digests}

-- The answer of an extension is the answer of its child, where the child keeps its own.
extension-get :
    (prefix : Nibbles) (node node' : Node) (key : Nibbles) (a : Option Bytes)
    → ((rest : Nibbles) → get node rest ≡ ok a → get node' rest ≡ ok a)
    → get (extension prefix node) key ≡ ok a
    → get (extension prefix node') key ≡ ok a
unfolding get
extension-get prefix node node' key a keep g = go (strip_prefix prefix key) g
  where
    go :
        (o : Option Nibbles)
        → (elim o [ none ↦ ok none | some r ↦ get node r ]) ≡ ok a
        → (elim o [ none ↦ ok none | some r ↦ get node' r ]) ≡ ok a
    go none g' = g'
    go (some r) g' = keep r g'

-- The induction: `n'` is what the walk makes of `n`.
mutual
  unfolding get walk

  walk-get :
      (m : NodeMap) (again : Node → Outcome Node) (n n' : Node) (key : Nibbles) (a : Option Bytes)
      → walk m again n ≡ ok n'
      → get n key ≡ ok a
      → get n' key ≡ ok a
  walk-get m again null n' key a h g = ground arith
  walk-get m again (leaf prefix value) n' key a h g = ground arith
  walk-get m again (extension prefix node) n' key a h g =
      let (node', e, p) = >>=-eq-ok (walk m again node) _ h in
      rw (sym (ok-injective p))
        (extension-get prefix node node' key a (λ rest. walk-get m again node node' rest a e) g)
  walk-get m again (branch children) n' [] a h g =
      let (children', e, p) = >>=-eq-ok (walk_children m again children) _ h in
      rw (sym (ok-injective p)) g
  walk-get m again (branch children) n' (i ∷ key) a h g =
      let (children', e, p) = >>=-eq-ok (walk_children m again children) _ h in
      rw (sym (ok-injective p)) (walk_children-get m again children children' i key a e g)
  walk-get m again (digest d) n' key a h g = cc

  walk_children-get :
      (m : NodeMap) (again : Node → Outcome Node) (cs cs' : Children) (i : ℕ) (key : Nibbles)
      (a : Option Bytes)
      → walk_children m again cs ≡ ok cs'
      → get_child cs i key ≡ ok a
      → get_child cs' i key ≡ ok a
  walk_children-get m again no_more cs' i key a h g = cc
  walk_children-get m again (vacant cs) cs' zero key a h g =
      let (rest, e, p) = >>=-eq-ok (walk_children m again cs) _ h in rw (sym (ok-injective p)) g
  walk_children-get m again (vacant cs) cs' (suc i) key a h g =
      let (rest, e, p) = >>=-eq-ok (walk_children m again cs) _ h in
      rw (sym (ok-injective p)) (walk_children-get m again cs rest i key a e g)
  walk_children-get m again (child n cs) cs' zero key a h g =
      let (n', en, q) = >>=-eq-ok (walk m again n) _ h in
      let (rest, e, p) = >>=-eq-ok (walk_children m again cs) _ q in
      rw (sym (ok-injective p)) (walk-get m again n n' key a en g)
  walk_children-get m again (child n cs) cs' (suc i) key a h g =
      let (n', en, q) = >>=-eq-ok (walk m again n) _ h in
      let (rest, e, p) = >>=-eq-ok (walk_children m again cs) _ q in
      rw (sym (ok-injective p)) (walk_children-get m again cs rest i key a e g)

-- Whatever a trie answers for a key, present or absent, it still answers after its digests have
-- been resolved, with any map of nodes.
pub get-resolve_digests :
    (m : NodeMap) (fuel : ℕ) (n n' : Node) (key : Nibbles) (a : Option Bytes)
    → resolve_digests m fuel n ≡ ok n'
    → get n key ≡ ok a
    → get n' key ≡ ok a
unfolding resolve_digests
get-resolve_digests m zero n n' key a h g = cc
get-resolve_digests m (suc fuel) n n' key a h g = walk-get m (resolve_digests m fuel) n n' key a h g
