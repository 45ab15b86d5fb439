-- ===== src/Mpt/Terminates.antt =====
-- Resolving ends where the digests of the map do not form a cycle.
use steel.Prelude.{ℕ, zero, suc, ◌<◌, ◌≡◌, refl, B256, Option, none, some, arith}
use steel.Outcome.{Outcome, ok}
use steel.Mpt.Node.{Node, Children, null, leaf, extension, branch, digest, no_more, vacant, child}
use steel.Mpt.Resolve.{
  NodeMap, unless_digest, replacement, take_place, walk, walk_children, resolve_digests,
}

-- `P` holds of every digest that stands in the node.
unfoldable mutual
  pub AllDigests : (B256 → Type 0) → Node → Type 0
  AllDigests P null = Unit
  AllDigests P (leaf prefix value) = Unit
  AllDigests P (extension prefix node) = AllDigests P node
  AllDigests P (branch children) = AllDigestsChildren P children
  AllDigests P (digest d) = P d

  pub AllDigestsChildren : (B256 → Type 0) → Children → Type 0
  AllDigestsChildren P no_more = Unit
  AllDigestsChildren P (vacant children) = AllDigestsChildren P children
  AllDigestsChildren P (child node children) = AllDigests P node × AllDigestsChildren P children

module _ (P Q : B256 → Type 0) (imp : (d : B256) → P d → Q d) where
  mutual
    unfolding AllDigests

    AllDigests-map : (n : Node) → AllDigests P n → AllDigests Q n
    AllDigests-map null h = tt
    AllDigests-map (leaf prefix value) h = tt
    AllDigests-map (extension prefix node) h = AllDigests-map node h
    AllDigests-map (branch children) h = AllDigests-map_children children h
    AllDigests-map (digest d) h = imp d h

    AllDigests-map_children : (cs : Children) → AllDigestsChildren P cs → AllDigestsChildren Q cs
    AllDigests-map_children no_more h = tt
    AllDigests-map_children (vacant cs) h = AllDigests-map_children cs h
    AllDigests-map_children (child n cs) h = (AllDigests-map n h.0, AllDigests-map_children cs h.1)

-- Each digest has a rank above those of the digests in the node that takes its place.
abbrev pub IsRanked : NodeMap → (B256 → ℕ) → Type 0
IsRanked m rank = (d : B256) (n : Node) → m d ≡ some n → AllDigests (λ e. rank e < rank d) n

abbrev Ends : {A : Type 0} → Outcome A → Type 0
Ends {A} o = (a : A) × (o ≡ ok a)

unless_digest-some : (o : Option Node) (n : Node) → unless_digest o ≡ some n → o ≡ some n
unless_digest-some none n h = cc
unless_digest-some (some (digest e)) n h = cc
unless_digest-some (some null) n h = cc
unless_digest-some (some k) n h = cc

module _ (m : NodeMap) (again : Node → Outcome Node) (P : B256 → Type 0)
    (ends : (d : B256) (n : Node) → P d → replacement m d ≡ some n → Ends (again n)) where
  digest-Ends :
      (d : B256) (o : Option Node) → replacement m d ≡ o → P d → Ends (take_place again d o)
  digest-Ends d none e p = (digest d, refl)
  digest-Ends d (some n) e p = ends d n p e

  mutual
    unfolding walk AllDigests

    walk-Ends : (n : Node) → AllDigests P n → Ends (walk m again n)
    walk-Ends null h = (null, refl)
    walk-Ends (leaf prefix value) h = (leaf prefix value, refl)
    walk-Ends (extension prefix node) h =
        let (node', e) = walk-Ends node h in (extension prefix node', rw e)
    walk-Ends (branch children) h =
        let (children', e) = walk_children_end children h in (branch children', rw e)
    walk-Ends (digest d) h = digest-Ends d (replacement m d) refl h

    walk_children_end : (cs : Children) → AllDigestsChildren P cs → Ends (walk_children m again cs)
    walk_children_end no_more h = (no_more, refl)
    walk_children_end (vacant cs) h = let (cs', e) = walk_children_end cs h in (vacant cs', rw e)
    walk_children_end (child n cs) h =
        let (n', e) = walk-Ends n h.0 in
        let (cs', e') = walk_children_end cs h.1 in (child n' cs', rw (e, e'))

-- If the digests of the map have ranks that fall from a digest to the node in its place, then fuel
-- above the ranks of the digests in a node is enough to resolve it.
pub resolve_digests_ends :
    (m : NodeMap) (rank : B256 → ℕ) (fuel : ℕ) (n : Node)
    → IsRanked m rank
    → AllDigests (λ d. rank d < fuel) n
    → (n' : Node) × (resolve_digests m (suc fuel) n ≡ ok n')
unfolding resolve_digests replacement
resolve_digests_ends m rank zero n ranked h =
    walk-Ends m (resolve_digests m zero) (λ d. rank d < zero) (λ d k p e. absurd (omega arith)) n h
resolve_digests_ends m rank (suc fuel) n ranked h =
    walk-Ends m (resolve_digests m (suc fuel)) (λ d. rank d < suc fuel)
      (λ d k p e.
        resolve_digests_ends m rank fuel k ranked
          (lower d k p (ranked d k (unless_digest-some (m d) k e))))
      n h
  where
    lower :
        (d : B256) (k : Node)
        → rank d < suc fuel
        → AllDigests (λ e. rank e < rank d) k
        → AllDigests (λ e. rank e < fuel) k
    lower d k p = AllDigests-map (λ e. rank e < rank d) (λ e. rank e < fuel) (λ e q. omega arith) k
