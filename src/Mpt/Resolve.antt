-- ===== src/Mpt/Resolve.antt =====
-- Putting nodes in place of their digests (`Node::resolve_digests`).
use steel.Prelude.{ℕ, zero, suc, B256, Option, none, some}
use steel.Outcome.{Outcome, ok, out_of_fuel, ◌>>=◌}
use steel.Mpt.Node.{Node, Children, null, leaf, extension, branch, digest, no_more, vacant, child}

-- `B256HashMap<Node>`, by its `get`
abbrev pub NodeMap : Type 0
NodeMap = B256 → Option Node

-- a node is not replaced by a digest
abbrev pub unless_digest : Option Node → Option Node
unless_digest none = none
unless_digest (some (digest _)) = none
unless_digest (some node) = some node

-- the node that takes the place of a digest
unfoldable pub replacement : NodeMap → B256 → Option Node
replacement nodes_by_digest d = unless_digest (nodes_by_digest d)

-- the digest stays where no node takes its place
abbrev pub take_place : (Node → Outcome Node) → B256 → Option Node → Outcome Node
take_place again d none = ok (digest d)
take_place again d (some node) = again node

-- A walk below one digest: `again` resolves the node that took its place.
unfoldable mutual
  pub walk : NodeMap → (Node → Outcome Node) → Node → Outcome Node
  walk m again null = ok null
  walk m again (leaf prefix value) = ok (leaf prefix value)
  walk m again (extension prefix node) = do node' ← walk m again node; ok (extension prefix node')
  walk m again (branch children) = do
    children' ← walk_children m again children
    ok (branch children')
  walk m again (digest d) = take_place again d (replacement m d)

  pub walk_children : NodeMap → (Node → Outcome Node) → Children → Outcome Children
  walk_children m again no_more = ok no_more
  walk_children m again (vacant children) = do
    rest ← walk_children m again children
    ok (vacant rest)
  walk_children m again (child node children) = do
    node' ← walk m again node
    rest ← walk_children m again children
    ok (child node' rest)

-- The fuel bounds how many digests lie on a path. The program has no such bound: on a map whose
-- digests form a cycle it recurses for ever, and the model runs out of fuel.
unfoldable pub resolve_digests : NodeMap → ℕ → Node → Outcome Node
unfolding walk replacement
resolve_digests m zero node = out_of_fuel
resolve_digests m (suc fuel) node = walk m (resolve_digests m fuel) node
