-- ===== src/Merkle/Reference.antt =====
-- The complete binary tree over a sequence of leaves, level by level: what the roots of
-- internal/proof stand for.
use trust_map_prototype.Common.{
  ℕ, zero, suc, ◌+◌, ◌*◌, ◌-◌, ◌/◌, ◌%◌, List, [], ◌∷◌, ◌==◌, if◌then◌else◌, get_or,
}
use trust_map_prototype.Merkle.{Hashing}

module _ {H : Type 0} ⦃hashing : Hashing H⦄ where
  open hashing use {keccak, empty}

  -- The node at index `j` of a level, over the leaf at each position.
  unfoldable pub node_at : ℕ → (ℕ → H) → ℕ → H
  node_at zero leaf j = leaf j
  node_at (suc level) leaf j = keccak (node_at level leaf (2 * j)) (node_at level leaf (2 * j + 1))

  -- A list of leaves, padded by empty ones.
  abbrev pub padded : List H → ℕ → H
  padded leaves j = get_or leaves j empty

  -- The siblings, bottom up, of the way to the root from index `j` of a level.
  unfoldable pub siblings_at : ℕ → (ℕ → H) → ℕ → ℕ → List H
  siblings_at zero leaf level j = []
  siblings_at (suc levels) leaf level j =
      node_at level leaf (if j % 2 == 0 then j + 1 else j - 1)
      ∷ siblings_at levels leaf (suc level) (j / 2)
