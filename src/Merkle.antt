-- ===== src/Merkle.antt =====
-- internal/proof/merkle.go and incremental.go, with domain.MembershipWitness and domain.LeafHash of
-- internal/domain: the fixed-depth Merkle tree of a chain's trust dependencies, the roots that
-- membership witnesses rebuild, and the verification of a path. Keccak-256 of go-ethereum is the
-- parameter `keccak`: it is applied to two 32-byte words only.
use trust_map_prototype.Common.{
  ℕ, zero, suc, ◌+◌, ◌/◌, ◌%◌, ◌^◌, ◌↔◌, ◌≡◌, Bool, true, List, [], ◌∷◌, ◌==◌, ltb, leb, not, ◌&&◌,
  if◌then◌else◌, length, get_or, replicate, Result, ok, err, ◌>>=◌, ◌>>◌, require, map_err,
}
pub mod Reference
pub mod Frontier
pub mod Append
pub mod Witness
pub mod Paths
mod Examples

-- The sentinel errors of errors.go; `hop` is the context `fmt.Errorf("hop %d: %w", i, err)`.
pub data Error : Type 0 where
  invalid_tree_depth invalid_sibling_count leaf_index_out_of_range : Error
  empty_path path_length_mismatch final_root_mismatch tree_full : Error
  hop : ℕ → Error → Error

abbrev pub max_tree_depth : ℕ
max_tree_depth = 32

-- 32-byte words: their Keccak-256 in pairs, the zero word, and Go's `==` on them.
pub record Hashing (H : Type 0) : Type 0 where
  pub keccak : H → H → H
  pub empty : H
  pub same : H → H → Bool
  pub same_iff : (a b : H) → (same a b ≡ true) ↔ (a ≡ b)

-- domain.MembershipWitness; its leaf index is a uint32.
pub record MembershipWitness (H : Type 0) : Type 0 where
  pub leaf_index : ℕ
  pub siblings : List H

data WitnessError : Type 0 where
  empty_witness : WitnessError

unfoldable validate_witness : {H : Type 0} → MembershipWitness H → Result WitnessError (Unit {0})
validate_witness witness = require (not (length witness.siblings == 0)) empty_witness

unfoldable new_membership_witness :
    {H : Type 0} → ℕ → List H → Result WitnessError (MembershipWitness H)
unfolding validate_witness
new_membership_witness {H} leaf_index siblings =
    let witness : MembershipWitness H = record { leaf_index = leaf_index; siblings = siblings } in
    validate_witness witness >>= λ _. ok witness

pub record IncrementalTree (H : Type 0) : Type 0 where
  pub depth : ℕ
  pub capacity : ℕ
  pub next_index : ℕ
  pub frontier : List H
  pub zeros : List H
  pub root : H

pub validate_depth : ℕ → Result Error (Unit {0})
validate_depth depth = require (not (depth == 0) && leb depth max_tree_depth) invalid_tree_depth

module _ {H : Type 0} ⦃hashing : Hashing H⦄ where
  open hashing use {keccak, empty, same}

  abbrev pub hash_pair : H → H → H
  hash_pair left right = keccak left right

  abbrev pub leaf_hash : H → H → H
  leaf_hash source_trust_root source_block_hash = keccak source_trust_root source_block_hash

  -- The words zeros[level], zeros[level + 1], … up to the last, from the one at hand.
  pub zeros_from : ℕ → H → List H
  zeros_from zero z = z ∷ []
  zeros_from (suc levels) z = z ∷ zeros_from levels (hash_pair z z)

  pub zero_hashes : ℕ → Result Error (List H)
  zero_hashes depth = do validate_depth depth; ok (zeros_from depth empty)

  -- One round of the loop of RootFromWitness: `index & 1` selects the order of the pair.
  abbrev pub pair_by : ℕ → H → H → H
  pair_by index root sibling =
      if index % 2 == 0 then hash_pair root sibling else hash_pair sibling root

  pub climb_siblings : H → ℕ → List H → H
  climb_siblings root index [] = root
  climb_siblings root index (sibling ∷ rest) =
      climb_siblings (pair_by index root sibling) (index / 2) rest

  pub root_from_witness : H → ℕ → List H → ℕ → Result Error H
  root_from_witness leaf leaf_index siblings expected_depth = do
    validate_depth expected_depth
    require (length siblings == expected_depth) invalid_sibling_count
    require (ltb leaf_index (2 ^ expected_depth)) leaf_index_out_of_range
    ok (climb_siblings leaf leaf_index siblings)

  -- The loop of VerifyPath, from hop `i` on, over the pairs blockHashes[i], witnesses[i].
  pub walk : ℕ → ℕ → H → List (H × MembershipWitness H) → Result Error H
  walk depth i root [] = ok root
  walk depth i root ((block_hash, witness) ∷ rest) = do
    next ←
        map_err (hop i)
          (root_from_witness (leaf_hash root block_hash) witness.leaf_index witness.siblings depth)
    walk depth (i + 1) next rest

  -- `blockHashes[i]` with `witnesses[i]`; the lists are of one length when this is called.
  pub hops : List H → List (MembershipWitness H) → List (H × MembershipWitness H)
  hops (b ∷ bs) (w ∷ ws) = (b, w) ∷ hops bs ws
  hops _ _ = []

  pub verify_path : H → List H → List (MembershipWitness H) → H → ℕ → Result Error (Unit {0})
  verify_path base_trust_root block_hashes witnesses expected_home_root expected_depth = do
    validate_depth expected_depth
    require (not (length block_hashes == 0)) empty_path
    require (length block_hashes == length witnesses) path_length_mismatch
    root ← walk expected_depth 0 base_trust_root (hops block_hashes witnesses)
    require (same root expected_home_root) final_root_mismatch

  pub new_incremental_tree : ℕ → Result Error (IncrementalTree H)
  new_incremental_tree depth = do
    zeros ← zero_hashes depth
    ok (record {
      depth = depth;
      capacity = 2 ^ depth;
      next_index = 0;
      frontier = replicate depth empty;
      zeros = zeros;
      root = get_or zeros depth empty;
    })

  -- The loop of Append over the levels, from one level on: the frontier and the zero hashes from
  -- that level, the index shifted to it, and the node. It yields the frontier and the root. There
  -- is a zero hash for each level of the frontier, so the third clause is never met.
  pub climb : List H → List H → ℕ → H → List H × H
  climb [] zeros index node = ([], node)
  climb (f ∷ frontier) (z ∷ zeros) index node =
      let even = index % 2 == 0 in
      let (frontier', root) =
        climb frontier zeros (index / 2) (if even then hash_pair node z else hash_pair f node) in
      ((if even then node else f) ∷ frontier', root)
  climb (f ∷ frontier) [] index node = (f ∷ frontier, node)

  pub append : IncrementalTree H → H → Result Error (IncrementalTree H)
  append tree leaf =
      if leb tree.capacity tree.next_index
      then err tree_full
      else let (frontier, root) = climb tree.frontier tree.zeros tree.next_index leaf in
        ok (record tree { frontier = frontier; root = root; next_index = tree.next_index + 1 })

  -- A run of Append calls that stops at the first error.
  pub append_all : IncrementalTree H → List H → Result Error (IncrementalTree H)
  append_all tree [] = ok tree
  append_all tree (leaf ∷ leaves) = do tree' ← append tree leaf; append_all tree' leaves
