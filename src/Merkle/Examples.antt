-- ===== src/Merkle/Examples.antt =====
-- internal/proof on trees of depth 1 and 2, over small numbers for the 32-byte words.
use trust_map_prototype.Common.{
  ℕ, zero, suc, ◌+◌, ◌*◌, ◌≡◌, ◌==◌, ==_iff, refl, List, [], ◌∷◌, ok, err, ◌>>=◌, arith, ◌⊎◌,
}
use trust_map_prototype.Merkle.{
  tree_full, Hashing, MembershipWitness, IncrementalTree, root_from_witness, verify_path, hops,
  climb_siblings, validate_depth, walk, new_incremental_tree, append_all,
}
use trust_map_prototype.Merkle.Reference.{node_at, padded, siblings_at}
use trust_map_prototype.Merkle.Append.{append_all-root, append_all-full}
use trust_map_prototype.Merkle.Witness.{
  Collision, root_from_witness-append_all, root_from_witness-binds,
}
use trust_map_prototype.Merkle.Paths.{IsCommitted, verify_path-IsCommitted, verify_path-binds}

instance abbrev toy_hashing : Hashing ℕ
toy_hashing = record {
  keccak = λ a b. 3 * a + 5 * b + 1;
  empty = 0;
  same = ◌==◌;
  same_iff = ==_iff;
}

abbrev three_leaves : List ℕ
three_leaves = 4 ∷ 7 ∷ 9 ∷ []

append_all-root_example :
    (t : IncrementalTree ℕ) × ((new_incremental_tree 2 >>= λ tree. append_all tree three_leaves)
      ≡ ok t)
    × (t.root ≡ node_at 2 (padded three_leaves) 0)
    × (t.next_index ≡ 3)
append_all-root_example = append_all-root 2 three_leaves (omega arith) (omega arith) (omega arith)

append_all-full_example :
    (new_incremental_tree 1 >>= λ tree. append_all tree three_leaves) ≡ err tree_full
append_all-full_example = append_all-full 1 three_leaves (omega arith) (omega arith) (omega arith)

root_from_witness-append_all_example :
    (t : IncrementalTree ℕ) × ((new_incremental_tree 2 >>= λ tree. append_all tree three_leaves)
      ≡ ok t)
    × (root_from_witness 9 2 (siblings_at 2 (padded three_leaves) 0 2) 2 ≡ ok t.root)
root_from_witness-append_all_example =
    root_from_witness-append_all 2 three_leaves 2 (omega arith) (omega arith) (omega arith)
      (omega arith)

abbrev two_siblings : List ℕ
two_siblings = 0 ∷ 48 ∷ []

accepted : root_from_witness 9 2 two_siblings 2 ≡ ok 285
unfolding root_from_witness climb_siblings validate_depth
accepted = refl

root_from_witness-binds_example :
    (◌≡◌ {A = ℕ} 9 9) × (two_siblings ≡ two_siblings) ⊎ Collision toy_hashing
root_from_witness-binds_example =
    root_from_witness-binds 9 9 2 two_siblings two_siblings 2 285 accepted accepted

-- A path of two hops at depth 1: from root 4 over the block hashes 2 and 6.
abbrev two_witnesses : List (MembershipWitness ℕ)
two_witnesses =
    record { leaf_index = 0; siblings = 8 ∷ [] } ∷ record { leaf_index = 1; siblings = 1 ∷ [] } ∷ []

abbrev two_blocks : List ℕ
two_blocks = 2 ∷ 6 ∷ []

abbrev first_leaf : ℕ → ℕ
first_leaf zero = 23
first_leaf (suc _) = 8

abbrev second_leaf : ℕ → ℕ
second_leaf zero = 1
second_leaf (suc _) = 361

committed : IsCommitted 1 4 (hops two_blocks two_witnesses) 1809
unfolding hops node_at siblings_at
committed = (first_leaf, refl, omega arith, refl, (second_leaf, refl, omega arith, refl, refl))

verify_path-IsCommitted_example : verify_path 4 two_blocks two_witnesses 1809 1 ≡ ok tt
verify_path-IsCommitted_example =
    verify_path-IsCommitted 4 two_blocks two_witnesses 1809 1 (omega arith) (omega arith) (λ e. cc)
      refl committed

verified : verify_path 4 two_blocks two_witnesses 1809 1 ≡ ok tt
unfolding verify_path validate_depth walk hops root_from_witness climb_siblings
verified = refl

verify_path-binds_example :
    (◌≡◌ {A = ℕ} 4 4) × (two_blocks ≡ two_blocks) × (two_witnesses ≡ two_witnesses)
    ⊎ Collision toy_hashing
verify_path-binds_example =
    verify_path-binds 4 4 two_blocks two_blocks two_witnesses two_witnesses 1809 1 refl verified
      verified
