-- ===== src/Replay/Examples.antt =====
-- Concrete runs of Mapnode/replay: a height index of three heights, and a graph of two chains.
use trust_map_prototype.Common.{
  ℕ, ◌*◌, ◌≤◌, ◌≡◌, refl, false, some, [], ◌∷◌, ok, err, arith, leb, if◌then◌else◌,
}
use trust_map_prototype.Common.Maps.{lookup, insert, delete}
use trust_map_prototype.Replay.Text.{Text, canonical_chain, text_eq}
use trust_map_prototype.Replay.Cost.{
  CostProfile, checked_cost, max_uint64, cost_overflow, checked_cost_exact, validate_profile,
}
use trust_map_prototype.Replay.Heights.{Treap, nil, contains, neighbours, mix_height}
use trust_map_prototype.Replay.Heights
use trust_map_prototype.Replay.Heights.Keys.{has_key, insert_key}
use trust_map_prototype.Replay.Heights.Order.{keys, IsOrdered, keys-insert, contains-has_key}
use trust_map_prototype.Replay.Heights.Priority.{IsHeap, insert-IsHeap}
use trust_map_prototype.Replay.Heights.Neighbours.{IsPredecessor, IsSuccessor, neighbours_nearest}
use trust_map_prototype.Replay.View.{
  ReplayBlock, block_key, ReplayTrustView, activate_locked, add_verified_dependency,
  new_replay_trust_view, open_index, pending_edges, set_edges, split_edges, add_node,
  set_edge_locked, delete_edge_locked,
}
use trust_map_prototype.Replay.View.Edges.{IsConsistent}
use trust_map_prototype.Replay.View.Activate.{add_verified_dependency-IsConsistent}
use trust_map_prototype.Replay.View.Outcomes.{index_of}
use trust_map_prototype.Replay.View.Splice.{IsSpliced}
use trust_map_prototype.Replay.View.Placement.{activate_locked-IsSpliced}
use trust_map_prototype.Replay.View.Soundness.{IsSound, activate_locked-IsSound}
use trust_map_prototype.Replay.View.Dependency.{add_verified_dependency-IsSound}
use trust_map_prototype.Replay.View.Runs.{
  Reached, created, extended, blank_view, blank_view-IsSound, Reached-IsSound,
}

-- " Ab\n"
abbrev padded_name : Text
padded_name = b' ' ∷ b'A' ∷ b'b' ∷ 10 ∷ []

canonical_name : canonical_chain padded_name ≡ b'a' ∷ b'b' ∷ []
unfolding canonical_chain
canonical_name = refl

checked_cost_exact_example : checked_cost 9223372036854775808 2 ≡ (
    if leb (9223372036854775808 * 2) max_uint64
    then ok (9223372036854775808 * 2)
    else err cost_overflow)
checked_cost_exact_example = checked_cost_exact 9223372036854775808 2

abbrev three_heights : Treap
three_heights = Heights.insert (Heights.insert (Heights.insert nil 20) 30) 10

three_heights-IsOrdered : IsOrdered three_heights
unfolding Heights.insert keys
three_heights-IsOrdered = ground arith

three_heights-IsHeap : IsHeap three_heights
three_heights-IsHeap = insert-IsHeap _ 10 (insert-IsHeap _ 30 (insert-IsHeap nil 20 tt))

keys-insert_example :
    (keys (Heights.insert three_heights 25) ≡ insert_key 25 (keys three_heights))
    × IsOrdered (Heights.insert three_heights 25)
keys-insert_example = keys-insert three_heights 25 three_heights-IsOrdered

contains-has_key_example : contains three_heights 30 ≡ has_key 30 (keys three_heights)
contains-has_key_example = contains-has_key three_heights 30 three_heights-IsOrdered

insert-IsHeap_example : IsHeap (Heights.insert three_heights 25)
insert-IsHeap_example = insert-IsHeap three_heights 25 three_heights-IsHeap

absent : has_key 25 (keys three_heights) ≡ false
unfolding Heights.insert keys has_key
absent = refl

neighbours_nearest_example :
    IsPredecessor 25 (keys three_heights) (neighbours three_heights 25).0
    × IsSuccessor 25 (keys three_heights) (neighbours three_heights 25).1
neighbours_nearest_example = neighbours_nearest three_heights 25 three_heights-IsOrdered absent

nearest : neighbours three_heights 25 ≡ (some 20, some 30)
unfolding Heights.insert neighbours
nearest = refl

abbrev small_profile : CostProfile
small_profile = record {
  id = b'p' ∷ [];
  direct_step_cost = 3;
  path_step_cost = 2;
  trust_root_update_cost = 5;
}

abbrev home : Text
home = b'a' ∷ []

abbrev block_at : ℕ → ReplayBlock
block_at height = record { chain = home; original_height = height; normalized_height = height }

abbrev other_block : ReplayBlock
other_block = record { chain = b'b' ∷ []; original_height = 7; normalized_height = 7 }

abbrev start_view : ReplayTrustView
start_view = blank_view small_profile

-- The graph of the heights 20 and 30 of a chain.
abbrev two_blocks : ReplayTrustView
two_blocks = (activate_locked (activate_locked start_view (block_at 20)).0 (block_at 30)).0

-- The block between them joins.
abbrev three_blocks : ReplayTrustView
three_blocks = (activate_locked two_blocks (block_at 25)).0

two_blocks-IsSound : IsSound two_blocks
unfolding block_key
two_blocks-IsSound = activate_locked-IsSound _ (block_at 30) (ground arith) (
    activate_locked-IsSound start_view (block_at 20) (ground arith)
      (blank_view-IsSound small_profile))

activate_locked-IsSound_example : IsSound three_blocks
unfolding block_key
activate_locked-IsSound_example =
    activate_locked-IsSound two_blocks (block_at 25) (ground arith) two_blocks-IsSound

add_verified_dependency-IsConsistent_example :
    IsConsistent (add_verified_dependency two_blocks (block_at 25) other_block).0
add_verified_dependency-IsConsistent_example =
    add_verified_dependency-IsConsistent two_blocks (block_at 25) other_block
      two_blocks-IsSound.consistent

add_verified_dependency-IsSound_example :
    IsSound (add_verified_dependency two_blocks (block_at 25) other_block).0
unfolding block_key
add_verified_dependency-IsSound_example =
    add_verified_dependency-IsSound two_blocks (block_at 25) other_block (ground arith)
      (ground arith) two_blocks-IsSound

the_key : block_key (block_at 25) ≡ record { chain = home; height = 25 }
unfolding block_key canonical_chain
the_key = refl

low : (block_key (block_at 25)).height ≤ max_uint64
unfolding block_key
low = ground arith

joined : activate_locked two_blocks (block_at 25) ≡ (three_blocks, ok (block_key (block_at 25)))
unfolding activate_locked block_key canonical_chain text_eq neighbours contains Heights.insert
    open_index pending_edges checked_cost set_edges split_edges add_node set_edge_locked
    delete_edge_locked lookup insert delete
joined = refl

new_height :
    contains (index_of two_blocks (block_key (block_at 25)).chain) (block_key (block_at 25)).height
    ≡ false
unfolding activate_locked block_key canonical_chain text_eq neighbours contains Heights.insert
    open_index pending_edges checked_cost set_edges split_edges add_node set_edge_locked
    delete_edge_locked lookup insert delete index_of
new_height = refl

activate_locked-IsSpliced_example :
    (block_key (block_at 25) ≡ block_key (block_at 25))
    × (let (p, s) =
          neighbours
            (index_of two_blocks (block_key (block_at 25)).chain)
            (block_key (block_at 25)).height in
        IsSpliced two_blocks.profile
          (block_key (block_at 25))
          p
          s
          two_blocks.adjacency
          three_blocks.adjacency)
activate_locked-IsSpliced_example =
    activate_locked-IsSpliced two_blocks (block_at 25) three_blocks (block_key (block_at 25))
      two_blocks-IsSound.consistent (two_blocks-IsSound.nodes.indexed _) low new_height joined

valid_profile : new_replay_trust_view small_profile ≡ ok start_view
unfolding new_replay_trust_view validate_profile
valid_profile = refl

reached : Reached small_profile (add_verified_dependency start_view (block_at 25) other_block).0
unfolding block_key
reached = extended (block_at 25) other_block (ground arith) (ground arith) (created valid_profile)

Reached-IsSound_example : IsSound (add_verified_dependency start_view (block_at 25) other_block).0
Reached-IsSound_example = Reached-IsSound reached
