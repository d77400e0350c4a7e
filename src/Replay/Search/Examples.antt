-- ===== src/Replay/Search/Examples.antt =====
-- Concrete searches and plans of Mapnode/replay, on the graph of two blocks of a chain.
use trust_map_prototype.Common.{
  ℕ, zero, suc, ◌≤◌, ◌≡◌, refl, true, none, some, [], ◌∷◌, ok, arith, get_or,
}
use trust_map_prototype.Common.Maps.{lookup, insert, delete}
use trust_map_prototype.Replay.Text.{Text, canonical_chain, text_eq}
use trust_map_prototype.Replay.Cost.{
  CostProfile, max_uint64, checked_cost, checked_add, validate_profile,
}
use trust_map_prototype.Replay.Heights.{contains, neighbours}
use trust_map_prototype.Replay.Heights
use trust_map_prototype.Replay.View.{
  ReplayBlock, BlockKey, block_key, canonical_key, same_key, intra_chain_up, ReplayTrustView,
  new_replay_trust_view, add_verified_dependency, record_dependency, activate_locked, open_index,
  pending_edges, set_edges, split_edges, add_node, set_edge_locked, delete_edge_locked,
}
use trust_map_prototype.Replay.View.Numbering.{is_active}
use trust_map_prototype.Replay.View.Weights.{IsWeighted, Reached-IsWeighted}
use trust_map_prototype.Replay.Search.Progress.{IsClean}
use trust_map_prototype.Replay.Search.Total.{shortest_path-IsClean}
use trust_map_prototype.Replay.View.Soundness.{IsSound, activate_locked-IsSound}
use trust_map_prototype.Replay.View.Runs.{
  blank_view, blank_view-IsSound, Reached, created, extended, Reached-IsSound,
}
use trust_map_prototype.Replay.Scratch.{
  Scratch, IsStamped, IsSized, begin, begin-fresh, get_distance, get_predecessor, set_distance,
  set_predecessor,
}
use trust_map_prototype.Replay.Search.{ReplayPath, shortest_path}
use trust_map_prototype.Replay.Search.Shortest.{IsAnswer}
use trust_map_prototype.Replay.Search.Optimal.{asked, shortest_path-IsAnswer}
use trust_map_prototype.Replay.Planner.{ReplayPlanChoice, plan, IsPlan, plan-IsPlan}

-- A scratch at the last generation, with stamps of earlier ones.
abbrev used : Scratch
used = record {
  generation = 18446744073709551615;
  distances = 4 ∷ [];
  distance_generations = 7 ∷ [];
  predecessors = 0 ∷ [];
  predecessor_generations = 1 ∷ [];
  queue = [];
}

used-IsStamped : IsStamped used
used-IsStamped = record {
  bounded = omega arith;
  distances = low 7 (omega arith);
  predecessors = low 1 (omega arith);
}
  where
    low : (v : ℕ) → v ≤ max_uint64 → (i : ℕ) → get_or (v ∷ []) i 0 ≤ max_uint64
    low v h zero = h
    low v h (suc i) = omega arith

begin-fresh_example :
    IsStamped (begin used 2)
    × IsSized (begin used 2) 2
    × ((id : ℕ)
        → (get_distance (begin used 2) id ≡ none) × (get_predecessor (begin used 2) id ≡ none))
    × ((begin used 2).queue ≡ [])
begin-fresh_example = begin-fresh used 2 used-IsStamped

abbrev profile : CostProfile
profile = record {
  id = b'p' ∷ [];
  direct_step_cost = 3;
  path_step_cost = 2;
  trust_root_update_cost = 5;
}

abbrev home : Text
home = b'a' ∷ []

abbrev block_at : ℕ → ReplayBlock
block_at height = record { chain = home; original_height = height; normalized_height = height }

abbrev key_at : ℕ → BlockKey
key_at height = record { chain = home; height = height }

abbrev graph : ReplayTrustView
graph = (activate_locked (activate_locked (blank_view profile) (block_at 20)).0 (block_at 30)).0

graph-IsSound : IsSound graph
unfolding block_key
graph-IsSound =
    activate_locked-IsSound _ (block_at 30) (ground arith)
      (activate_locked-IsSound _ (block_at 20) (ground arith) (blank_view-IsSound profile))

abbrev path : ReplayPath
path = record {
  cost = 30;
  nodes = key_at 20 ∷ key_at 30 ∷ [];
  segments = record { from = key_at 20; to = key_at 30; kind = intra_chain_up; weight = 30 } ∷ [];
}

searched : shortest_path used graph (key_at 20) (key_at 30) 95 home 30 ≡ ok (some path)
unfolding activate_locked block_key canonical_chain text_eq neighbours contains Heights.insert
    open_index pending_edges checked_cost checked_add set_edges split_edges add_node set_edge_locked
    delete_edge_locked lookup insert delete shortest_path canonical_key begin get_distance
    get_predecessor set_distance set_predecessor same_key
searched = refl

shortest_path-IsAnswer_example :
    IsAnswer
      (asked graph 95 home 30 0 0)
      (canonical_key (key_at 20))
      (canonical_key (key_at 30))
      (some path)
shortest_path-IsAnswer_example =
    shortest_path-IsAnswer used graph (key_at 20) (key_at 30) 95 home 30 (some path) used-IsStamped
      graph-IsSound (omega arith) searched

abbrev choice : ReplayPlanChoice
choice = record { use_trust_map = true; path_found = true; path = path; total_cost = 35 }

planned : plan profile used graph (key_at 20) (key_at 30) 100 ≡ ok choice
unfolding activate_locked block_key canonical_chain text_eq neighbours contains Heights.insert
    open_index pending_edges checked_cost checked_add set_edges split_edges add_node set_edge_locked
    delete_edge_locked lookup insert delete shortest_path canonical_key begin get_distance
    get_predecessor set_distance set_predecessor same_key plan
planned = refl

plan-IsPlan_example : IsPlan profile graph (key_at 20) (key_at 30) 100 choice
plan-IsPlan_example =
    plan-IsPlan profile used graph (key_at 20) (key_at 30) 100 (omega arith) choice used-IsStamped
      graph-IsSound planned

valid_profile : new_replay_trust_view profile ≡ ok (blank_view profile)
unfolding new_replay_trust_view validate_profile
valid_profile = refl

abbrev linked : ReplayTrustView
linked = (add_verified_dependency (blank_view profile) (block_at 20) (block_at 30)).0

reached : Reached profile linked
unfolding block_key
reached = extended (block_at 20) (block_at 30) (ground arith) (ground arith) (created valid_profile)

Reached-IsWeighted_example : IsWeighted linked
Reached-IsWeighted_example = Reached-IsWeighted reached

linked-active :
    (is_active linked.heights (canonical_key (key_at 20)) ≡ true)
    × (is_active linked.heights (canonical_key (key_at 30)) ≡ true)
unfolding activate_locked block_key canonical_chain text_eq neighbours contains Heights.insert
    open_index pending_edges checked_cost checked_add set_edges split_edges add_node set_edge_locked
    delete_edge_locked lookup insert delete canonical_key add_verified_dependency record_dependency
linked-active = (refl, refl)

shortest_path-IsClean_example :
    IsClean (shortest_path used linked (key_at 20) (key_at 30) 95 home 30)
shortest_path-IsClean_example =
    shortest_path-IsClean used linked (key_at 20) (key_at 30) 95 home 30 used-IsStamped
      (Reached-IsSound reached) (Reached-IsWeighted reached).weights linked-active.0 linked-active.1
      (omega arith)
