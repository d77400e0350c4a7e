-- ===== src/Live/Examples.antt =====
-- A concrete snapshot of Mapnode/trustview and its plan by Mapnode/planner: three chains, and the two
-- dependencies from the home chain over the second to the third. The hash is the identity.
use trust_map_prototype.Common.{
  ℕ, ◌+◌, ◌≡◌, refl, ◌⊎◌, true, false, some, List, [], ◌∷◌, ◌++◌, replicate, ok, err, Result, arith,
  if◌then◌else◌,
}
use trust_map_prototype.Common.Maps.{lookup, insert}
use trust_map_prototype.Replay.Text.{Text, text_eq, text_eq_iff}
use trust_map_prototype.Live.Domain.{big_endian, validate_chain_id}
use trust_map_prototype.Live.Ids.Binding.{IsCollision}
use trust_map_prototype.Live.Ids.{Locator, compute_id, validate_locator, encode_locator}
use trust_map_prototype.Live.View.{
  NodeKey, TrustNode, TrustEdge, TrustViewSnapshot, new_trust_node, new_trust_edge, node_id,
  edge_id, new_trust_view, compute_snapshot_id, index_nodes, index_edges, validate_node,
  validate_edge, same_node_key, insert_sorted, sort_by,
}
use trust_map_prototype.Live.View.Checked.{IsView, new_trust_view-IsView}
use trust_map_prototype.Live.Planner.{
  path_plan, Request, Plan, ValidatedDirectProfile, group_edges, sort_edges, reaches, see_targets,
  is_seen, search, pop_least, relax_all, relax, is_stale, compare_candidate, adjacency_of,
  directed_reachability, shortest_path, find_snapshot_node,
}
use trust_map_prototype.Live.Planner.Proposal.{
  draft, trusted_path_step_cost, propose_path, same_costs, lacks_witness, propose, check_snapshot,
}
use trust_map_prototype.Live.Planner.Graph.{IsReachable}
use trust_map_prototype.Live.Planner.Reach.{directed_reachability-exact}
use trust_map_prototype.Live.Planner.Answers.{IsFound}
use trust_map_prototype.Live.Planner.Shortest.{shortest_path-IsFound}
use trust_map_prototype.Live.Planner.Proposals.{IsProposed}
use trust_map_prototype.Live.Planner.Proposed.{propose-IsProposed}
use trust_map_prototype.Live.Planner.Encoding.{
  Repositories, compute_plan_id, encode_plan, plan, persist,
}
use trust_map_prototype.Live.Planner.Addresses.{IsPlan, compute_plan_id-binds}

abbrev hash : Text → Text
hash bytes = bytes

abbrev word : ℕ → Text
word n = replicate 31 0 ++ n ∷ []

abbrev locator : Locator
locator = record {
  chain_id = word 1;
  contract_address = replicate 20 9;
  block_number = word 6;
  block_hash = word 7;
  tx_hash = word 8;
  tx_index = 2;
  log_index = 3;
  payload_digest = word 4;
}

located : compute_id hash locator ≡ ok (encode_locator locator)
unfolding compute_id validate_locator validate_chain_id text_eq
located = refl

abbrev node_of : ℕ → TrustNode
node_of chain =
    let key : NodeKey = record { chain_id = word chain; height = word 5; block_hash = word 7 } in
    record { id = node_id hash key; key = key; root = word (chain + 20); evidence_id = word 9 }

abbrev edge_of : ℕ → ℕ → TrustEdge
edge_of from to = record {
  id = edge_id hash (node_of from).id (node_of to).id (word 9) 0;
  from = (node_of from).id;
  to = (node_of to).id;
  evidence_id = word 9;
  leaf_index = 0;
  witness_id = some (word 3);
  path_step_cost = 10;
}

abbrev nodes : List TrustNode
nodes = node_of 1 ∷ node_of 2 ∷ node_of 3 ∷ []

abbrev edges : List TrustEdge
edges = edge_of 1 2 ∷ edge_of 2 3 ∷ []

viewed :
    new_trust_view hash 4 nodes edges ≡ ok (record { revision = 4; nodes = nodes; edges = edges })
unfolding new_trust_view index_nodes index_edges validate_node validate_edge new_trust_node
    new_trust_edge validate_chain_id text_eq same_node_key insert_sorted sort_by lookup insert
    big_endian
viewed = refl

new_trust_view-IsView_example :
    IsView hash nodes edges (record { revision = 4; nodes = nodes; edges = edges })
new_trust_view-IsView_example =
    new_trust_view-IsView hash 4 nodes edges (record { revision = 4; nodes = nodes; edges = edges })
      viewed

abbrev snapshot : TrustViewSnapshot
snapshot = record {
  id = compute_snapshot_id hash (word 11) 1 4 (node_of 1).id (node_of 3).id (node_of 1).root;
  revision = 4;
  home_chain_id = word 1;
  home_trust_root = (node_of 1).root;
  start_node_id = (node_of 1).id;
  target_node_id = (node_of 3).id;
  sealed = true;
  nodes = nodes;
  edges = edges;
}

directed_reachability-exact_example :
    ((directed_reachability snapshot).1 ≡ true) × IsReachable edges (node_of 1).id (node_of 3).id
    ⊎ ((directed_reachability snapshot).1 ≡ false)
      × (IsReachable edges (node_of 1).id (node_of 3).id → ⊥)
directed_reachability-exact_example = directed_reachability-exact snapshot

shortest_path-IsFound_example :
    IsFound edges (node_of 1).id (node_of 3).id (shortest_path snapshot (adjacency_of edges))
shortest_path-IsFound_example = shortest_path-IsFound snapshot

abbrev profile : ValidatedDirectProfile
profile = record { id = b'd' ∷ []; fingerprint = word 2; direct_cost = 25; calibrated = true }

abbrev request : Request
request = record { id = word 11; attempt = 1; snapshot_id = snapshot.id; home_chain_id = word 1 }

propose-IsProposed_example :
    IsProposed snapshot profile (propose snapshot (draft 7 request snapshot profile) profile)
propose-IsProposed_example = propose-IsProposed snapshot (draft 7 request snapshot profile) profile

-- A repository that has the snapshot and keeps the plans in a list.
abbrev find_plan : List Plan → Text → Result Text Plan
find_plan [] id = err []
find_plan (p ∷ ps) id = let rest = find_plan ps id in if text_eq p.id id then ok p else rest

abbrev repositories : Repositories (List Plan)
repositories = record {
  load_snapshot = λ s id. ok snapshot;
  save_plan = λ s p. ok (p ∷ s);
  load_plan = find_plan;
  direct_profile = λ chain. (profile, true);
}

abbrev content : Plan
content = record (draft 7 request snapshot profile) {
  plan_type = path_plan;
  hops = (edge_of 1 2).id ∷ (edge_of 2 3).id ∷ [];
  path_step_cost = 10;
  path_cost = some 20;
  direct_cost = some 25;
}

abbrev planned : Plan
planned = record content { id = compute_plan_id hash content }

made : propose snapshot (draft 7 request snapshot profile) profile ≡ ok content
unfolding propose trusted_path_step_cost directed_reachability shortest_path propose_path
    group_edges sort_edges sort_by insert_sorted reaches see_targets is_seen search pop_least
    relax_all relax is_stale lookup insert text_eq compare_candidate same_costs lacks_witness
    big_endian
made = refl

checked : check_snapshot hash request snapshot ≡ ok tt
unfolding check_snapshot compute_snapshot_id find_snapshot_node new_trust_view index_nodes
    index_edges validate_node validate_edge new_trust_node new_trust_edge validate_chain_id text_eq
    same_node_key insert_sorted sort_by lookup insert big_endian
checked = refl

run : plan hash repositories 7 [] request ≡ (planned ∷ [], ok planned)
unfolding plan persist
run = rw (plan, checked, made, persist, (text_eq_iff planned.id planned.id).1 refl) refl

-- A plan with a short profile name, under fields of 32 bytes.
abbrev small_plan : Plan
small_plan = record content {
  request_id = word 1;
  snapshot_id = word 2;
  profile_fingerprint = word 3;
  home_node_id = word 4;
  target_node_id = word 5;
  hops = word 6 ∷ word 7 ∷ [];
}

small_plan-IsPlan : IsPlan small_plan
small_plan-IsPlan = record {
  request_id = refl;
  attempt = omega arith;
  snapshot_id = refl;
  profile_id = omega arith;
  profile_fingerprint = refl;
  home_node_id = refl;
  target_node_id = refl;
  hops = (refl, (refl, tt));
  hop_count = omega arith;
  path_step_cost = omega arith;
  path_cost = omega arith;
  direct_cost = omega arith;
  plan_type = omega arith;
  fallback_reason = omega arith;
}

-- The same plan under another ID, at another time.
abbrev renamed_plan : Plan
renamed_plan = record small_plan { id = word 9; created_at = 8 }

renamed_plan-IsPlan : IsPlan renamed_plan
renamed_plan-IsPlan = record {
  request_id = refl;
  attempt = omega arith;
  snapshot_id = refl;
  profile_id = omega arith;
  profile_fingerprint = refl;
  home_node_id = refl;
  target_node_id = refl;
  hops = (refl, (refl, tt));
  hop_count = omega arith;
  path_step_cost = omega arith;
  path_cost = omega arith;
  direct_cost = omega arith;
  plan_type = omega arith;
  fallback_reason = omega arith;
}

renamed_once : compute_plan_id hash renamed_plan ≡ compute_plan_id hash small_plan
unfolding compute_plan_id encode_plan
renamed_once = refl

compute_plan_id-binds_example :
    (record renamed_plan { id = small_plan.id; created_at = small_plan.created_at } ≡ small_plan)
    ⊎ IsCollision hash
compute_plan_id-binds_example =
    compute_plan_id-binds hash renamed_plan small_plan renamed_plan-IsPlan small_plan-IsPlan
      renamed_once
