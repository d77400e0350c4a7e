-- ===== src/Replay/Coordinator/Examples.antt =====
-- A run of ReplayCoordinator (Mapnode/replay/replay_coordinator.go): three events between three
-- chains, the last of which finds a path over the dependencies that the first two leave.
use trust_map_prototype.Common.{ℕ, ◌≡◌, refl, true, false, [], ◌∷◌, ok, arith, ◌≤◌}
use trust_map_prototype.Common.Maps.{lookup, insert, delete}
use trust_map_prototype.Replay.Text.{canonical_chain, text_eq}
use trust_map_prototype.Replay.Cost.{CostProfile, checked_cost, checked_add, validate_profile}
use trust_map_prototype.Replay.Heights.{contains, neighbours}
use trust_map_prototype.Replay.Heights
use trust_map_prototype.Replay.Setting.{b2, uses_trust_map, uses_checkpoint}
use trust_map_prototype.Replay.Baselines.{
  new_replay_baselines, advance, get, estimate_direct, baseline_key, same_baseline,
}
use trust_map_prototype.Replay.Checkpoints.{no_checkpoints}
use trust_map_prototype.Replay.View.{
  ReplayBlock, BlockKey, block_key, canonical_key, same_key, verified_dependency,
  new_replay_trust_view, add_verified_dependency, record_dependency, activate_locked, open_index,
  node_count, pending_edges, set_edges, split_edges, add_node, set_edge_locked, delete_edge_locked,
}
use trust_map_prototype.Replay.View.Runs.{blank_view}
use trust_map_prototype.Replay.Scratch.{
  Scratch, IsStamped, begin, get_distance, get_predecessor, set_distance, set_predecessor,
}
use trust_map_prototype.Replay.Search.{shortest_path}
use trust_map_prototype.Replay.Planner.{plan}
use trust_map_prototype.Replay.Coordinator.{
  trust_map_kind, ReplayEvent, ReplayDecision, ReplayCoordinator, new_replay_coordinator,
  activate_both, endpoints, estimate_event, direct_decision, with_path, planned_decision, decide,
  commit, process,
}
use trust_map_prototype.Replay.Coordinator.Restore.{restore}
use trust_map_prototype.Replay.Coordinator.Invariant.{
  IsCoordinator, IsEvent, process-IsCoordinator, new_replay_coordinator-IsCoordinator,
}
use trust_map_prototype.Replay.Coordinator.Resume.{restore-process}
use trust_map_prototype.Replay.Coordinator.Costs.{IsPriced, process-IsPriced}

abbrev small_profile : CostProfile
small_profile = record {
  id = b'p' ∷ [];
  direct_step_cost = 3;
  path_step_cost = 2;
  trust_root_update_cost = 5;
}

abbrev block_of : ℕ → ℕ → ReplayBlock
block_of chain height = record {
  chain = chain ∷ [];
  original_height = height;
  normalized_height = height;
}

abbrev key_of : ℕ → ℕ → BlockKey
key_of chain height = record { chain = chain ∷ []; height = height }

abbrev event_at : ℕ → ReplayBlock → ReplayBlock → ReplayEvent
event_at sequence destination source = record {
  id = b'e' ∷ [];
  sequence = sequence;
  source = source;
  destination = destination;
}

abbrev last_event : ReplayEvent
last_event = event_at 2 (block_of b'c' 5) (block_of b'a' 20)

abbrev fresh : Scratch
fresh = record {
  generation = 0;
  distances = [];
  distance_generations = [];
  predecessors = [];
  predecessor_generations = [];
  queue = [];
}

abbrev start_coordinator : ReplayCoordinator
start_coordinator = record {
  setting = b2;
  profile = small_profile;
  policy = no_checkpoints;
  view = blank_view small_profile;
  baselines = new_replay_baselines ((b'a' ∷ [], 3) ∷ []);
}

-- The coordinator after the first event, and after the second.
abbrev second : ReplayCoordinator
second = (process fresh start_coordinator (event_at 0 (block_of b'b' 21) (block_of b'a' 20))).0

abbrev third : ReplayCoordinator
third = (process fresh second (event_at 1 (block_of b'c' 5) (block_of b'b' 21))).0

abbrev last_decision : ReplayDecision
last_decision = record {
  event_id = b'e' ∷ [];
  sequence = 2;
  setting = b2;
  decision = trust_map_kind;
  planning_enabled = true;
  baseline_before = 3;
  baseline_after = 20;
  direct_start = 3;
  direct_blocks = 17;
  checkpoint_configured = false;
  checkpoint_period = 0;
  checkpoint_height = 0;
  checkpoint_applied = false;
  direct_cost = 51;
  path_found = true;
  path_cost = 4;
  trust_map_total_cost = 9;
  chosen_cost = 9;
  path = record {
    cost = 4;
    nodes = key_of b'c' 5 ∷ key_of b'b' 21 ∷ key_of b'a' 20 ∷ [];
    segments =
        record { from = key_of b'c' 5; to = key_of b'b' 21; kind = verified_dependency; weight = 2 }
        ∷ record {
          from = key_of b'b' 21;
          to = key_of b'a' 20;
          kind = verified_dependency;
          weight = 2;
        }
        ∷ [];
  };
  graph_nodes = 3;
  graph_edges = 3;
  cross_edges_added = 3;
}

abbrev last_coordinator : ReplayCoordinator
last_coordinator = (process fresh third last_event).0

last_run : process fresh third last_event ≡ (last_coordinator, ok last_decision)
unfolding activate_locked block_key canonical_chain text_eq neighbours contains Heights.insert
    open_index pending_edges checked_cost checked_add set_edges split_edges add_node set_edge_locked
    delete_edge_locked lookup insert delete shortest_path canonical_key begin get_distance
    get_predecessor set_distance set_predecessor same_key plan add_verified_dependency
    record_dependency process endpoints activate_both estimate_event estimate_direct decide commit
    advance get new_replay_baselines node_count with_path planned_decision direct_decision
    uses_trust_map uses_checkpoint baseline_key same_baseline
last_run = refl

fresh-IsStamped : IsStamped fresh
fresh-IsStamped = record {
  bounded = omega arith;
  distances = λ i. omega arith;
  predecessors = λ i. omega arith;
}

made :
    new_replay_coordinator b2 ((b'a' ∷ [], 3) ∷ []) small_profile no_checkpoints
    ≡ ok start_coordinator
unfolding new_replay_coordinator new_replay_trust_view validate_profile
made = refl

low :
    (chain height chain' height' sequence : ℕ)
    → height ≤ 100
    → height' ≤ 100
    → IsEvent (event_at sequence (block_of chain height) (block_of chain' height'))
unfolding block_key
low chain height chain' height' sequence h h' = (omega arith, omega arith)

start-IsCoordinator : IsCoordinator start_coordinator
start-IsCoordinator =
    new_replay_coordinator-IsCoordinator b2 ((b'a' ∷ [], 3) ∷ []) small_profile no_checkpoints made

second-IsCoordinator : IsCoordinator second
second-IsCoordinator =
    process-IsCoordinator fresh start_coordinator (event_at 0 (block_of b'b' 21) (block_of b'a' 20))
      (low b'b' 21 b'a' 20 0 (omega arith) (omega arith)) start-IsCoordinator

process-IsCoordinator_example : IsCoordinator second
process-IsCoordinator_example =
    process-IsCoordinator fresh start_coordinator (event_at 0 (block_of b'b' 21) (block_of b'a' 20))
      (low b'b' 21 b'a' 20 0 (omega arith) (omega arith)) start-IsCoordinator

third-IsCoordinator : IsCoordinator third
third-IsCoordinator =
    process-IsCoordinator fresh second (event_at 1 (block_of b'c' 5) (block_of b'b' 21))
      (low b'c' 5 b'b' 21 1 (omega arith) (omega arith)) second-IsCoordinator

restore-process_example : restore third last_event last_decision ≡ (last_coordinator, ok tt)
restore-process_example =
    restore-process fresh third last_coordinator last_event last_decision fresh-IsStamped
      third-IsCoordinator (low b'c' 5 b'a' 20 2 (omega arith) (omega arith)) last_run

process-IsPriced_example :
    IsPriced third last_decision
    × (last_event.source.original_height ≤ last_decision.baseline_after)
process-IsPriced_example =
    process-IsPriced fresh third last_coordinator last_event last_decision fresh-IsStamped
      third-IsCoordinator (low b'c' 5 b'a' 20 2 (omega arith) (omega arith)) last_run
