-- ===== src/Replay/Coordinator.antt =====
-- ReplayCoordinator of Mapnode/replay/replay_coordinator.go, with the events of replay_event.go:
-- one run of the replay. Process decides an event and moves on; Restore moves on by a decision made
-- before. A method returns the coordinator as it leaves it, also where it fails. The planner has the
-- profile of the coordinator; Process takes the scratch that the pool of the search yields.
use trust_map_prototype.Common.{
  ℕ, zero, suc, ◌+◌, ◌≡◌, Bool, true, false, not, ◌&&◌, ◌||◌, ◌==◌, ltb, leb, Option, none, some,
  List, [], ◌∷◌, ◌++◌, length, Result, ok, err, ◌>>=◌, ◌>>◌, require, map_err, if◌then◌else◌,
}
use trust_map_prototype.Common.Maps.{Map, lookup, insert, is_some}
use trust_map_prototype.Replay.Text.{Text, text_eq}
use trust_map_prototype.Replay.Cost.{CostProfile, checked_add}
use trust_map_prototype.Replay.Cost
use trust_map_prototype.Replay.Setting.{
  Setting, uses_trust_map, uses_checkpoint, same_setting, is_known,
}
use trust_map_prototype.Replay.Checkpoints.{CheckpointPolicy}
use trust_map_prototype.Replay.Baselines.{
  ReplayBaselines, ReplayDirectEstimate, new_replay_baselines, get, advance, estimate_direct,
}
use trust_map_prototype.Replay.View.{
  ReplayBlock, BlockKey, block_key, same_key, EdgeKind, intra_chain_up, intra_chain_down,
  verified_dependency, ReplayEdge, ReplayTrustView, new_replay_trust_view, activate_locked,
  add_verified_dependency, edge, node_count,
}
use trust_map_prototype.Replay.Scratch.{Scratch}
use trust_map_prototype.Replay.Search.{PathSegment, ReplayPath}
use trust_map_prototype.Replay.Planner.{PlanError, ReplayPlanChoice, no_path, plan}
pub mod Estimates
pub mod Comparisons
pub mod Restore
pub mod Decided
pub mod Validated
pub mod Invariant
pub mod Resume
pub mod Costs
mod Examples

-- The time, the names and the volumes of an event are carried along only.
pub record ReplayEvent : Type 0 where
  pub id : Text
  pub sequence : ℕ
  pub source : ReplayBlock
  pub destination : ReplayBlock

-- A kind is a string: one of the constants or another one.
pub data DecisionKind : Type 0 where
  direct_kind trust_map_kind : DecisionKind
  other_kind : Text → DecisionKind

pub record ReplayDecision : Type 0 where
  pub event_id : Text
  pub sequence : ℕ
  pub setting : Setting
  pub decision : DecisionKind
  pub planning_enabled : Bool
  pub baseline_before : ℕ
  pub baseline_after : ℕ
  pub direct_start : ℕ
  pub direct_blocks : ℕ
  pub checkpoint_configured : Bool
  pub checkpoint_period : ℕ
  pub checkpoint_height : ℕ
  pub checkpoint_applied : Bool
  pub direct_cost : ℕ
  pub path_found : Bool
  pub path_cost : ℕ
  pub trust_map_total_cost : ℕ
  pub chosen_cost : ℕ
  pub path : ReplayPath
  pub graph_nodes : ℕ
  pub graph_edges : ℕ
  pub cross_edges_added : ℕ

pub record ReplayCoordinator : Type 0 where
  pub setting : Setting
  pub profile : CostProfile
  pub policy : CheckpointPolicy
  pub view : ReplayTrustView
  pub baselines : ReplayBaselines

pub data CoordinatorError : Type 0 where
  unknown_setting duplicate_setting : CoordinatorError
  view_error activating_start activating_goal estimating adding_total adding_dependency :
      Cost.Error → CoordinatorError
  planning : PlanError → CoordinatorError

unfoldable pub new_replay_coordinator :
    Setting
    → List (Text × ℕ)
    → CostProfile
    → CheckpointPolicy
    → Result CoordinatorError ReplayCoordinator
new_replay_coordinator setting init_heights profile policy = do
  require (is_known setting) unknown_setting
  view ← map_err view_error (new_replay_trust_view profile)
  ok (record {
    setting = setting;
    profile = profile;
    policy = policy;
    view = view;
    baselines = new_replay_baselines init_heights;
  })

-- `_, exists := coordinators[setting]`.
unfoldable pub coordinator_of :
    Setting → List (Setting × ReplayCoordinator) → Option ReplayCoordinator
unfolding same_setting
coordinator_of setting [] = none
coordinator_of setting ((s, c) ∷ rest) =
    if same_setting s setting then some c else coordinator_of setting rest

-- The loop of NewReplayCoordinators; a new entry goes behind the others.
unfoldable pub add_coordinators :
    List (Setting × ReplayCoordinator)
    → List Setting
    → List (Text × ℕ)
    → CostProfile
    → CheckpointPolicy
    → Result CoordinatorError (List (Setting × ReplayCoordinator))
unfolding coordinator_of new_replay_coordinator
add_coordinators made [] init_heights profile policy = ok made
add_coordinators made (setting ∷ rest) init_heights profile policy = do
  require (not (is_some (coordinator_of setting made))) duplicate_setting
  coordinator ← new_replay_coordinator setting init_heights profile policy
  add_coordinators (made ++ (setting, coordinator) ∷ []) rest init_heights profile policy

unfoldable pub new_replay_coordinators :
    List Setting
    → List (Text × ℕ)
    → CostProfile
    → CheckpointPolicy
    → Result CoordinatorError (List (Setting × ReplayCoordinator))
unfolding add_coordinators
new_replay_coordinators settings = add_coordinators [] settings

-- The two calls of Activate.
unfoldable pub activate_both :
    ReplayTrustView → ReplayEvent → ReplayTrustView × Result CoordinatorError (BlockKey × BlockKey)
activate_both view event =
    let (view₁, first) = activate_locked view event.destination in
    elim first [
      | err e ↦ (view₁, err (activating_start e))
      | ok start ↦
          let (view₂, second) = activate_locked view₁ event.source in
          elim second [
            | err e ↦ (view₂, err (activating_goal e))
            | ok goal ↦ (view₂, ok (start, goal))
          ]
    ]

-- The start and the goal of an event; they are activated only where the setting plans.
unfoldable pub endpoints :
    ReplayCoordinator
    → ReplayEvent
    → ReplayTrustView × Result CoordinatorError (BlockKey × BlockKey)
unfolding activate_both
endpoints c event =
    if uses_trust_map c.setting
    then activate_both c.view event
    else (c.view, ok (block_key event.destination, block_key event.source))

-- EstimateDirect for an event.
unfoldable pub estimate_event :
    ReplayCoordinator
    → ReplayBaselines
    → ReplayEvent
    → ReplayBaselines × Result Cost.Error ReplayDirectEstimate
estimate_event c baselines event =
    estimate_direct baselines event.destination.chain event.source.chain
      event.source.original_height c.profile c.policy (uses_checkpoint c.setting)

-- The decision before the planner is asked.
unfoldable pub direct_decision : Setting → ReplayEvent → ReplayDirectEstimate → ReplayDecision
direct_decision setting event estimate = record {
  event_id = event.id;
  sequence = event.sequence;
  setting = setting;
  decision = direct_kind;
  planning_enabled = uses_trust_map setting;
  baseline_before = estimate.baseline_before;
  baseline_after = 0;
  direct_start = estimate.direct_start;
  direct_blocks = estimate.direct_blocks;
  checkpoint_configured = estimate.checkpoint_configured;
  checkpoint_period = estimate.checkpoint_period;
  checkpoint_height = estimate.checkpoint_height;
  checkpoint_applied = estimate.checkpoint_applied;
  direct_cost = estimate.cost;
  path_found = false;
  path_cost = 0;
  trust_map_total_cost = 0;
  chosen_cost = estimate.cost;
  path = no_path;
  graph_nodes = 0;
  graph_edges = 0;
  cross_edges_added = 0;
}

-- The costs of a path that was found, in the decision.
unfoldable pub with_path :
    CostProfile → ReplayDecision → ReplayPlanChoice → Result CoordinatorError ReplayDecision
with_path profile result choice =
    if choice.path_found
    then (map_err adding_total (checked_add choice.path.cost profile.trust_root_update_cost)
        >>= λ total. ok (record result {
          path_found = true;
          path = choice.path;
          path_cost = choice.path.cost;
          trust_map_total_cost = total;
        }))
    else ok (record result { path_found = false; path = choice.path })

-- The statements under `if result.PlanningEnabled` that ask the planner.
unfoldable pub planned_decision :
    CostProfile
    → Scratch
    → ReplayTrustView
    → BlockKey
    → BlockKey
    → ReplayDecision
    → Result CoordinatorError ReplayDecision
unfolding with_path
planned_decision profile pooled view start goal result = do
  choice ← map_err planning (plan profile pooled view start goal result.direct_cost)
  result' ← with_path profile result choice
  ok (
      if choice.use_trust_map
      then record result' { decision = trust_map_kind; chosen_cost = choice.total_cost }
      else result')

unfoldable pub decide :
    ReplayCoordinator
    → Scratch
    → ReplayTrustView
    → BlockKey
    → BlockKey
    → ReplayEvent
    → ReplayDirectEstimate
    → Result CoordinatorError ReplayDecision
unfolding direct_decision planned_decision
decide c pooled view start goal event estimate =
    let result = direct_decision c.setting event estimate in
    if result.planning_enabled
    then planned_decision c.profile pooled view start goal result
    else ok result

-- What follows the decision: the baseline advances, and the dependency enters the graph.
unfoldable pub commit :
    ReplayCoordinator
    → ReplayEvent
    → ReplayDecision
    → ReplayCoordinator × Result CoordinatorError ReplayDecision
commit c event result =
    let (baselines, after) =
      advance c.baselines event.destination.chain event.source.chain event.source.original_height in
    let result' = record result { baseline_after = after } in
    let (view, added) = add_verified_dependency c.view event.destination event.source in
    if result.planning_enabled
    then elim added [
      | err e ↦ (record c { baselines = baselines; view = view }, err (adding_dependency e))
      | ok _ ↦ (
        record c { baselines = baselines; view = view },
        ok (record result' {
          cross_edges_added = view.cross_edges_added;
          graph_nodes = node_count view;
          graph_edges = view.edge_count;
        }),
      )
    ]
    else (record c { baselines = baselines }, ok result')

unfoldable pub process :
    Scratch
    → ReplayCoordinator
    → ReplayEvent
    → ReplayCoordinator × Result CoordinatorError ReplayDecision
unfolding endpoints estimate_event decide commit
process pooled c event =
    let (view, ends) = endpoints c event in
    elim ends [
      | err e ↦ (record c { view = view }, err e)
      | ok keys ↦
          let (baselines, estimated) = estimate_event c c.baselines event in
          let c' = record c { view = view; baselines = baselines } in
          elim estimated [
            | err e ↦ (c', err (estimating e))
            | ok estimate ↦ elim (decide c pooled view keys.0 keys.1 event estimate) [
              | err e ↦ (c', err e)
              | ok result ↦ commit c' event result
            ]
          ]
    ]
