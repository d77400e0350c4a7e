-- ===== src/Replay/Coordinator/Restore.antt =====
-- Restore of ReplayCoordinator (Mapnode/replay/replay_coordinator.go): the coordinator moves on by a
-- decision that was made before, after a check that it is one that Process could have made.
use trust_map_prototype.Common.{
  ℕ, suc, ◌+◌, Bool, true, false, not, ◌&&◌, ◌||◌, ◌==◌, ltb, leb, Option, none, some, List, [],
  ◌∷◌, length, Result, ok, err, ◌>>=◌, ◌>>◌, require, map_err, if◌then◌else◌,
}
use trust_map_prototype.Replay.Text.{text_eq}
use trust_map_prototype.Replay.Cost.{CostProfile, checked_add}
use trust_map_prototype.Replay.Setting.{uses_trust_map, same_setting}
use trust_map_prototype.Replay.Baselines.{ReplayDirectEstimate, get, advance}
use trust_map_prototype.Replay.View.{
  BlockKey, block_key, same_key, EdgeKind, intra_chain_up, intra_chain_down, verified_dependency,
  ReplayEdge, ReplayTrustView, add_verified_dependency, edge, node_count,
}
use trust_map_prototype.Replay.Search.{PathSegment, ReplayPath}
use trust_map_prototype.Replay.Coordinator.{
  ReplayEvent, DecisionKind, direct_kind, trust_map_kind, ReplayDecision, ReplayCoordinator,
  CoordinatorError, estimating, adding_dependency, endpoints, estimate_event,
}

-- The details of sequenceError.
pub data Mismatch : Type 0 where
  planning_mode direct_estimate baseline_after baseline_only_result kind missing_path : Mismatch
  path_endpoints path_segment path_edge path_cost_overflow path_cost : Mismatch
  trust_map_total trust_map_selection direct_selection : Mismatch

-- `repeated` is the error of a step that Process takes too.
pub data RestoreError : Type 0 where
  identity_mismatch before_mismatch after_mismatch counter_mismatch : RestoreError
  repeated : CoordinatorError → RestoreError
  decision_mismatch : Mismatch → RestoreError

unfoldable pub same_edge_kind : EdgeKind → EdgeKind → Bool
same_edge_kind intra_chain_up intra_chain_up = true
same_edge_kind intra_chain_down intra_chain_down = true
same_edge_kind verified_dependency verified_dependency = true
same_edge_kind _ _ = false

-- `==` on booleans.
abbrev pub same_bool : Bool → Bool → Bool
same_bool true b = b
same_bool false b = not b

abbrev pub is_direct : DecisionKind → Bool
is_direct direct_kind = true
is_direct _ = false

abbrev pub is_trust_map : DecisionKind → Bool
is_trust_map trust_map_kind = true
is_trust_map _ = false

-- `len(xs) == 0`.
abbrev pub is_nil {ℓ} : {A : Type ℓ} → List A → Bool
is_nil [] = true
is_nil (_ ∷ _) = false

unfoldable pub same_estimate : ReplayDecision → ReplayDirectEstimate → Bool
same_estimate d e =
    d.baseline_before == e.baseline_before
    && d.direct_start == e.direct_start
    && d.direct_blocks == e.direct_blocks
    && same_bool d.checkpoint_configured e.checkpoint_configured
    && d.checkpoint_period == e.checkpoint_period
    && d.checkpoint_height == e.checkpoint_height
    && same_bool d.checkpoint_applied e.checkpoint_applied
    && d.direct_cost == e.cost

-- A direct decision at the direct cost without a path; the flag of the path is read elsewhere.
unfoldable pub is_pathless : ReplayDecision → Bool
is_pathless d =
    is_direct d.decision
    && d.chosen_cost == d.direct_cost
    && d.path_cost == 0
    && d.trust_map_total_cost == 0
    && is_nil d.path.nodes
    && is_nil d.path.segments

unfoldable pub last_node : BlockKey → List BlockKey → BlockKey
last_node k [] = k
last_node k (j ∷ ks) = last_node j ks

-- The nodes are there, one more than the segments, and lead from the first key to the second.
unfoldable pub has_endpoints : ReplayPath → BlockKey → BlockKey → Bool
unfolding last_node
has_endpoints path start goal = elim path.nodes [
  | [] ↦ false
  | k ∷ ks ↦
      length path.segments + 1 == suc (length ks)
      && same_key k start
      && same_key (last_node k ks) goal
]

-- `!ok || edge.Kind != segment.Kind || edge.Weight != segment.Weight`, negated.
unfoldable pub is_edge : Option ReplayEdge → PathSegment → Bool
unfolding same_edge_kind
is_edge none segment = false
is_edge (some e) segment = same_edge_kind e.kind segment.kind && e.weight == segment.weight

-- The loop over the segments, from the cost so far. A segment without its two nodes does not occur
-- behind the check of the lengths.
unfoldable pub validate_segments :
    ReplayTrustView → ℕ → List BlockKey → List PathSegment → Result Mismatch ℕ
unfolding is_edge
validate_segments view cost nodes [] = ok cost
validate_segments view cost (from ∷ to ∷ nodes) (segment ∷ segments) = do
  require (same_key segment.from from && same_key segment.to to) path_segment
  require (is_edge (edge view segment.from segment.to) segment) path_edge
  cost' ← map_err (λ _. path_cost_overflow) (checked_add cost segment.weight)
  validate_segments view cost' (to ∷ nodes) segments
validate_segments view cost _ (segment ∷ segments) = err path_endpoints

-- The checks of a path's total and of what was chosen.
unfoldable pub validate_selection : ReplayDecision → ℕ → Result Mismatch (Unit {0})
validate_selection d total =
    if is_trust_map d.decision
    then require (ltb total d.direct_cost && d.chosen_cost == total) trust_map_selection
    else require (leb d.direct_cost total && d.chosen_cost == d.direct_cost) direct_selection

-- The checks of a path that was found.
unfoldable pub validate_path :
    CostProfile → ReplayTrustView → ReplayEvent → ReplayDecision → Result Mismatch (Unit {0})
unfolding has_endpoints validate_segments validate_selection
validate_path profile view event d = do
  require (has_endpoints d.path (block_key event.destination) (block_key event.source))
      path_endpoints
  cost ← validate_segments view 0 d.path.nodes d.path.segments
  require (d.path.cost == cost && d.path_cost == cost) path_cost
  total ← map_err (λ _. trust_map_total) (checked_add cost profile.trust_root_update_cost)
  require (d.trust_map_total_cost == total) trust_map_total
  validate_selection d total

-- The checks of a decision of a setting that plans.
unfoldable pub validate_planned :
    CostProfile → ReplayTrustView → ReplayEvent → ReplayDecision → Result Mismatch (Unit {0})
unfolding is_pathless validate_path
validate_planned profile view event d = do
  require (is_direct d.decision || is_trust_map d.decision) kind
  if d.path_found then validate_path profile view event d else require (is_pathless d) missing_path

-- `expectedAfter`.
unfoldable pub expected_after : ReplayEvent → ℕ → ℕ
expected_after event before =
    if ltb before event.source.original_height then event.source.original_height else before

unfoldable pub validate_restored_decision :
    ReplayCoordinator
    → ReplayEvent
    → ReplayDecision
    → ReplayDirectEstimate
    → Result Mismatch (Unit {0})
unfolding same_estimate expected_after is_pathless validate_planned
validate_restored_decision c event d estimate = do
  require (same_bool d.planning_enabled (uses_trust_map c.setting)) planning_mode
  require (same_estimate d estimate) direct_estimate
  require (d.baseline_after == expected_after event d.baseline_before) baseline_after
  if d.planning_enabled
      then validate_planned c.profile c.view event d
      else require (is_pathless d && not d.path_found) baseline_only_result

-- `decision.EventID != event.ID || ...`, negated.
unfoldable pub is_of : ReplayCoordinator → ReplayEvent → ReplayDecision → Bool
is_of c event d =
    text_eq d.event_id event.id && d.sequence == event.sequence && same_setting d.setting c.setting

-- The last check of Restore.
unfoldable pub check_counters : ReplayTrustView → ReplayDecision → Result RestoreError (Unit {0})
check_counters view d =
    require
      (node_count view == d.graph_nodes
        && view.edge_count == d.graph_edges
        && view.cross_edges_added == d.cross_edges_added)
      counter_mismatch

-- What follows the validation.
unfoldable pub restore_commit :
    ReplayCoordinator
    → ReplayEvent
    → ReplayDecision
    → ReplayCoordinator × Result RestoreError (Unit {0})
unfolding check_counters
restore_commit c event d =
    let (baselines, after) =
      advance c.baselines event.destination.chain event.source.chain event.source.original_height in
    let (view, added) = add_verified_dependency c.view event.destination event.source in
    if not (after == d.baseline_after)
    then (record c { baselines = baselines }, err after_mismatch)
    else if uses_trust_map c.setting
    then (
      record c { baselines = baselines; view = view },
      map_err (λ e. repeated (adding_dependency e)) added >>= λ _. check_counters view d,
    )
    else (record c { baselines = baselines }, check_counters c.view d)

unfoldable pub restore :
    ReplayCoordinator
    → ReplayEvent
    → ReplayDecision
    → ReplayCoordinator × Result RestoreError (Unit {0})
unfolding is_of validate_restored_decision restore_commit
restore c event d =
    let (view, ends) = endpoints c event in
    let (baselines, baseline) = get c.baselines event.destination.chain event.source.chain in
    let (baselines', estimated) = estimate_event c baselines event in
    let c₁ = record c { view = view } in
    let c₂ = record c₁ { baselines = baselines } in
    let c₃ = record c₁ { baselines = baselines' } in
    if not (is_of c event d) then (c, err identity_mismatch) else elim ends [
      | err e ↦ (c₁, err (repeated e))
      | ok keys ↦
          if not (baseline == d.baseline_before)
          then (c₂, err before_mismatch)
          else elim estimated [
            | err e ↦ (c₃, err (repeated (estimating e)))
            | ok estimate ↦ elim (validate_restored_decision c₃ event d estimate) [
              | err e ↦ (c₃, err (decision_mismatch e))
              | ok _ ↦ restore_commit c₃ event d
            ]
          ]
    ]
