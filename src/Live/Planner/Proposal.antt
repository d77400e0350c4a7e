-- ===== src/Live/Planner/Proposal.antt =====
-- Mapnode/planner/planner.go: what Planner.Plan makes of a snapshot, the checks before it, and what
-- becomes of it up to the store.
use trust_map_prototype.Common.{
  ℕ, ◌*◌, ◌/◌, Bool, true, false, not, ◌&&◌, ◌||◌, ◌==◌, ltb, none, some, List, [], ◌∷◌, map,
  length, Result, ok, err, ◌>>=◌, ◌>>◌, require, map_err, if◌then◌else◌,
}
use trust_map_prototype.Common.Maps.{is_some}
use trust_map_prototype.Replay.Text.{Text, text_eq}
use trust_map_prototype.Replay.Cost.{max_uint64}
use trust_map_prototype.Live.View.{
  TrustEdge, TrustViewSnapshot, compute_snapshot_id, new_trust_view,
}
use trust_map_prototype.Live.Planner.{
  no_fallback, uncalibrated_profile, no_path, path_cost_exceeds_direct, proof_material_missing,
  path_plan, direct_plan, PlannerError, snapshot_unsealed, snapshot_endpoint, path_cost_overflow,
  stale_snapshot, inconsistent_path_step_cost, snapshot_duplicates, invalid_view, Request, Plan,
  ValidatedDirectProfile, find_snapshot_node, directed_reachability, shortest_path,
}

-- The loop over the further edges.
unfoldable pub same_costs : ℕ → List TrustEdge → Bool
same_costs cost [] = true
same_costs cost (e ∷ es) = e.path_step_cost == cost && same_costs cost es

unfoldable pub trusted_path_step_cost : List TrustEdge → Result PlannerError ℕ
unfolding same_costs
trusted_path_step_cost [] = ok 0
trusted_path_step_cost (e ∷ es) = do
  require (not (e.path_step_cost == 0)) inconsistent_path_step_cost
  require (same_costs e.path_step_cost es) inconsistent_path_step_cost
  ok e.path_step_cost

-- An edge of the path has no witness.
unfoldable pub lacks_witness : List TrustEdge → Bool
lacks_witness [] = false
lacks_witness (e ∷ es) = not (is_some e.witness_id) || lacks_witness es

-- The plan before it has a type.
abbrev pub draft : ℕ → Request → TrustViewSnapshot → ValidatedDirectProfile → Plan
draft now request snapshot profile = record {
  id = [];
  request_id = request.id;
  attempt = request.attempt;
  snapshot_id = snapshot.id;
  profile_id = profile.id;
  profile_fingerprint = profile.fingerprint;
  plan_type = [];
  home_node_id = snapshot.start_node_id;
  target_node_id = snapshot.target_node_id;
  hops = [];
  path_step_cost = 0;
  path_cost = none;
  direct_cost = none;
  fallback_reason = no_fallback;
  created_at = now;
}

-- "unavailable".
abbrev pub unavailable : Text
unavailable = b'u' ∷ b'n' ∷ b'a' ∷ b'v' ∷ b'a' ∷ b'i' ∷ b'l' ∷ b'a' ∷ b'b' ∷ b'l' ∷ b'e' ∷ []

-- What becomes of a path, with its type and its reason.
unfoldable pub propose_path : Plan → ℕ → ℕ → List TrustEdge → Result PlannerError Plan
unfolding lacks_witness
propose_path plan direct_cost step path =
    let cost = length path * step in
    let priced = record plan {
      hops = map (λ e. e.id) path;
      path_step_cost = step;
      path_cost = some cost;
    } in
    if ltb (max_uint64 / step) (length path)
    then err path_cost_overflow
    else ok (
        if ltb direct_cost cost
        then record priced { plan_type = direct_plan; fallback_reason = path_cost_exceeds_direct }
        else if lacks_witness path
        then record priced { plan_type = direct_plan; fallback_reason = proof_material_missing }
        else record priced { plan_type = path_plan })

-- Planner.Plan between the checks and persist.
unfoldable pub propose :
    TrustViewSnapshot → Plan → ValidatedDirectProfile → Result PlannerError Plan
unfolding trusted_path_step_cost directed_reachability shortest_path propose_path
propose snapshot plan profile =
    let priced = record plan { direct_cost = some profile.direct_cost } in
    let (edges, reachable) = directed_reachability snapshot in
    if not profile.calibrated
    then ok (record plan { plan_type = direct_plan; fallback_reason = uncalibrated_profile })
    else (trusted_path_step_cost snapshot.edges >>= λ step.
        if not reachable
        then ok (record priced { plan_type = direct_plan; fallback_reason = no_path })
        else (shortest_path snapshot edges >>= λ found.
            propose_path priced profile.direct_cost step found.path))

-- The checks of Plan before the profile is read.
unfoldable pub check_snapshot :
    (Text → Text) → Request → TrustViewSnapshot → Result PlannerError (Unit {0})
unfolding text_eq find_snapshot_node
check_snapshot keccak request snapshot = do
  require snapshot.sealed snapshot_unsealed
  require
      (text_eq snapshot.id request.snapshot_id
        && text_eq snapshot.home_chain_id request.home_chain_id)
      snapshot_endpoint
  require
      (text_eq
        (compute_snapshot_id keccak request.id request.attempt snapshot.revision
          snapshot.start_node_id snapshot.target_node_id snapshot.home_trust_root)
        snapshot.id)
      snapshot_endpoint
  require (not (text_eq snapshot.start_node_id snapshot.target_node_id)) snapshot_endpoint
  require
      (is_some (find_snapshot_node snapshot.nodes snapshot.start_node_id)
        && is_some (find_snapshot_node snapshot.nodes snapshot.target_node_id))
      snapshot_endpoint
  view ←
      map_err invalid_view (new_trust_view keccak snapshot.revision snapshot.nodes snapshot.edges)
  require (length view.nodes == length snapshot.nodes && length view.edges == length snapshot.edges)
      snapshot_duplicates
  elim (find_snapshot_node snapshot.nodes snapshot.start_node_id) [
    | none ↦ err snapshot_endpoint
    | some start ↦
        require (text_eq start.key.chain_id request.home_chain_id) snapshot_endpoint
        >> require (text_eq start.root snapshot.home_trust_root) stale_snapshot
  ]
