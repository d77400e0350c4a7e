-- ===== src/Replay/Coordinator/Decided.antt =====
-- The decisions that Process of ReplayCoordinator (Mapnode/replay/replay_coordinator.go) makes.
use trust_map_prototype.Common.{
  ℕ, ◌+◌, ◌≤◌, ◌≡◌, true, ltb, ok, if◌then◌else◌, Bool-cases, Result-cases, inl, inr,
}
use trust_map_prototype.Replay.Cost.{checked_add-ok, max_uint64}
use trust_map_prototype.Replay.Setting.{uses_trust_map}
use trust_map_prototype.Replay.Baselines.{ReplayDirectEstimate}
use trust_map_prototype.Replay.View.{BlockKey, canonical_key, ReplayTrustView}
use trust_map_prototype.Replay.View.Soundness.{IsSound}
use trust_map_prototype.Replay.Scratch.{Scratch, IsStamped}
use trust_map_prototype.Replay.Search.{ReplayPath}
use trust_map_prototype.Replay.Search.Walks.{IsWalk}
use trust_map_prototype.Replay.Planner.{plan}
use trust_map_prototype.Replay.Planner.Choices.{
  direct_choice, path_choice, no_way, by_way, plan-IsChosen,
}
use trust_map_prototype.Replay.Coordinator.{
  ReplayEvent, direct_kind, trust_map_kind, ReplayDecision, ReplayCoordinator, direct_decision,
  planned_decision, with_path, decide,
}

-- The decision of a path whose cost with the update of the trust root is `total`.
abbrev pub path_decision :
    ReplayCoordinator → ReplayEvent → ReplayDirectEstimate → ReplayPath → ℕ → ReplayDecision
path_decision c event estimate path total = record (direct_decision c.setting event estimate) {
  decision = if ltb total estimate.cost then trust_map_kind else direct_kind;
  path_found = true;
  path = path;
  path_cost = path.cost;
  trust_map_total_cost = total;
  chosen_cost = if ltb total estimate.cost then total else estimate.cost;
}

pub data IsDecided (c : ReplayCoordinator) (view : ReplayTrustView) (start goal : BlockKey)
    (event : ReplayEvent) (estimate : ReplayDirectEstimate) (d : ReplayDecision) : Type 0 where
  directly :
      direct_decision c.setting event estimate ≡ d → IsDecided c view start goal event estimate d
  along :
      (p : ReplayPath)
      → uses_trust_map c.setting ≡ true
      → IsWalk view.adjacency (canonical_key start) (canonical_key goal) p.nodes p.segments p.cost
      → p.cost + c.profile.trust_root_update_cost ≤ max_uint64
      → path_decision c event estimate p (p.cost + c.profile.trust_root_update_cost) ≡ d
      → IsDecided c view start goal event estimate d

pub decide-IsDecided :
    (c : ReplayCoordinator) (pooled : Scratch) (view : ReplayTrustView) (start goal : BlockKey)
    (event : ReplayEvent) (estimate : ReplayDirectEstimate) (d : ReplayDecision)
    → IsStamped pooled
    → IsSound view
    → estimate.cost ≤ max_uint64
    → decide c pooled view start goal event estimate ≡ ok d
    → IsDecided c view start goal event estimate d
unfolding decide planned_decision with_path direct_decision
decide-IsDecided c pooled view start goal event estimate d stamped h bound run =
    elim (Bool-cases (uses_trust_map c.setting)) [
      | inr alone ↦ directly (cc (rw (decide, direct_decision, alone) at run))
      | inl plans ↦ elim (Result-cases (plan c.profile pooled view start goal estimate.cost)) [
        | inr (_, lost) ↦ absurd (cc (rw (decide, direct_decision, plans, lost) at run))
        | inl (choice, found) ↦
            elim (plan-IsChosen c.profile pooled view start goal estimate.cost bound choice stamped
              h found) [
                | no_way e ↦
                    let found' : plan c.profile pooled view start goal estimate.cost
                        ≡ ok (direct_choice estimate.cost) =
                      cc in
                    directly (
                      rw (direct_decision, plans)
                        (cc (rw (decide, direct_decision, plans, found') at run)))
                | by_way p walk fits e ↦
                    let total = p.cost + c.profile.trust_root_update_cost in
                    let found' : plan c.profile pooled view start goal estimate.cost
                        ≡ ok (path_choice p total estimate.cost) =
                      cc in
                    let added = checked_add-ok p.cost c.profile.trust_root_update_cost fits in
                    let run' = rw (decide, direct_decision, plans, found', added) at run in
                    along p plans walk fits (elim (Bool-cases (ltb total estimate.cost)) [
                      | inl cheaper ↦ rw (direct_decision, plans, cheaper) (cc (rw cheaper at run'))
                      | inr dearer ↦ rw (direct_decision, plans, dearer) (cc (rw dearer at run'))
                    ])
              ]
      ]
    ]
