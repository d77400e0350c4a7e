-- ===== src/Replay/Coordinator/Costs.antt =====
-- The costs in the decisions of ReplayCoordinator (Mapnode/replay/replay_coordinator.go).
use trust_map_prototype.Common.{
  ℕ, ◌+◌, ◌≤◌, ◌≡◌, refl, subst, true, false, ltb, ok, if◌then◌else◌, Result-cases, inl, inr,
}
use trust_map_prototype.Replay.Setting.{uses_trust_map}
use trust_map_prototype.Replay.Baselines.{ReplayDirectEstimate}
use trust_map_prototype.Replay.Baselines.Progress.{advance-current_baseline}
use trust_map_prototype.Replay.View.{BlockKey, ReplayTrustView}
use trust_map_prototype.Replay.Scratch.{Scratch, IsStamped}
use trust_map_prototype.Replay.Coordinator.{
  direct_kind, trust_map_kind, ReplayEvent, ReplayDecision, ReplayCoordinator, endpoints,
  estimate_event, direct_decision, decide, commit, process,
}
use trust_map_prototype.Replay.Coordinator.Decided.{IsDecided, directly, along, decide-IsDecided}
use trust_map_prototype.Replay.Coordinator.Invariant.{
  IsCoordinator, IsEvent, endpoints-IsView, IsDecided-IsStarted,
}
use trust_map_prototype.Replay.Coordinator.Validated.{finished}
use trust_map_prototype.Replay.Coordinator.Estimates.{estimate_event-fits}
use trust_map_prototype.Replay.Coordinator.Resume.{commit-restore, idle_counters}

-- The choice between the direct verification and a path, which there is only where the setting plans.
pub data IsPriced (c : ReplayCoordinator) (d : ReplayDecision) : Type 0 where
  unpaired :
      d.path_found ≡ false → d.decision ≡ direct_kind → d.chosen_cost ≡ d.direct_cost → IsPriced c d
  paired :
      uses_trust_map c.setting ≡ true
      → d.path_found ≡ true
      → d.path_cost ≡ d.path.cost
      → d.trust_map_total_cost ≡ d.path.cost + c.profile.trust_root_update_cost
      → d.decision
        ≡ (if ltb d.trust_map_total_cost d.direct_cost then trust_map_kind else direct_kind)
      → d.chosen_cost ≡ (
          if ltb d.trust_map_total_cost d.direct_cost
          then d.trust_map_total_cost
          else d.direct_cost)
      → IsPriced c d

decided-IsPriced :
    {c : ReplayCoordinator} {view : ReplayTrustView} {start goal : BlockKey} {event : ReplayEvent}
    {estimate : ReplayDirectEstimate} {d : ReplayDecision} (after nodes edges cross : ℕ)
    → IsDecided c view start goal event estimate d
    → IsPriced c (finished after d nodes edges cross)
unfolding direct_decision
decided-IsPriced {c} after nodes edges cross (directly e) =
    subst (λ d. IsPriced c (finished after d nodes edges cross)) e (unpaired refl refl refl)
decided-IsPriced {c} after nodes edges cross (along p plans walk fits e) =
    subst (λ d. IsPriced c (finished after d nodes edges cross)) e
      (paired plans refl refl refl refl refl)

-- In a state that Process keeps, for an event of uint64 heights, a decision that Process returns
-- takes the path that was found, which only a setting that plans has, at its cost and the update of
-- the trust root, exactly where that is strictly below the direct cost, and the direct verification at
-- its cost otherwise; the baseline after it is not below the source's height.
pub process-IsPriced :
    (pooled : Scratch) (c c' : ReplayCoordinator) (event : ReplayEvent) (d : ReplayDecision)
    → IsStamped pooled
    → IsCoordinator c
    → IsEvent event
    → process pooled c event ≡ (c', ok d)
    → IsPriced c d × (event.source.original_height ≤ d.baseline_after)
unfolding process
process-IsPriced pooled c c' event d stamped i b run =
    let v = (endpoints c event).0 in
    let (sound, canonical) = endpoints-IsView c event b i in
    let direct = estimate_event c c.baselines event in
    elim (Result-cases (endpoints c event).1) [
      | inr (_, e) ↦ absurd (cc (rw (process, e) at run))
      | inl (keys, at_keys) ↦ elim (Result-cases direct.1) [
        | inr (_, e) ↦ absurd (cc (rw (process, at_keys, e) at run))
        | inl (estimate, at_estimate) ↦
            let (fits, before, now) = estimate_event-fits c event at_estimate in
            let c₁ = record c { view = v; baselines = direct.0 } in
            elim (Result-cases (decide c pooled v keys.0 keys.1 event estimate)) [
              | inr (_, e) ↦ absurd (cc (rw (process, at_keys, at_estimate, e) at run))
              | inl (result, at_result) ↦
                  let run' : commit c₁ event result ≡ (c', ok d) =
                    rw (process, at_keys, at_estimate, at_result) at run in
                  let decided =
                    decide-IsDecided c pooled v keys.0 keys.1 event estimate result stamped sound
                      fits at_result in
                  let started = IsDecided-IsStarted decided in
                  let (n, m, x, is, restored) =
                    commit-restore c₁ event result started.planning
                      (idle_counters c event b i started) run' in
                  let up =
                    (advance-current_baseline direct.0 event.destination.chain event.source.chain
                      event.source.original_height).0 in
                  subst (λ y. IsPriced c y × (event.source.original_height ≤ y.baseline_after)) is
                    (decided-IsPriced _ n m x decided, up)
            ]
      ]
    ]
