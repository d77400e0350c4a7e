-- ===== src/Replay/Coordinator/Resume.antt =====
-- Process and Restore of ReplayCoordinator (Mapnode/replay/replay_coordinator.go) side by side.
use trust_map_prototype.Common.{
  ℕ, ◌≡◌, refl, subst, ◌∙◌, sym, true, false, ◌==◌, ==_iff, ok, Bool-cases, Result-cases, inl, inr,
}
use trust_map_prototype.Replay.Text.{text_eq_iff, text_keyed}
use trust_map_prototype.Replay.Setting.{
  Setting, b0, b1, b2, b3, other_setting, uses_trust_map, same_setting,
}
use trust_map_prototype.Replay.Baselines.{
  ReplayDirectEstimate, baseline_keyed, baseline_key, get, advance,
}
use trust_map_prototype.Replay.View.{block_key, add_verified_dependency, node_count}
use trust_map_prototype.Replay.Scratch.{Scratch, IsStamped}
use trust_map_prototype.Replay.Coordinator.{
  ReplayEvent, ReplayDecision, ReplayCoordinator, endpoints, estimate_event, decide, commit,
  process,
}
use trust_map_prototype.Replay.Coordinator.Decided.{IsDecided, decide-IsDecided}
use trust_map_prototype.Replay.Coordinator.Restore.{
  is_of, check_counters, restore_commit, restore, validate_restored_decision,
}
use trust_map_prototype.Replay.Coordinator.Invariant.{
  IsCoordinator, IsEvent, endpoints-IsView, endpoints-idle, endpoints-keys, IsStarted,
  IsDecided-IsStarted,
}
use trust_map_prototype.Replay.Coordinator.Validated.{
  finished, validate_restored_decision-IsDecided,
}
use trust_map_prototype.Replay.Coordinator.Comparisons.{==-refl}
use trust_map_prototype.Replay.Coordinator.Estimates.{
  estimate_event-fits, estimate_event-again, estimate_event-current, advance-expected,
}

module _ (c : ReplayCoordinator) (event : ReplayEvent) (result : ReplayDecision)
    (plans : result.planning_enabled ≡ uses_trust_map c.setting)
    (idle : uses_trust_map c.setting ≡ false
      → (node_count c.view ≡ result.graph_nodes)
        × (c.view.edge_count ≡ result.graph_edges)
        × (c.view.cross_edges_added ≡ result.cross_edges_added)) where
  -- Where the decision is committed, it is the one before, with the counters, and Restore ends alike.
  pub commit-restore :
      {c' : ReplayCoordinator} {d : ReplayDecision}
      → commit c event result ≡ (c', ok d)
      → (nodes : ℕ) × (edges : ℕ) × (cross : ℕ) × (finished
            (advance c.baselines event.destination.chain event.source.chain
              event.source.original_height).1
            result
            nodes
            edges
            cross
          ≡ d)
        × (restore_commit c event d ≡ (c', ok tt))
  unfolding commit restore_commit check_counters
  commit-restore {c'} {d} run =
      let (baselines, after) =
        advance c.baselines event.destination.chain event.source.chain
          event.source.original_height in
      let added = add_verified_dependency c.view event.destination event.source in
      elim (Bool-cases (uses_trust_map c.setting)) [
        | inr alone ↦
            let run' = rw (commit, plans, alone) at run in
            let (n, m, x) = idle alone in
            let is : finished after result result.graph_nodes result.graph_edges
                  result.cross_edges_added
                ≡ d =
              cc in
            (
              result.graph_nodes,
              result.graph_edges,
              result.cross_edges_added,
              is,
              subst (λ y. restore_commit c event y ≡ (c', ok tt)) is
                  (rw
                    (
                      restore_commit,
                      alone,
                      ==-refl after,
                      check_counters,
                      n,
                      m,
                      x,
                      ==-refl result.graph_nodes,
                      ==-refl result.graph_edges,
                      ==-refl result.cross_edges_added,
                    )
                    (cc run')),
            )
        | inl planned ↦ elim (Result-cases added.1) [
          | inr (_, e) ↦ absurd (cc (rw (commit, plans, planned, e) at run))
          | inl (_, e) ↦
              let run' = rw (commit, plans, planned, e) at run in
              let v = added.0 in
              let is : finished after result (node_count v) v.edge_count v.cross_edges_added ≡ d =
                cc in
              (
                node_count v,
                v.edge_count,
                v.cross_edges_added,
                is,
                subst (λ y. restore_commit c event y ≡ (c', ok tt)) is
                    (rw
                      (
                        restore_commit,
                        planned,
                        e,
                        ==-refl after,
                        check_counters,
                        ==-refl (node_count v),
                        ==-refl v.edge_count,
                        ==-refl v.cross_edges_added,
                      )
                      (cc run')),
              )
        ]
      ]

same_setting_refl : (s : Setting) → same_setting s s ≡ true
unfolding same_setting
same_setting_refl b0 = refl
same_setting_refl b1 = refl
same_setting_refl b2 = refl
same_setting_refl b3 = refl
same_setting_refl (other_setting name) = (text_eq_iff name name).1 refl

pub idle_counters :
    (c : ReplayCoordinator) (event : ReplayEvent) (b : IsEvent event) (i : IsCoordinator c)
    {c₁ : ReplayCoordinator} {estimate : ReplayDirectEstimate} {d : ReplayDecision}
    → IsStarted c₁ event estimate d
    → uses_trust_map c.setting ≡ false
    → let v = (endpoints c event).0 in
      (node_count v ≡ d.graph_nodes)
      × (v.edge_count ≡ d.graph_edges)
      × (v.cross_edges_added ≡ d.cross_edges_added)
idle_counters c event b i started alone =
    let (n, m, x) = i.idle alone in
    let (n', m', x') = started.counters in
    rw (endpoints-idle c event b i alone) (n ∙ sym n', m ∙ sym m', x ∙ sym x')

IsStarted-is_of :
    {c : ReplayCoordinator} {event : ReplayEvent} {estimate : ReplayDirectEstimate}
    {d : ReplayDecision}
    → IsStarted c event estimate d
    → is_of c event d ≡ true
unfolding is_of
IsStarted-is_of {c} {event} s =
    rw
      (
        s.event_id,
        s.sequence,
        s.setting,
        (text_eq_iff event.id event.id).1 refl,
        ==-refl event.sequence,
        same_setting_refl c.setting,
      )
      refl

-- Restore of the decision that Process made for an event, from the same state, succeeds and leaves
-- the state that Process left, where the state is one that Process keeps (process-IsCoordinator) and
-- the heights of the event are uint64, and for whatever scratch of earlier searches.
pub restore-process :
    (pooled : Scratch) (c c' : ReplayCoordinator) (event : ReplayEvent) (d : ReplayDecision)
    → IsStamped pooled
    → IsCoordinator c
    → IsEvent event
    → process pooled c event ≡ (c', ok d)
    → restore c event d ≡ (c', ok tt)
unfolding process restore
restore-process pooled c c' event d stamped i b run =
    let v = (endpoints c event).0 in
    let (sound, canonical) = endpoints-IsView c event b i in
    let direct = estimate_event c c.baselines event in
    let got = get c.baselines event.destination.chain event.source.chain in
    elim (Result-cases (endpoints c event).1) [
      | inr (_, e) ↦ absurd (cc (rw (process, e) at run))
      | inl (keys, at_keys) ↦ elim (Result-cases direct.1) [
        | inr (_, e) ↦ absurd (cc (rw (process, at_keys, e) at run))
        | inl (estimate, at_estimate) ↦
            let (fits, before, now) = estimate_event-fits c event at_estimate in
            let c₁ = record c { view = v; baselines = direct.0 } in
            elim (Result-cases (decide c pooled v keys.0 keys.1 event estimate)) [
              | inr (_, e) ↦ absurd (cc (rw (process, at_keys, at_estimate, e) at run))
              | inl (result, at_result) ↦
                  let run' : commit c₁ event result ≡ (c', ok d) =
                    rw (process, at_keys, at_estimate, at_result) at run in
                  let decided =
                    decide-IsDecided c₁ pooled v keys.0 keys.1 event estimate result stamped sound
                      fits at_result in
                  let started = IsDecided-IsStarted decided in
                  let (n, m, x, is, restored) =
                    commit-restore c₁ event result started.planning
                      (idle_counters c event b i started) run' in
                  let keyed : IsDecided c₁ v (block_key event.destination) (block_key event.source)
                      event estimate result =
                    subst (λ k. IsDecided c₁ v k.0 k.1 event estimate result)
                      (sym (endpoints-keys c event b i at_keys)) decided in
                  let valid =
                    subst (λ y. validate_restored_decision c₁ event y estimate ≡ ok tt) is
                      (validate_restored_decision-IsDecided c₁ event estimate _ canonical result n m
                        x keyed
                        (advance-expected c₁ event estimate.baseline_before (
                          estimate_event-current c event
                            (baseline_key event.destination.chain event.source.chain)
                          ∙ now))) in
                  let of_event = subst (λ y. is_of c event y ≡ true) is (IsStarted-is_of started) in
                  let same_before : (got.1 == d.baseline_before) ≡ true =
                    subst (λ y. (got.1 == y.baseline_before) ≡ true) is
                      ((==_iff got.1 result.baseline_before).1 (before ∙ sym started.before)) in
                  let again = estimate_event-again c event in
                  rw (restore, of_event, at_keys, same_before, again, at_estimate, valid, again)
                    restored
            ]
      ]
    ]
