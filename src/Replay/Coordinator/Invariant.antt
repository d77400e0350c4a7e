-- ===== src/Replay/Coordinator/Invariant.antt =====
-- The state of ReplayCoordinator (Mapnode/replay/replay_coordinator.go) between two events.
use trust_map_prototype.Common.{
  ℕ, ◌≤◌, ◌≡◌, refl, ap, subst, sym, Bool, true, false, List, ok, Result, arith, if◌then◌else◌,
  Bool-cases, Result-cases, inl, inr,
}
use trust_map_prototype.Common.Maps.{lookup}
use trust_map_prototype.Replay.Text.{Text, text_keyed}
use trust_map_prototype.Replay.Cost.{CostProfile, checked_add, max_uint64}
use trust_map_prototype.Replay.Setting.{Setting, uses_trust_map, is_known}
use trust_map_prototype.Replay.Checkpoints.{CheckpointPolicy}
use trust_map_prototype.Replay.Baselines.{
  ReplayBaselines, ReplayDirectEstimate, new_replay_baselines, baseline_keyed,
}
use trust_map_prototype.Replay.View.{
  BlockKey, block_key, ReplayTrustView, new_replay_trust_view, activate_locked,
  add_verified_dependency, node_count,
}
use trust_map_prototype.Replay.View.Soundness.{IsSound, activate_locked-IsSound}
use trust_map_prototype.Replay.View.Dependency.{add_verified_dependency-IsSound}
use trust_map_prototype.Replay.View.Runs.{
  blank_view, blank_view-IsSound, new_replay_trust_view-blank,
}
use trust_map_prototype.Replay.View.Canonical.{
  IsCanonical, activate_locked-key, activate_locked-IsCanonical,
  add_verified_dependency-IsCanonical,
}
use trust_map_prototype.Replay.Scratch.{Scratch}
use trust_map_prototype.Replay.Planner.{plan}
use trust_map_prototype.Replay.Coordinator.{
  DecisionKind, ReplayEvent, ReplayDecision, ReplayCoordinator, CoordinatorError,
  new_replay_coordinator, activate_both, endpoints, estimate_event, direct_decision,
  planned_decision, with_path, decide, commit, process,
}
use trust_map_prototype.Replay.Coordinator.Decided.{IsDecided, directly, along}

-- What Process relies on: a sound graph of canonical keys under the profile of the coordinator, and
-- no nodes and edges in it where the setting does not plan.
pub record IsCoordinator (c : ReplayCoordinator) : Type 0 where
  pub sound : IsSound c.view
  pub canonical : IsCanonical c.profile c.view
  pub idle :
      uses_trust_map c.setting ≡ false
      → (node_count c.view ≡ 0) × (c.view.edge_count ≡ 0) × (c.view.cross_edges_added ≡ 0)

-- The heights of an event's two blocks are uint64.
abbrev pub IsEvent : ReplayEvent → Type 0
IsEvent event =
    ((block_key event.destination).height ≤ max_uint64)
    × ((block_key event.source).height ≤ max_uint64)

-- A view that Process may leave.
abbrev pub IsView : CostProfile → ReplayTrustView → Type 0
IsView profile view = IsSound view × IsCanonical profile view

activate_both-IsView :
    (profile : CostProfile) (view : ReplayTrustView) (event : ReplayEvent)
    → IsEvent event
    → IsView profile view
    → IsView profile (activate_both view event).0
unfolding activate_both
activate_both-IsView profile view event (bd, bs) (h, c) =
    let v = (activate_locked view event.destination).0 in
    let h₁ = activate_locked-IsSound view event.destination bd h in
    let c₁ = activate_locked-IsCanonical profile view c event.destination bd h in
    elim (Result-cases (activate_locked view event.destination).1) [
      | inr (_, e) ↦ rw (activate_both, e) (h₁, c₁)
      | inl (from, e) ↦
          let both : IsView profile (activate_locked v event.source).0 = (
            activate_locked-IsSound v event.source bs h₁,
            activate_locked-IsCanonical profile v c₁ event.source bs h₁,
          ) in
          elim (Result-cases (activate_locked v event.source).1) [
            | inr (_, e') ↦ rw (activate_both, e, e') both
            | inl (to, e') ↦ rw (activate_both, e, e') both
          ]
    ]

activate_both-keys :
    (view : ReplayTrustView) (event : ReplayEvent) {keys : BlockKey × BlockKey}
    → (activate_both view event).1 ≡ ok keys
    → (block_key event.destination, block_key event.source) ≡ keys
unfolding activate_both
activate_both-keys view event run =
    let v = (activate_locked view event.destination).0 in
    elim (Result-cases (activate_locked view event.destination).1) [
      | inr (_, e) ↦ absurd (cc (rw (activate_both, e) at run))
      | inl (from, e) ↦ elim (Result-cases (activate_locked v event.source).1) [
        | inr (_, e') ↦ absurd (cc (rw (activate_both, e, e') at run))
        | inl (to, e') ↦
            let same : from ≡ block_key event.destination =
              sym (activate_locked-key view event.destination e) in
            let same' : to ≡ block_key event.source = sym (activate_locked-key v event.source e') in
            cc (rw (activate_both, e, e') at run)
      ]
    ]

module _ (c : ReplayCoordinator) (event : ReplayEvent) (b : IsEvent event)
    (i : IsCoordinator c) where
  pub endpoints-IsView : IsView c.profile (endpoints c event).0
  unfolding endpoints
  endpoints-IsView = elim (Bool-cases (uses_trust_map c.setting)) [
    | inl plans ↦
        rw (endpoints, plans) (activate_both-IsView c.profile c.view event b (i.sound, i.canonical))
    | inr alone ↦ rw (endpoints, alone) (i.sound, i.canonical)
  ]

  pub endpoints-idle : uses_trust_map c.setting ≡ false → (endpoints c event).0 ≡ c.view
  unfolding endpoints
  endpoints-idle alone = rw (endpoints, alone) refl

  pub endpoints-keys :
      {keys : BlockKey × BlockKey}
      → (endpoints c event).1 ≡ ok keys
      → (block_key event.destination, block_key event.source) ≡ keys
  unfolding endpoints
  endpoints-keys run = elim (Bool-cases (uses_trust_map c.setting)) [
    | inl plans ↦ activate_both-keys c.view event (rw (endpoints, plans) at run)
    | inr alone ↦ cc (rw (endpoints, alone) at run)
  ]

-- What a decision takes from its event, its setting and its estimate, before it is committed.
pub record IsStarted (c : ReplayCoordinator) (event : ReplayEvent) (estimate : ReplayDirectEstimate)
    (d : ReplayDecision) : Type 0 where
  pub event_id : d.event_id ≡ event.id
  pub sequence : d.sequence ≡ event.sequence
  pub setting : d.setting ≡ c.setting
  pub planning : d.planning_enabled ≡ uses_trust_map c.setting
  pub before : d.baseline_before ≡ estimate.baseline_before
  pub counters : (d.graph_nodes ≡ 0) × (d.graph_edges ≡ 0) × (d.cross_edges_added ≡ 0)

pub IsDecided-IsStarted :
    {c : ReplayCoordinator} {view : ReplayTrustView} {start goal : BlockKey} {event : ReplayEvent}
    {estimate : ReplayDirectEstimate} {d : ReplayDecision}
    → IsDecided c view start goal event estimate d
    → IsStarted c event estimate d
unfolding direct_decision
IsDecided-IsStarted {c} {event = event} {estimate = estimate} (directly e) =
    subst (IsStarted c event estimate) e (ground arith)
IsDecided-IsStarted {c} {event = event} {estimate = estimate} (along p plans walk fits e) =
    subst (IsStarted c event estimate) e (ground arith)

-- The coordinator with another view and other baselines.
abbrev moved : ReplayCoordinator → ReplayTrustView → ReplayBaselines → ReplayCoordinator
moved c view baselines = record c { view = view; baselines = baselines }

commit-IsCoordinator :
    (c : ReplayCoordinator) (event : ReplayEvent) (result : ReplayDecision)
    → result.planning_enabled ≡ uses_trust_map c.setting
    → IsEvent event
    → IsCoordinator c
    → IsCoordinator (commit c event result).0
unfolding commit
commit-IsCoordinator c event result plans (bd, bs) i =
    let added = add_verified_dependency c.view event.destination event.source in
    let sound =
      add_verified_dependency-IsSound c.view event.destination event.source bd bs i.sound in
    let canonical =
      add_verified_dependency-IsCanonical c.profile c.view event.destination event.source bd bs
        i.sound i.canonical in
    elim (Bool-cases (uses_trust_map c.setting)) [
      | inr alone ↦
          rw (commit, plans, alone)
            (record { sound = i.sound; canonical = i.canonical; idle = λ _. i.idle alone })
      | inl planned ↦ elim (Result-cases added.1) [
        | inr (_, e) ↦
            rw (commit, plans, planned, e)
              (record { sound = sound; canonical = canonical; idle = λ alone. absurd (cc) })
        | inl (_, e) ↦
            rw (commit, plans, planned, e)
              (record { sound = sound; canonical = canonical; idle = λ alone. absurd (cc) })
      ]
    ]

endpoints-IsCoordinator :
    (c : ReplayCoordinator) (event : ReplayEvent) (baselines : ReplayBaselines)
    → IsEvent event
    → IsCoordinator c
    → IsCoordinator (moved c (endpoints c event).0 baselines)
endpoints-IsCoordinator c event baselines b i =
    let (sound, canonical) = endpoints-IsView c event b i in
    record {
      sound = sound;
      canonical = canonical;
      idle = λ alone. rw (endpoints-idle c event b i alone) (i.idle alone);
    }

ok-same :
    {a b : ReplayDecision} → ◌≡◌ {A = Result CoordinatorError ReplayDecision} (ok a) (ok b) → a ≡ b
ok-same e = cc

chosen-planning :
    (flag : Bool) (result d : ReplayDecision) (kind : DecisionKind) (cost : ℕ)
    → (if flag then record result { decision = kind; chosen_cost = cost } else result) ≡ d
    → result.planning_enabled ≡ d.planning_enabled
chosen-planning true result d kind cost e = ap (λ d. d.planning_enabled) e
chosen-planning false result d kind cost e = ap (λ d. d.planning_enabled) e

-- A decision has the flag of its setting, whatever the planner found.
decide-planning :
    (c : ReplayCoordinator) (pooled : Scratch) (view : ReplayTrustView) (start goal : BlockKey)
    (event : ReplayEvent) (estimate : ReplayDirectEstimate) {d : ReplayDecision}
    → decide c pooled view start goal event estimate ≡ ok d
    → d.planning_enabled ≡ uses_trust_map c.setting
unfolding decide direct_decision planned_decision with_path
decide-planning c pooled view start goal event estimate {d} run =
    elim (Bool-cases (uses_trust_map c.setting)) [
      | inr alone ↦ rw alone (
          sym (ap (λ d. d.planning_enabled) (ok-same (rw (decide, direct_decision, alone) at run))))
      | inl plans ↦ elim (Result-cases (plan c.profile pooled view start goal estimate.cost)) [
        | inr (_, lost) ↦ absurd (cc (rw (decide, direct_decision, plans, lost) at run))
        | inl (choice, found) ↦ elim (Bool-cases choice.path_found) [
          | inr none_ ↦
              let run' = rw (decide, direct_decision, plans, found, none_) at run in
              rw plans (sym (chosen-planning choice.use_trust_map _ _ _ _ (ok-same run')))
          | inl some_ ↦
              elim (Result-cases (checked_add choice.path.cost c.profile.trust_root_update_cost)) [
                | inr (_, over) ↦
                    absurd (cc (rw (decide, direct_decision, plans, found, some_, over) at run))
                | inl (_, fits) ↦
                    let run' = rw (decide, direct_decision, plans, found, some_, fits) at run in
                    rw plans (sym (chosen-planning choice.use_trust_map _ _ _ _ (ok-same run')))
              ]
        ]
      ]
    ]

-- Process keeps the state of a coordinator, whatever its outcome, on an event of uint64 heights: the
-- graph is sound, its edges join blocks of canonical chain names, its profile is the coordinator's,
-- and a setting that does not plan has no nodes and no edges in it.
pub process-IsCoordinator :
    (pooled : Scratch) (c : ReplayCoordinator) (event : ReplayEvent)
    → IsEvent event
    → IsCoordinator c
    → IsCoordinator (process pooled c event).0
unfolding process
process-IsCoordinator pooled c event b i =
    let v = (endpoints c event).0 in
    let direct = estimate_event c c.baselines event in
    let there = λ (x : ReplayBaselines). endpoints-IsCoordinator c event x b i in
    elim (Result-cases (endpoints c event).1) [
      | inr (_, e) ↦ rw (process, e) (there c.baselines)
      | inl (keys, at_keys) ↦ elim (Result-cases direct.1) [
        | inr (_, e) ↦ rw (process, at_keys, e) (there direct.0)
        | inl (estimate, at_estimate) ↦
            elim (Result-cases (decide c pooled v keys.0 keys.1 event estimate)) [
              | inr (_, e) ↦ rw (process, at_keys, at_estimate, e) (there direct.0)
              | inl (result, at_result) ↦
                  rw (process, at_keys, at_estimate, at_result)
                    (commit-IsCoordinator (moved c v direct.0) event result
                      (decide-planning c pooled v keys.0 keys.1 event estimate at_result) b
                      (there direct.0))
            ]
      ]
    ]

blank_view-IsCanonical : (profile : CostProfile) → IsCanonical profile (blank_view profile)
unfolding lookup
blank_view-IsCanonical profile = record { profiled = refl; ends = λ f t e h. absurd (cc) }

-- A new coordinator is in such a state.
pub new_replay_coordinator-IsCoordinator :
    (setting : Setting) (init_heights : List (Text × ℕ)) (profile : CostProfile)
    (policy : CheckpointPolicy) {c : ReplayCoordinator}
    → new_replay_coordinator setting init_heights profile policy ≡ ok c
    → IsCoordinator c
unfolding new_replay_coordinator node_count
new_replay_coordinator-IsCoordinator setting init_heights profile policy {c} run =
    elim (Bool-cases (is_known setting)) [
      | inr other ↦ absurd (cc (rw (new_replay_coordinator, other) at run))
      | inl known ↦ elim (Result-cases (new_replay_trust_view profile)) [
        | inr (_, e) ↦ absurd (cc (rw (new_replay_coordinator, known, e) at run))
        | inl (view, e) ↦
            let blank = new_replay_trust_view-blank profile e in
            let fresh : ReplayCoordinator = record {
              setting = setting;
              profile = profile;
              policy = policy;
              view = blank_view profile;
              baselines = new_replay_baselines init_heights;
            } in
            let same : fresh ≡ c = cc (rw (new_replay_coordinator, known, e) at run) in
            subst IsCoordinator same (record {
              sound = blank_view-IsSound profile;
              canonical = blank_view-IsCanonical profile;
              idle = λ alone. (refl, refl, refl);
            })
      ]
    ]
