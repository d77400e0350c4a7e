-- ===== src/Replay/Coordinator/Validated.antt =====
-- The checks of validateRestoredDecision (Mapnode/replay/replay_coordinator.go) on the decisions that
-- Process makes.
use trust_map_prototype.Common.{
  ℕ, ◌+◌, ◌≤◌, ◌≡◌, refl, ap, subst, ◌∙◌, sym, true, not, ◌&&◌, require, ◌==◌, ltb, leb, some, List,
  [], ◌∷◌, length, ok, arith, if◌then◌else◌, Bool-cases, inl, inr,
}
use trust_map_prototype.Replay.Cost.{checked_add-ok, max_uint64}
use trust_map_prototype.Replay.Setting.{uses_trust_map}
use trust_map_prototype.Replay.Baselines.{ReplayDirectEstimate}
use trust_map_prototype.Replay.View.{BlockKey, block_key, ReplayEdge, ReplayTrustView, edge}
use trust_map_prototype.Replay.View.Edges.{edge_at}
use trust_map_prototype.Replay.View.Canonical.{IsCanonical, canonical_key_of, block_key-canonical}
use trust_map_prototype.Replay.Search.{PathSegment, ReplayPath}
use trust_map_prototype.Replay.Search.Walks.{IsWalk, stay, move}
use trust_map_prototype.Replay.Coordinator.{
  ReplayEvent, ReplayDecision, ReplayCoordinator, direct_decision,
}
use trust_map_prototype.Replay.Coordinator.Decided.{path_decision, IsDecided, directly, along}
use trust_map_prototype.Replay.Coordinator.Restore.{
  baseline_only_result, same_bool, same_estimate, is_pathless, last_node, has_endpoints, is_edge,
  validate_segments, validate_selection, validate_path, validate_planned, expected_after,
  validate_restored_decision,
}
use trust_map_prototype.Replay.Coordinator.Comparisons.{
  ==-refl, same_edge_kind_refl, same_bool_refl, same_key_refl, same_estimate_refl,
}

module _ (profile : _) (view : ReplayTrustView) (c : IsCanonical profile view) where
  edge-canonical :
      (f t : BlockKey) (e : ReplayEdge)
      → edge_at view.adjacency f t ≡ some e
      → edge view f t ≡ some e
  unfolding edge
  edge-canonical f t e at =
      let (cf, ct) = c.ends f t e at in rw (canonical_key_of f cf, canonical_key_of t ct) at

  segment-IsEdge :
      (f t : BlockKey) (e : ReplayEdge)
      → edge_at view.adjacency f t ≡ some e
      → is_edge (edge view f t) (record { from = f; to = t; kind = e.kind; weight = e.weight })
        ≡ true
  unfolding is_edge
  segment-IsEdge f t e at = rw (edge-canonical f t e at, is_edge, same_edge_kind_refl, ==-refl) refl

  -- The loop accepts the segments of a walk and adds up its weights.
  pub validate_segments-IsWalk :
      {from to : BlockKey} {nodes : List BlockKey} {segments : List PathSegment} {w : ℕ} (cost : ℕ)
      → IsWalk view.adjacency from to nodes segments w
      → cost + w ≤ max_uint64
      → validate_segments view cost nodes segments ≡ ok (cost + w)
  unfolding validate_segments
  validate_segments-IsWalk cost (stay k) fits = ground arith
  validate_segments-IsWalk cost (move from via to nodes segments w e at (stay k)) fits =
      rw
        (
          same_key_refl from,
          same_key_refl via,
          segment-IsEdge from via e at,
          checked_add-ok cost e.weight (omega arith),
        )
        (ap ok (omega arith))
  validate_segments-IsWalk cost
        (move from via to nodes segments w e at (move f v t ns ss u e' at' walk)) fits =
      rw
        (
          same_key_refl from,
          same_key_refl via,
          segment-IsEdge from via e at,
          checked_add-ok cost e.weight (omega arith),
        )
        (validate_segments-IsWalk (cost + e.weight) (move f v t ns ss u e' at' walk) (omega arith)
          ∙ ap ok (omega arith))

-- The nodes of a walk: one more than the segments, from its start to its end.
IsWalk-last :
    {a : _} {from to : BlockKey} {nodes : List BlockKey} {segments : List PathSegment} {w : ℕ}
    → IsWalk a from to nodes segments w
    → (rest : List BlockKey) × (nodes ≡ from ∷ rest)
      × (length segments ≡ length rest)
      × (last_node from rest ≡ to)
unfolding last_node
IsWalk-last (stay k) = ([], refl, refl, refl)
IsWalk-last (move from via to nodes segments w e at walk) =
    let (rest, same, long, end) = IsWalk-last walk in
    (nodes, refl, ground (arith, long, same), rw same end)

has_endpoints-IsWalk :
    {a : _} {from to : BlockKey} (p : ReplayPath)
    → IsWalk a from to p.nodes p.segments p.cost
    → has_endpoints p from to ≡ true
unfolding has_endpoints
has_endpoints-IsWalk {from = from} {to = to} p walk =
    let (rest, same, long, end) = IsWalk-last walk in
    rw (same, long, end, same_key_refl from, same_key_refl to) (ground arith)

-- A decision, once the baseline and the counters are in it.
abbrev pub finished : ℕ → ReplayDecision → ℕ → ℕ → ℕ → ReplayDecision
finished after d nodes edges cross = record d {
  baseline_after = after;
  graph_nodes = nodes;
  graph_edges = edges;
  cross_edges_added = cross;
}

module _ (c : ReplayCoordinator) (event : ReplayEvent) (estimate : ReplayDirectEstimate) (after : ℕ)
    (canonical : IsCanonical c.profile c.view) where
  validate_selection-along :
      (p : ReplayPath) (total nodes edges cross : ℕ)
      → validate_selection
          (finished after (path_decision c event estimate p total) nodes edges cross)
          total
        ≡ ok tt
  unfolding validate_selection direct_decision
  validate_selection-along p total nodes edges cross = elim (Bool-cases (ltb total estimate.cost)) [
    | inl cheaper ↦ rw (validate_selection, direct_decision, cheaper, ==-refl total) refl
    | inr dearer ↦
        let high : leb estimate.cost total ≡ true = ground arith in
        rw (validate_selection, direct_decision, dearer, high, ==-refl estimate.cost) refl
  ]

  validate_path-along :
      (p : ReplayPath) (nodes edges cross : ℕ)
      → IsWalk c.view.adjacency
          (block_key event.destination)
          (block_key event.source)
          p.nodes
          p.segments
          p.cost
      → p.cost + c.profile.trust_root_update_cost ≤ max_uint64
      → let d = path_decision c event estimate p (p.cost + c.profile.trust_root_update_cost) in
        validate_path c.profile c.view event (finished after d nodes edges cross) ≡ ok tt
  unfolding validate_path
  validate_path-along p nodes edges cross walk fits =
      let total = p.cost + c.profile.trust_root_update_cost in
      let costs : validate_segments c.view 0 p.nodes p.segments ≡ ok p.cost =
        validate_segments-IsWalk c.profile c.view canonical 0 walk (omega arith)
        ∙ ap ok (omega arith) in
      rw
        (
          has_endpoints-IsWalk p walk,
          costs,
          ==-refl p.cost,
          checked_add-ok p.cost c.profile.trust_root_update_cost fits,
          ==-refl total,
        )
        (validate_selection-along p total nodes edges cross)

  validate_planned-along :
      (p : ReplayPath) (nodes edges cross : ℕ)
      → IsWalk c.view.adjacency
          (block_key event.destination)
          (block_key event.source)
          p.nodes
          p.segments
          p.cost
      → p.cost + c.profile.trust_root_update_cost ≤ max_uint64
      → let d = path_decision c event estimate p (p.cost + c.profile.trust_root_update_cost) in
        validate_planned c.profile c.view event (finished after d nodes edges cross) ≡ ok tt
  unfolding validate_planned
  validate_planned-along p nodes edges cross walk fits =
      let total = p.cost + c.profile.trust_root_update_cost in
      let it = validate_path-along p nodes edges cross walk fits in
      elim (Bool-cases (ltb total estimate.cost)) [
        | inl cheaper ↦ rw (validate_planned, cheaper) (rw cheaper at it)
        | inr dearer ↦ rw (validate_planned, dearer) (rw dearer at it)
      ]

  direct_decision-pathless :
      (nodes edges cross : ℕ)
      → is_pathless (finished after (direct_decision c.setting event estimate) nodes edges cross)
        ≡ true
  unfolding is_pathless direct_decision
  direct_decision-pathless nodes edges cross = rw (==-refl estimate.cost) refl

  validate_planned-directly :
      (nodes edges cross : ℕ)
      → validate_planned c.profile c.view event
          (finished after (direct_decision c.setting event estimate) nodes edges cross)
        ≡ ok tt
  unfolding validate_planned direct_decision
  validate_planned-directly nodes edges cross =
      rw (validate_planned, direct_decision, direct_decision-pathless nodes edges cross) refl

  -- The checks before those of the path, on a decision with the values of the estimate.
  validate-estimated :
      (d : ReplayDecision)
      → d.planning_enabled ≡ uses_trust_map c.setting
      → d.baseline_after ≡ expected_after event estimate.baseline_before
      → d.baseline_before ≡ estimate.baseline_before
      → same_estimate d estimate ≡ true
      → (if d.planning_enabled
          then validate_planned c.profile c.view event d
          else require (is_pathless d && not d.path_found) baseline_only_result)
        ≡ ok tt
      → validate_restored_decision c event d estimate ≡ ok tt
  unfolding validate_restored_decision
  validate-estimated d plans same before est rest =
      rw
        (
          ap (λ b. same_bool b (uses_trust_map c.setting)) plans
              ∙ same_bool_refl (uses_trust_map c.setting),
          est,
          ap (λ n. n == expected_after event d.baseline_before)
                (same ∙ ap (expected_after event) (sym before))
              ∙ ==-refl (expected_after event d.baseline_before),
        )
        rest

  validate-directly :
      (nodes edges cross : ℕ)
      → after ≡ expected_after event estimate.baseline_before
      → validate_restored_decision c event
          (finished after (direct_decision c.setting event estimate) nodes edges cross)
          estimate
        ≡ ok tt
  unfolding direct_decision
  validate-directly nodes edges cross same =
      let d = finished after (direct_decision c.setting event estimate) nodes edges cross in
      validate-estimated d refl same refl
        (same_estimate_refl d estimate refl refl refl refl refl refl refl refl)
        (elim (Bool-cases (uses_trust_map c.setting)) [
          | inl plans ↦
              let it = validate_planned-directly nodes edges cross in rw plans (rw plans at it)
          | inr alone ↦
              let it = direct_decision-pathless nodes edges cross in rw (alone, rw alone at it) refl
        ])

  validate-along :
      (p : ReplayPath) (nodes edges cross : ℕ)
      → after ≡ expected_after event estimate.baseline_before
      → uses_trust_map c.setting ≡ true
      → IsWalk c.view.adjacency
          (block_key event.destination)
          (block_key event.source)
          p.nodes
          p.segments
          p.cost
      → p.cost + c.profile.trust_root_update_cost ≤ max_uint64
      → let d = path_decision c event estimate p (p.cost + c.profile.trust_root_update_cost) in
        validate_restored_decision c event (finished after d nodes edges cross) estimate ≡ ok tt
  unfolding direct_decision
  validate-along p nodes edges cross same plans walk fits =
      let d =
        finished after
          (path_decision c event estimate p (p.cost + c.profile.trust_root_update_cost)) nodes edges
          cross in
      validate-estimated d refl same refl
        (same_estimate_refl d estimate refl refl refl refl refl refl refl refl)
        (let it = validate_planned-along p nodes edges cross walk fits in rw plans (rw plans at it))

  -- A decision that Process makes passes the checks of Restore.
  pub validate_restored_decision-IsDecided :
      (d : ReplayDecision) (nodes edges cross : ℕ)
      → IsDecided c c.view (block_key event.destination) (block_key event.source) event estimate d
      → after ≡ expected_after event estimate.baseline_before
      → validate_restored_decision c event (finished after d nodes edges cross) estimate ≡ ok tt
  validate_restored_decision-IsDecided d nodes edges cross (directly e) same =
      subst
        (λ x.
          validate_restored_decision c event (finished after x nodes edges cross) estimate ≡ ok tt)
        e (validate-directly nodes edges cross same)
  validate_restored_decision-IsDecided d nodes edges cross (along p plans walk fits e) same =
      let start =
        canonical_key_of (block_key event.destination) (block_key-canonical event.destination) in
      let goal = canonical_key_of (block_key event.source) (block_key-canonical event.source) in
      subst
        (λ x.
          validate_restored_decision c event (finished after x nodes edges cross) estimate ≡ ok tt)
        e (validate-along p nodes edges cross same plans (rw (start, goal) at walk) fits)
