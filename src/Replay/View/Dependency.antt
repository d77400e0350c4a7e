-- ===== src/Replay/View/Dependency.antt =====
-- AddVerifiedDependency (Mapnode/replay/replay_trust_view.go) on a sound graph.
use trust_map_prototype.Common.{
  ◌≤◌, ◌≡◌, ap, sym, subst, ◌∙◌, true, ◌==◌, some, ok, arith, Bool-cases, Result-cases, inl, inr,
}
use trust_map_prototype.Replay.Cost.{max_uint64}
use trust_map_prototype.Replay.Heights.{contains}
use trust_map_prototype.Replay.View.{
  ReplayBlock, BlockKey, block_key, same_key_iff, ReplayEdge, verified_dependency, ReplayTrustView,
  activate_locked, record_dependency, add_verified_dependency, set_edge_locked,
}
use trust_map_prototype.Replay.View.Edges.{edge_at, same_pair, edge_at-set_edge_locked}
use trust_map_prototype.Replay.View.Frame.{set_edge_locked-SameNodes}
use trust_map_prototype.Replay.View.Activate.{record_dependency-IsConsistent}
use trust_map_prototype.Replay.View.Numbering.{is_active, IsNumbered, open_index-IsNumbered}
use trust_map_prototype.Replay.View.Outcomes.{
  blank, known, costly, spliced, activate_locked-Outcome,
}
use trust_map_prototype.Replay.View.Soundness.{
  IsSound, IsNumbered-SameNodes, added-active, spliced_view-SameNodes, activate_locked-IsSound,
}

-- What activation returns is active afterwards, and what was active stays so.
record Grows (view : ReplayTrustView) (block : ReplayBlock) : Type 0 where
  result :
      (k : BlockKey)
      → (activate_locked view block).1 ≡ ok k
      → is_active (activate_locked view block).0.heights k ≡ true
  stays :
      (x : BlockKey)
      → is_active view.heights x ≡ true
      → is_active (activate_locked view block).0.heights x ≡ true

activate_locked-Grows :
    (view : ReplayTrustView) (block : ReplayBlock)
    → (block_key block).height ≤ max_uint64
    → IsSound view
    → Grows view block
activate_locked-Grows view block b h =
    let key = block_key block in
    let (_, at, _) = open_index-IsNumbered view key.chain h.nodes in
    let keeps = λ (x : BlockKey). ap (λ t. contains t x.height) (at x.chain) in
    elim (activate_locked-Outcome view block) [
      | blank _ e ↦ record { result = λ k ran. cc; stays = λ x a. rw e a }
      | known old e ↦ record {
        result = λ k ran. let same : key ≡ k = cc in rw (e, ← same) (keeps key ∙ old);
        stays = λ x a. rw e (keeps x ∙ a);
      }
      | costly _ _ e ↦ record { result = λ k ran. cc; stays = λ x a. rw e (keeps x ∙ a) }
      | spliced edges new pending e ↦
          let frame = (spliced_view-SameNodes view key edges).heights in
          record {
            result = λ k ran.
                let same : key ≡ k = cc in
                rw (e, ← same)
                  (subst (λ m. is_active m key ≡ true) (sym frame)
                    (added-active view key b h key).0);
            stays = λ x a.
                rw e (
                  subst (λ m. is_active m x ≡ true) (sym frame)
                    ((added-active view key b h x).1 a));
          }
    ]

record_dependency-IsSound :
    (view : ReplayTrustView) (from to : BlockKey)
    → IsSound view
    → is_active view.heights from ≡ true
    → is_active view.heights to ≡ true
    → IsSound (record_dependency view from to).0
unfolding record_dependency
record_dependency-IsSound view from to h af at =
    let c = record_dependency-IsConsistent view from to h.consistent in
    elim (Bool-cases (view.cross_edges_added == max_uint64)) [
      | inl full ↦ rw (full, record_dependency) h
      | inr room ↦
          rw (room, record_dependency)
            (record {
              consistent = rw (room, record_dependency) at c;
              nodes = linked-nodes;
              endpoints = linked-endpoints;
            })
    ]
  where
    e : ReplayEdge
    e = record { kind = verified_dependency; weight = view.profile.path_step_cost }

    linked : ReplayTrustView
    linked = set_edge_locked view from to e

    linked-nodes : IsNumbered linked.heights linked.node_ids linked.node_keys
    linked-nodes = IsNumbered-SameNodes (set_edge_locked-SameNodes view from to e) h.nodes

    linked-endpoints :
        (f t : BlockKey) (d : ReplayEdge)
        → edge_at linked.adjacency f t ≡ some d
        → (is_active linked.heights f ≡ true) × (is_active linked.heights t ≡ true)
    linked-endpoints f t d here =
        subst (λ m. (is_active m f ≡ true) × (is_active m t ≡ true))
          (sym (set_edge_locked-SameNodes view from to e).heights)
          (elim (Bool-cases (same_pair from to f t)) [
            | inl it ↦ (
              subst (λ x. is_active view.heights x ≡ true) ((same_key_iff from f).0 (ground arith))
                  af,
              subst (λ x. is_active view.heights x ≡ true) ((same_key_iff to t).0 (ground arith))
                  at,
            )
            | inr other ↦
                h.endpoints f t d
                  (rw other at (sym (edge_at-set_edge_locked view from to e f t) ∙ here))
          ])

-- From a sound graph (activate_locked-IsSound names what that is), AddVerifiedDependency for two
-- blocks of uint64 heights leaves a sound graph, whatever its outcome: an error of the first or the
-- second activation, a full counter of dependencies, or a recorded dependency.
pub add_verified_dependency-IsSound :
    (view : ReplayTrustView) (from_block to_block : ReplayBlock)
    → (block_key from_block).height ≤ max_uint64
    → (block_key to_block).height ≤ max_uint64
    → IsSound view
    → IsSound (add_verified_dependency view from_block to_block).0
unfolding add_verified_dependency
add_verified_dependency-IsSound view from_block to_block bf bt h =
    let v = (activate_locked view from_block).0 in
    let h₁ = activate_locked-IsSound view from_block bf h in
    let h₂ = activate_locked-IsSound v to_block bt h₁ in
    let g₁ = activate_locked-Grows view from_block bf h in
    let g₂ = activate_locked-Grows v to_block bt h₁ in
    elim (Result-cases (activate_locked view from_block).1) [
      | inr (_, e) ↦ rw (add_verified_dependency, e) h₁
      | inl (from, e) ↦ elim (Result-cases (activate_locked v to_block).1) [
        | inr (_, e') ↦ rw (add_verified_dependency, e, e') h₂
        | inl (to, e') ↦
            rw (add_verified_dependency, e, e')
              (record_dependency-IsSound _ from to h₂ (g₂.stays from (g₁.result from e))
                (g₂.result to e'))
      ]
    ]
