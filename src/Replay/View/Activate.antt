-- ===== src/Replay/View/Activate.antt =====
-- activateLocked and AddVerifiedDependency (Mapnode/replay/replay_trust_view.go): the edge counter
-- is exact, and a new block is spliced in between its neighbours.
use trust_map_prototype.Common.{
  ℕ, Option, none, some, ◌==◌, Bool-cases, Result-cases, Option-cases, inl, inr,
}
use trust_map_prototype.Common.Maps.{lookup}
use trust_map_prototype.Replay.Text.{text_keyed, Text}
use trust_map_prototype.Replay.Cost.{max_uint64}
use trust_map_prototype.Replay.Heights.{Treap}
use trust_map_prototype.Replay.View.{
  ReplayBlock, BlockKey, block_key, key_keyed, ReplayEdge, verified_dependency, ReplayTrustView,
  split_edges, add_node, open_index, activate_locked, record_dependency, add_verified_dependency,
}
use trust_map_prototype.Replay.View.Outcomes.{
  blank, known, costly, spliced, activate_locked-Outcome,
}
use trust_map_prototype.Replay.View.Edges.{
  IsConsistent, set_edge_locked-IsConsistent, delete_edge_locked-IsConsistent,
  set_edges-IsConsistent,
}

split_edges-IsConsistent :
    (view : ReplayTrustView) (chain : Text) (predecessor successor : Option ℕ)
    → IsConsistent view
    → IsConsistent (split_edges view chain predecessor successor)
unfolding split_edges
split_edges-IsConsistent view chain (some p) (some s) h =
    delete_edge_locked-IsConsistent _ _ _ (delete_edge_locked-IsConsistent view _ _ h)
split_edges-IsConsistent view chain (some p) none h = h
split_edges-IsConsistent view chain none s h = h

pub add_node-IsConsistent :
    (view : ReplayTrustView) (key : BlockKey) (index : Treap)
    → IsConsistent view
    → IsConsistent (add_node view key index)
unfolding add_node
add_node-IsConsistent view key index h = record {
  outer = h.outer;
  inner = h.inner;
  counted = h.counted;
}

pub open_index-IsConsistent :
    (view : ReplayTrustView) (chain : Text)
    → IsConsistent view
    → IsConsistent (open_index view chain).0
unfolding open_index
open_index-IsConsistent view chain h = elim (Option-cases (lookup chain view.heights)) [
  | inl e ↦ rw (e, open_index) (record { outer = h.outer; inner = h.inner; counted = h.counted })
  | inr (index, e) ↦ rw (e, open_index) h
]

pub activate_locked-IsConsistent :
    (view : ReplayTrustView) (block : ReplayBlock)
    → IsConsistent view
    → IsConsistent (activate_locked view block).0
activate_locked-IsConsistent view block h =
    let key = block_key block in
    let h' = open_index-IsConsistent view key.chain h in
    elim (activate_locked-Outcome view block) [
      | blank _ e ↦ rw e h
      | known _ e ↦ rw e h'
      | costly _ _ e ↦ rw e h'
      | spliced edges _ _ e ↦ rw e (
          set_edges-IsConsistent edges _
            (split_edges-IsConsistent _ key.chain _ _ (add_node-IsConsistent _ key _ h')))
    ]

pub record_dependency-IsConsistent :
    (view : ReplayTrustView) (from to : BlockKey)
    → IsConsistent view
    → IsConsistent (record_dependency view from to).0
unfolding record_dependency
record_dependency-IsConsistent view from to h =
    let weight = view.profile.path_step_cost in
    let e : ReplayEdge = record { kind = verified_dependency; weight = weight } in
    let k = set_edge_locked-IsConsistent view from to e h in
    elim (Bool-cases (view.cross_edges_added == max_uint64)) [
      | inl full ↦ rw full h
      | inr room ↦ rw room (record { outer = k.outer; inner = k.inner; counted = k.counted })
    ]

-- In a view with one entry for each node and each of its neighbours, whose edge counter is the
-- number of its edges as a uint64, AddVerifiedDependency leaves such a view, whatever its outcome.
pub add_verified_dependency-IsConsistent :
    (view : ReplayTrustView) (from_block to_block : ReplayBlock)
    → IsConsistent view
    → IsConsistent (add_verified_dependency view from_block to_block).0
unfolding add_verified_dependency
add_verified_dependency-IsConsistent view from_block to_block h =
    let h₁ = activate_locked-IsConsistent view from_block h in
    let h₂ = activate_locked-IsConsistent (activate_locked view from_block).0 to_block h₁ in
    elim (Result-cases (activate_locked view from_block).1) [
      | inr (_, e) ↦ rw (e, add_verified_dependency) h₁
      | inl (from, e) ↦
          elim (Result-cases (activate_locked (activate_locked view from_block).0 to_block).1) [
            | inr (_, e') ↦ rw (e, add_verified_dependency, e') h₂
            | inl (to, e') ↦
                rw (e, add_verified_dependency, e') (record_dependency-IsConsistent _ from to h₂)
          ]
    ]
