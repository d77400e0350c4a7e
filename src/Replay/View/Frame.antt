-- ===== src/Replay/View/Frame.antt =====
-- What the steps of activateLocked leave alone.
use trust_map_prototype.Common.{ℕ, ◌≡◌, Option, none, some, List, [], ◌∷◌, arith}
use trust_map_prototype.Replay.Text.{Text}
use trust_map_prototype.Replay.View.{
  BlockKey, ReplayEdge, ReplayTrustView, set_edge_locked, delete_edge_locked, PendingEdge,
  set_edges, split_edges,
}

-- The two views differ in their edges at most.
pub record SameNodes (v w : ReplayTrustView) : Type 0 where
  pub profile : w.profile ≡ v.profile
  pub heights : w.heights ≡ v.heights
  pub nodes : w.nodes ≡ v.nodes
  pub node_ids : w.node_ids ≡ v.node_ids
  pub node_keys : w.node_keys ≡ v.node_keys
  pub cross_edges_added : w.cross_edges_added ≡ v.cross_edges_added

pub SameNodes-refl : (v : ReplayTrustView) → SameNodes v v
SameNodes-refl v = ground arith

pub SameNodes-trans : {u v w : ReplayTrustView} → SameNodes u v → SameNodes v w → SameNodes u w
SameNodes-trans h k = ground arith

pub set_edge_locked-SameNodes :
    (view : ReplayTrustView) (from to : BlockKey) (e : ReplayEdge)
    → SameNodes view (set_edge_locked view from to e)
unfolding set_edge_locked
set_edge_locked-SameNodes view from to e = ground arith

delete_edge_locked-SameNodes :
    (view : ReplayTrustView) (from to : BlockKey) → SameNodes view (delete_edge_locked view from to)
unfolding delete_edge_locked
delete_edge_locked-SameNodes view from to = ground arith

pub set_edges-SameNodes :
    (ps : List PendingEdge) (view : ReplayTrustView) → SameNodes view (set_edges view ps)
unfolding set_edges
set_edges-SameNodes [] view = SameNodes-refl view
set_edges-SameNodes (p ∷ ps) view =
    SameNodes-trans (set_edge_locked-SameNodes view p.from p.to p.edge)
      (set_edges-SameNodes ps (set_edge_locked view p.from p.to p.edge))

pub split_edges-SameNodes :
    (view : ReplayTrustView) (chain : Text) (predecessor successor : Option ℕ)
    → SameNodes view (split_edges view chain predecessor successor)
unfolding split_edges
split_edges-SameNodes view chain (some p) (some s) =
    SameNodes-trans (delete_edge_locked-SameNodes view _ _) (delete_edge_locked-SameNodes _ _ _)
split_edges-SameNodes view chain (some p) none = SameNodes-refl view
split_edges-SameNodes view chain none s = SameNodes-refl view
