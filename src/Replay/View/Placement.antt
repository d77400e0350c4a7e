-- ===== src/Replay/View/Placement.antt =====
-- Where activateLocked (Mapnode/replay/replay_trust_view.go) puts a new block: between the nearest
-- blocks of its chain.
use trust_map_prototype.Common.{
  ℕ, ◌≤◌, ◌≡◌, ap, sym, subst, ◌∙◌, true, false, Option, none, some, List, [], ◌∷◌, ◌++◌, All, ok,
  arith, if◌then◌else◌,
}
use trust_map_prototype.Replay.Cost.{max_uint64}
use trust_map_prototype.Replay.Heights.{Treap, contains, neighbours}
use trust_map_prototype.Replay.Heights.Keys.{has_key}
use trust_map_prototype.Replay.Heights.Order.{keys, IsOrdered, contains-has_key}
use trust_map_prototype.Replay.Heights.Neighbours.{IsPredecessor, IsSuccessor, neighbours_nearest}
use trust_map_prototype.Replay.View.{
  ReplayBlock, BlockKey, block_key, ReplayTrustView, PendingEdge, add_node, open_index,
  activate_locked, split_edges,
}
use trust_map_prototype.Replay.View.Edges.{edge_at, IsConsistent, last_set, edge_at-set_edges}
use trust_map_prototype.Replay.View.Activate.{add_node-IsConsistent, open_index-IsConsistent}
use trust_map_prototype.Replay.View.Outcomes.{
  index_of, spliced_view, edges_of, blank, known, costly, spliced, activate_locked-Outcome,
}
use trust_map_prototype.Replay.View.Splice.{
  Surround, Reads, is_cut, lower_pair, upper_pair, IsSpliced, edge_at-split_edges, pending_edges-ok,
  Reads-IsSpliced,
}

has_key-All : (P : ℕ → Type 0) (x : ℕ) (xs : List ℕ) → All P xs → has_key x xs ≡ true → P x
unfolding has_key
has_key-All P x [] a h = cc
has_key-All P x (y ∷ ys) a h = ground (arith, has_key-All P x ys a.1)

-- The heights of an index are uint64 values, in search order.
pub record IsIndex (index : Treap) : Type 0 where
  pub ordered : IsOrdered index
  pub bounded : All (λ h. h ≤ max_uint64) (keys index)

Surround-of :
    (height : ℕ) (xs : List ℕ) (p s : Option ℕ)
    → height ≤ max_uint64
    → All (λ h. h ≤ max_uint64) xs
    → IsPredecessor height xs p
    → IsSuccessor height xs s
    → Surround height p s
Surround-of height xs none none b a hp hs = b
Surround-of height xs (some p) none b a hp hs = (hp.1, b)
Surround-of height xs none (some s) b a hp hs =
    (hs.1, has_key-All (λ h. h ≤ max_uint64) s xs a hs.0)
Surround-of height xs (some p) (some s) b a hp hs =
    (hp.1, hs.1, has_key-All (λ h. h ≤ max_uint64) s xs a hs.0)

pub neighbours-Surround :
    (index : Treap) (height : ℕ)
    → IsIndex index
    → height ≤ max_uint64
    → contains index height ≡ false
    → Surround height (neighbours index height).0 (neighbours index height).1
neighbours-Surround index height i b new =
    let (p, s) =
      neighbours_nearest index height i.ordered
        (sym (contains-has_key index height i.ordered) ∙ new) in
    Surround-of height (keys index) _ _ b i.bounded p s

open_index-adjacency :
    (view : ReplayTrustView) (key : BlockKey)
    → (add_node (open_index view key.chain).0 key (index_of view key.chain)).adjacency
      ≡ view.adjacency
unfolding add_node open_index
open_index-adjacency view key = ground arith

pub spliced_view-Reads :
    (view : ReplayTrustView) (key : BlockKey) (edges : List PendingEdge)
    → IsConsistent view
    → IsIndex (index_of view key.chain)
    → key.height ≤ max_uint64
    → contains (index_of view key.chain) key.height ≡ false
    → edges_of view key ≡ ok edges
    → let (p, s) = neighbours (index_of view key.chain) key.height in
      Reads view.profile key p s view.adjacency (spliced_view view key edges).adjacency
spliced_view-Reads view key edges h i b new e f t =
    let index = index_of view key.chain in
    let p = (neighbours index key.height).0 in
    let s = (neighbours index key.height).1 in
    let added = add_node (open_index view key.chain).0 key index in
    let h' = add_node-IsConsistent _ key index (open_index-IsConsistent view key.chain h) in
    edge_at-set_edges edges (split_edges added key.chain p s) f t
    ∙ ap (λ es. last_set es f t (edge_at (split_edges added key.chain p s).adjacency f t))
        (pending_edges-ok view.profile key p s (neighbours-Surround index key.height i b new) e)
    ∙ ap (last_set (lower_pair view.profile key p ++ upper_pair view.profile key s) f t) (
        edge_at-split_edges added key.chain p s f t h'
        ∙ ap (λ a. if is_cut key.chain p s f t then none else edge_at a f t)
            (open_index-adjacency view key))

-- If activateLocked succeeds on a block whose height its chain does not have yet, in a consistent
-- view where the chain's index is in search order and all heights are uint64 values, then the key is
-- the block's, and the block is spliced in between the two heights that Neighbours yields: the edges
-- up cost DirectStepCost and the edges down PathStepCost for each block of the height difference,
-- the edges between the two neighbours are gone, and all other edges between nodes other than the
-- new one are as they were.
pub activate_locked-IsSpliced :
    (view : ReplayTrustView) (block : ReplayBlock) (view' : ReplayTrustView) (key : BlockKey)
    → IsConsistent view
    → IsIndex (index_of view (block_key block).chain)
    → (block_key block).height ≤ max_uint64
    → contains (index_of view (block_key block).chain) (block_key block).height ≡ false
    → activate_locked view block ≡ (view', ok key)
    → (key ≡ block_key block)
      × (let (p, s) = neighbours (index_of view (block_key block).chain) (block_key block).height in
          IsSpliced view.profile (block_key block) p s view.adjacency view'.adjacency)
activate_locked-IsSpliced view block view' key h i b new run =
    elim (activate_locked-Outcome view block) [
      | blank _ e ↦ absurd (cc)
      | known old _ ↦ absurd (cc)
      | costly _ _ e ↦ absurd (cc)
      | spliced edges _ pending e ↦
          let k = block_key block in
          let same_view : spliced_view view k edges ≡ view' = cc in
          (
            cc,
            subst
                (λ v.
                  let (p, s) = neighbours (index_of view k.chain) k.height in
                  IsSpliced view.profile k p s view.adjacency v.adjacency)
                same_view
                (Reads-IsSpliced view.profile k _ _ view.adjacency _
                  (neighbours-Surround (index_of view k.chain) k.height i b new)
                  (spliced_view-Reads view k edges h i b new pending)),
          )
    ]
