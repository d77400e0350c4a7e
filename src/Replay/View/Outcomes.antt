-- ===== src/Replay/View/Outcomes.antt =====
-- The four outcomes of activateLocked (Mapnode/replay/replay_trust_view.go), each with the view
-- that it leaves.
use trust_map_prototype.Common.{
  ◌≡◌, true, false, none, some, List, [], Result, ok, err, arith, Bool-cases, Result-cases, inl,
  inr,
}
use trust_map_prototype.Common.Maps.{lookup}
use trust_map_prototype.Replay.Text.{text_keyed, Text, text_eq}
use trust_map_prototype.Replay.Cost.{Error, chain_empty}
use trust_map_prototype.Replay.Heights.{Treap, nil, contains, neighbours}
use trust_map_prototype.Replay.View.{
  ReplayBlock, BlockKey, block_key, ReplayTrustView, PendingEdge, pending_edges, set_edges,
  split_edges, add_node, open_index, activate_locked,
}

-- The index that a chain has, or an empty one.
abbrev pub index_of : ReplayTrustView → Text → Treap
index_of view chain = elim (lookup chain view.heights) [ none ↦ nil | some index ↦ index ]

-- The view once the node is there, the edges between its neighbours are gone and its own are set.
abbrev pub spliced_view : ReplayTrustView → BlockKey → List PendingEdge → ReplayTrustView
spliced_view view key edges =
    let index = index_of view key.chain in
    let (predecessor, successor) = neighbours index key.height in
    set_edges
      (split_edges (add_node (open_index view key.chain).0 key index) key.chain predecessor
        successor)
      edges

abbrev pub edges_of : ReplayTrustView → BlockKey → Result Error (List PendingEdge)
edges_of view key =
    let (predecessor, successor) = neighbours (index_of view key.chain) key.height in
    pending_edges view.profile key predecessor successor

pub data Outcome (view : ReplayTrustView) (block : ReplayBlock) : Type 0 where
  blank :
      text_eq (block_key block).chain [] ≡ true
      → activate_locked view block ≡ (view, err chain_empty)
      → Outcome view block
  known :
      contains (index_of view (block_key block).chain) (block_key block).height ≡ true
      → activate_locked view block
        ≡ ((open_index view (block_key block).chain).0, ok (block_key block))
      → Outcome view block
  costly :
      (e : Error)
      → edges_of view (block_key block) ≡ err e
      → activate_locked view block ≡ ((open_index view (block_key block).chain).0, err e)
      → Outcome view block
  spliced :
      (edges : List PendingEdge)
      → contains (index_of view (block_key block).chain) (block_key block).height ≡ false
      → edges_of view (block_key block) ≡ ok edges
      → activate_locked view block
        ≡ (spliced_view view (block_key block) edges, ok (block_key block))
      → Outcome view block

pub open_index-index :
    (view : ReplayTrustView) (chain : Text) → (open_index view chain).1 ≡ index_of view chain
unfolding open_index
open_index-index view chain = ground arith

pub activate_locked-Outcome : (view : ReplayTrustView) (block : ReplayBlock) → Outcome view block
unfolding activate_locked
activate_locked-Outcome view block =
    let key = block_key block in
    let i = open_index-index view key.chain in
    elim (Bool-cases (text_eq key.chain [])) [
      | inl e ↦ blank e (rw e)
      | inr n ↦ elim (Bool-cases (contains (index_of view key.chain) key.height)) [
        | inl old ↦ known old (rw (n, i, old))
        | inr new ↦ elim (Result-cases (edges_of view key)) [
          | inl (edges, e) ↦ spliced edges new e (rw (n, i, new, e) (rw i))
          | inr (error, e) ↦ costly error e (rw (n, i, new, e))
        ]
      ]
    ]
