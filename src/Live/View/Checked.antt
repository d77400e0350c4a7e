-- ===== src/Live/View/Checked.antt =====
-- NewTrustView of Mapnode/trustview/trust_view.go: what it accepts, and the view that it builds.
use mathlib.Core.List.{Memᴰ}
use trust_map_prototype.Common.{
  ℕ, ◌<◌, ◌≡◌, ◌≢◌, subst, inl, inr, List, [], ◌∷◌, ==_iff, arith, All, All-imp, ok, Result-cases,
}
use trust_map_prototype.Common.Maps.{Map}
use trust_map_prototype.Common.Entries.{values, All-lookup, lookup-Mem, All-values, covered-Mem}
use trust_map_prototype.Replay.Text.{Text, text_eq_iff, text_keyed}
use trust_map_prototype.Live.Domain.{zero_word, join, validate_chain_id}
use trust_map_prototype.Live.Ids.{uint32_word}
use trust_map_prototype.Live.View.{
  TrustNode, TrustEdge, TrustView, NodeIndex, node_keyed, node_id, edge_id, new_trust_node,
  new_trust_edge, validate_node, validate_edge, index_nodes, index_edges, sort_by, new_trust_view,
}
use trust_map_prototype.Live.View.Indexed.{
  IsDistinct-values, reversed, reversed-Mem, IsIndexed, IsJoined, IsUniqueEdges,
  index_nodes-IsIndexed, index_edges-IsUniqueEdges,
}
use trust_map_prototype.Live.View.Sorting.{
  IsAscending, sort_by-Mem, All-sort_by, sort_by-IsAscending,
}

module _ (keccak : Text → Text) where
  -- A node of NewTrustNode: its ID is the hash of its key, and no part that must not be zero is.
  pub record IsNode (n : TrustNode) : Type 0 where
    pub hashed : n.id ≡ keccak (join (n.key.chain_id ∷ n.key.height ∷ n.key.block_hash ∷ []))
    pub id : n.id ≢ zero_word
    pub chain_id : n.key.chain_id ≢ zero_word
    pub block_hash : n.key.block_hash ≢ zero_word

  -- An edge of NewTrustEdge: its ID is the hash of its ends, its evidence and its leaf index.
  pub record IsEdge (e : TrustEdge) : Type 0 where
    pub hashed :
        e.id ≡ keccak (join (e.from ∷ e.to ∷ e.evidence_id ∷ uint32_word e.leaf_index ∷ []))
    pub from : e.from ≢ zero_word
    pub to : e.to ≢ zero_word
    pub apart : e.from ≢ e.to
    pub evidence_id : e.evidence_id ≢ zero_word
    pub cost : 0 < e.path_step_cost

  validate_node-IsNode : (n : TrustNode) → validate_node keccak n ≡ ok tt → IsNode n
  unfolding validate_node new_trust_node validate_chain_id
  validate_node-IsNode n h = record {
    hashed = ground (arith, text_eq_iff (node_id keccak n.key) n.id);
    id = ground (arith, text_eq_iff n.id zero_word);
    chain_id = ground (arith, text_eq_iff n.key.chain_id zero_word);
    block_hash = ground (arith, text_eq_iff n.key.block_hash zero_word);
  }

  validate_edge-IsEdge : (e : TrustEdge) → validate_edge keccak e ≡ ok tt → IsEdge e
  unfolding validate_edge new_trust_edge
  validate_edge-IsEdge e h = record {
    hashed =
        ground (arith, text_eq_iff (edge_id keccak e.from e.to e.evidence_id e.leaf_index) e.id);
    from = ground (arith, text_eq_iff e.from zero_word);
    to = ground (arith, text_eq_iff e.to zero_word);
    apart = ground (arith, text_eq_iff e.from e.to);
    evidence_id = ground (arith, text_eq_iff e.evidence_id zero_word);
    cost = ground (arith, ==_iff e.path_step_cost 0);
  }

  -- A valid edge between two of the nodes, on different chains.
  abbrev pub IsEdgeOf : List TrustNode → TrustEdge → Type 0
  IsEdgeOf nodes e =
      IsEdge e
      × (from : TrustNode) × (to : TrustNode) × Memᴰ from nodes
      × Memᴰ to nodes
      × (from.id ≡ e.from)
      × (to.id ≡ e.to)
      × (from.key.chain_id ≢ to.key.chain_id)

  joined-IsEdgeOf :
      (index : NodeIndex) (e : TrustEdge)
      → All (λ e. (e.1.id ≡ e.0) × (validate_node keccak e.1 ≡ ok tt)) index.by_id
      → IsJoined keccak index.by_id e
      → IsEdgeOf (sort_by (λ n. n.id) (values index.by_id)) e
  joined-IsEdgeOf index e entries (valid, from, to, at_from, at_to, two) =
      let Q = λ (e : Text × TrustNode). (e.1.id ≡ e.0) × (validate_node keccak e.1 ≡ ok tt) in
      (
        validate_edge-IsEdge e valid,
        from,
        to,
        sort_by-Mem (λ n. n.id) (values index.by_id) (lookup-Mem e.from index.by_id at_from),
        sort_by-Mem (λ n. n.id) (values index.by_id) (lookup-Mem e.to index.by_id at_to),
        (All-lookup Q e.from index.by_id entries at_from).0,
        (All-lookup Q e.to index.by_id entries at_to).0,
        λ one. absurd (cc (two, (text_eq_iff from.key.chain_id to.key.chain_id).1 one)),
      )

  -- What NewTrustView promises of a view of these nodes and edges.
  pub record IsView (nodes : List TrustNode) (edges : List TrustEdge) (view : TrustView)
      : Type 0 where
    pub nodes_ascending : IsAscending (λ n. n.id) view.nodes
    pub edges_ascending : IsAscending (λ e. e.id) view.edges
    pub nodes_valid : All IsNode view.nodes
    pub edges_joined : All (IsEdgeOf view.nodes) view.edges
    pub has_nodes : (n : TrustNode) → Memᴰ n nodes → Memᴰ n view.nodes
    pub has_edges : (e : TrustEdge) → Memᴰ e edges → Memᴰ e view.edges

  abbrev built : ℕ → NodeIndex → Map Text TrustEdge → TrustView
  built revision index unique_edges = record {
    revision = revision;
    nodes = sort_by (λ n. n.id) (values index.by_id);
    edges = sort_by (λ e. e.id) (values unique_edges);
  }

  built-IsView :
      (revision : ℕ) (nodes : List TrustNode) (edges : List TrustEdge) (index : NodeIndex)
      (m : Map Text TrustEdge)
      → IsIndexed keccak index (reversed nodes [])
      → IsUniqueEdges keccak index.by_id m (reversed edges [])
      → IsView nodes edges (built revision index m)
  built-IsView revision nodes edges index m i u =
      let view = built revision index m in
      record {
        nodes_ascending =
            sort_by-IsAscending (λ n. n.id) (values index.by_id)
              (IsDistinct-values (λ n. n.id) index.by_id i.unique
                (All-imp index.by_id (λ e h. h.0) i.entries));
        edges_ascending =
            sort_by-IsAscending (λ e. e.id) (values m)
              (IsDistinct-values (λ e. e.id) m u.unique (All-imp m (λ e h. h.0) u.entries));
        nodes_valid =
            All-sort_by (λ n. n.id) IsNode (values index.by_id)
              (All-values IsNode index.by_id
                (All-imp index.by_id (λ e h. validate_node-IsNode e.1 h.1) i.entries));
        edges_joined =
            All-sort_by (λ e. e.id) (IsEdgeOf view.nodes) (values m)
              (All-values (IsEdgeOf view.nodes) m
                (All-imp m (λ e h. joined-IsEdgeOf index e.1 i.entries h.1) u.entries));
        has_nodes = λ n mem.
            sort_by-Mem (λ n. n.id) (values index.by_id)
              (covered-Mem (λ n. n.id) index.by_id (reversed nodes []) i.covered
                (reversed-Mem nodes [] (inl mem)));
        has_edges = λ e mem.
            sort_by-Mem (λ e. e.id) (values m)
              (covered-Mem (λ e. e.id) m (reversed edges []) u.covered
                (reversed-Mem edges [] (inl mem)));
      }

  -- A view that NewTrustView builds has all the nodes and edges that it was given, in the order of
  -- their IDs and each ID once. The ID of a node is the hash of its key and not zero, as are its chain
  -- ID and its block hash; the ID of an edge is the hash of its ends, its evidence and its leaf
  -- index, its ends are different and not zero, nor is its evidence or its cost; and each edge joins
  -- two nodes of the view that are on different chains.
  pub new_trust_view-IsView :
      (revision : ℕ) (nodes : List TrustNode) (edges : List TrustEdge) (view : TrustView)
      → new_trust_view keccak revision nodes edges ≡ ok view
      → IsView nodes edges view
  unfolding new_trust_view
  new_trust_view-IsView revision nodes edges view run =
      let start : NodeIndex = record { by_id = []; by_key = [] } in
      elim (Result-cases (index_nodes keccak start nodes)) [
        | inr (_, e) ↦ absurd (cc (rw (new_trust_view, e) at run))
        | inl (index, e) ↦ elim (Result-cases (index_edges keccak index [] edges)) [
          | inr (_, e') ↦ absurd (cc (rw (new_trust_view, e, e') at run))
          | inl (unique, e') ↦
              let i =
                index_nodes-IsIndexed keccak start index [] nodes
                  (record { unique = tt; entries = tt; covered = tt }) e in
              let u =
                index_edges-IsUniqueEdges keccak index [] unique [] edges
                  (record { unique = tt; entries = tt; covered = tt }) e' in
              subst (IsView nodes edges) (cc (rw (new_trust_view, e, e') at run))
                (built-IsView revision nodes edges index unique i u)
        ]
      ]
