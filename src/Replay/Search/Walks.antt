-- ===== src/Replay/Search/Walks.antt =====
-- What the search of Mapnode/replay/replay_dijkstra.go is about: the walks of the graph, and what
-- the scratch knows of them between two rounds of the loop.
use trust_map_prototype.Common.{
  ℕ, ◌+◌, ◌≤◌, ◌<◌, ◌≡◌, ◌≢◌, refl, ◌⊎◌, inl, inr, true, some, List, [], ◌∷◌, length, get_elem?,
  All, ok, arith,
}
use trust_map_prototype.Common.Maps.{lookup}
use trust_map_prototype.Replay.View.{BlockKey, key_keyed, ReplayEdge, ReplayTrustView}
use trust_map_prototype.Replay.View.Edges.{Adjacency, edge_at}
use trust_map_prototype.Replay.Scratch.{QueueItem, Scratch, get_distance, get_predecessor, IsSized}
use trust_map_prototype.Replay.Search.{PathSegment, Query, node_ok, segments_from, segments_of}

-- A walk along edges of the graph: its nodes, its segments, and the sum of the weights.
pub data IsWalk (a : Adjacency)
    : BlockKey → BlockKey → List BlockKey → List PathSegment → ℕ → Type 0 where
  stay : (k : BlockKey) → IsWalk a k k (k ∷ []) [] 0
  move :
      (from via to : BlockKey) (nodes : List BlockKey) (segments : List PathSegment) (w : ℕ)
      (e : ReplayEdge)
      → edge_at a from via ≡ some e
      → IsWalk a via to nodes segments w
      → IsWalk a from to
          (from ∷ nodes)
          (record { from = from; to = via; kind = e.kind; weight = e.weight } ∷ segments)
          (e.weight + w)

-- An item with the node and the cost is in the queue.
abbrev pub Queued : ℕ → ℕ → List QueueItem → Type 0
Queued i d [] = ⊥
Queued i d (x ∷ xs) = (x.id ≡ i) × (x.cost ≡ d) ⊎ Queued i d xs

-- The node has a distance, of at most `d`.
abbrev pub Within : Scratch → ℕ → ℕ → Type 0
Within s j d = (d' : ℕ) × (get_distance s j ≡ some d') × (d' ≤ d)

-- The node of a key has a distance of at most `d`.
abbrev pub Reaches : Query → Scratch → BlockKey → ℕ → Type 0
Reaches q s k d = (j : ℕ) × (lookup k q.view.node_ids ≡ some j) × Within s j d

-- The node was visited at distance `d`: it is not the goal, and what it can reach over an edge is
-- no farther than over that edge. Nodes below the height bound are not visited.
abbrev pub Visited : Query → Scratch → ℕ → ℕ → Type 0
Visited q s i d =
    (k : BlockKey)
    → get_elem? q.view.node_keys i ≡ some k
    → node_ok q k ≡ true
    → (i ≢ q.goal_id)
      × ((t : BlockKey) (e : ReplayEdge)
          → edge_at q.view.adjacency k t ≡ some e
          → node_ok q t ≡ true
          → d + e.weight ≤ q.cutoff
          → Reaches q s t (d + e.weight))

-- The start, or a node whose predecessor is at the distance that the edge between them leaves and
-- at most `m` away.
abbrev pub Traced : Query → Scratch → ℕ → ℕ → ℕ → Type 0
Traced q s m i d =
    (i ≡ q.start_id) × (d ≡ 0)
    ⊎ (p : ℕ) × (dp : ℕ) × (kp : BlockKey) × (k : BlockKey) × (e : ReplayEdge) × (i ≢ q.start_id)
      × (get_predecessor s i ≡ some p)
      × (get_distance s p ≡ some dp)
      × (dp ≤ m)
      × (get_elem? q.view.node_keys p ≡ some kp)
      × (get_elem? q.view.node_keys i ≡ some k)
      × (edge_at q.view.adjacency kp k ≡ some e)
      × (dp + e.weight ≡ d)

abbrev pub IsItem : Query → ℕ → QueueItem → Type 0
IsItem q m x = (m ≤ x.cost) × (get_elem? q.view.node_keys x.id ≡ some x.key)

-- The scratch between two rounds, after a node at distance `m` was visited.
pub record IsSearching (q : Query) (m : ℕ) (s : Scratch) : Type 0 where
  pub sized : IsSized s (length q.view.node_keys)
  pub started : get_distance s q.start_id ≡ some 0
  pub items : All (IsItem q m) s.queue
  pub traced : (i d : ℕ) → get_distance s i ≡ some d → Traced q s m i d
  pub pending : (i d : ℕ) → get_distance s i ≡ some d → Queued i d s.queue ⊎ Visited q s i d

-- The segments that the code lists for the nodes of a walk are those of the walk.
pub segments_of-IsWalk :
    (view : ReplayTrustView) {a b : BlockKey} {nodes : List BlockKey} {segments : List PathSegment}
    {w : ℕ}
    → IsWalk view.adjacency a b nodes segments w
    → segments_of view nodes ≡ ok segments
unfolding segments_from
segments_of-IsWalk view (stay k) = refl
segments_of-IsWalk view (move from via to nodes segments w e at (stay k)) = ground (arith, at)
segments_of-IsWalk view (move from via to nodes segments w e at (move a b c ns ss v f at' walk)) =
    ground (arith, at, segments_of-IsWalk view (move a b c ns ss v f at' walk))

head-IsWalk :
    {a : Adjacency} {from to : BlockKey} {nodes : List BlockKey} {segments : List PathSegment}
    {w : ℕ}
    → IsWalk a from to nodes segments w
    → (rest : List BlockKey) × (nodes ≡ from ∷ rest)
head-IsWalk (stay k) = ([], refl)
head-IsWalk (move from via to nodes segments w e at walk) = (nodes, refl)

Queued-far : (i d c : ℕ) (xs : List QueueItem) → Queued i d xs → All (λ x. c ≤ x.cost) xs → c ≤ d
Queued-far i d c [] none_ far = absurd none_
Queued-far i d c (x ∷ xs) (inl here) far = omega (arith, here.1, far.0)
Queued-far i d c (x ∷ xs) (inr there) far = Queued-far i d c xs there far.1

-- The numbered keys are the keys of the list at their numbers.
abbrev pub IsKeyed : ReplayTrustView → Type 0
IsKeyed view =
    (k : BlockKey) (i : ℕ) → lookup k view.node_ids ≡ some i → get_elem? view.node_keys i ≡ some k

module _ (q : Query) (m c : ℕ) (s : Scratch) (keyed : IsKeyed q.view) (h : IsSearching q m s)
    (far : All (λ x. c ≤ x.cost) s.queue) where
  -- A node nearer than the queue was visited.
  near-Visited :
      (k : BlockKey) (d : ℕ)
      → Reaches q s k d
      → d < c
      → (i : ℕ) × (d' : ℕ) × (lookup k q.view.node_ids ≡ some i) × (d' ≤ d) × Visited q s i d'
  near-Visited k d (i, is, (d', at, le)) near = elim (h.pending i d' at) [
    | inl queued ↦ absurd (omega (arith, Queued-far i d' c s.queue queued far, le, near))
    | inr visited ↦ (i, d', is, le, visited)
  ]

  -- A walk through nodes above the height bound from a node of known distance, which is not longer
  -- than the cutoff and shorter than every item of the queue, does not lead to the goal.
  pub no_nearer :
      {from to : BlockKey} {nodes : List BlockKey} {segments : List PathSegment} {w : ℕ} (d : ℕ)
      → IsWalk q.view.adjacency from to nodes segments w
      → All (λ k. node_ok q k ≡ true) nodes
      → Reaches q s from d
      → d + w ≤ q.cutoff
      → d + w < c
      → lookup to q.view.node_ids ≡ some q.goal_id
      → ⊥
  no_nearer d (stay k) allowed reach short near goal =
      let (i, d', is, le, visited) = near-Visited k d reach (omega arith) in
      (visited k (keyed k i is) allowed.0).0 (cc)
  no_nearer d (move from via to nodes segments w e at walk) allowed reach short near goal =
      let (i, d', is, le, visited) = near-Visited from d reach (omega arith) in
      let (rest, same) = head-IsWalk walk in
      let ok_via : node_ok q via ≡ true = (rw same at allowed.1).0 in
      let onward = (visited from (keyed from i is) allowed.0).1 via e at ok_via (omega arith) in
      no_nearer (d' + e.weight) walk allowed.1 onward (omega arith) (omega arith) goal
