-- ===== src/Replay/Search/Marks.antt =====
-- A neighbour that got a nearer distance in ShortestPath (Mapnode/replay/replay_dijkstra.go), and
-- what the search knows afterwards.
use trust_map_prototype.Common.{
  ℕ, ◌+◌, ◌<◌, ◌≡◌, ◌≢◌, sym, subst, ◌∙◌, ◌⊎◌, inl, inr, ◌==◌, some, length, get_elem?, All, arith,
  Bool-cases, if◌then◌else◌,
}
use trust_map_prototype.Common.Maps.{lookup}
use trust_map_prototype.Replay.View.{BlockKey, key_keyed, ReplayEdge}
use trust_map_prototype.Replay.View.Edges.{edge_at}
use trust_map_prototype.Replay.Scratch.{
  QueueItem, Scratch, get_distance, get_predecessor, set_distance, set_predecessor, IsSized,
  get_distance-set_distance, get_predecessor-set_predecessor, set_distance-IsSized,
  set_predecessor-IsSized,
}
use trust_map_prototype.Replay.Search.{Query}
use trust_map_prototype.Replay.Search.Walks.{Queued, Within, Reaches, Visited, Traced, IsItem}
use trust_map_prototype.Replay.Search.Relax.{marked}

-- No node got farther.
abbrev pub Shortens : Scratch → Scratch → Type 0
Shortens s s' = (i d : ℕ) → get_distance s i ≡ some d → Within s' i d

pub Shortens-trans : (s s' s'' : Scratch) → Shortens s s' → Shortens s' s'' → Shortens s s''
Shortens-trans s s' s'' f g i d at =
    let (d', at', le) = f i d at in let (d'', at'', le') = g i d' at' in (d'', at'', omega arith)

pub Reaches-Shortens :
    (q : Query) (s s' : Scratch) (k : BlockKey) (d : ℕ)
    → Shortens s s'
    → Reaches q s k d
    → Reaches q s' k d
Reaches-Shortens q s s' k d f (j, is, (d', at, le)) =
    let (d'', at', le') = f j d' at in (j, is, (d'', at', omega arith))

pub Visited-Shortens :
    (q : Query) (s s' : Scratch) (i d : ℕ) → Shortens s s' → Visited q s i d → Visited q s' i d
Visited-Shortens q s s' i d f v k at good =
    let (other, onward) = v k at good in
    (
      other,
      λ t e edge fine short.
          Reaches-Shortens q s s' t (d + e.weight) f (onward t e edge fine short),
    )

-- What the search knows while the neighbours of an item are looked at.
pub record IsRelaxing (q : Query) (item : QueueItem) (s : Scratch) : Type 0 where
  pub sized : IsSized s (length q.view.node_keys)
  pub started : get_distance s q.start_id ≡ some 0
  pub current : get_distance s item.id ≡ some item.cost
  pub items : All (IsItem q item.cost) s.queue
  pub traced : (i d : ℕ) → get_distance s i ≡ some d → Traced q s item.cost i d
  pub pending :
      (i d : ℕ) → get_distance s i ≡ some d → (i ≡ item.id) ⊎ (Queued i d s.queue ⊎ Visited q s i d)

module _ (q : Query) (item : QueueItem) (s : Scratch) (id : ℕ) (t : BlockKey) (e : ReplayEdge)
    (home : get_elem? q.view.node_keys item.id ≡ some item.key)
    (edge : edge_at q.view.adjacency item.key t ≡ some e)
    (at : get_elem? q.view.node_keys id ≡ some t) (low : id < length q.view.node_keys)
    (far : (x : ℕ) → get_distance s id ≡ some x → item.cost + e.weight < x)
    (h : IsRelaxing q item s) where
  distance-marked :
      (j : ℕ)
      → get_distance (marked item s id t (item.cost + e.weight)) j
        ≡ (if id == j then some (item.cost + e.weight) else get_distance s j)
  unfolding set_predecessor get_distance
  distance-marked j = get_distance-set_distance s _ id (item.cost + e.weight) j h.sized low

  predecessor-marked :
      (j : ℕ)
      → get_predecessor (marked item s id t (item.cost + e.weight)) j
        ≡ (if id == j then some item.id else get_predecessor s j)
  unfolding set_distance get_predecessor
  predecessor-marked j =
      get_predecessor-set_predecessor (set_distance s id (item.cost + e.weight)) _ id item.id j
        (set_distance-IsSized s _ id (item.cost + e.weight) h.sized) low

  distance-other :
      (j d : ℕ)
      → id ≢ j
      → get_distance s j ≡ some d
      → get_distance (marked item s id t (item.cost + e.weight)) j ≡ some d
  distance-other j d other old = ground (arith, distance-marked j)

  predecessor-other :
      (j p : ℕ)
      → id ≢ j
      → get_predecessor s j ≡ some p
      → get_predecessor (marked item s id t (item.cost + e.weight)) j ≡ some p
  predecessor-other j p other old = ground (arith, predecessor-marked j)

  -- What the node had is either its new distance or its old one.
  distance-cases :
      (j d : ℕ)
      → get_distance (marked item s id t (item.cost + e.weight)) j ≡ some d
      → (id ≡ j) × (d ≡ item.cost + e.weight) ⊎ (id ≢ j) × (get_distance s j ≡ some d)
  distance-cases j d now = elim (Bool-cases (id == j)) [
    | inl same ↦ inl (ground arith, ground (arith, distance-marked j))
    | inr other ↦ inr (λ same. ground arith, ground (arith, distance-marked j))
  ]

  not_item : id ≢ item.id
  not_item same = ground (arith, far item.cost, h.current)

  not_start : id ≢ q.start_id
  not_start same = ground (arith, far 0, h.started)

  pub marked-Shortens : Shortens s (marked item s id t (item.cost + e.weight))
  marked-Shortens j d old = elim (Bool-cases (id == j)) [
    | inl same ↦
        let it : id ≡ j = ground arith in
        (
          item.cost + e.weight,
          ground (arith, distance-marked j),
          omega (arith, far d (subst (λ x. get_distance s x ≡ some d) (sym it) old)),
        )
    | inr other ↦ (d, distance-other j d (λ same. ground arith) old, omega arith)
  ]

  marked-Traced :
      (j d : ℕ)
      → get_distance (marked item s id t (item.cost + e.weight)) j ≡ some d
      → Traced q (marked item s id t (item.cost + e.weight)) item.cost j d
  marked-Traced j d now = elim (distance-cases j d now) [
    | inl (it, new) ↦ inr (
      item.id,
      item.cost,
      item.key,
      t,
      e,
      λ start. not_start (it ∙ start),
      ground (arith, predecessor-marked j),
      distance-other item.id item.cost not_item h.current,
      omega arith,
      home,
      subst (λ x. get_elem? q.view.node_keys x ≡ some t) it at,
      edge,
      sym new,
    )
    | inr (other, old) ↦ elim (h.traced j d old) [
      | inl origin ↦ inl origin
      | inr (p, dp, kp, k, f, start, prior, known, le, at_p, at_j, over, sum) ↦ inr (
        p,
        dp,
        kp,
        k,
        f,
        start,
        predecessor-other j p other prior,
        distance-other p dp
            (λ same.
              ground (arith, far dp (subst (λ x. get_distance s x ≡ some dp) (sym same) known)))
            known,
        le,
        at_p,
        at_j,
        over,
        sum,
      )
    ]
  ]

  marked-pending :
      (j d : ℕ)
      → get_distance (marked item s id t (item.cost + e.weight)) j ≡ some d
      → (j ≡ item.id)
        ⊎ (Queued j d (marked item s id t (item.cost + e.weight)).queue
            ⊎ Visited q (marked item s id t (item.cost + e.weight)) j d)
  marked-pending j d now = elim (distance-cases j d now) [
    | inl (it, new) ↦ inr (inl (inl (it, sym new)))
    | inr (other, old) ↦ elim (h.pending j d old) [
      | inl self ↦ inl self
      | inr (inl queued) ↦ inr (inl (inr queued))
      | inr (inr visited) ↦ inr (inr (Visited-Shortens q s _ j d marked-Shortens visited))
    ]
  ]

  pub marked-IsRelaxing : IsRelaxing q item (marked item s id t (item.cost + e.weight))
  marked-IsRelaxing =
      let sized =
        set_predecessor-IsSized (set_distance s id (item.cost + e.weight)) _ id item.id
          (set_distance-IsSized s _ id (item.cost + e.weight) h.sized) in
      record {
        sized = record {
          distances = sized.distances;
          distance_generations = sized.distance_generations;
          predecessors = sized.predecessors;
          predecessor_generations = sized.predecessor_generations;
        };
        started = distance-other q.start_id 0 not_start h.started;
        current = distance-other item.id item.cost not_item h.current;
        items = ((omega arith, at), h.items);
        traced = marked-Traced;
        pending = marked-pending;
      }

  pub marked-Reaches :
      lookup t q.view.node_ids ≡ some id
      → Reaches q (marked item s id t (item.cost + e.weight)) t (item.cost + e.weight)
  marked-Reaches is =
      (id, is, (item.cost + e.weight, ground (arith, distance-marked id), omega arith))
