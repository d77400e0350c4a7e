-- ===== src/Replay/Search/Total.antt =====
-- ShortestPath of Mapnode/replay/replay_dijkstra.go returns an answer, or the overflow of a sum.
use trust_map_prototype.Common.{
  ℕ, zero, suc, ◌+◌, ◌≤◌, ◌<◌, ◌≡◌, refl, ap, inl, inr, true, none, some, List, ◌∷◌, length, arith,
  Bool-cases, Option-cases, List-cases,
}
use trust_map_prototype.Common.Maps.{lookup}
use trust_map_prototype.Replay.Text.{Text}
use trust_map_prototype.Replay.Cost.{max_uint64}
use trust_map_prototype.Replay.View.{
  BlockKey, canonical_key, key_keyed, same_key, ReplayEdge, ReplayTrustView,
}
use trust_map_prototype.Replay.View.Edges.{edge_at}
use trust_map_prototype.Replay.View.Numbering.{is_active}
use trust_map_prototype.Replay.View.Soundness.{IsSound}
use trust_map_prototype.Replay.Scratch.{QueueItem, Scratch, begin, get_distance, IsStamped}
use trust_map_prototype.Replay.Search.{Query, pop_least, search, search_fuel, shortest_path}
use trust_map_prototype.Replay.Search.Walks.{IsSearching}
use trust_map_prototype.Replay.Search.Queue.{IsPopped, pop_least-IsPopped}
use trust_map_prototype.Replay.Search.Relax.{node_id_locked-ok}
use trust_map_prototype.Replay.Search.Rounds.{popped-IsOpen, visit-IsSearching}
use trust_map_prototype.Replay.Search.Optimal.{placed, asked, placed-distance, placed-IsSearching}
use trust_map_prototype.Replay.Search.Potential.{potential, reach_cost, sum_below-bound}
use trust_map_prototype.Replay.Search.Progress.{
  IsClean, node_id_locked-active, ends, goes, visit-Advance,
}

-- Pop takes one item from the queue and changes no distance.
popped-potential :
    (q : Query) (s : Scratch) (whole others : List QueueItem) (item : QueueItem)
    → s.queue ≡ whole
    → IsPopped whole item others
    → suc (potential q (record s { queue = others })) ≡ potential q s
unfolding get_distance
popped-potential q s whole others item full p = omega (arith, p.shorter, ap length full)

module _ (q : Query) (start goal : BlockKey) (h : IsSound q.view) (bound : q.cutoff ≤ max_uint64)
    (positive : (f t : BlockKey) (e : ReplayEdge)
      → edge_at q.view.adjacency f t ≡ some e
      → 0 < e.weight)
    (is_start : lookup start q.view.node_ids ≡ some q.start_id)
    (is_goal : lookup goal q.view.node_ids ≡ some q.goal_id) where
  search-IsClean :
      (fuel m : ℕ) (s : Scratch)
      → potential q s < fuel
      → IsSearching q m s
      → IsClean (search fuel q s)
  unfolding search
  search-IsClean zero m s enough k = absurd (omega arith)
  search-IsClean (suc fuel) m s enough k = elim (List-cases s.queue) [
    | inl empty ↦ inl (none, rw (search, empty))
    | inr (first, rest, full) ↦
        let (item, others) = pop_least first rest in
        let popped = pop_least-IsPopped first rest in
        let next = record s { queue = others } in
        let o = popped-IsOpen q m s item others (rw full popped) k in
        let less = popped-potential q s (first ∷ rest) others item full popped in
        elim (visit-Advance q start goal h bound positive is_start is_goal next item o) [
          | ends r clean run ↦ rw (search, full, run) clean
          | goes s' lower run ↦
              rw (search, full, run)
                (search-IsClean fuel item.cost s' (omega arith)
                  (visit-IsSearching q item next o h.consistent.inner bound s' run))
        ]
  ]

  placed-potential :
      (pooled : Scratch)
      → IsStamped pooled
      → q.start_id < length q.view.node_keys
      → potential q (placed (begin pooled (length q.view.node_keys)) q.start_id start)
        < search_fuel q.view q.cutoff
  placed-potential pooled stamped low =
      let s = placed (begin pooled (length q.view.node_keys)) q.start_id start in
      let each = λ (j : ℕ). at_most s j (λ d known.
        (placed-distance q start goal h.nodes.numbered h.consistent.inner bound is_start is_goal
          pooled j d stamped low known).1) in
      omega (
        arith,
        sum_below-bound (λ i. reach_cost q.cutoff (get_distance s i)) (length q.view.node_keys)
            (q.cutoff + 1) each,
      )
    where
      at_most :
          (s : Scratch) (j : ℕ)
          → ((d : ℕ) → get_distance s j ≡ some d → d ≡ 0)
          → reach_cost q.cutoff (get_distance s j) ≤ q.cutoff + 1
      at_most s j zero_ = elim (Option-cases (get_distance s j)) [
        | inl none_ ↦ ground (arith, none_)
        | inr (d, some_) ↦ ground (arith, some_, zero_ d some_)
      ]

-- On a sound graph whose edges all have a positive weight, for a uint64 cutoff and two keys whose
-- heights are in their chains' indexes, ShortestPath returns a path or none, or the overflow of a sum
-- of costs: the fuel is enough, and none of the errors for a broken graph or trace occurs.
pub shortest_path-IsClean :
    (pooled : Scratch) (view : ReplayTrustView) (start goal : BlockKey) (cutoff : ℕ)
    (target_chain : Text) (target_height : ℕ)
    → IsStamped pooled
    → IsSound view
    → ((f t : BlockKey) (e : ReplayEdge) → edge_at view.adjacency f t ≡ some e → 0 < e.weight)
    → is_active view.heights (canonical_key start) ≡ true
    → is_active view.heights (canonical_key goal) ≡ true
    → cutoff ≤ max_uint64
    → IsClean (shortest_path pooled view start goal cutoff target_chain target_height)
unfolding shortest_path
shortest_path-IsClean pooled view start goal cutoff target_chain target_height stamped h positive
      active active' bound =
    let from = canonical_key start in
    let to = canonical_key goal in
    let (start_id, is) = node_id_locked-active view from h active in
    let (goal_id, is') = node_id_locked-active view to h active' in
    let (here, _, low) = node_id_locked-ok view from start_id is in
    let there = (node_id_locked-ok view to goal_id is').0 in
    let q = asked view cutoff target_chain target_height start_id goal_id in
    elim (Bool-cases (same_key from to)) [
      | inl equal ↦ rw (shortest_path, equal) (inl (_, refl))
      | inr differ ↦
          rw (shortest_path, differ, is, is')
            (search-IsClean q from to h bound positive here there (search_fuel view cutoff) 0
              (placed (begin pooled (length view.node_keys)) start_id from)
              (placed-potential q from to h bound positive here there pooled stamped low)
              (placed-IsSearching q from to h.nodes.numbered h.consistent.inner bound here there
                pooled stamped low))
    ]
