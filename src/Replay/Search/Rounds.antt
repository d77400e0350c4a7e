-- ===== src/Replay/Search/Rounds.antt =====
-- One round of the loop over the queue of ShortestPath (Mapnode/replay/replay_dijkstra.go) keeps
-- what the search knows.
use trust_map_prototype.Common.{
  ℕ, ◌≤◌, ◌≡◌, ◌≢◌, sym, subst, inl, inr, true, ltb, ◌==◌, Option, none, some, List, [], ◌∷◌, All,
  Result, ok, err, arith, Bool-cases,
}
use trust_map_prototype.Common.Maps.{lookup, IsUnique}
use trust_map_prototype.Replay.Cost.{max_uint64}
use trust_map_prototype.Replay.View.{BlockKey, key_keyed, or_empty}
use trust_map_prototype.Replay.View.Edges.{edge_at}
use trust_map_prototype.Replay.Scratch.{QueueItem, Scratch, get_distance, get_predecessor}
use trust_map_prototype.Replay.Search.{
  Query, node_ok, relax, visit, continued, is_current, as_turn, SearchError,
}
use trust_map_prototype.Replay.Search.Walks.{Visited, Traced, IsItem, IsSearching}
use trust_map_prototype.Replay.Search.Queue.{IsPopped}
use trust_map_prototype.Replay.Search.Marks.{IsRelaxing}
use trust_map_prototype.Replay.Search.Neighbours.{
  Covers, relax-IsRelaxing, entries-lookup, lookup-All,
}

-- What the search knows after Pop took an item.
pub record IsOpen (q : Query) (item : QueueItem) (s : Scratch) : Type 0 where
  pub known : IsSearching q item.cost (record s { queue = item ∷ s.queue })
  pub rest : All (IsItem q item.cost) s.queue

Traced-later : (q : Query) (s : Scratch) (m n i d : ℕ) → m ≤ n → Traced q s m i d → Traced q s n i d
Traced-later q s m n i d le (inl origin) = inl origin
Traced-later q s m n i d le (inr (p, dp, kp, k, f, start, prior, known, lower, a, b, c, sum)) =
    inr (p, dp, kp, k, f, start, prior, known, omega arith, a, b, c, sum)

items-later :
    (q : Query) (m n : ℕ) (xs : List QueueItem)
    → All (IsItem q m) xs
    → All (λ x. n ≤ x.cost) xs
    → All (IsItem q n) xs
items-later q m n [] a b = tt
items-later q m n (x ∷ xs) a b = ((b.0, a.0.1), items-later q m n xs a.1 b.1)

pub popped-IsOpen :
    (q : Query) (m : ℕ) (s : Scratch) (item : QueueItem) (others : List QueueItem)
    → IsPopped s.queue item others
    → IsSearching q m s
    → IsOpen q item (record s { queue = others })
unfolding get_distance get_predecessor
popped-IsOpen q m s item others p h =
    let (mine, rest) = p.keeps (IsItem q m) h.items in
    let rest' = items-later q m item.cost others rest p.nearest in
    record {
      known = record {
        sized = record {
          distances = h.sized.distances;
          distance_generations = h.sized.distance_generations;
          predecessors = h.sized.predecessors;
          predecessor_generations = h.sized.predecessor_generations;
        };
        started = h.started;
        items = ((omega arith, mine.1), rest');
        traced = λ i d at. Traced-later q s m item.cost i d mine.0 (h.traced i d at);
        pending = λ i d at. elim (h.pending i d at) [
          | inl queued ↦ inl (p.queued i d queued)
          | inr visited ↦ inr visited
        ];
      };
      rest = rest';
    }

as_turn-continued :
    (m : Result SearchError Scratch) (s' : Scratch) → as_turn m ≡ continued s' → m ≡ ok s'
as_turn-continued (ok s) s' h = ground arith
as_turn-continued (err e) s' h = absurd (cc)

pub is_current-known : (o : Option ℕ) (c : ℕ) → is_current o c ≡ true → o ≡ some c
is_current-known none c h = absurd (cc)
is_current-known (some x) c h = ground arith

is_current-stale : (c : ℕ) → is_current (some c) c ≡ true
is_current-stale c = ground arith

module _ (q : Query) (item : QueueItem) (s : Scratch) (o : IsOpen q item s)
    (unique : (k : BlockKey) → IsUnique (or_empty (lookup k q.view.adjacency)))
    (bound : q.cutoff ≤ max_uint64) where
  -- An item that is not visited leaves what is pending at the others.
  passed-IsSearching :
      ((get_distance s item.id ≡ some item.cost) → Visited q s item.id item.cost)
      → IsSearching q item.cost s
  unfolding get_distance get_predecessor
  passed-IsSearching visited = record {
    sized = record {
      distances = o.known.sized.distances;
      distance_generations = o.known.sized.distance_generations;
      predecessors = o.known.sized.predecessors;
      predecessor_generations = o.known.sized.predecessor_generations;
    };
    started = o.known.started;
    items = o.rest;
    traced = o.known.traced;
    pending = λ i d at. elim (o.known.pending i d at) [
      | inl (inl (same, cost)) ↦ inr (
          subst (λ x. Visited q s x d) same
            (subst (λ x. Visited q s item.id x) cost (visited (cc))))
      | inl (inr queued) ↦ inl queued
      | inr v ↦ inr v
    ];
  }

  pub open-IsRelaxing : get_distance s item.id ≡ some item.cost → IsRelaxing q item s
  unfolding get_distance get_predecessor
  open-IsRelaxing current = record {
    sized = record {
      distances = o.known.sized.distances;
      distance_generations = o.known.sized.distance_generations;
      predecessors = o.known.sized.predecessors;
      predecessor_generations = o.known.sized.predecessor_generations;
    };
    started = o.known.started;
    current = current;
    items = o.rest;
    traced = o.known.traced;
    pending = λ i d at. elim (o.known.pending i d at) [
      | inl (inl (same, _)) ↦ inl (sym same)
      | inl (inr queued) ↦ inr (inl queued)
      | inr v ↦ inr (inr v)
    ];
  }

  -- Once its edges are relaxed, the item is visited.
  relaxed-Visited :
      (s' : Scratch)
      → item.id ≢ q.goal_id
      → All (Covers q item s') (or_empty (lookup item.key q.view.adjacency))
      → Visited q s' item.id item.cost
  relaxed-Visited s' other covers k key good =
      let it : item.key ≡ k = cc (o.known.items.0.1) in
      (
        other,
        λ t e edge fine near.
            lookup-All (Covers q item s') (or_empty (lookup item.key q.view.adjacency)) t e covers
              (subst (λ x. edge_at q.view.adjacency x t ≡ some e) (sym it) edge) fine near,
      )

  relaxed-IsSearching :
      (s' : Scratch)
      → get_distance s item.id ≡ some item.cost
      → item.cost ≤ q.cutoff
      → item.id ≢ q.goal_id
      → relax q item s (or_empty (lookup item.key q.view.adjacency)) ≡ ok s'
      → IsSearching q item.cost s'
  relaxed-IsSearching s' current short other run =
      let es = or_empty (lookup item.key q.view.adjacency) in
      let (h, _, covers) =
        relax-IsRelaxing q item o.known.items.0.1 (omega arith) es s s'
          (entries-lookup es (unique item.key)) (open-IsRelaxing current) run in
      record {
        sized = h.sized;
        started = h.started;
        items = h.items;
        traced = h.traced;
        pending = λ i d at. elim (h.pending i d at) [
          | inl same ↦
              let cost : item.cost ≡ d = cc (h.current) in
              inr (
                subst (λ x. Visited q s' x d) (sym same)
                  (subst (λ x. Visited q s' item.id x) cost (relaxed-Visited s' other covers)))
          | inr rest ↦ rest
        ];
      }

  -- A round that goes on keeps what the search knows.
  pub visit-IsSearching :
      (s' : Scratch) → visit q s item ≡ continued s' → IsSearching q item.cost s'
  unfolding visit
  visit-IsSearching s' run = elim (Bool-cases (is_current (get_distance s item.id) item.cost)) [
    | inr stale ↦
        let same : s ≡ s' = ground (arith, rw (visit, stale) at run) in
        subst (IsSearching q item.cost) same (
          passed-IsSearching
            (λ current. absurd (cc (rw current at stale, is_current-stale item.cost))))
    | inl fresh ↦
        let current = is_current-known (get_distance s item.id) item.cost fresh in
        elim (Bool-cases (ltb q.cutoff item.cost)) [
          | inl far ↦ absurd (cc (rw (visit, fresh, far) at run))
          | inr near ↦ elim (Bool-cases (node_ok q item.key)) [
            | inr low ↦
                let same : s ≡ s' = ground (arith, rw (visit, fresh, near, low) at run) in
                subst (IsSearching q item.cost) same
                  (passed-IsSearching (λ _ k key good. absurd (cc (o.known.items.0.1))))
            | inl good ↦ elim (Bool-cases (item.id == q.goal_id)) [
              | inl goal ↦ absurd (cc (rw (visit, fresh, near, good, goal) at run))
              | inr other ↦
                  relaxed-IsSearching s' current (ground arith) (λ e. ground arith)
                    (as_turn-continued _ s' (rw (visit, fresh, near, good, other) at run))
            ]
          ]
        ]
  ]
