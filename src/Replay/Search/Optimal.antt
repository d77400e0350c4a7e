-- ===== src/Replay/Search/Optimal.antt =====
-- The whole of ShortestPath (Mapnode/replay/replay_dijkstra.go): its answers.
use trust_map_prototype.Common.{
  ℕ, zero, suc, ◌+◌, ◌≤◌, ◌<◌, ◌≡◌, refl, ap, sym, subst, ◌∙◌, ◌⊎◌, inl, inr, ◌==◌, ==_iff, Option,
  none, some, [], ◌∷◌, length, Result, ok, arith, Bool-cases, Result-cases, List-cases,
}
use trust_map_prototype.Common.Maps.{lookup, IsUnique}
use trust_map_prototype.Replay.Text.{Text, canonical_chain}
use trust_map_prototype.Replay.Cost.{max_uint64}
use trust_map_prototype.Replay.View.{
  BlockKey, canonical_key, key_keyed, same_key, same_key_iff, ReplayTrustView, or_empty,
}
use trust_map_prototype.Replay.View.Soundness.{IsSound}
use trust_map_prototype.Replay.Scratch.{
  Scratch, begin, get_distance, set_distance, IsStamped, begin-fresh, get_distance-set_distance,
  set_distance-IsSized,
}
use trust_map_prototype.Replay.Search.{
  SearchError, ReplayPath, Query, node_ok, node_id_locked, visit, continued, returned, Turn,
  pop_least, search, search_fuel, min_target_height, shortest_path,
}
use trust_map_prototype.Replay.Search.Walks.{IsWalk, stay, IsSearching, IsKeyed}
use trust_map_prototype.Replay.Search.Queue.{pop_least-IsPopped}
use trust_map_prototype.Replay.Search.Relax.{node_id_locked-ok}
use trust_map_prototype.Replay.Search.Rounds.{popped-IsOpen, visit-IsSearching}
use trust_map_prototype.Replay.Search.Shortest.{IsAnswer, none_below, visit-IsAnswer}

abbrev pub placed : Scratch → ℕ → BlockKey → Scratch
placed s id start = record (set_distance s id 0) {
  queue = record { id = id; key = start; cost = 0 } ∷ [];
}

ok-same :
    {a b : Option ReplayPath}
    → ◌≡◌ {A = Result SearchError (Option ReplayPath)} (ok a) (ok b)
    → a ≡ b
ok-same e = ground arith

-- The query of a call, but for the numbers of its two nodes.
abbrev pub asked : ReplayTrustView → ℕ → Text → ℕ → ℕ → ℕ → Query
asked view cutoff target_chain target_height start_id goal_id = record {
  view = view;
  start_id = start_id;
  goal_id = goal_id;
  cutoff = cutoff;
  target_chain = canonical_chain target_chain;
  min_height = min_target_height view cutoff target_height;
}

module _ (q : Query) (start goal : BlockKey) (keyed : IsKeyed q.view)
    (unique : (k : BlockKey) → IsUnique (or_empty (lookup k q.view.adjacency)))
    (bound : q.cutoff ≤ max_uint64) (is_start : lookup start q.view.node_ids ≡ some q.start_id)
    (is_goal : lookup goal q.view.node_ids ≡ some q.goal_id) where
  search-IsAnswer :
      (fuel m : ℕ) (s : Scratch) (r : Option ReplayPath)
      → IsSearching q m s
      → search fuel q s ≡ ok r
      → IsAnswer q start goal r
  unfolding search
  search-IsAnswer zero m s r h run = absurd (cc)
  search-IsAnswer (suc fuel) m s r h run = elim (List-cases s.queue) [
    | inl empty ↦
        let same : none ≡ r = ground (arith, rw (search, empty) at run) in
        subst (IsAnswer q start goal) same (
          none_below q start goal keyed unique bound is_start is_goal m s (q.cutoff + 1) h
            (rw empty tt))
    | inr (first, rest, full) ↦
        let (item, others) = pop_least first rest in
        let popped = pop_least-IsPopped first rest in
        let o = popped-IsOpen q m s item others (rw full popped) h in
        let run' = rw (search, full) at run in
        elim (Turn-cases (visit q (record s { queue = others }) item)) [
          | inl (result, end) ↦
              visit-IsAnswer q start goal keyed unique bound is_start is_goal
                (record s { queue = others }) item r o (end ∙ ap returned (rw end at run'))
          | inr (next, on) ↦
              search-IsAnswer fuel item.cost next r
                (visit-IsSearching q item (record s { queue = others }) o unique bound next on)
                (rw on at run')
        ]
  ]
    where
      Turn-cases :
          (t : Turn)
          → ((r : Result SearchError (Option ReplayPath)) × (t ≡ returned r))
            ⊎ ((s : Scratch) × (t ≡ continued s))
      Turn-cases (returned r) = inl (r, refl)
      Turn-cases (continued s) = inr (s, refl)

  -- At first the start alone has a distance.
  pub placed-distance :
      (pooled : Scratch) (j d : ℕ)
      → IsStamped pooled
      → q.start_id < length q.view.node_keys
      → get_distance (placed (begin pooled (length q.view.node_keys)) q.start_id start) j ≡ some d
      → (q.start_id ≡ j) × (d ≡ 0)
  unfolding get_distance
  placed-distance pooled j d stamped low h =
      let n = length q.view.node_keys in
      let (_, sized, blank, _) = begin-fresh pooled n stamped in
      let at = sym (get_distance-set_distance (begin pooled n) n q.start_id 0 j sized low) ∙ h in
      elim (Bool-cases (q.start_id == j)) [
        | inl same ↦ ((==_iff q.start_id j).0 same, cc (rw same at at))
        | inr other ↦ absurd (cc (rw other at at, (blank j).0))
      ]

  pub placed-IsSearching :
      (pooled : Scratch)
      → IsStamped pooled
      → q.start_id < length q.view.node_keys
      → IsSearching q 0 (placed (begin pooled (length q.view.node_keys)) q.start_id start)
  unfolding get_distance
  placed-IsSearching pooled stamped low =
      let n = length q.view.node_keys in
      let b = begin pooled n in
      let (_, sized, _, _) = begin-fresh pooled n stamped in
      let sized' = set_distance-IsSized b n q.start_id 0 sized in
      record {
        sized = record {
          distances = sized'.distances;
          distance_generations = sized'.distance_generations;
          predecessors = sized'.predecessors;
          predecessor_generations = sized'.predecessor_generations;
        };
        started =
            get_distance-set_distance b n q.start_id 0 q.start_id sized low
            ∙ rw ((==_iff q.start_id q.start_id).1 refl);
        items = ((omega arith, keyed start q.start_id is_start), tt);
        traced = λ i d h.
            let (same, zero_) = placed-distance pooled i d stamped low h in inl (sym same, zero_);
        pending = λ i d h.
            let (same, zero_) = placed-distance pooled i d stamped low h in
            inl (inl (same, sym zero_));
      }

-- In a sound graph, for a uint64 cutoff, where ShortestPath returns a path, it is a walk along edges
-- of the graph from the start to the goal, both in canonical form, with its segments and the sum of
-- their weights as its cost, which is at most the cutoff; and no walk through nodes that are on
-- another chain than the target chain or not below its height bound is shorter, of those not longer
-- than the cutoff. Where it returns no path, there is no such walk. The scratch may be that of
-- whatever earlier searches.
pub shortest_path-IsAnswer :
    (pooled : Scratch) (view : ReplayTrustView) (start goal : BlockKey) (cutoff : ℕ)
    (target_chain : Text) (target_height : ℕ) (r : Option ReplayPath)
    → IsStamped pooled
    → IsSound view
    → cutoff ≤ max_uint64
    → shortest_path pooled view start goal cutoff target_chain target_height ≡ ok r
    → IsAnswer
        (asked view cutoff target_chain target_height 0 0)
        (canonical_key start)
        (canonical_key goal)
        r
unfolding shortest_path node_ok
shortest_path-IsAnswer pooled view start goal cutoff target_chain target_height r stamped h bound
      run =
    let from = canonical_key start in
    let to = canonical_key goal in
    elim (Bool-cases (same_key from to)) [
      | inl equal ↦
          let same = ok-same (rw (shortest_path, equal) at run) in
          let key : from ≡ to = (same_key_iff from to).0 equal in
          subst (IsAnswer (asked view cutoff target_chain target_height 0 0) from to) same (
            subst (λ x. IsWalk view.adjacency from x (from ∷ []) [] 0) key (stay from),
            omega arith,
            λ nodes segments w walk allowed short. omega arith,
          )
      | inr differ ↦
          let run₁ = rw (shortest_path, differ) at run in
          elim (Result-cases (node_id_locked view from)) [
            | inr (_, lost) ↦ absurd (cc (rw lost at run₁))
            | inl (start_id, is) ↦
                let run₂ = rw is at run₁ in
                elim (Result-cases (node_id_locked view to)) [
                  | inr (_, lost) ↦ absurd (cc (rw lost at run₂))
                  | inl (goal_id, is') ↦
                      let (here, _, low) = node_id_locked-ok view from start_id is in
                      let q = asked view cutoff target_chain target_height start_id goal_id in
                      search-IsAnswer q from to h.nodes.numbered h.consistent.inner bound here
                        (node_id_locked-ok view to goal_id is').0 (search_fuel view cutoff) 0
                        (placed (begin pooled (length view.node_keys)) start_id from) r
                        (placed-IsSearching q from to h.nodes.numbered h.consistent.inner bound here
                          (node_id_locked-ok view to goal_id is').0 pooled stamped low)
                        (rw is' at run₂)
                ]
          ]
    ]
