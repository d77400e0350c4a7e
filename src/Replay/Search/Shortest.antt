-- ===== src/Replay/Search/Shortest.antt =====
-- ShortestPath of Mapnode/replay/replay_dijkstra.go returns a shortest walk of the graph.
use trust_map_prototype.Common.{
  ℕ, zero, suc, ◌+◌, ◌≤◌, ◌≡◌, refl, subst, inl, inr, true, ltb, ◌==◌, ==_iff, Option, none, some,
  List, [], ◌∷◌, get_elem?, All, Result, ok, err, arith, Bool-cases, Result-cases,
}
use trust_map_prototype.Common.Maps.{lookup, IsUnique}
use trust_map_prototype.Replay.Cost.{max_uint64}
use trust_map_prototype.Replay.View.{BlockKey, key_keyed, or_empty}
use trust_map_prototype.Replay.View.Edges.{edge_at}
use trust_map_prototype.Replay.Scratch.{QueueItem, Scratch, get_distance, get_predecessor}
use trust_map_prototype.Replay.Search.{
  SearchError, PathSegment, ReplayPath, Query, node_ok, visit, returned, is_current, trace_back,
  reconstruct_path_locked, as_found, as_turn,
}
use trust_map_prototype.Replay.Search.Walks.{
  IsWalk, stay, move, Traced, IsItem, IsSearching, IsKeyed, segments_of-IsWalk, no_nearer,
}
use trust_map_prototype.Replay.Search.Rounds.{IsOpen, is_current-known}

-- The trace of predecessors from a node is a walk from the start, as long as the node's distance.
pub trace_back-IsWalk :
    (q : Query) (m : ℕ) (s : Scratch) (start goal : BlockKey)
    → get_elem? q.view.node_keys q.start_id ≡ some start
    → get_distance s q.start_id ≡ some 0
    → ((i d : ℕ) → get_distance s i ≡ some d → Traced q s m i d)
    → (fuel current d w : ℕ) (k : BlockKey) (nodes : List BlockKey) (segments : List PathSegment)
      (result : List BlockKey)
    → get_distance s current ≡ some d
    → get_elem? q.view.node_keys current ≡ some k
    → IsWalk q.view.adjacency k goal nodes segments w
    → trace_back fuel q s current nodes ≡ ok result
    → (segments' : List PathSegment) × IsWalk q.view.adjacency start goal result segments' (d + w)
unfolding trace_back
trace_back-IsWalk q m s start goal at_start zero_ traced zero current d w k nodes segments result
      known at walk run =
    absurd (cc)
trace_back-IsWalk q m s start goal at_start zero_ traced (suc fuel) current d w k nodes segments
      result known at walk run =
    elim (Bool-cases (current == q.start_id)) [
      | inl first ↦
          let same : current ≡ q.start_id = (==_iff current q.start_id).0 first in
          let none_left : d ≡ 0 = cc in
          let key : k ≡ start = cc in
          let done : nodes ≡ result = ground (arith, rw (trace_back, first) at run) in
          (
            segments,
            subst (λ x. IsWalk q.view.adjacency start goal x segments (d + w)) done
                (subst (λ x. IsWalk q.view.adjacency start goal nodes segments x) (omega arith)
                  (subst (λ x. IsWalk q.view.adjacency x goal nodes segments w) key walk)),
          )
      | inr later ↦ elim (traced current d known) [
        | inl origin ↦ absurd (ground arith)
        | inr (p, dp, kp, k', e, _, prior, at_p, _, key_p, key_k, edge, sum) ↦
            let same : k' ≡ k = cc in
            let edge' = subst (λ x. edge_at q.view.adjacency kp x ≡ some e) same edge in
            let run' = rw (trace_back, later, prior, key_p) at run in
            let (segments', walk') =
              trace_back-IsWalk q m s start goal at_start zero_ traced fuel p dp (e.weight + w) kp
                (kp ∷ nodes) _ result at_p key_p (move kp k goal nodes segments w e edge' walk)
                run' in
            (
              segments',
              subst (λ x. IsWalk q.view.adjacency start goal result segments' x) (omega arith)
                  walk',
            )
      ]
    ]

-- What the search is asked: a walk to the goal through nodes above the height bound, which is not
-- longer than the cutoff and than which none is shorter, or whether there is none.
abbrev pub NoneBelow : Query → BlockKey → BlockKey → ℕ → Type 0
NoneBelow q start goal c =
    (nodes : List BlockKey) (segments : List PathSegment) (w : ℕ)
    → IsWalk q.view.adjacency start goal nodes segments w
    → All (λ k. node_ok q k ≡ true) nodes
    → w ≤ q.cutoff
    → c ≤ w

abbrev pub IsAnswer : Query → BlockKey → BlockKey → Option ReplayPath → Type 0
IsAnswer q start goal none = NoneBelow q start goal (q.cutoff + 1)
IsAnswer q start goal (some p) =
    IsWalk q.view.adjacency start goal p.nodes p.segments p.cost
    × (p.cost ≤ q.cutoff)
    × NoneBelow q start goal p.cost

module _ (q : Query) (start goal : BlockKey) (keyed : IsKeyed q.view)
    (unique : (k : BlockKey) → IsUnique (or_empty (lookup k q.view.adjacency)))
    (bound : q.cutoff ≤ max_uint64) (is_start : lookup start q.view.node_ids ≡ some q.start_id)
    (is_goal : lookup goal q.view.node_ids ≡ some q.goal_id) where
  pub none_below :
      (m : ℕ) (s : Scratch) (c : ℕ)
      → IsSearching q m s
      → All (λ x. c ≤ x.cost) s.queue
      → NoneBelow q start goal c
  none_below m s c h far nodes segments w walk allowed short = elim (Bool-cases (ltb w c)) [
    | inr above ↦ ground arith
    | inl below ↦ absurd (
        no_nearer q m c s keyed h far 0 walk allowed
          (q.start_id, is_start, (0, h.started, omega arith)) (omega arith) (ground arith) is_goal)
  ]

  reconstruct-IsAnswer :
      (s : Scratch) (item : QueueItem) (p : ReplayPath)
      → get_distance s q.start_id ≡ some 0
      → ((i d : ℕ) → get_distance s i ≡ some d → Traced q s item.cost i d)
      → get_distance s q.goal_id ≡ some item.cost
      → reconstruct_path_locked q s item.cost ≡ ok p
      → IsWalk q.view.adjacency start goal p.nodes p.segments p.cost × (p.cost ≡ item.cost)
  unfolding reconstruct_path_locked
  reconstruct-IsAnswer s item p started traced known run =
      let at = keyed goal q.goal_id is_goal in
      let run₁ = rw (reconstruct_path_locked, at) at run in
      elim (Result-cases (trace_back (item.cost + 1) q s q.goal_id (goal ∷ []))) [
        | inr (_, lost) ↦ absurd (cc (rw lost at run₁))
        | inl (nodes, found) ↦
            let (segments, walk) =
              trace_back-IsWalk q item.cost s start goal (keyed start q.start_id is_start) started
                traced (item.cost + 1) q.goal_id item.cost 0 goal (goal ∷ []) [] nodes known at
                (stay goal) found in
            let run₂ = rw found at run₁ in
            let run₃ = rw (segments_of-IsWalk q.view walk) at run₂ in
            let made : ReplayPath = record {
              cost = item.cost;
              nodes = nodes;
              segments = segments;
            } in
            let same : made ≡ p = ground arith in
            subst
              (λ x.
                IsWalk q.view.adjacency start goal x.nodes x.segments x.cost × (x.cost ≡ item.cost))
              same
              (
                subst (λ w. IsWalk q.view.adjacency start goal nodes segments w) (omega arith) walk,
                refl,
              )
      ]

  costs : (n : ℕ) (xs : List QueueItem) → All (IsItem q n) xs → All (λ x. n ≤ x.cost) xs
  costs n [] a = tt
  costs n (x ∷ xs) a = (a.0.0, costs n xs a.1)

  not_returned :
      (m : Result SearchError Scratch) (r : Option ReplayPath) → as_turn m ≡ returned (ok r) → ⊥
  not_returned (ok s) r e = cc
  not_returned (err e) r h = ground arith

  found :
      (s : Scratch) (item : QueueItem) (r : Option ReplayPath)
      → NoneBelow q start goal item.cost
      → get_distance s q.goal_id ≡ some item.cost
      → item.cost ≤ q.cutoff
      → IsOpen q item s
      → returned (as_found (reconstruct_path_locked q s item.cost)) ≡ returned (ok r)
      → IsAnswer q start goal r
  unfolding get_distance get_predecessor
  found s item r least known short o run =
      elim (Result-cases (reconstruct_path_locked q s item.cost)) [
        | inr (_, lost) ↦ absurd (cc (rw lost at run))
        | inl (p, made) ↦
            let same : some p ≡ r = ground (arith, rw made at run) in
            let (walk, cost) =
              reconstruct-IsAnswer s item p o.known.started o.known.traced known made in
            subst (IsAnswer q start goal) same (
              walk,
              ground arith,
              λ ns ss w other allowed near. ground (arith, least ns ss w other allowed near),
            )
      ]

  -- A round that returns a path or none returns the answer.
  pub visit-IsAnswer :
      (s : Scratch) (item : QueueItem) (r : Option ReplayPath)
      → IsOpen q item s
      → visit q s item ≡ returned (ok r)
      → IsAnswer q start goal r
  unfolding visit
  visit-IsAnswer s item r o run =
      let least =
        none_below item.cost _ item.cost o.known (omega arith, costs item.cost s.queue o.rest) in
      elim (Bool-cases (is_current (get_distance s item.id) item.cost)) [
        | inr stale ↦ absurd (cc (rw (visit, stale) at run))
        | inl fresh ↦ elim (Bool-cases (ltb q.cutoff item.cost)) [
          | inl far ↦
              let same : none ≡ r = ground (arith, rw (visit, fresh, far) at run) in
              subst (IsAnswer q start goal) same (λ nodes segments w walk allowed short.
                ground (arith, least nodes segments w walk allowed short))
          | inr near ↦ elim (Bool-cases (node_ok q item.key)) [
            | inr low ↦ absurd (cc (rw (visit, fresh, near, low) at run))
            | inl good ↦ elim (Bool-cases (item.id == q.goal_id)) [
              | inr other ↦ absurd (not_returned _ r (rw (visit, fresh, near, good, other) at run))
              | inl there ↦
                  let current = is_current-known (get_distance s item.id) item.cost fresh in
                  let same : item.id ≡ q.goal_id = (==_iff item.id q.goal_id).0 there in
                  found s item r least (subst (λ x. get_distance s x ≡ some item.cost) same current)
                    (ground arith) o (rw (visit, fresh, near, good, there) at run)
            ]
          ]
        ]
      ]
