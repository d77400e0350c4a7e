-- ===== src/Replay/Search/Progress.antt =====
-- The rounds of ShortestPath (Mapnode/replay/replay_dijkstra.go) on a sound graph: no error but the
-- overflow of a sum of costs, and each round brings the loop nearer to its end.
use trust_map_prototype.Common.{
  ℕ, zero, suc, ◌+◌, ◌≤◌, ◌<◌, ◌≡◌, refl, subst, ◌⊎◌, inl, inr, true, not, ◌||◌, ltb, ◌==◌, ==_iff,
  Option, none, some, List, [], ◌∷◌, get_elem?, All, All-imp, Result, ok, err, arith, Bool-cases,
  Option-cases, Result-cases,
}
use trust_map_prototype.Common.Maps.{Map, lookup}
use trust_map_prototype.Replay.Cost.{max_uint64, checked_add}
use trust_map_prototype.Replay.Cost
use trust_map_prototype.Replay.View.{
  BlockKey, key_keyed, same_key_iff, ReplayEdge, ReplayTrustView, or_empty,
}
use trust_map_prototype.Replay.View.Edges.{edge_at}
use trust_map_prototype.Replay.View.Numbering.{is_active}
use trust_map_prototype.Replay.View.Soundness.{IsSound}
use trust_map_prototype.Replay.Scratch.{QueueItem, Scratch, get_distance, get_predecessor}
use trust_map_prototype.Replay.Search.{
  SearchError, edge_cost_overflow, ReplayPath, Query, node_ok, node_id_locked, relax_edge, relax,
  trace_back, reconstruct_path_locked, returned, continued, is_current, visit,
}
use trust_map_prototype.Replay.Search.Walks.{stay, Traced, segments_of-IsWalk}
use trust_map_prototype.Replay.Search.Marks.{IsRelaxing}
use trust_map_prototype.Replay.Search.Neighbours.{relax_edge-IsRelaxing, entries-lookup}
use trust_map_prototype.Replay.Search.Rounds.{IsOpen, open-IsRelaxing, is_current-known}
use trust_map_prototype.Replay.Search.Shortest.{trace_back-IsWalk}
use trust_map_prototype.Replay.Search.Potential.{potential, relax_edge-potential}

-- A value, or the overflow error of a sum of costs.
abbrev pub IsClean {ℓ} : {A : Type ℓ} → Result SearchError A → Type ℓ
IsClean {A = A} m = ((a : A) × (m ≡ ok a)) ⊎ ((e : Cost.Error) × (m ≡ err (edge_cost_overflow e)))

abbrev pub HasId : ReplayTrustView → BlockKey → Type 0
HasId view k = (id : ℕ) × (node_id_locked view k ≡ ok id)

pub node_id_locked-active :
    (view : ReplayTrustView) (k : BlockKey)
    → IsSound view
    → is_active view.heights k ≡ true
    → HasId view k
unfolding node_id_locked
node_id_locked-active view k h active = elim (Option-cases (lookup k view.node_ids)) [
  | inl missing ↦ let r = h.nodes.registered k in absurd (cc (rw missing at r))
  | inr (id, is) ↦
      (id, rw (node_id_locked, is, h.nodes.numbered k id is, (same_key_iff k k).1 refl))
]

relax_edge-IsClean :
    (q : Query) (item : QueueItem) (s : Scratch) (t : BlockKey) (e : ReplayEdge)
    → HasId q.view t
    → IsClean (relax_edge q item s (t, e))
unfolding relax_edge
relax_edge-IsClean q item s t e (id, is) = elim (Result-cases (checked_add item.cost e.weight)) [
  | inr (over, failed) ↦ inr (over, rw (relax_edge, failed))
  | inl (c, added) ↦ elim (Bool-cases (ltb q.cutoff c || not (node_ok q t))) [
    | inl out ↦ inl (s, rw (relax_edge, added, out))
    | inr inside ↦ rw (relax_edge, added, inside, is) (inl (_, refl))
  ]
]

relax-IsClean :
    (q : Query) (item : QueueItem) (es : Map BlockKey ReplayEdge) (s : Scratch)
    → All (λ x. HasId q.view x.0) es
    → IsClean (relax q item s es)
unfolding relax
relax-IsClean q item [] s ids = inl (s, refl)
relax-IsClean q item ((t, e) ∷ es) s ids = elim (relax_edge-IsClean q item s t e ids.0) [
  | inr (over, failed) ↦ inr (over, rw (relax, failed))
  | inl (next, done) ↦ rw (relax, done) (relax-IsClean q item es next ids.1)
]

relax-potential :
    (q : Query) (item : QueueItem) (home : get_elem? q.view.node_keys item.id ≡ some item.key)
    (bound : item.cost ≤ max_uint64) (es : Map BlockKey ReplayEdge) (s s' : Scratch)
    → All (λ x. edge_at q.view.adjacency item.key x.0 ≡ some x.1) es
    → IsRelaxing q item s
    → relax q item s es ≡ ok s'
    → potential q s' ≤ potential q s
unfolding relax
relax-potential q item home bound [] s s' edges h run =
    let same : s ≡ s' = ground arith in
    subst (λ x. potential q x ≤ potential q s) same (omega arith)
relax-potential q item home bound ((t, e) ∷ es) s s' edges h run =
    elim (Result-cases (relax_edge q item s (t, e))) [
      | inr (_, failed) ↦ absurd (cc (rw (relax, failed) at run))
      | inl (next, done) ↦
          let (h₁, _, _) = relax_edge-IsRelaxing q item home bound s next t e edges.0 h done in
          omega (
            arith,
            relax_edge-potential q item s t e next bound h.sized done,
            relax-potential q item home bound es next s' edges.1 h₁ (rw (relax, done) at run),
          )
    ]

-- The trace of predecessors ends at the start.
trace_back-ok :
    (q : Query) (m : ℕ) (s : Scratch)
    → ((f t : BlockKey) (e : ReplayEdge) → edge_at q.view.adjacency f t ≡ some e → 0 < e.weight)
    → ((i d : ℕ) → get_distance s i ≡ some d → Traced q s m i d)
    → (fuel current d : ℕ) (nodes : List BlockKey) → d < fuel
    → get_distance s current ≡ some d
    → (result : List BlockKey) × (trace_back fuel q s current nodes ≡ ok result)
unfolding trace_back
trace_back-ok q m s positive traced zero current d nodes enough known = absurd (omega arith)
trace_back-ok q m s positive traced (suc fuel) current d nodes enough known =
    elim (Bool-cases (current == q.start_id)) [
      | inl first ↦ (nodes, rw (trace_back, first))
      | inr later ↦ elim (traced current d known) [
        | inl origin ↦ absurd (ground arith)
        | inr (p, dp, kp, k, e, _, prior, at_p, _, key_p, _, edge, sum) ↦
            let (result, run) =
              trace_back-ok q m s positive traced fuel p dp (kp ∷ nodes)
                (omega (arith, positive kp k e edge)) at_p in
            (result, rw (trace_back, later, prior, key_p) run)
      ]
    ]

-- What a round does.
pub data Advance (q : Query) (s : Scratch) (item : QueueItem) : Type 0 where
  ends :
      (r : Result SearchError (Option ReplayPath))
      → IsClean r
      → visit q s item ≡ returned r
      → Advance q s item
  goes :
      (s' : Scratch)
      → potential q s' ≤ potential q s
      → visit q s item ≡ continued s'
      → Advance q s item

module _ (q : Query) (start goal : BlockKey) (h : IsSound q.view) (bound : q.cutoff ≤ max_uint64)
    (positive : (f t : BlockKey) (e : ReplayEdge)
      → edge_at q.view.adjacency f t ≡ some e
      → 0 < e.weight)
    (is_start : lookup start q.view.node_ids ≡ some q.start_id)
    (is_goal : lookup goal q.view.node_ids ≡ some q.goal_id) where
  reconstruct-ok :
      (s : Scratch) (cost : ℕ)
      → get_distance s q.start_id ≡ some 0
      → ((i d : ℕ) → get_distance s i ≡ some d → Traced q s cost i d)
      → get_distance s q.goal_id ≡ some cost
      → (p : ReplayPath) × (reconstruct_path_locked q s cost ≡ ok p)
  unfolding reconstruct_path_locked
  reconstruct-ok s cost started traced known =
      let at = h.nodes.numbered goal q.goal_id is_goal in
      let (nodes, run) =
        trace_back-ok q cost s positive traced (cost + 1) q.goal_id cost (goal ∷ []) (omega arith)
          known in
      let (segments, walk) =
        trace_back-IsWalk q cost s start goal (h.nodes.numbered start q.start_id is_start) started
          traced (cost + 1) q.goal_id cost 0 goal (goal ∷ []) [] nodes known at (stay goal) run in
      (
        record { cost = cost; nodes = nodes; segments = segments },
        rw (reconstruct_path_locked, at, run, segments_of-IsWalk q.view walk),
      )

  ending :
      (s : Scratch) (item : QueueItem)
      → IsOpen q item s
      → get_distance s q.goal_id ≡ some item.cost
      → (p : ReplayPath) × (reconstruct_path_locked q s item.cost ≡ ok p)
  unfolding get_distance get_predecessor
  ending s item o known = reconstruct-ok s item.cost o.known.started o.known.traced known

  neighbours-HasId :
      (k : BlockKey) → All (λ x. HasId q.view x.0) (or_empty (lookup k q.view.adjacency))
  neighbours-HasId k =
      All-imp (or_empty (lookup k q.view.adjacency))
        (λ x at. node_id_locked-active q.view x.0 h (h.endpoints k x.0 x.1 at).1)
        (entries-lookup (or_empty (lookup k q.view.adjacency)) (h.consistent.inner k))

  pub visit-Advance : (s : Scratch) (item : QueueItem) → IsOpen q item s → Advance q s item
  unfolding visit
  visit-Advance s item o = elim (Bool-cases (is_current (get_distance s item.id) item.cost)) [
    | inr stale ↦ goes s (omega arith) (rw (visit, stale))
    | inl fresh ↦ elim (Bool-cases (ltb q.cutoff item.cost)) [
      | inl far ↦ ends (ok none) (inl (none, refl)) (rw (visit, fresh, far))
      | inr near ↦ elim (Bool-cases (node_ok q item.key)) [
        | inr low ↦ goes s (omega arith) (rw (visit, fresh, near, low))
        | inl good ↦ elim (Bool-cases (item.id == q.goal_id)) [
          | inl there ↦
              let current = is_current-known (get_distance s item.id) item.cost fresh in
              let same : item.id ≡ q.goal_id = (==_iff item.id q.goal_id).0 there in
              let (p, made) =
                ending s item o (subst (λ x. get_distance s x ≡ some item.cost) same current) in
              ends (ok (some p)) (inl (some p, refl)) (rw (visit, fresh, near, good, there, made))
          | inr other ↦
              let es = or_empty (lookup item.key q.view.adjacency) in
              let current = is_current-known (get_distance s item.id) item.cost fresh in
              elim (relax-IsClean q item es s (neighbours-HasId item.key)) [
                | inr (over, failed) ↦
                    ends (err (edge_cost_overflow over)) (inr (over, refl))
                      (rw (visit, fresh, near, good, other, failed))
                | inl (s', done) ↦
                    goes s'
                      (relax-potential q item o.known.items.0.1 (ground arith) es s s'
                        (entries-lookup es (h.consistent.inner item.key))
                        (open-IsRelaxing q item s o h.consistent.inner bound current) done)
                      (rw (visit, fresh, near, good, other, done))
              ]
        ]
      ]
    ]
  ]
