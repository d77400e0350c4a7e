-- ===== src/Replay/Search.antt =====
-- ShortestPath of Mapnode/replay/replay_dijkstra.go, with the paths of replay_path.go. The heap of
-- container/heap is the list of its items: Pop takes a least one, and two items that are equal by
-- Less have one node. A map is iterated in the order of its list. The search takes the scratch that
-- the pool yields.
use Prim.Native.Nat.{compare, Ordering}
use Prim.Native.Nat.Ordering.{lt, eq, gt}
use trust_map_prototype.Common.{
  ℕ, zero, suc, ◌+◌, ◌-◌, ◌/◌, ◌*◌, Bool, true, false, not, ◌&&◌, ◌||◌, ltb, leb, ◌==◌, Option,
  none, some, List, [], ◌∷◌, length, get_elem?, if◌then◌else◌, Result, ok, err, ◌>>=◌, ◌>>◌,
  require, map_err, map,
}
use trust_map_prototype.Common.Maps.{Map, lookup}
use trust_map_prototype.Replay.Text.{Text, text_eq, text_keyed, canonical_chain}
use trust_map_prototype.Replay.Cost.{checked_add}
use trust_map_prototype.Replay.Cost
use trust_map_prototype.Replay.View.{
  BlockKey, canonical_key, same_key, key_keyed, EdgeKind, ReplayEdge, ReplayTrustView, or_empty,
}
use trust_map_prototype.Replay.Scratch.{
  QueueItem, Scratch, begin, get_distance, set_distance, get_predecessor, set_predecessor,
}
pub mod Walks
pub mod Relax
pub mod Marks
pub mod Neighbours
pub mod Rounds
pub mod Shortest
pub mod Optimal
pub mod Potential
pub mod Progress
pub mod Total
mod Examples
pub mod Queue

-- The errors of the search; `fuel_exhausted` is none of the code's.
pub data SearchError : Type 0 where
  edge_cost_overflow : Cost.Error → SearchError
  node_id_missing node_id_out_of_range node_id_mismatch : SearchError
  goal_out_of_range predecessor_missing predecessor_out_of_range edge_disappeared : SearchError
  fuel_exhausted : SearchError

pub record PathSegment : Type 0 where
  pub from : BlockKey
  pub to : BlockKey
  pub kind : EdgeKind
  pub weight : ℕ

pub record ReplayPath : Type 0 where
  pub cost : ℕ
  pub nodes : List BlockKey
  pub segments : List PathSegment

-- Go's `<` on strings.
unfoldable pub text_less : Text → Text → Bool
text_less [] [] = false
text_less [] (_ ∷ _) = true
text_less (_ ∷ _) [] = false
text_less (a ∷ as') (b ∷ bs) = ltb a b || a == b && text_less as' bs

unfoldable pub less : QueueItem → QueueItem → Bool
unfolding text_less text_eq
less a b =
    if not (a.cost == b.cost)
    then ltb a.cost b.cost
    else if not (text_eq a.key.chain b.key.chain)
    then text_less a.key.chain b.key.chain
    else ltb a.key.height b.key.height

-- Init and Pop of the heap: an item that none is less than, and the other items.
unfoldable pub pop_least : QueueItem → List QueueItem → QueueItem × List QueueItem
unfolding less
pop_least item [] = (item, [])
pop_least item (next ∷ rest) =
    let (least, others) = pop_least next rest in
    if less least item then (least, item ∷ others) else (item, least ∷ others)

unfoldable pub node_id_locked : ReplayTrustView → BlockKey → Result SearchError ℕ
unfolding same_key
node_id_locked view key = elim (lookup key view.node_ids) [
  | none ↦ err node_id_missing
  | some id ↦ elim (get_elem? view.node_keys id) [
    | none ↦ err node_id_out_of_range
    | some found ↦ if same_key found key then ok id else err node_id_mismatch
  ]
]

-- The bound below which no node of the target chain is visited.
unfoldable pub min_target_height : ReplayTrustView → ℕ → ℕ → ℕ
min_target_height view cutoff target_height =
    let steps = cutoff / view.profile.direct_step_cost in
    if ltb steps target_height then target_height - steps else 0

-- What stays the same in the loop of ShortestPath.
pub record Query : Type 0 where
  pub view : ReplayTrustView
  pub start_id : ℕ
  pub goal_id : ℕ
  pub cutoff : ℕ
  pub target_chain : Text
  pub min_height : ℕ

unfoldable pub node_ok : Query → BlockKey → Bool
unfolding text_eq
node_ok q key = not (text_eq key.chain q.target_chain) || leb q.min_height key.height

-- `existing, exists := getDistance(id); exists && candidate >= existing`.
abbrev pub is_reached : Option ℕ → ℕ → Bool
is_reached none candidate = false
is_reached (some existing) candidate = leb existing candidate

-- The body of the loop over the neighbours of an item.
unfoldable pub relax_edge :
    Query → QueueItem → Scratch → BlockKey × ReplayEdge → Result SearchError Scratch
unfolding node_ok node_id_locked
relax_edge q item scratch (neighbour, edge) = do
  candidate ← map_err edge_cost_overflow (checked_add item.cost edge.weight)
  if ltb q.cutoff candidate || not (node_ok q neighbour) then ok scratch else do
    id ← node_id_locked q.view neighbour
    ok (
        if is_reached (get_distance scratch id) candidate
        then scratch
        else record (set_predecessor (set_distance scratch id candidate) id item.id) {
          queue = record { id = id; key = neighbour; cost = candidate } ∷ scratch.queue;
        })

unfoldable pub relax :
    Query → QueueItem → Scratch → Map BlockKey ReplayEdge → Result SearchError Scratch
unfolding relax_edge
relax q item scratch [] = ok scratch
relax q item scratch (e ∷ es) = do scratch' ← relax_edge q item scratch e; relax q item scratch' es

-- The first loop of reconstructPathLocked. The nodes are in the order after the reversal.
unfoldable pub trace_back :
    ℕ → Query → Scratch → ℕ → List BlockKey → Result SearchError (List BlockKey)
trace_back zero q scratch current nodes = err fuel_exhausted
trace_back (suc fuel) q scratch current nodes = elim (current == q.start_id) [
  | true ↦ ok nodes
  | false ↦ elim (get_predecessor scratch current) [
    | none ↦ err predecessor_missing
    | some prior ↦ elim (get_elem? q.view.node_keys prior) [
      | none ↦ err predecessor_out_of_range
      | some key ↦ trace_back fuel q scratch prior (key ∷ nodes)
    ]
  ]
]

unfoldable pub segments_from :
    ReplayTrustView → BlockKey → List BlockKey → Result SearchError (List PathSegment)
segments_from view from [] = ok []
segments_from view from (to ∷ rest) = elim (lookup to (or_empty (lookup from view.adjacency))) [
  | none ↦ err edge_disappeared
  | some edge ↦ do
    segments ← segments_from view to rest
    ok (record { from = from; to = to; kind = edge.kind; weight = edge.weight } ∷ segments)
]

-- There is a first node, so the second clause of the segments is never met.
abbrev pub segments_of : ReplayTrustView → List BlockKey → Result SearchError (List PathSegment)
segments_of view (first ∷ rest) = segments_from view first rest
segments_of view [] = ok []

-- Every node of the trace is nearer to the start than the one after it, so the fuel is the cost.
unfoldable pub reconstruct_path_locked : Query → Scratch → ℕ → Result SearchError ReplayPath
unfolding trace_back segments_from
reconstruct_path_locked q scratch cost = elim (get_elem? q.view.node_keys q.goal_id) [
  | none ↦ err goal_out_of_range
  | some goal ↦ do
    nodes ← trace_back (cost + 1) q scratch q.goal_id (goal ∷ [])
    segments ← segments_of q.view nodes
    ok (record { cost = cost; nodes = nodes; segments = segments })
]

-- What one item of the queue leads to: a return, or the next round.
pub data Turn : Type 0 where
  returned : Result SearchError (Option ReplayPath) → Turn
  continued : Scratch → Turn

abbrev pub is_current : Option ℕ → ℕ → Bool
is_current none cost = false
is_current (some known) cost = known == cost

abbrev pub as_found : Result SearchError ReplayPath → Result SearchError (Option ReplayPath)
as_found (ok path) = ok (some path)
as_found (err e) = err e

abbrev pub as_turn : Result SearchError Scratch → Turn
as_turn (ok scratch) = continued scratch
as_turn (err e) = returned (err e)

-- The body of the loop over the queue, after Pop.
unfoldable pub visit : Query → Scratch → QueueItem → Turn
unfolding node_ok relax reconstruct_path_locked
visit q scratch item =
    if not (is_current (get_distance scratch item.id) item.cost)
    then continued scratch
    else if ltb q.cutoff item.cost
    then returned (ok none)
    else if not (node_ok q item.key)
    then continued scratch
    else if item.id == q.goal_id
    then returned (as_found (reconstruct_path_locked q scratch item.cost))
    else as_turn (relax q item scratch (or_empty (lookup item.key q.view.adjacency)))

unfoldable pub search : ℕ → Query → Scratch → Result SearchError (Option ReplayPath)
unfolding visit pop_least
search zero q scratch = err fuel_exhausted
search (suc fuel) q scratch = elim scratch.queue [
  | [] ↦ ok none
  | first ∷ rest ↦
      let (item, others) = pop_least first rest in
      elim (visit q (record scratch { queue = others }) item) [
        | returned result ↦ result
        | continued scratch' ↦ search fuel q scratch'
      ]
]

-- Each push shortens the distance of a node to at most the cutoff, so there are at most as many as
-- the nodes times the distances up to the cutoff, and one item of the queue for each.
abbrev pub search_fuel : ReplayTrustView → ℕ → ℕ
search_fuel view cutoff = length view.node_keys * (cutoff + 1) + 2

unfoldable pub shortest_path :
    Scratch
    → ReplayTrustView
    → BlockKey
    → BlockKey
    → ℕ
    → Text
    → ℕ
    → Result SearchError (Option ReplayPath)
unfolding node_id_locked search min_target_height
shortest_path pooled view start goal cutoff target_chain target_height =
    let start' = canonical_key start in
    let goal' = canonical_key goal in
    if same_key start' goal'
    then ok (some (record { cost = 0; nodes = start' ∷ []; segments = [] }))
    else do
      let scratch = begin pooled (length view.node_keys)
      start_id ← node_id_locked view start'
      goal_id ← node_id_locked view goal'
      let q : Query = record {
        view = view;
        start_id = start_id;
        goal_id = goal_id;
        cutoff = cutoff;
        target_chain = canonical_chain target_chain;
        min_height = min_target_height view cutoff target_height;
      }
      let placed = set_distance scratch start_id 0
      search (search_fuel view cutoff) q
          (record placed { queue = record { id = start_id; key = start'; cost = 0 } ∷ [] })
