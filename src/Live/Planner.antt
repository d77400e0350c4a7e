-- ===== src/Live/Planner.antt =====
-- Planner of Mapnode/planner/planner.go: a path over a sealed snapshot of the trust view, or a direct
-- plan with its reason. The repositories and the source of the profiles are parameters; the plan that
-- is persisted is that of Proposal with its ID. The context is left out, and the clock is an argument.
use trust_map_prototype.Common.{
  ℕ, zero, suc, ◌+◌, ◌-◌, ◌*◌, ◌/◌, ◌≡◌, Bool, true, false, not, ◌&&◌, ◌||◌, ◌==◌, ltb, leb, Option,
  none, some, List, [], ◌∷◌, ◌++◌, map, length, Result, ok, err, ◌>>=◌, ◌>>◌, require, map_err,
  if◌then◌else◌,
}
use trust_map_prototype.Common.Maps.{Map, Keyed, lookup, insert, is_some}
use trust_map_prototype.Common.Orders.{Order, compare_nat, compare_lists, or_else, is_less, is_same}
use trust_map_prototype.Replay.Text.{Text, text_eq, text_keyed}
use trust_map_prototype.Replay.Cost.{max_uint64, u64}
use trust_map_prototype.Live.Domain.{zero_word}
use trust_map_prototype.Live.View.{
  ViewError, TrustNode, TrustEdge, TrustViewSnapshot, compare_bytes, sort_by, new_trust_view,
  compute_snapshot_id,
}
pub mod Proposals
pub mod Answers
pub mod Proposal
pub mod Encoding
pub mod Addresses
pub mod Stored
pub mod Snapshots
pub mod Graph
pub mod Reach
pub mod Ranks
pub mod Frontiers
pub mod Relaxed
pub mod Rounds
pub mod Shortest
pub mod Proposed

-- Both are strings with some constants; a plan that has no reason has the empty one.
abbrev pub FallbackReason : Type 0
FallbackReason = Text

abbrev pub no_fallback : FallbackReason
no_fallback = []

abbrev pub uncalibrated_profile : FallbackReason
uncalibrated_profile =
    b'u' ∷ b'n' ∷ b'c' ∷ b'a' ∷ b'l' ∷ b'i' ∷ b'b' ∷ b'r' ∷ b'a' ∷ b't' ∷ b'e' ∷ b'd' ∷ b'_' ∷ b'p'
    ∷ b'r' ∷ b'o' ∷ b'f' ∷ b'i' ∷ b'l' ∷ b'e' ∷ []

abbrev pub no_path : FallbackReason
no_path = b'n' ∷ b'o' ∷ b'_' ∷ b'p' ∷ b'a' ∷ b't' ∷ b'h' ∷ []

abbrev pub path_cost_exceeds_direct : FallbackReason
path_cost_exceeds_direct =
    b'p' ∷ b'a' ∷ b't' ∷ b'h' ∷ b'_' ∷ b'c' ∷ b'o' ∷ b's' ∷ b't' ∷ b'_' ∷ b'e' ∷ b'x' ∷ b'c' ∷ b'e'
    ∷ b'e' ∷ b'd' ∷ b's' ∷ b'_' ∷ b'd' ∷ b'i' ∷ b'r' ∷ b'e' ∷ b'c' ∷ b't' ∷ []

abbrev pub proof_material_missing : FallbackReason
proof_material_missing =
    b'p' ∷ b'r' ∷ b'o' ∷ b'o' ∷ b'f' ∷ b'_' ∷ b'm' ∷ b'a' ∷ b't' ∷ b'e' ∷ b'r' ∷ b'i' ∷ b'a' ∷ b'l'
    ∷ b'_' ∷ b'm' ∷ b'i' ∷ b's' ∷ b's' ∷ b'i' ∷ b'n' ∷ b'g' ∷ []

abbrev pub PlanType : Type 0
PlanType = Text

abbrev pub path_plan : PlanType
path_plan = b'p' ∷ b'a' ∷ b't' ∷ b'h' ∷ []

abbrev pub direct_plan : PlanType
direct_plan = b'd' ∷ b'i' ∷ b'r' ∷ b'e' ∷ b'c' ∷ b't' ∷ []

pub data PlannerError : Type 0 where
  snapshot_unsealed snapshot_endpoint path_cost_overflow stale_snapshot
        inconsistent_path_step_cost :
      PlannerError
  snapshot_duplicates path_disappeared out_of_fuel : PlannerError
  invalid_view : ViewError → PlannerError
  repository : Text → PlannerError

pub record Request : Type 0 where
  pub id : Text
  pub attempt : ℕ
  pub snapshot_id : Text
  pub home_chain_id : Text

-- The time of creation is a number.
pub record Plan : Type 0 where
  pub id : Text
  pub request_id : Text
  pub attempt : ℕ
  pub snapshot_id : Text
  pub profile_id : Text
  pub profile_fingerprint : Text
  pub plan_type : PlanType
  pub home_node_id : Text
  pub target_node_id : Text
  pub hops : List Text
  pub path_step_cost : ℕ
  pub path_cost : Option ℕ
  pub direct_cost : Option ℕ
  pub fallback_reason : FallbackReason
  pub created_at : ℕ

-- registry.ValidatedDirectProfile.
pub record ValidatedDirectProfile : Type 0 where
  pub id : Text
  pub fingerprint : Text
  pub direct_cost : ℕ
  pub calibrated : Bool

unfoldable pub find_snapshot_node : List TrustNode → Text → Option TrustNode
unfolding text_eq
find_snapshot_node [] id = none
find_snapshot_node (n ∷ ns) id = if text_eq n.id id then some n else find_snapshot_node ns id

abbrev pub Adjacency : Type 0
Adjacency = Map Text (List TrustEdge)

-- A key that a Go map of slices does not have reads as the empty slice.
abbrev pub out_edges : Adjacency → Text → List TrustEdge
out_edges edges from = elim (lookup from edges) [ none ↦ [] | some es ↦ es ]

unfoldable pub group_edges : Adjacency → List TrustEdge → Adjacency
group_edges edges [] = edges
group_edges edges (e ∷ es) = group_edges (insert e.from (out_edges edges e.from ++ e ∷ []) edges) es

-- The loop that sorts the edges of each node.
unfoldable pub sort_edges : Adjacency → Adjacency
unfolding sort_by
sort_edges [] = []
sort_edges ((from, es) ∷ rest) = (from, sort_by (λ e. e.id) es) ∷ sort_edges rest

abbrev pub adjacency_of : List TrustEdge → Adjacency
adjacency_of edges = sort_edges (group_edges [] edges)

-- `seen[id]`, for the IDs whose value is true.
unfoldable pub is_seen : Text → List Text → Bool
unfolding text_eq
is_seen id [] = false
is_seen id (s ∷ ss) = text_eq s id || is_seen id ss

-- The inner loop of directedReachability: what is seen, and the queue.
unfoldable pub see_targets : List Text → List Text → List TrustEdge → List Text × List Text
unfolding is_seen
see_targets seen queue [] = (seen, queue)
see_targets seen queue (e ∷ es) =
    let taken = see_targets (e.to ∷ seen) (queue ++ e.to ∷ []) es in
    let passed = see_targets seen queue es in if is_seen e.to seen then passed else taken

-- The outer loop, on fuel; without fuel it ends as an exhausted queue does.
unfoldable pub reaches : ℕ → Adjacency → Text → List Text → List Text → Bool
unfolding see_targets text_eq
reaches zero edges target seen queue = false
reaches (suc fuel) edges target seen [] = false
reaches (suc fuel) edges target seen (current ∷ queue) =
    let (seen', queue') = see_targets seen queue (out_edges edges current) in
    let rest = reaches fuel edges target seen' queue' in
    if text_eq current target then true else rest

unfoldable pub directed_reachability : TrustViewSnapshot → Adjacency × Bool
unfolding group_edges sort_edges reaches
directed_reachability snapshot =
    let edges = adjacency_of snapshot.edges in
    (
      edges,
      reaches (length snapshot.edges + 2) edges snapshot.target_node_id
          (snapshot.start_node_id ∷ []) (snapshot.start_node_id ∷ []),
    )

-- Its place in the heap is left out.
pub record Candidate : Type 0 where
  pub node : Text
  pub cost : ℕ
  pub path : List TrustEdge

-- The loop over the IDs is at most as long as either path, since the lengths are equal there.
unfoldable pub compare_candidate : Candidate → Candidate → Order
compare_candidate left right = or_else (compare_nat left.cost right.cost) (
    or_else (compare_nat (length left.path) (length right.path)) (
      or_else (compare_lists compare_bytes (map (λ e. e.id) left.path) (map (λ e. e.id) right.path))
        (compare_bytes left.node right.node)))

-- heap.Pop: a least item, and the others.
unfoldable pub pop_least : Candidate → List Candidate → Candidate × List Candidate
unfolding compare_candidate
pop_least c [] = (c, [])
pop_least c (d ∷ ds) =
    let (least, others) = pop_least d ds in
    if is_less (compare_candidate least c) then (least, c ∷ others) else (c, d ∷ ds)

pub record Frontier : Type 0 where
  pub queue : List Candidate
  pub best : Map Text Candidate
  pub overflowed : Bool

abbrev pub extended : Candidate → TrustEdge → Candidate
extended current edge = record {
  node = edge.to;
  cost = current.cost + edge.path_step_cost;
  path = current.path ++ edge ∷ [];
}

-- One round of the loop over the edges; heap.Push adds an item to the queue.
unfoldable pub relax : Candidate → Frontier → TrustEdge → Frontier
unfolding compare_candidate
relax current s edge =
    let next = extended current edge in
    let better : Bool = elim (lookup edge.to s.best) [
      | none ↦ true
      | some known ↦ is_less (compare_candidate next known)
    ] in
    if ltb (max_uint64 - edge.path_step_cost) current.cost
    then record s { overflowed = true }
    else if better
    then record s { queue = next ∷ s.queue; best = insert edge.to next s.best }
    else s

unfoldable pub relax_all : Candidate → Frontier → List TrustEdge → Frontier
unfolding relax
relax_all current s [] = s
relax_all current s (e ∷ es) = relax_all current (relax current s e) es

-- A queued node has a best candidate; the other case does not occur.
unfoldable pub is_stale : Frontier → Candidate → Bool
unfolding compare_candidate
is_stale s current = elim (lookup current.node s.best) [
  | none ↦ true
  | some known ↦ not (is_same (compare_candidate current known))
]

unfoldable pub search : ℕ → Adjacency → Text → Frontier → Result PlannerError Candidate
unfolding pop_least relax_all is_stale text_eq
search zero edges target s = err out_of_fuel
search (suc fuel) edges target s = elim s.queue [
  | [] ↦ err (if s.overflowed then path_cost_overflow else path_disappeared)
  | first ∷ rest ↦
      let (current, others) = pop_least first rest in
      let popped = record s { queue = others } in
      let stale = search fuel edges target popped in
      let onward =
        search fuel edges target (relax_all current popped (out_edges edges current.node)) in
      if is_stale popped current
      then stale
      else if text_eq current.node target
      then ok current
      else onward
]

abbrev pub start_candidate : Text → Candidate
start_candidate start = record { node = start; cost = 0; path = [] }

abbrev pub start_frontier : Text → Frontier
start_frontier start = record {
  queue = start_candidate start ∷ [];
  best = (start, start_candidate start) ∷ [];
  overflowed = false;
}

-- The path and the cost are those of the candidate.
unfoldable pub shortest_path : TrustViewSnapshot → Adjacency → Result PlannerError Candidate
unfolding search
shortest_path snapshot edges =
    search (length snapshot.edges + 2) edges snapshot.target_node_id
      (start_frontier snapshot.start_node_id)
