-- ===== src/Replay/View.antt =====
-- ReplayTrustView of Mapnode/replay/replay_trust_view.go, with the keys of replay_block.go and the
-- edges of replay_intra_chain_edge.go and replay_verified_dependency_edge.go: the graph of the
-- blocks seen so far. A method that changes the view returns the new view beside its result, also
-- where it fails. The mutex leaves no trace: each method runs alone.
use trust_map_prototype.Common.{
  ℕ, ◌+◌, ◌-◌, ◌≡◌, ◌↔◌, refl, Bool, true, false, ◌&&◌, ◌==◌, ==_iff, Option, none, some, List, [],
  ◌∷◌, ◌++◌, length, if◌then◌else◌, Result, ok, err, ◌>>=◌, ◌>>◌, arith,
}
use trust_map_prototype.Common.Maps.{Map, Keyed, lookup, insert, delete, is_some}
use trust_map_prototype.Replay.Text.{text_keyed, Text, text_eq, text_eq_iff, canonical_chain}
use trust_map_prototype.Replay.Cost.{
  Error, CostProfile, checked_cost, validate_profile, max_uint64, u64, chain_empty,
  cross_edge_counter_overflow,
}
use trust_map_prototype.Replay.Heights.{Treap, nil, contains, neighbours}
use trust_map_prototype.Replay.Heights
pub mod Edges
pub mod Frame
pub mod Outcomes
pub mod Activate
pub mod Splice
pub mod Placement
pub mod Numbering
pub mod Soundness
pub mod Dependency
pub mod Runs
pub mod Weights
pub mod Canonical

pub record ReplayBlock : Type 0 where
  pub chain : Text
  pub original_height : ℕ
  pub normalized_height : ℕ

pub record BlockKey : Type 0 where
  pub chain : Text
  pub height : ℕ

unfoldable pub block_key : ReplayBlock → BlockKey
block_key block = record { chain = canonical_chain block.chain; height = block.original_height }

unfoldable pub canonical_key : BlockKey → BlockKey
canonical_key key = record key { chain = canonical_chain key.chain }

unfoldable pub same_key : BlockKey → BlockKey → Bool
unfolding text_eq
same_key a b = text_eq a.chain b.chain && a.height == b.height

pub same_key_iff : (a b : BlockKey) → (same_key a b ≡ true) ↔ (a ≡ b)
unfolding same_key
same_key_iff a b = ground (arith, text_eq_iff a.chain b.chain)

instance abbrev pub key_keyed : Keyed BlockKey
key_keyed = record { same = same_key; same_iff = same_key_iff }

pub data EdgeKind : Type 0 where
  intra_chain_up intra_chain_down verified_dependency : EdgeKind

pub record ReplayEdge : Type 0 where
  pub kind : EdgeKind
  pub weight : ℕ

-- The counters are uint64. `nodes` is a set: the values carry nothing.
pub record ReplayTrustView : Type 0 where
  pub profile : CostProfile
  pub heights : Map Text Treap
  pub adjacency : Map BlockKey (Map BlockKey ReplayEdge)
  pub nodes : Map BlockKey (Unit {0})
  pub node_ids : Map BlockKey ℕ
  pub node_keys : List BlockKey
  pub edge_count : ℕ
  pub cross_edges_added : ℕ

unfoldable pub new_replay_trust_view : CostProfile → Result Error ReplayTrustView
new_replay_trust_view profile = do
  validate_profile profile
  ok (record {
    profile = profile;
    heights = [];
    adjacency = [];
    nodes = [];
    node_ids = [];
    node_keys = [];
    edge_count = 0;
    cross_edges_added = 0;
  })

-- A map that is not there reads as an empty one.
abbrev pub or_empty {ℓ} : {A : Type ℓ} → Option (List A) → List A
or_empty none = []
or_empty (some m) = m

unfoldable pub edge : ReplayTrustView → BlockKey → BlockKey → Option ReplayEdge
edge view from to =
    lookup (canonical_key to) (or_empty (lookup (canonical_key from) view.adjacency))

unfoldable pub set_edge_locked :
    ReplayTrustView → BlockKey → BlockKey → ReplayEdge → ReplayTrustView
set_edge_locked view from to e =
    let neighbours = or_empty (lookup from view.adjacency) in
    record view {
      adjacency = insert from (insert to e neighbours) view.adjacency;
      edge_count =
          if is_some (lookup to neighbours) then view.edge_count else u64 (view.edge_count + 1);
    }

unfoldable pub delete_edge_locked : ReplayTrustView → BlockKey → BlockKey → ReplayTrustView
delete_edge_locked view from to =
    let neighbours = or_empty (lookup from view.adjacency) in
    if is_some (lookup to neighbours)
    then record view {
      adjacency = insert from (delete to neighbours) view.adjacency;
      edge_count = u64 (view.edge_count + max_uint64);
    }
    else view

pub record PendingEdge : Type 0 where
  pub from : BlockKey
  pub to : BlockKey
  pub edge : ReplayEdge

-- The edges between two heights of a chain, the one up and the one down.
unfoldable pub pair_edges : CostProfile → Text → ℕ → ℕ → Result Error (List PendingEdge)
pair_edges profile chain lower higher = do
  let delta = u64 (higher + max_uint64 + 1 - lower)
  up ← checked_cost delta profile.direct_step_cost
  down ← checked_cost delta profile.path_step_cost
  let low_key : BlockKey = record { chain = chain; height = lower }
  let high_key : BlockKey = record { chain = chain; height = higher }
  ok (
      record { from = low_key; to = high_key; edge = record { kind = intra_chain_up; weight = up } }
      ∷ record {
        from = high_key;
        to = low_key;
        edge = record { kind = intra_chain_down; weight = down };
      }
      ∷ [])

-- `appendPair` under `if hasPredecessor` and under `if hasSuccessor`.
unfoldable pub lower_edges : CostProfile → BlockKey → Option ℕ → Result Error (List PendingEdge)
unfolding pair_edges
lower_edges profile key none = ok []
lower_edges profile key (some predecessor) = pair_edges profile key.chain predecessor key.height

unfoldable pub upper_edges : CostProfile → BlockKey → Option ℕ → Result Error (List PendingEdge)
unfolding pair_edges
upper_edges profile key none = ok []
upper_edges profile key (some successor) = pair_edges profile key.chain key.height successor

unfoldable pub pending_edges :
    CostProfile → BlockKey → Option ℕ → Option ℕ → Result Error (List PendingEdge)
unfolding lower_edges upper_edges
pending_edges profile key predecessor successor = do
  lower ← lower_edges profile key predecessor
  upper ← upper_edges profile key successor
  ok (lower ++ upper)

unfoldable pub set_edges : ReplayTrustView → List PendingEdge → ReplayTrustView
set_edges view [] = view
set_edges view (p ∷ ps) = set_edges (set_edge_locked view p.from p.to p.edge) ps

-- Where both neighbours are there, the edges between them go.
unfoldable pub split_edges : ReplayTrustView → Text → Option ℕ → Option ℕ → ReplayTrustView
split_edges view chain (some predecessor) (some successor) =
    let low : BlockKey = record { chain = chain; height = predecessor } in
    let high : BlockKey = record { chain = chain; height = successor } in
    delete_edge_locked (delete_edge_locked view low high) high low
split_edges view chain _ _ = view

-- The height enters the index of its chain, and the block gets the next node number.
unfoldable pub add_node : ReplayTrustView → BlockKey → Treap → ReplayTrustView
add_node view key index = record view {
  heights = insert key.chain (Heights.insert index key.height) view.heights;
  nodes = insert key tt view.nodes;
  node_ids = insert key (length view.node_keys) view.node_ids;
  node_keys = view.node_keys ++ key ∷ [];
}

-- The index of a chain, an empty one if there is none, which is then stored.
unfoldable pub open_index : ReplayTrustView → Text → ReplayTrustView × Treap
open_index view chain = elim (lookup chain view.heights) [
  | none ↦ (record view { heights = insert chain nil view.heights }, nil)
  | some index ↦ (view, index)
]

unfoldable pub activate_locked :
    ReplayTrustView → ReplayBlock → ReplayTrustView × Result Error BlockKey
activate_locked view block =
    let key = block_key block in
    let (view', index) = open_index view key.chain in
    let (predecessor, successor) = neighbours index key.height in
    if text_eq key.chain []
    then (view, err chain_empty)
    else if contains index key.height
    then (view', ok key)
    else elim (pending_edges view.profile key predecessor successor) [
      | err e ↦ (view', err e)
      | ok edges ↦ (
        set_edges (split_edges (add_node view' key index) key.chain predecessor successor) edges,
        ok key,
      )
    ]

pub record VerifiedDependencyEdge : Type 0 where
  pub from : BlockKey
  pub to : BlockKey
  pub weight : ℕ

-- The part of AddVerifiedDependency behind the two activations.
unfoldable pub record_dependency :
    ReplayTrustView → BlockKey → BlockKey → ReplayTrustView × Result Error VerifiedDependencyEdge
record_dependency view from to =
    if view.cross_edges_added == max_uint64
    then (view, err cross_edge_counter_overflow)
    else let weight = view.profile.path_step_cost in
      let view' =
        set_edge_locked view from to (record { kind = verified_dependency; weight = weight }) in
      (
        record view' { cross_edges_added = u64 (view.cross_edges_added + 1) },
        ok (record { from = from; to = to; weight = weight }),
      )

unfoldable pub add_verified_dependency :
    ReplayTrustView
    → ReplayBlock
    → ReplayBlock
    → ReplayTrustView × Result Error VerifiedDependencyEdge
add_verified_dependency view from_block to_block =
    let (view₁, first) = activate_locked view from_block in
    elim first [
      | err e ↦ (view₁, err e)
      | ok from ↦
          let (view₂, second) = activate_locked view₁ to_block in
          elim second [ err e ↦ (view₂, err e) | ok to ↦ record_dependency view₂ from to ]
    ]

unfoldable pub node_count : ReplayTrustView → ℕ
node_count view = length view.nodes
