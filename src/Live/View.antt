-- ===== src/Live/View.antt =====
-- Mapnode/trustview: the active graph of trust nodes and trust edges, its snapshots, the witnesses and
-- the records behind its edges. IDs are Keccak-256 over the concatenation of the fields.
use trust_map_prototype.Common.{
  ℕ, ◌+◌, ◌≡◌, ◌↔◌, ◌==◌, Bool, true, false, not, ◌&&◌, ◌||◌, Option, none, some, List, [], ◌∷◌,
  ◌++◌, map, replicate, ltb, Result, ok, err, ◌>>=◌, ◌>>◌, require, map_err, if◌then◌else◌, arith,
}
use trust_map_prototype.Common.Maps.{Map, Keyed, lookup, insert, is_some}
use trust_map_prototype.Common.Orders.{Order, compare_nat, compare_lists, is_less}
use trust_map_prototype.Replay.Text.{Text, text_eq, text_eq_iff, text_keyed}
use trust_map_prototype.Live.Domain.{DomainError, zero_word, big_endian, join, validate_chain_id}
use trust_map_prototype.Live.Ids.{uint32_word}
pub mod Sorting
pub mod Indexed
pub mod Checked

pub data ViewError : Type 0 where
  trust_root_conflict dangling_trust_edge invalid_trust_edge : ViewError
  invalid_trust_node : ViewError
  node_chain_id : DomainError → ViewError

-- The word of a uint64.
abbrev pub uint64_word : ℕ → Text
uint64_word value = replicate 24 0 ++ big_endian 8 value

-- bytes.Compare.
abbrev pub compare_bytes : Text → Text → Order
compare_bytes a b = compare_lists compare_nat a b

pub record NodeKey : Type 0 where
  pub chain_id : Text
  pub height : Text
  pub block_hash : Text

-- A TrustRoot is its hash.
pub record TrustNode : Type 0 where
  pub id : Text
  pub key : NodeKey
  pub root : Text
  pub evidence_id : Text

-- A *WitnessID that is nil is none.
pub record TrustEdge : Type 0 where
  pub id : Text
  pub from : Text
  pub to : Text
  pub evidence_id : Text
  pub leaf_index : ℕ
  pub witness_id : Option Text
  pub path_step_cost : ℕ

pub record TrustView : Type 0 where
  pub revision : ℕ
  pub nodes : List TrustNode
  pub edges : List TrustEdge

pub record TrustViewSnapshot : Type 0 where
  pub id : Text
  pub revision : ℕ
  pub home_chain_id : Text
  pub home_trust_root : Text
  pub start_node_id : Text
  pub target_node_id : Text
  pub sealed : Bool
  pub nodes : List TrustNode
  pub edges : List TrustEdge

unfoldable pub same_node_key : NodeKey → NodeKey → Bool
unfolding text_eq
same_node_key a b =
    text_eq a.chain_id b.chain_id && text_eq a.height b.height && text_eq a.block_hash b.block_hash

pub same_node_key_iff : (a b : NodeKey) → (same_node_key a b ≡ true) ↔ (a ≡ b)
unfolding same_node_key
same_node_key_iff a b = ground (
  arith,
  text_eq_iff a.chain_id b.chain_id,
  text_eq_iff a.height b.height,
  text_eq_iff a.block_hash b.block_hash,
)

instance abbrev pub node_keyed : Keyed NodeKey
node_keyed = record { same = same_node_key; same_iff = same_node_key_iff }

unfoldable pub same_witness : Option Text → Option Text → Bool
unfolding text_eq
same_witness none none = true
same_witness (some a) (some b) = text_eq a b
same_witness _ _ = false

-- The comparison of an edge with the one of its ID.
unfoldable pub same_content : TrustEdge → TrustEdge → Bool
unfolding text_eq same_witness
same_content a b =
    text_eq a.from b.from
    && text_eq a.to b.to
    && text_eq a.evidence_id b.evidence_id
    && a.leaf_index == b.leaf_index
    && a.path_step_cost == b.path_step_cost
    && same_witness a.witness_id b.witness_id

-- sort.Slice by distinct keys, in which the order of equal elements does not matter.
unfoldable pub insert_sorted {ℓ} : {A : Type ℓ} → (A → Text) → A → List A → List A
insert_sorted key a [] = a ∷ []
insert_sorted key a (b ∷ bs) =
    let rest = insert_sorted key a bs in
    if is_less (compare_bytes (key b) (key a)) then b ∷ rest else a ∷ b ∷ bs

unfoldable pub sort_by {ℓ} : {A : Type ℓ} → (A → Text) → List A → List A
unfolding insert_sorted
sort_by key [] = []
sort_by key (a ∷ as') = insert_sorted key a (sort_by key as')

-- The maps of NewTrustView.
pub record NodeIndex : Type 0 where
  pub by_id : Map Text TrustNode
  pub by_key : Map NodeKey TrustNode

-- The two comparisons of a node with those before it; an entry is there or not.
unfoldable pub conflicts : Option TrustNode → TrustNode → Bool
unfolding text_eq
conflicts none node = false
conflicts (some previous) node = not (text_eq previous.root node.root)

unfoldable pub differs : TrustNode → TrustNode → Bool
unfolding same_node_key text_eq
differs previous node =
    not (same_node_key previous.key node.key)
    || not (text_eq previous.root node.root)
    || not (text_eq previous.evidence_id node.evidence_id)

module _ (keccak : Text → Text) where
  abbrev pub node_id : NodeKey → Text
  node_id key = keccak (join (key.chain_id ∷ key.height ∷ key.block_hash ∷ []))

  unfoldable pub new_trust_node : NodeKey → Text → Text → TrustNode
  new_trust_node key root evidence_id = record {
    id = node_id key;
    key = key;
    root = root;
    evidence_id = evidence_id;
  }

  unfoldable pub validate_node : TrustNode → Result ViewError (Unit {0})
  unfolding new_trust_node text_eq validate_chain_id
  validate_node node = do
    map_err node_chain_id (validate_chain_id node.key.chain_id)
    require (not (text_eq node.key.block_hash zero_word || text_eq node.id zero_word))
        invalid_trust_node
    require (text_eq (new_trust_node node.key node.root node.evidence_id).id node.id)
        invalid_trust_node

  -- The leaf index is a uint32, in the last four bytes of its word.
  abbrev pub edge_id : Text → Text → Text → ℕ → Text
  edge_id from to evidence_id leaf_index =
      keccak (join (from ∷ to ∷ evidence_id ∷ uint32_word leaf_index ∷ []))

  unfoldable pub new_trust_edge :
      Text → Text → Text → ℕ → Option Text → ℕ → Result ViewError TrustEdge
  unfolding text_eq
  new_trust_edge from to evidence_id leaf_index witness_id path_step_cost = do
    require
        (not (
          text_eq from zero_word
          || text_eq to zero_word
          || text_eq from to
          || text_eq evidence_id zero_word
          || path_step_cost == 0))
        invalid_trust_edge
    ok (record {
      id = edge_id from to evidence_id leaf_index;
      from = from;
      to = to;
      evidence_id = evidence_id;
      leaf_index = leaf_index;
      witness_id = witness_id;
      path_step_cost = path_step_cost;
    })

  unfoldable pub validate_edge : TrustEdge → Result ViewError (Unit {0})
  unfolding new_trust_edge text_eq
  validate_edge edge = do
    want ←
        new_trust_edge edge.from edge.to edge.evidence_id edge.leaf_index edge.witness_id
          edge.path_step_cost
    require (text_eq want.id edge.id) invalid_trust_edge

  -- One round of the loop over the nodes.
  unfoldable pub index_node : NodeIndex → TrustNode → Result ViewError NodeIndex
  unfolding validate_node conflicts differs
  index_node index node = do
    validate_node node
    require (not (conflicts (lookup node.key index.by_key) node)) trust_root_conflict
    elim (lookup node.id index.by_id) [
      | some previous ↦ require (not (differs previous node)) trust_root_conflict >>= λ _. ok index
      | none ↦ ok (record {
        by_id = insert node.id node index.by_id;
        by_key = insert node.key node index.by_key;
      })
    ]

  unfoldable pub index_nodes : NodeIndex → List TrustNode → Result ViewError NodeIndex
  unfolding index_node
  index_nodes index [] = ok index
  index_nodes index (node ∷ nodes) = index_node index node >>= λ index'. index_nodes index' nodes

  -- One round of the loop over the edges.
  unfoldable pub index_edge :
      NodeIndex → Map Text TrustEdge → TrustEdge → Result ViewError (Map Text TrustEdge)
  unfolding validate_edge same_content text_eq
  index_edge index edges edge = do
    validate_edge edge
    elim (lookup edge.from index.by_id) [
      | none ↦ err dangling_trust_edge
      | some from ↦ elim (lookup edge.to index.by_id) [
        | none ↦ err dangling_trust_edge
        | some to ↦
            require (not (text_eq from.key.chain_id to.key.chain_id)) invalid_trust_edge
            >> elim (lookup edge.id edges) [
              | some previous ↦
                  require (same_content previous edge) invalid_trust_edge >>= λ _. ok edges
              | none ↦ ok (insert edge.id edge edges)
            ]
      ]
    ]

  unfoldable pub index_edges :
      NodeIndex → Map Text TrustEdge → List TrustEdge → Result ViewError (Map Text TrustEdge)
  unfolding index_edge
  index_edges index edges [] = ok edges
  index_edges index edges (e ∷ es) =
      index_edge index edges e >>= λ edges'. index_edges index edges' es

  -- The values of the two maps, sorted by ID.
  unfoldable pub new_trust_view : ℕ → List TrustNode → List TrustEdge → Result ViewError TrustView
  unfolding index_nodes index_edges sort_by
  new_trust_view revision nodes edges = do
    index ← index_nodes (record { by_id = []; by_key = [] }) nodes
    unique ← index_edges index [] edges
    ok (record {
      revision = revision;
      nodes = sort_by (λ n. n.id) (map (λ e. e.1) index.by_id);
      edges = sort_by (λ e. e.id) (map (λ e. e.1) unique);
    })

  unfoldable pub compute_snapshot_id : Text → ℕ → ℕ → Text → Text → Text → Text
  compute_snapshot_id request_id attempt revision start target expected_home_root = keccak (
      join (
        request_id
        ∷ uint64_word attempt
        ∷ uint64_word revision
        ∷ start
        ∷ target
        ∷ expected_home_root
        ∷ []))
