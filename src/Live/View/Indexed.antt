-- ===== src/Live/View/Indexed.antt =====
-- The maps that NewTrustView of Mapnode/trustview/trust_view.go fills with its nodes and edges.
use mathlib.Core.List.{Memᴰ}
use mathlib.Core.List.Memᴰ.{head, tail}
use trust_map_prototype.Common.{
  ◌≡◌, ◌≢◌, refl, sym, ap, subst, ◌∙◌, ◌⊎◌, inl, inr, true, false, Option, none, some, List, [],
  ◌∷◌, All, Result, ok, ◌>>=◌, require, Bool-cases, Option-cases, Result-cases, arith,
}
use trust_map_prototype.Common.Maps.{Map, lookup, insert, IsUnique, insert-IsUnique}
use trust_map_prototype.Common.Entries.{values, All-insert, All-lookup, IsCovered, insert-IsCovered}
use trust_map_prototype.Replay.Text.{Text, text_eq, text_eq_iff, text_keyed}
use trust_map_prototype.Live.View.{
  ViewError, TrustNode, TrustEdge, NodeIndex, node_keyed, same_node_key_iff, same_witness,
  same_content, conflicts, differs, validate_node, validate_edge, index_node, index_nodes,
  index_edge, index_edges, invalid_trust_edge,
}
use trust_map_prototype.Live.View.Sorting.{IsDistinct}

-- A node that does not differ from the one of its ID is that node.
not_differs :
    (previous node : TrustNode)
    → previous.id ≡ node.id
    → differs previous node ≡ false
    → previous ≡ node
unfolding differs
not_differs previous node e h = ground (
  arith,
  same_node_key_iff previous.key node.key,
  text_eq_iff previous.root node.root,
  text_eq_iff previous.evidence_id node.evidence_id,
)

same_witness_iff : (a b : Option Text) → same_witness a b ≡ true → a ≡ b
unfolding same_witness
same_witness_iff none none h = refl
same_witness_iff none (some b) h = absurd (cc)
same_witness_iff (some a) none h = absurd (cc)
same_witness_iff (some a) (some b) h = cc ((text_eq_iff a b).0 h)

same_content-same : (a b : TrustEdge) → a.id ≡ b.id → same_content a b ≡ true → a ≡ b
unfolding same_content
same_content-same a b e h = ground (
  arith,
  text_eq_iff a.from b.from,
  text_eq_iff a.to b.to,
  text_eq_iff a.evidence_id b.evidence_id,
  same_witness_iff a.witness_id b.witness_id,
)

-- The values under distinct keys that they carry themselves.
pub IsDistinct-values :
    {A : Type 0} (key : A → Text) (m : Map Text A)
    → IsUnique m
    → All (λ e. key e.1 ≡ e.0) m
    → IsDistinct key (values m)
unfolding lookup
IsDistinct-values key [] u h = tt
IsDistinct-values key ((k, v) ∷ m) u h = (others m u.0 h.1, IsDistinct-values key m u.1 h.1)
  where
    others :
        (m : Map Text _)
        → lookup k m ≡ none
        → All (λ e. key e.1 ≡ e.0) m
        → All (λ b. key v ≢ key b) (values m)
    others [] absent h' = tt
    others ((j, w) ∷ m) absent h' = elim (Bool-cases (text_eq j k)) [
      | inl it ↦ absurd (cc (rw (lookup, it) at absent))
      | inr other ↦ (
        λ equal. absurd (cc (other, (text_eq_iff j k).1 (sym h'.0 ∙ sym equal ∙ h.0))),
        others m (rw (lookup, other) at absent) h'.1,
      )
    ]

-- The elements of the first list before those of the second, the last ones first.
abbrev pub reversed {ℓ} : {A : Type ℓ} → List A → List A → List A
reversed [] bs = bs
reversed (a ∷ as') bs = reversed as' (a ∷ bs)

pub reversed-Mem {ℓ} :
    {A : Type ℓ} {x : A} (as' bs : List A) → Memᴰ x as' ⊎ Memᴰ x bs → Memᴰ x (reversed as' bs)
reversed-Mem [] bs (inl m) = elim m [ ]
reversed-Mem [] bs (inr m) = m
reversed-Mem (a ∷ as') bs (inl (head e)) = reversed-Mem as' (a ∷ bs) (inr (head e))
reversed-Mem (a ∷ as') bs (inl (tail m)) = reversed-Mem as' (a ∷ bs) (inl m)
reversed-Mem (a ∷ as') bs (inr m) = reversed-Mem as' (a ∷ bs) (inr (tail m))

module _ (keccak : Text → Text) where
  -- The IDs in the index are those of its nodes, which are valid, and the nodes so far are in it.
  pub record IsIndexed (index : NodeIndex) (nodes : List TrustNode) : Type 0 where
    pub unique : IsUnique index.by_id
    pub entries : All (λ e. (e.1.id ≡ e.0) × (validate_node keccak e.1 ≡ ok tt)) index.by_id
    pub covered : IsCovered (λ n. n.id) index.by_id nodes

  index_node-ok :
      (index index' : NodeIndex) (node : TrustNode)
      → index_node keccak index node ≡ ok index'
      → (validate_node keccak node ≡ ok tt)
        × (((previous : TrustNode) × (lookup node.id index.by_id ≡ some previous)
              × (differs previous node ≡ false)
              × (index ≡ index'))
            ⊎ (lookup node.id index.by_id ≡ none)
              × (index'.by_id ≡ insert node.id node index.by_id))
  unfolding index_node
  index_node-ok index index' node run = elim (Result-cases (validate_node keccak node)) [
    | inr (_, e) ↦ absurd (cc (rw (index_node, e) at run))
    | inl (u, e) ↦ (
      e,
      elim (Bool-cases (conflicts (lookup node.key index.by_key) node)) [
        | inl bad ↦ absurd (cc (rw (index_node, e, bad) at run))
        | inr fine ↦ elim (Option-cases (lookup node.id index.by_id)) [
          | inl new ↦ inr (new, ap_by_id (rw (index_node, e, fine, new) at run))
          | inr (previous, old) ↦ elim (Bool-cases (differs previous node)) [
            | inl bad ↦ absurd (cc (rw (index_node, e, fine, old, bad) at run))
            | inr alike ↦
                inl (previous, old, alike, cc (rw (index_node, e, fine, old, alike) at run))
          ]
        ]
      ],
    )
  ]
    where
      ap_by_id :
          {a b : NodeIndex} → ◌≡◌ {A = Result ViewError NodeIndex} (ok a) (ok b) → b.by_id ≡ a.by_id
      ap_by_id h = cc

  index_node-IsIndexed :
      (index index' : NodeIndex) (node : TrustNode) (nodes : List TrustNode)
      → IsIndexed index nodes
      → index_node keccak index node ≡ ok index'
      → IsIndexed index' (node ∷ nodes)
  index_node-IsIndexed index index' node nodes i run =
      let (valid, step) = index_node-ok index index' node run in
      elim step [
        | inl (previous, old, alike, same) ↦
            let e =
              All-lookup (λ e. (e.1.id ≡ e.0) × (validate_node keccak e.1 ≡ ok tt)) node.id
                index.by_id i.entries old in
            let is : previous ≡ node = not_differs previous node e.0 alike in
            subst (λ x. IsIndexed x (node ∷ nodes)) same
              (record {
                unique = i.unique;
                entries = i.entries;
                covered = (old ∙ ap some is, i.covered);
              })
        | inr (new, grown) ↦ record {
          unique = rw grown (insert-IsUnique node.id node index.by_id i.unique);
          entries = rw grown (
              All-insert (λ e. (e.1.id ≡ e.0) × (validate_node keccak e.1 ≡ ok tt)) node.id node
                index.by_id (refl, valid) i.entries);
          covered =
              subst (λ m. IsCovered (λ n. n.id) m (node ∷ nodes)) (sym grown)
                (insert-IsCovered (λ n. n.id) index.by_id node nodes new i.covered);
        }
      ]

  pub index_nodes-IsIndexed :
      (index index' : NodeIndex) (before nodes : List TrustNode)
      → IsIndexed index before
      → index_nodes keccak index nodes ≡ ok index'
      → IsIndexed index' (reversed nodes before)
  unfolding index_nodes
  index_nodes-IsIndexed index index' before [] i run = subst (λ x. IsIndexed x before) (cc) i
  index_nodes-IsIndexed index index' before (node ∷ nodes) i run =
      elim (Result-cases (index_node keccak index node)) [
        | inr (_, e) ↦ absurd (cc (rw (index_nodes, e) at run))
        | inl (next, e) ↦
            index_nodes-IsIndexed next index' (node ∷ before) nodes
              (index_node-IsIndexed index next node before i e) (rw (index_nodes, e) at run)
      ]

  -- The entry of an ID.
  abbrev pub NodeAt : Map Text TrustNode → Text → TrustNode → Type 0
  NodeAt by_id id node = lookup id by_id ≡ some node

  -- An edge is valid and joins two nodes on different chains.
  abbrev pub IsJoined : Map Text TrustNode → TrustEdge → Type 0
  IsJoined by_id e =
      (validate_edge keccak e ≡ ok tt)
      × (from : TrustNode) × (to : TrustNode) × NodeAt by_id e.from from
      × NodeAt by_id e.to to
      × (text_eq from.key.chain_id to.key.chain_id ≡ false)

  pub record IsUniqueEdges (by_id : Map Text TrustNode) (unique_edges : Map Text TrustEdge)
      (edges : List TrustEdge) : Type 0 where
    pub unique : IsUnique unique_edges
    pub entries : All (λ e. (e.1.id ≡ e.0) × IsJoined by_id e.1) unique_edges
    pub covered : IsCovered (λ e. e.id) unique_edges edges

  index_edge-IsUniqueEdges :
      (index : NodeIndex) (m m' : Map Text TrustEdge) (edge : TrustEdge) (edges : List TrustEdge)
      → IsUniqueEdges index.by_id m edges
      → index_edge keccak index m edge ≡ ok m'
      → IsUniqueEdges index.by_id m' (edge ∷ edges)
  unfolding index_edge
  index_edge-IsUniqueEdges index m m' edge edges i run =
      elim (Result-cases (validate_edge keccak edge)) [
        | inr (_, e) ↦ absurd (cc (rw (index_edge, e) at run))
        | inl (_, valid) ↦ elim (Option-cases (lookup edge.from index.by_id)) [
          | inl none_ ↦ absurd (cc (rw (index_edge, valid, none_) at run))
          | inr (from, at_from) ↦ elim (Option-cases (lookup edge.to index.by_id)) [
            | inl none_ ↦ absurd (cc (rw (index_edge, valid, at_from, none_) at run))
            | inr (to, at_to) ↦ elim (Bool-cases (text_eq from.key.chain_id to.key.chain_id)) [
              | inl one ↦ absurd (cc (rw (index_edge, valid, at_from, at_to, one) at run))
              | inr two ↦
                  stored (valid, from, to, at_from, at_to, two)
                    (rw (index_edge, valid, at_from, at_to, two) at run)
            ]
          ]
        ]
      ]
    where
      stored :
          IsJoined index.by_id edge
          → (elim (lookup edge.id m) [
            | some previous ↦ require (same_content previous edge) invalid_trust_edge >>= λ _. ok m
            | none ↦ ok (insert edge.id edge m)
          ])
            ≡ ok m'
          → IsUniqueEdges index.by_id m' (edge ∷ edges)
      stored joined step = elim (Option-cases (lookup edge.id m)) [
        | inl new ↦
            let same : insert edge.id edge m ≡ m' = cc (rw new at step) in
            subst (λ x. IsUniqueEdges index.by_id x (edge ∷ edges)) same
              (record {
                unique = insert-IsUnique edge.id edge m i.unique;
                entries =
                    All-insert (λ e. (e.1.id ≡ e.0) × IsJoined index.by_id e.1) edge.id edge m
                      (refl, joined) i.entries;
                covered = insert-IsCovered (λ e. e.id) m edge edges new i.covered;
              })
        | inr (previous, old) ↦ elim (Bool-cases (same_content previous edge)) [
          | inr other ↦ absurd (cc (rw (old, other) at step))
          | inl alike ↦
              let e =
                All-lookup (λ e. (e.1.id ≡ e.0) × IsJoined index.by_id e.1) edge.id m i.entries
                  old in
              let is : previous ≡ edge = same_content-same previous edge e.0 alike in
              let same : m ≡ m' = cc (rw (old, alike) at step) in
              subst (λ x. IsUniqueEdges index.by_id x (edge ∷ edges)) same
                (record {
                  unique = i.unique;
                  entries = i.entries;
                  covered = (old ∙ ap some is, i.covered);
                })
        ]
      ]

  pub index_edges-IsUniqueEdges :
      (index : NodeIndex) (m m' : Map Text TrustEdge) (before edges : List TrustEdge)
      → IsUniqueEdges index.by_id m before
      → index_edges keccak index m edges ≡ ok m'
      → IsUniqueEdges index.by_id m' (reversed edges before)
  unfolding index_edges
  index_edges-IsUniqueEdges index m m' before [] i run =
      subst (λ x. IsUniqueEdges index.by_id x before) (cc) i
  index_edges-IsUniqueEdges index m m' before (e ∷ es) i run =
      elim (Result-cases (index_edge keccak index m e)) [
        | inr (_, lost) ↦ absurd (cc (rw (index_edges, lost) at run))
        | inl (next, fine) ↦
            index_edges-IsUniqueEdges index next m' (e ∷ before) es
              (index_edge-IsUniqueEdges index m next e before i fine)
              (rw (index_edges, fine) at run)
      ]
