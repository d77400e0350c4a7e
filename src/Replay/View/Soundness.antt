-- ===== src/Replay/View/Soundness.antt =====
-- The graph invariant of ReplayTrustView (Mapnode/replay/replay_trust_view.go): indexes, node
-- numbers and edges speak of the same blocks.
use mathlib.Core.Path.{subst₃}
use trust_map_prototype.Common.{
  ℕ, ◌≤◌, ◌≡◌, ap, sym, subst, ◌∙◌, Bool, true, false, Option, none, some, List, [], ◌∷◌, ◌++◌, All,
  All-append, ok, arith, if◌then◌else◌, Bool-cases, inl, inr, ◌⊎◌,
}
use trust_map_prototype.Replay.Text.{text_keyed, Text, text_eq_iff}
use trust_map_prototype.Replay.Cost.{max_uint64, CostProfile}
use trust_map_prototype.Replay.Heights.{Treap, nil, contains, neighbours}
use trust_map_prototype.Replay.Heights
use trust_map_prototype.Replay.Heights.Order.{keys, IsOrdered, contains-has_key}
use trust_map_prototype.Replay.Heights.Neighbours.{IsPredecessor, IsSuccessor, neighbours_nearest}
use trust_map_prototype.Replay.View.{
  ReplayBlock, BlockKey, block_key, same_key_iff, key_keyed, ReplayEdge, ReplayTrustView,
  PendingEdge, add_node, open_index, activate_locked,
}
use trust_map_prototype.Replay.View.Edges.{edge_at, IsConsistent, same_pair, last_set}
use trust_map_prototype.Replay.View.Activate.{activate_locked-IsConsistent, open_index-IsConsistent}
use trust_map_prototype.Replay.View.Outcomes.{
  index_of, spliced_view, blank, known, costly, spliced, edges_of, activate_locked-Outcome,
}
use trust_map_prototype.Replay.View.Placement.{spliced_view-Reads}
use trust_map_prototype.Replay.View.Splice.{is_cut, lower_pair, upper_pair, at_height}
use trust_map_prototype.Replay.View.Frame.{
  SameNodes, SameNodes-trans, set_edges-SameNodes, split_edges-SameNodes,
}
use trust_map_prototype.Replay.View.Numbering.{
  index_in, is_active, IsNumbered, index_in-insert, contains-insert, add_node-IsNumbered,
  open_index-IsNumbered,
}

pub record IsSound (view : ReplayTrustView) : Type 0 where
  pub consistent : IsConsistent view
  pub nodes : IsNumbered view.heights view.node_ids view.node_keys
  pub endpoints :
      (f t : BlockKey) (e : ReplayEdge)
      → edge_at view.adjacency f t ≡ some e
      → (is_active view.heights f ≡ true) × (is_active view.heights t ≡ true)

abbrev pub Holds : (BlockKey → Type 0) → Text → Option ℕ → Type 0
Holds P chain none = Unit
Holds P chain (some h) = P (at_height chain h)

abbrev IsFound : Treap → Option ℕ → Type 0
IsFound index none = Unit
IsFound index (some h) = contains index h ≡ true

pub last_set-some :
    (P : BlockKey → Type 0) (ps : List PendingEdge) (f t : BlockKey) (old : Option ReplayEdge)
    {e : ReplayEdge}
    → All (λ p. P p.from × P p.to) ps
    → last_set ps f t old ≡ some e
    → (old ≡ some e) ⊎ P f × P t
last_set-some P [] f t old a h = inl h
last_set-some P (p ∷ ps) f t old a h =
    elim (last_set-some P ps f t (if same_pair p.from p.to f t then some p.edge else old) a.1 h) [
      | inr both ↦ inr both
      | inl here ↦ elim (Bool-cases (same_pair p.from p.to f t)) [
        | inl it ↦ inr (
          subst P ((same_key_iff p.from f).0 (ground arith)) a.0.0,
          subst P ((same_key_iff p.to t).0 (ground arith)) a.0.1,
        )
        | inr other ↦ inl (rw other at here)
      ]
    ]

module _ (P : BlockKey → Type 0) (profile : CostProfile) (key : BlockKey) (at_key : P key) where
  pub All-lower_pair :
      (p : Option ℕ) → Holds P key.chain p → All (λ e. P e.from × P e.to) (lower_pair profile key p)
  All-lower_pair none h = tt
  All-lower_pair (some p) h = ((h, at_key), ((at_key, h), tt))

  pub All-upper_pair :
      (s : Option ℕ) → Holds P key.chain s → All (λ e. P e.from × P e.to) (upper_pair profile key s)
  All-upper_pair none h = tt
  All-upper_pair (some s) h = ((at_key, h), ((h, at_key), tt))

-- A height that a neighbour search found is in the index.
neighbours-contained :
    (index : Treap) (height : ℕ)
    → IsOrdered index
    → contains index height ≡ false
    → IsFound index (neighbours index height).0 × IsFound index (neighbours index height).1
neighbours-contained index height o new =
    let (p, s) = neighbours_nearest index height o (sym (contains-has_key index height o) ∙ new) in
    (found_below _ p, found_above _ s)
  where
    found_below : (r : Option ℕ) → IsPredecessor height (keys index) r → IsFound index r
    found_below none h = tt
    found_below (some x) h = contains-has_key index x o ∙ h.0

    found_above : (r : Option ℕ) → IsSuccessor height (keys index) r → IsFound index r
    found_above none h = tt
    found_above (some x) h = contains-has_key index x o ∙ h.0

add_node-active :
    (view : ReplayTrustView) (key x : BlockKey)
    → IsOrdered (index_in view.heights key.chain)
    → let w = add_node view key (index_in view.heights key.chain) in
      (is_active w.heights key ≡ true)
      × (is_active view.heights x ≡ true → is_active w.heights x ≡ true)
unfolding add_node
add_node-active view key x o =
    let index = index_in view.heights key.chain in
    let grown = Heights.insert index key.height in
    (
      ground (
        arith,
        index_in-insert view.heights key.chain key.chain grown,
        text_eq_iff key.chain key.chain,
        contains-insert index key.height key.height o,
      ),
      λ old. ground (
        arith,
        index_in-insert view.heights key.chain x.chain grown,
        text_eq_iff key.chain x.chain,
        contains-insert index key.height x.height o,
      ),
    )

pub IsNumbered-SameNodes :
    {v w : ReplayTrustView}
    → SameNodes v w
    → IsNumbered v.heights v.node_ids v.node_keys
    → IsNumbered w.heights w.node_ids w.node_keys
IsNumbered-SameNodes f n = subst₃ IsNumbered (sym f.heights) (sym f.node_ids) (sym f.node_keys) n

pub uncut :
    (cut : Bool) {old : Option ReplayEdge} {e : ReplayEdge}
    → (if cut then none else old) ≡ some e
    → old ≡ some e
uncut true h = cc
uncut false h = h

-- The view that activation of a new block leaves, up to its edges.
abbrev pub added_view : ReplayTrustView → BlockKey → ReplayTrustView
added_view view key = add_node (open_index view key.chain).0 key (index_of view key.chain)

pub spliced_view-SameNodes :
    (view : ReplayTrustView) (key : BlockKey) (edges : List PendingEdge)
    → SameNodes (added_view view key) (spliced_view view key edges)
spliced_view-SameNodes view key edges =
    SameNodes-trans (split_edges-SameNodes _ key.chain _ _) (set_edges-SameNodes edges _)

module _ (view : ReplayTrustView) (key : BlockKey) (b : key.height ≤ max_uint64)
    (h : IsSound view) where
  added-IsNumbered : let w = added_view view key in IsNumbered w.heights w.node_ids w.node_keys
  added-IsNumbered =
      let (n, at, _) = open_index-IsNumbered view key.chain h.nodes in
      subst
        (λ t.
          let w = add_node (open_index view key.chain).0 key t in
          IsNumbered w.heights w.node_ids w.node_keys)
        (at key.chain) (add_node-IsNumbered (open_index view key.chain).0 key b n)

  pub added-active :
      (x : BlockKey)
      → (is_active (added_view view key).heights key ≡ true)
        × (is_active view.heights x ≡ true → is_active (added_view view key).heights x ≡ true)
  added-active x =
      let w = (open_index view key.chain).0 in
      let (n, at, _) = open_index-IsNumbered view key.chain h.nodes in
      let (self, rest) = add_node-active w key x (n.indexed key.chain).ordered in
      subst
        (λ t.
          let v = add_node w key t in
          (is_active v.heights key ≡ true)
          × (is_active view.heights x ≡ true → is_active v.heights x ≡ true))
        (at key.chain) (self, λ old. rest (ap (λ t. contains t x.height) (at x.chain) ∙ old))

  found-active :
      (r : Option ℕ)
      → IsFound (index_of view key.chain) r
      → Holds (λ x. is_active (added_view view key).heights x ≡ true) key.chain r
  found-active none found = tt
  found-active (some height) found = (added-active (at_height key.chain height)).1 found

  added-endpoints :
      (edges : List PendingEdge)
      → contains (index_of view key.chain) key.height ≡ false
      → edges_of view key ≡ ok edges
      → (f t : BlockKey) (e : ReplayEdge)
      → edge_at (spliced_view view key edges).adjacency f t ≡ some e
      → let m = (added_view view key).heights in (is_active m f ≡ true) × (is_active m t ≡ true)
  added-endpoints edges new pending f t e at =
      let m = (added_view view key).heights in
      let P = λ (x : BlockKey). is_active m x ≡ true in
      let i = h.nodes.indexed key.chain in
      let index = index_of view key.chain in
      let p = (neighbours index key.height).0 in
      let s = (neighbours index key.height).1 in
      let (lower, upper) = neighbours-contained index key.height i.ordered new in
      let reads = spliced_view-Reads view key edges h.consistent i b new pending f t in
      elim (last_set-some P (lower_pair view.profile key p ++ upper_pair view.profile key s) f t
        (if is_cut key.chain p s f t then none else edge_at view.adjacency f t)
        (All-append (λ x. P x.from × P x.to) (lower_pair view.profile key p)
          (upper_pair view.profile key s)
          (All-lower_pair P view.profile key (added-active key).0 p (found-active p lower))
          (All-upper_pair P view.profile key (added-active key).0 s (found-active s upper)))
        (sym reads ∙ at)) [
          | inr both ↦ both
          | inl old ↦
              let (from, to) = h.endpoints f t e (uncut (is_cut key.chain p s f t) old) in
              ((added-active f).1 from, (added-active t).1 to)
        ]

  spliced_view-IsSound :
      (edges : List PendingEdge)
      → contains (index_of view key.chain) key.height ≡ false
      → edges_of view key ≡ ok edges
      → IsConsistent (spliced_view view key edges)
      → IsSound (spliced_view view key edges)
  spliced_view-IsSound edges new pending c =
      let w = spliced_view view key edges in
      let frame = spliced_view-SameNodes view key edges in
      record {
        consistent = c;
        nodes = IsNumbered-SameNodes frame added-IsNumbered;
        endpoints = λ f t e at.
            subst (λ m. (is_active m f ≡ true) × (is_active m t ≡ true)) (sym frame.heights)
              (added-endpoints edges new pending f t e at);
      }

open_index-IsSound :
    (view : ReplayTrustView) (chain : Text) → IsSound view → IsSound (open_index view chain).0
open_index-IsSound view chain h =
    let (n, at, same) = open_index-IsNumbered view chain h.nodes in
    let keeps = λ (x : BlockKey). ap (λ t. contains t x.height) (at x.chain) in
    record {
      consistent = open_index-IsConsistent view chain h.consistent;
      nodes = n;
      endpoints = λ f t e here.
          let (from, to) = h.endpoints f t e (ap (λ a. edge_at a f t) (sym same) ∙ here) in
          (keeps f ∙ from, keeps t ∙ to);
    }

-- Activation of a block of a uint64 height keeps the graph sound, whatever its outcome: the index of
-- every chain is in search order, in heap order and within the uint64 values; the numbered keys are
-- the keys of the list at their numbers, and exactly the keys whose height is in their chain's
-- index; the edge counter is the number of edges; and every edge leads from and to such keys.
pub activate_locked-IsSound :
    (view : ReplayTrustView) (block : ReplayBlock)
    → (block_key block).height ≤ max_uint64
    → IsSound view
    → IsSound (activate_locked view block).0
activate_locked-IsSound view block b h =
    let key = block_key block in
    let h' = open_index-IsSound view key.chain h in
    let c = activate_locked-IsConsistent view block h.consistent in
    elim (activate_locked-Outcome view block) [
      | blank _ e ↦ rw e h
      | known _ e ↦ rw e h'
      | costly _ _ e ↦ rw e h'
      | spliced edges new pending e ↦
          rw e (spliced_view-IsSound view key b h edges new pending (rw e at c))
    ]
